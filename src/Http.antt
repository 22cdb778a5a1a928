-- ===== src/Http.antt =====
-- transport/http: the transport on HTTP requests and websockets.
pub mod Wrapper
pub mod Frames
pub mod Holder
pub mod Admission
pub mod Replays
pub mod Refusals
