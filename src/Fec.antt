-- ===== src/Fec.antt =====
-- transport/udp/errorCorrection: packets in chunks, with parity packets from which lost ones are
-- recovered.
pub mod Facility
pub mod Parts
pub mod Chunk
pub mod Receiving
pub mod Messages
pub mod Recovery
pub mod Reconstruction
pub mod Rx
pub mod Tx
pub mod Slots
pub mod Bits
pub mod Delivery
pub mod Completion
pub mod Seen
pub mod Arrivals
pub mod Sending
pub mod Sent
pub mod Sequence
pub mod Transfer
