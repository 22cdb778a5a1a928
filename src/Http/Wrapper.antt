-- ===== src/Http/Wrapper.antt =====
-- transport/http/wrapper/PacketWrapper.go: packets as frames, each with its length of 8 bytes, which
-- is masked by the numbers of a random source that both ends seed alike.
-- An int64 is a number below 2 ^ 64, and negative from 2 ^ 63 on. A reader is the bytes that are still
-- to come; `mask i` is what the source answers to the call `i` of `Int63`.
use vlite.Base.{
  ℕ, zero, suc, ◌+◌, List, [], ◌∷◌, ◌++◌, Bool, true, false, not, ◌||◌, ltb, leb, ◌==◌,
  if◌then◌else◌, bit_xor, length, take, drop,
}
use vlite.Proto.{Codec}

-- proto/wire.go: `HTTPLenHeader`.
pub record HttpLenHeader : Type 0 where
  pub length : ℕ

abbrev pub len_header : ℕ → HttpLenHeader
len_header n = record { length = n }

-- How `ReceivePacketOverReader` ends: the reader fails, a message is too long, `make` panics at a
-- negative length, the context is done, or the fuel is used up.
pub data End : Type 0 where
  read_failed too_long panics cancelled out_of_fuel : End

pub record Received : Type 0 where
  pub packets : List (List ℕ)
  pub end : End

abbrev pub ended : End → Received
ended e = record { packets = []; end = e }

abbrev pub with_packet : List ℕ → Received → Received
with_packet p r = record { packets = p ∷ r.packets; end = r.end }

-- One message, after its header: whether that was read, the length without the mask, the bytes to
-- come, whether the context is alive, and what follows a message that is skipped or delivered.
abbrev pub one_message : Bool → ℕ → List ℕ → Bool → Received → Received → Received
one_message no_error len input alive skipped followed =
    if not no_error
    then ended read_failed
    else if leb 0x8000000000000000 len
    then ended panics
    else if ltb 1601 len
    then ended too_long
    else if len == 0
    then skipped
    else if ltb (length input) len
    then ended read_failed
    else with_packet (take len input) (if alive then followed else ended cancelled)

-- `alive i` says whether the context has no error after the message `i`. Fuel: one for each message.
unfoldable pub receive_packets :
    ℕ → Codec HttpLenHeader → (ℕ → ℕ) → (ℕ → Bool) → ℕ → List ℕ → Received
receive_packets zero codec mask alive i input = ended out_of_fuel
receive_packets (suc fuel) codec mask alive i input =
    let header = codec.unpack input in
    let len = bit_xor header.value.length (mask i) in
    one_message header.no_error len header.rest (alive i)
      (receive_packets fuel codec mask alive (i + 1) header.rest)
      (receive_packets fuel codec mask alive (i + 1) (drop len header.rest))

-- What `sendPayload` wrote, whether the connection is done, and whether the message is to be put back.
pub record Sent : Type 0 where
  pub written : List ℕ
  pub done : Bool
  pub return_msg : Bool

-- `header_ok` and `payload_ok` are the answers of the writer. What a failed write leaves in the stream
-- is not looked at any more.
unfoldable pub send_payload : Codec HttpLenHeader → ℕ → Bool → Bool → List ℕ → Sent
send_payload codec m header_ok payload_ok sending =
    let header = codec.pack (len_header (bit_xor (length sending) m)) in
    if ltb 1601 (length sending)
    then record { written = []; done = true; return_msg = false }
    else if not (if header.no_error then header_ok else false)
    then record { written = []; done = true; return_msg = true }
    else if not payload_ok
    then record { written = header.bytes; done = true; return_msg = true }
    else record { written = header.bytes ++ sending; done = false; return_msg = false }

-- `sendFill`: the loop, as it is written, on fuel, and the masked zero lengths that it writes.
unfoldable pub fill_loop : ℕ → Codec HttpLenHeader → (ℕ → ℕ) → ℕ → ℕ → ℕ → List ℕ
fill_loop zero codec mask i fill_length filled = []
fill_loop (suc fuel) codec mask i fill_length filled =
    let rest = fill_loop fuel codec mask (i + 1) fill_length filled in
    if ltb fill_length filled then (codec.pack (len_header (mask i))).bytes ++ rest else []

unfoldable pub send_fill : ℕ → Codec HttpLenHeader → (ℕ → ℕ) → ℕ → ℕ → List ℕ
send_fill fuel codec mask i fill_length = fill_loop fuel codec mask i fill_length 0

-- The events of `SendPacketOverWriter`: a packet, with the answers of the writer; the timer; the end of
-- the context or the signal to drop the connection.
pub data SendEvent : Type 0 where
  packet : List ℕ → Bool → Bool → SendEvent
  timer : SendEvent
  close : SendEvent

-- The variables of the loop, and what has been written and put back. The fill writes nothing, so
-- it takes no number from the source.
pub record Sender : Type 0 where
  pub next_mask : ℕ
  pub output : List ℕ
  pub returned : List (List ℕ)
  pub payload_sent : Bool
  pub stopped : Bool

-- `receivingChan <- sending`, which waits for room up to 120 seconds, is taken to find it.
abbrev pub after_payload : Sender → List ℕ → Sent → Sender
after_payload s sending r = record s {
  next_mask = s.next_mask + (if ltb 1601 (length sending) then 0 else 1);
  output = s.output ++ r.written;
  returned = if r.return_msg then s.returned ++ sending ∷ [] else s.returned;
  payload_sent = not r.done || s.payload_sent;
  stopped = r.done;
}

unfoldable pub send_event : Codec HttpLenHeader → (ℕ → ℕ) → ℕ → SendEvent → Sender → Sender
send_event codec mask buffering (packet sending header_ok payload_ok) s =
    after_payload s sending (send_payload codec (mask s.next_mask) header_ok payload_ok sending)
send_event codec mask buffering timer s =
    if buffering == 0 then s else record s { payload_sent = false }
send_event codec mask buffering close s = record s { stopped = true }

unfoldable pub send_events : Codec HttpLenHeader → (ℕ → ℕ) → ℕ → List SendEvent → Sender → Sender
send_events codec mask buffering [] s = s
send_events codec mask buffering (e ∷ es) s =
    if s.stopped
    then s
    else send_events codec mask buffering es (send_event codec mask buffering e s)

-- `SendPacketOverWriter`, after the first fill.
unfoldable pub send_packets : Codec HttpLenHeader → (ℕ → ℕ) → ℕ → List SendEvent → Sender
send_packets codec mask buffering es =
    send_events codec mask buffering es
      (record { next_mask = 0; output = []; returned = []; payload_sent = false; stopped = false })
