-- ===== src/Http/Frames.antt =====
-- What one end of the HTTP transport sends as frames, the other end receives.
use vlite.Base.{
  ℕ, suc, ◌+◌, ◌^◌, ◌≤◌, ◌<◌, ◌≡◌, refl, sym, ap, ◌∙◌, arith, List, [], ◌∷◌, ◌++◌, map, true, false,
  not, ltb, leb, ◌==◌, if◌then◌else◌, bit_xor, length, take, drop, All, take_append, drop_append,
  length-append,
}
use vlite.Base.Bits.{bit_xor_twice, bit_xor_lt}
use mathlib.Core.List.{append-nil, append_assoc}
use vlite.Proto.{Codec, RoundTrips, Unpacked}
use vlite.Http.Wrapper.{
  HttpLenHeader, len_header, End, read_failed, too_long, panics, Received, ended, with_packet,
  one_message, receive_packets, Sent, send_payload, SendEvent, packet, Sender, after_payload,
  send_event, send_events, send_packets,
}

-- What is relied on: `struc` reads every 64-bit length as it was packed, and `Int63` is not negative.
pub record ReadsLengths (codec : Codec HttpLenHeader) (mask : ℕ → ℕ) : Type 0 where
  pub reads : (n : ℕ) → n < 2 ^ 64 → RoundTrips codec (len_header n)
  pub masks : (i : ℕ) → mask i < 2 ^ 63

-- A packet that fits a frame.
abbrev pub IsFrame : List ℕ → Type 0
IsFrame p = (1 ≤ length p) × (length p ≤ 1601)

abbrev pub with_packets : List (List ℕ) → Received → Received
with_packets [] r = r
with_packets (p ∷ ps) r = with_packet p (with_packets ps r)

module _ (codec : Codec HttpLenHeader) (mask : ℕ → ℕ) (laws : ReadsLengths codec mask) where
  abbrev frame : ℕ → List ℕ → List ℕ
  frame i p = (codec.pack (len_header (bit_xor (length p) (mask i)))).bytes ++ p

  masked_lt : (i : ℕ) (p : List ℕ) → length p ≤ 1601 → bit_xor (length p) (mask i) < 2 ^ 64
  masked_lt i p small =
      let m = laws.masks i in
      bit_xor_lt (length p) (mask i) (omega (arith, small)) (omega (arith, m))

  frame_reads :
      (i : ℕ) (p rest : List ℕ)
      → length p ≤ 1601
      → codec.unpack (frame i p ++ rest) ≡ record {
        value = len_header (bit_xor (length p) (mask i));
        rest = p ++ rest;
        no_error = true;
      }
  frame_reads i p rest small =
      let header = (codec.pack (len_header (bit_xor (length p) (mask i)))).bytes in
      ap codec.unpack (append_assoc header p rest)
      ∙ (laws.reads (bit_xor (length p) (mask i)) (masked_lt i p small)).unpacks (p ++ rest)

  -- A message with a length that is in range.
  one_message-packet :
      (p rest : List ℕ) (skipped followed : Received)
      → IsFrame p
      → one_message true (length p) (p ++ rest) true skipped followed ≡ with_packet p followed
  one_message-packet p rest skipped followed (some_bytes, small) =
      ap
        (λ c.
          if c
          then ended panics
          else if ltb 1601 (length p)
          then ended too_long
          else if length p == 0
          then skipped
          else if ltb (length (p ++ rest)) (length p)
          then ended read_failed
          else with_packet (take (length p) (p ++ rest)) followed)
        not_negative
      ∙ ap
          (λ c.
            if c
            then ended too_long
            else if length p == 0
            then skipped
            else if ltb (length (p ++ rest)) (length p)
            then ended read_failed
            else with_packet (take (length p) (p ++ rest)) followed)
          not_long
      ∙ ap
          (λ c.
            if c
            then skipped
            else if ltb (length (p ++ rest)) (length p)
            then ended read_failed
            else with_packet (take (length p) (p ++ rest)) followed)
          not_zero
      ∙ ap
          (λ c. if c then ended read_failed else with_packet (take (length p) (p ++ rest)) followed)
          there
      ∙ ap (λ (q : List ℕ). with_packet q followed) (take_append p rest)
    where
      not_negative : leb 0x8000000000000000 (length p) ≡ false
      not_negative = ground arith

      not_long : ltb 1601 (length p) ≡ false
      not_long = ground arith

      not_zero : (length p == 0) ≡ false
      not_zero = ground arith

      there : ltb (length (p ++ rest)) (length p) ≡ false
      there = ground (arith, length-append p rest)

  -- A frame at the front of the input is one packet received.
  receive-frame :
      (fuel i : ℕ) (p rest : List ℕ)
      → IsFrame p
      → receive_packets (suc fuel) codec mask (λ j. true) i (frame i p ++ rest)
        ≡ with_packet p (receive_packets fuel codec mask (λ j. true) (i + 1) rest)
  unfolding receive_packets
  receive-frame fuel i p rest ok =
      let next : List ℕ → Received = receive_packets fuel codec mask (λ j. true) (i + 1) in
      let by_header : Unpacked HttpLenHeader → Received = λ u.
        let len = bit_xor u.value.length (mask i) in
        one_message u.no_error len u.rest true (next u.rest) (next (drop len u.rest)) in
      ap by_header (frame_reads i p rest ok.1)
      ∙ ap
          (λ len.
            one_message true len (p ++ rest) true (next (p ++ rest)) (next (drop len (p ++ rest))))
          (bit_xor_twice (length p) (mask i))
      ∙ one_message-packet p rest (next (p ++ rest)) (next (drop (length p) (p ++ rest))) ok
      ∙ ap (λ l. with_packet p (next l)) (drop_append p rest)

  abbrev frames : ℕ → List (List ℕ) → List ℕ
  frames i [] = []
  frames i (p ∷ ps) = frame i p ++ frames (i + 1) ps

  receive-frames :
      (ps : List (List ℕ)) (fuel i : ℕ) (rest : List ℕ)
      → All IsFrame ps
      → receive_packets (length ps + fuel) codec mask (λ j. true) i (frames i ps ++ rest)
        ≡ with_packets ps (receive_packets fuel codec mask (λ j. true) (i + length ps) rest)
  receive-frames [] fuel i rest ok =
      ap (λ f. receive_packets f codec mask (λ j. true) i rest) {x = 0 + fuel} {y = fuel}
        (omega arith)
      ∙ ap (λ j. receive_packets fuel codec mask (λ k. true) j rest) {x = i} {y = i + 0}
          (omega arith)
  receive-frames (p ∷ ps) fuel i rest (ok, oks) =
      let next = receive-frames ps fuel (i + 1) rest oks in
      ap (λ f. receive_packets f codec mask (λ j. true) i (frame i p ++ frames (i + 1) ps ++ rest))
        {x = suc (length ps) + fuel} {y = suc (length ps + fuel)} (omega arith)
      ∙ ap (receive_packets (suc (length ps + fuel)) codec mask (λ j. true) i)
          (append_assoc (frame i p) (frames (i + 1) ps) rest)
      ∙ receive-frame (length ps + fuel) i p (frames (i + 1) ps ++ rest) ok
      ∙ ap (with_packet p) next
      ∙ ap
          (λ j.
            with_packet p (with_packets ps (receive_packets fuel codec mask (λ k. true) j rest)))
          {x = i + 1 + length ps} {y = i + suc (length ps)} (omega arith)

  -- A packet that the writer takes whole.
  send_payload-frame :
      (i : ℕ) (p : List ℕ)
      → length p ≤ 1601
      → send_payload codec (mask i) true true p
        ≡ record { written = frame i p; done = false; return_msg = false }
  unfolding send_payload
  send_payload-frame i p small =
      let fits : ltb 1601 (length p) ≡ false = ground arith in
      let packs = (laws.reads (bit_xor (length p) (mask i)) (masked_lt i p small)).packs in
      let sent : Sent = record { written = frame i p; done = false; return_msg = false } in
      let gone : Sent = record { written = []; done = true; return_msg = true } in
      ap
        (λ c.
          if c
          then record { written = []; done = true; return_msg = false }
          else if not (
              if (codec.pack (len_header (bit_xor (length p) (mask i)))).no_error
              then true
              else false)
          then gone
          else sent)
        fits
      ∙ ap (λ c. if not (if c then true else false) then gone else sent) packs

  abbrev pub whole : List ℕ → SendEvent
  whole p = packet p true true

  send_events-frames :
      (ps : List (List ℕ)) (buffering : ℕ) (s : Sender)
      → All IsFrame ps
      → s.stopped ≡ false
      → (send_events codec mask buffering (map whole ps) s).output
        ≡ s.output ++ frames s.next_mask ps
  unfolding send_events send_event
  send_events-frames [] buffering s ok runs = sym (append-nil s.output)
  send_events-frames (p ∷ ps) buffering s (ok, oks) runs =
      let sent : Sent = record {
        written = frame s.next_mask p;
        done = false;
        return_msg = false;
      } in
      let s1 = after_payload s p sent in
      let step : send_event codec mask buffering (whole p) s ≡ s1 =
        ap (after_payload s p) (send_payload-frame s.next_mask p ok.1) in
      let next : s1.next_mask ≡ s.next_mask + 1 = ground (arith, ok.1) in
      ap
        (λ c.
          (if c
            then s
            else send_events codec mask buffering (map whole ps)
                (send_event codec mask buffering (whole p) s)).output)
        runs
      ∙ ap (λ (t : Sender). (send_events codec mask buffering (map whole ps) t).output) step
      ∙ send_events-frames ps buffering s1 oks refl
      ∙ ap (λ j. (s.output ++ frame s.next_mask p) ++ frames j ps) next
      ∙ append_assoc s.output (frame s.next_mask p) (frames (s.next_mask + 1) ps)

  with_packets-ended :
      (ps : List (List ℕ)) (e : End) → with_packets ps (ended e) ≡ record { packets = ps; end = e }
  with_packets-ended [] e = refl
  with_packets-ended (p ∷ ps) e = ap (with_packet p) (with_packets-ended ps e)

  -- What one end sends as packets of 1 to 1601 bytes, the other end receives in that order, and then
  -- it comes to the end of the stream. The conditions are that both ends have the same masks, that
  -- `struc` reads every length as it was packed and nothing from no bytes, that the writer takes every
  -- frame, and that the context of the receiver stays alive.
  pub receive_packets-send_packets :
      (ps : List (List ℕ)) (buffering : ℕ)
      → All IsFrame ps
      → (codec.unpack []).no_error ≡ false
      → receive_packets
          (length ps + 1)
          codec
          mask
          (λ i. true)
          0
          (send_packets codec mask buffering (map whole ps)).output
        ≡ record { packets = ps; end = read_failed }
  unfolding send_packets
  receive_packets-send_packets ps buffering ok empty =
      let start : Sender = record {
        next_mask = 0;
        output = [];
        returned = [];
        payload_sent = false;
        stopped = false;
      } in
      ap (receive_packets (length ps + 1) codec mask (λ i. true) 0)
        (send_events-frames ps buffering start ok refl ∙ sym (append-nil (frames 0 ps)))
      ∙ receive-frames ps 1 0 [] ok
      ∙ ap (with_packets ps) (nothing_left (0 + length ps))
      ∙ with_packets-ended ps read_failed
    where
      nothing_left : (i : ℕ) → receive_packets 1 codec mask (λ j. true) i [] ≡ ended read_failed
      nothing_left i = unfold receive_packets in rw (empty, receive_packets) refl
