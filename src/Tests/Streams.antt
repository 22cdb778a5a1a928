-- ===== src/Tests/Streams.antt =====
-- An example for the HTTP streams: a length as eight bytes, the lowest first, and a constant mask.
use vlite.Base.{
  ℕ, zero, suc, ◌+◌, ◌*◌, ◌/◌, ◌%◌, ◌<◌, ◌≡◌, refl, ap, ◌∙◌, arith, List, [], ◌∷◌, ◌++◌, true,
  false, map,
}
use vlite.Proto.{Codec, Unpacked}
use vlite.Http.Wrapper.{HttpLenHeader, len_header, receive_packets, send_packets, read_failed}
use vlite.Http.Frames.{ReadsLengths, whole, receive_packets-send_packets}

abbrev pub number_bytes : ℕ → ℕ → List ℕ
number_bytes zero n = []
number_bytes (suc k) n = n % 256 ∷ number_bytes k (n / 256)

abbrev pub place_byte : ℕ → Unpacked HttpLenHeader → Unpacked HttpLenHeader
place_byte b u = record u { value = len_header (b + u.value.length * 256) }

abbrev pub read_number : ℕ → List ℕ → Unpacked HttpLenHeader
read_number zero bytes = record { value = len_header 0; rest = bytes; no_error = true }
read_number (suc k) [] = record { value = len_header 0; rest = []; no_error = false }
read_number (suc k) (b ∷ bytes) = place_byte b (read_number k bytes)

abbrev pub byte_range : ℕ → ℕ
byte_range zero = 1
byte_range (suc k) = 256 * byte_range k

pub read_number-number_bytes :
    (k n : ℕ) (rest : List ℕ)
    → n < byte_range k
    → read_number k (number_bytes k n ++ rest)
      ≡ record { value = len_header n; rest = rest; no_error = true }
read_number-number_bytes zero n rest small =
    ap (λ m. record { value = len_header m; rest = rest; no_error = true }) {x = 0} {y = n}
      (omega (arith, small))
read_number-number_bytes (suc k) n rest small =
    ap (place_byte (n % 256)) (read_number-number_bytes k (n / 256) rest (omega (arith, small)))
    ∙ ap (λ m. record { value = len_header m; rest = rest; no_error = true })
        {x = n % 256 + n / 256 * 256} {y = n} (omega arith)

abbrev len_codec : Codec HttpLenHeader
len_codec = record {
  pack = λ h. record { bytes = number_bytes 8 h.length; no_error = true };
  unpack = read_number 8;
}

len_codec-ReadsLengths : ReadsLengths len_codec (λ i. 5)
len_codec-ReadsLengths = record {
  reads =
      λ n small. record { packs = refl; unpacks = λ rest. read_number-number_bytes 8 n rest small };
  masks = λ i. omega arith;
}

abbrev two_packets : List (List ℕ)
two_packets = (1 ∷ 2 ∷ 3 ∷ []) ∷ (7 ∷ []) ∷ []

receive_packets-send_packets_example :
    receive_packets 3 len_codec
      (λ i. 5)
      (λ i. true)
      0
      (send_packets len_codec
        (λ i. 5)
        0
        (map (whole len_codec (λ i. 5) len_codec-ReadsLengths) two_packets)).output
    ≡ record { packets = two_packets; end = read_failed }
receive_packets-send_packets_example =
    receive_packets-send_packets len_codec (λ i. 5) len_codec-ReadsLengths two_packets 0
      ((omega arith, omega arith), ((omega arith, omega arith), tt)) refl
