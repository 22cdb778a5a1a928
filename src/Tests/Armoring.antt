-- ===== src/Tests/Armoring.antt =====
-- An example for the armor: a cipher that appends 16 bytes, and the layout of `struc`.
use vlite.Base.{
  ℕ, ◌+◌, ◌-◌, ◌*◌, ◌/◌, ◌%◌, ◌≡◌, refl, ap, ◌∙◌, arith, List, [], ◌∷◌, ◌++◌, some, true, false,
  length, take, drop, replicate, length-append, take_append,
}
use vlite.Proto.{Unpacked}
use vlite.Armor.{Aead, ArmoredPacket, Ciphers, bytes, pack, unpack}
use vlite.Armor.RoundTrip.{OpensSealed, LaysOut, padded, unpack-pack}

abbrev plain_cipher : Aead
plain_cipher = record {
  nonce_size = 16;
  overhead = 16;
  seal = λ n p. p ++ replicate 16 0;
  open_sealed = λ n sealed. some (take (length sealed - 16) sealed);
}

abbrev two_bytes : ℕ → List ℕ
two_bytes n = n / 256 ∷ n % 256 ∷ []

abbrev broken : Unpacked ArmoredPacket
broken = record { value = record { payload = []; padding = [] }; rest = []; no_error = false }

abbrev read_padding : List ℕ → List ℕ → Unpacked ArmoredPacket
read_padding payload (c ∷ d ∷ rest) = record {
  value = record { payload = payload; padding = take (c * 256 + d) rest };
  rest = drop (c * 256 + d) rest;
  no_error = true;
}
read_padding payload other = broken

abbrev read_packet : List ℕ → Unpacked ArmoredPacket
read_packet (a ∷ b ∷ rest) = read_padding (take (a * 256 + b) rest) (drop (a * 256 + b) rest)
read_packet other = broken

abbrev sample_ciphers : Ciphers
sample_ciphers = record {
  cipher = λ salt password letter. some plain_cipher;
  armored = record {
    pack = λ p. record {
      bytes =
          two_bytes (length p.payload) ++ p.payload ++ two_bytes (length p.padding) ++ p.padding;
      no_error = true;
    };
    unpack = read_packet;
  };
}

plain-OpensSealed : OpensSealed plain_cipher
plain-OpensSealed = record {
  opens = λ n p.
      let short : length (p ++ replicate 16 0) - 16 ≡ length p =
        omega (arith, length-append p (replicate 16 0)) in
      ap (λ k. some (take k (p ++ replicate 16 0))) short
      ∙ ap some (take_append p (replicate 16 0));
  seals = λ n p. length-append p (replicate 16 0);
  nonce_16 = refl;
}

abbrev nonce_bytes : List ℕ
nonce_bytes = replicate 16 3

lays : LaysOut sample_ciphers.armored (padded plain_cipher (7 ∷ 8 ∷ []) 60)
lays = record { reads = record { packs = refl; unpacks = λ rest. refl }; measures = refl }

unpack-pack_example :
    (sent : List ℕ) × (pack sample_ciphers
        (record { password = "pw"; salt = "salt"; is_client = true })
        (some nonce_bytes)
        (7 ∷ 8 ∷ [])
        60
      ≡ bytes sent)
    × (length sent ≡ 60)
    × (unpack sample_ciphers (record { password = "pw"; salt = "salt"; is_client = false }) sent
        ≡ bytes (7 ∷ 8 ∷ []))
unpack-pack_example =
    unpack-pack sample_ciphers "pw" "salt" plain_cipher nonce_bytes (7 ∷ 8 ∷ []) 60 refl
      plain-OpensSealed refl (omega arith) (omega arith) lays
