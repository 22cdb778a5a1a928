-- ===== src/Armor/RoundTrip.antt =====
-- What one end packs the other end unpacks, at the length that was asked for.
use vlite.Base.{
  ℕ, ◌+◌, ◌-◌, ◌≤◌, ◌≡◌, ap, ◌∙◌, subst, arith, List, [], ◌++◌, some, true, false, not, leb, ltb,
  if◌then◌else◌, length, take, drop, replicate, length-append, length-replicate, take_append,
  drop_append,
}
use Prim.Native.String.{String}
use mathlib.Core.List.{append-nil}
use vlite.Proto.{Codec, RoundTrips, Unpacked}
use vlite.Armor.{
  Aead, ArmoredPacket, Ciphers, get_key, bytes, nil_bytes, armor_error, armor_panics, pack_with,
  pack, read_armored, unpack_with, unpack,
}

-- What is relied on of the cipher: it opens what it sealed, sealing adds the overhead, and a nonce has
-- 16 bytes.
pub record OpensSealed (key : Aead) : Type 0 where
  pub opens : (n p : List ℕ) → key.open_sealed n (key.seal n p) ≡ some p
  pub seals : (n p : List ℕ) → length (key.seal n p) ≡ length p + key.overhead
  pub nonce_16 : key.nonce_size ≡ 16

abbrev pub used : Aead → List ℕ → ℕ
used key input = key.overhead + key.nonce_size + length input + 4

abbrev pub padded : Aead → List ℕ → ℕ → ArmoredPacket
padded key input len = record { payload = input; padding = replicate (len - used key input) 0 }

-- What is relied on of `struc`: it reads the packet back, and writes two lengths of two bytes beside
-- the slices.
pub record LaysOut (armored : Codec ArmoredPacket) (p : ArmoredPacket) : Type 0 where
  pub reads : RoundTrips armored p
  pub measures : length (armored.pack p).bytes ≡ 4 + length p.payload + length p.padding

module _ (c : Ciphers) (key : Aead) (laws : OpensSealed key) (n input : List ℕ) (len : ℕ)
    (n_16 : length n ≡ 16) (room : used key input ≤ len) (fits : len - used key input ≤ 1600)
    (lays : LaysOut c.armored (padded key input len)) where
  abbrev sealed : List ℕ
  sealed = key.seal n (c.armored.pack (padded key input len)).bytes

  packs : pack_with c (some n) input len (some key) ≡ bytes (n ++ sealed)
  unfolding pack_with
  packs =
      let a : ltb len (used key input) ≡ false = ground arith in
      let b : ltb 1600 (len - used key input) ≡ false = ground arith in
      ap
        (λ t.
          if t
          then nil_bytes
          else if ltb 1600 (len - used key input)
          then armor_panics
          else if not (c.armored.pack (padded key input len)).no_error
          then armor_error
          else bytes (n ++ sealed))
        a
      ∙ ap
          (λ t.
            if t
            then armor_panics
            else if not (c.armored.pack (padded key input len)).no_error
            then armor_error
            else bytes (n ++ sealed))
          b
      ∙ ap (λ t. if not t then armor_error else bytes (n ++ sealed)) lays.reads.packs

  measured : length (n ++ sealed) ≡ len
  measured =
      length-append n sealed
      ∙ omega (
        arith,
        laws.seals n (c.armored.pack (padded key input len)).bytes,
        lays.measures,
        length-replicate {A = ℕ} (len - used key input) 0,
        laws.nonce_16,
        n_16,
        room,
      )

  unpacks_all :
      c.armored.unpack (c.armored.pack (padded key input len)).bytes
      ≡ record { value = padded key input len; rest = []; no_error = true }
  unpacks_all =
      subst
        (λ b.
          c.armored.unpack b ≡ record { value = padded key input len; rest = []; no_error = true })
        (append-nil (c.armored.pack (padded key input len)).bytes) (lays.reads.unpacks [])

  opens_again :
      read_armored c (key.open_sealed (take 16 (n ++ sealed)) (drop 16 (n ++ sealed))) ≡ bytes input
  unfolding read_armored
  opens_again =
      let front : take 16 (n ++ sealed) ≡ n =
        subst (λ k. take k (n ++ sealed) ≡ n) n_16 (take_append n sealed) in
      let back : drop 16 (n ++ sealed) ≡ sealed =
        subst (λ k. drop k (n ++ sealed) ≡ sealed) n_16 (drop_append n sealed) in
      ap (λ (m : List ℕ). read_armored c (key.open_sealed m (drop 16 (n ++ sealed)))) front
      ∙ ap (λ (m : List ℕ). read_armored c (key.open_sealed n m)) back
      ∙ ap (read_armored c) (laws.opens n (c.armored.pack (padded key input len)).bytes)
      ∙ ap
          (λ (u : Unpacked ArmoredPacket).
            if not u.no_error then armor_error else bytes u.value.payload)
          unpacks_all

  unpacks : unpack_with c (n ++ sealed) (some key) ≡ bytes input
  unfolding unpack_with
  unpacks =
      let long : leb (length (n ++ sealed)) 17 ≡ false = ground (
        arith,
        length-append n sealed,
        laws.seals n (c.armored.pack (padded key input len)).bytes,
        lays.measures,
        n_16,
      ) in
      ap
        (λ t.
          if t
          then armor_error
          else read_armored c (key.open_sealed (take 16 (n ++ sealed)) (drop 16 (n ++ sealed))))
        long
      ∙ opens_again

-- What the client packs to a length, the server with the same password and salt unpacks, and the
-- armored packet has that length. The conditions are that there is a cipher for that direction which
-- opens what it sealed, that the nonce has 16 bytes, that the length leaves room for the packet and at
-- most 1600 bytes of padding, and that `struc` reads the packet as it was laid out.
pub unpack-pack :
    (c : Ciphers) (password salt : String) (key : Aead) (n input : List ℕ) (len : ℕ)
    → c.cipher salt password "U" ≡ some key
    → OpensSealed key
    → length n ≡ 16
    → used key input ≤ len
    → len - used key input ≤ 1600
    → LaysOut c.armored (padded key input len)
    → (sent : List ℕ) × (pack c
          (record { password = password; salt = salt; is_client = true })
          (some n)
          input
          len
        ≡ bytes sent)
      × (length sent ≡ len)
      × (unpack c (record { password = password; salt = salt; is_client = false }) sent
          ≡ bytes input)
unfolding pack unpack get_key
unpack-pack c password salt key n input len known laws n_16 room fits lays = (
  n ++ sealed c key laws n input len n_16 room fits lays,
  ap (pack_with c (some n) input len) known ∙ packs c key laws n input len n_16 room fits lays,
  measured c key laws n input len n_16 room fits lays,
  ap (unpack_with c (n ++ sealed c key laws n input len n_16 room fits lays)) known
      ∙ unpacks c key laws n input len n_16 room fits lays,
)
