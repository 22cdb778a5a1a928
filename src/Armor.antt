-- ===== src/Armor.antt =====
-- transport/udp/packetarmor: a packet sealed with padding to a given length. The hash and the cipher
-- are a parameter, and so is `struc`.
pub mod RoundTrip
use vlite.Base.{
  ℕ, ◌+◌, ◌-◌, List, ◌++◌, Option, none, some, Bool, true, false, not, leb, ltb, if◌then◌else◌,
  length, take, drop, replicate,
}
use Prim.Native.String.{String}
use vlite.Proto.{Codec}

-- `cipher.AEAD`, without additional data.
pub record Aead : Type 0 where
  pub nonce_size : ℕ
  pub overhead : ℕ
  pub seal : List ℕ → List ℕ → List ℕ
  pub open_sealed : List ℕ → List ℕ → Option (List ℕ)

pub record PacketArmor : Type 0 where
  pub password : String
  pub salt : String
  pub is_client : Bool

-- `armoredPacket`, with `payload` for `Data`; the lengths are those of the two slices.
pub record ArmoredPacket : Type 0 where
  pub payload : List ℕ
  pub padding : List ℕ

-- The cipher for a salt, a password and the letter of a direction, which `siv.NewCMAC` may refuse; and
-- how `struc` lays an armored packet out.
pub record Ciphers : Type 0 where
  pub cipher : String → String → String → Option Aead
  pub armored : Codec ArmoredPacket

abbrev pub same_side : Bool → Bool → Bool
same_side true b = b
same_side false b = not b

unfoldable pub get_key : Ciphers → PacketArmor → Bool → Option Aead
get_key c a is_up = c.cipher a.salt a.password (if same_side is_up a.is_client then "U" else "D")

-- What the two functions return: bytes, nil without an error, an error, or a panic.
pub data Armored : Type 0 where
  bytes : List ℕ → Armored
  nil_bytes : Armored
  armor_error : Armored
  armor_panics : Armored

-- With the cipher, and what the random reader gives for a nonce.
unfoldable pub pack_with : Ciphers → Option (List ℕ) → List ℕ → ℕ → Option Aead → Armored
pack_with c drawn input len none = armor_error
pack_with c none input len (some key) =
    let used = key.overhead + key.nonce_size + length input + 4 in
    if ltb len used then nil_bytes else if ltb 1600 (len - used) then armor_panics else armor_error
pack_with c (some n) input len (some key) =
    let used = key.overhead + key.nonce_size + length input + 4 in
    let packed = c.armored.pack (record { payload = input; padding = replicate (len - used) 0 }) in
    if ltb len used
    then nil_bytes
    else if ltb 1600 (len - used)
    then armor_panics
    else if not packed.no_error
    then armor_error
    else bytes (n ++ key.seal n packed.bytes)

unfoldable pub pack : Ciphers → PacketArmor → Option (List ℕ) → List ℕ → ℕ → Armored
pack c a drawn input len = pack_with c drawn input len (get_key c a true)

-- The header of what was opened.
unfoldable pub read_armored : Ciphers → Option (List ℕ) → Armored
read_armored c none = armor_error
read_armored c (some opened) =
    let container = c.armored.unpack opened in
    if not container.no_error then armor_error else bytes container.value.payload

unfoldable pub unpack_with : Ciphers → List ℕ → Option Aead → Armored
unpack_with c input none = armor_error
unpack_with c input (some key) =
    if leb (length input) 17
    then armor_error
    else read_armored c (key.open_sealed (take 16 input) (drop 16 input))

unfoldable pub unpack : Ciphers → PacketArmor → List ℕ → Armored
unpack c a input = unpack_with c input (get_key c a false)
