-- ===== src/Proto.antt =====
-- proto/wire.go and proto/address.go: the headers of control packets, and addresses on the wire.
-- A byte is a number, a byte slice or array a list of them. The library `struc`, which packs and
-- unpacks the headers, and `net` are parameters: the records `Wire` and `Net`.
use vlite.Base.{
  ◌≡◌, ℕ, ◌-◌, List, [], ◌++◌, Option, none, some, Bool, true, length, take, replicate,
}
use Prim.Native.String.{String}

-- The command bytes, `iota + 1` on.
abbrev pub command_send : ℕ
command_send = 1

abbrev pub command_send_v6 : ℕ
command_send_v6 = 2

abbrev pub command_associate : ℕ
command_associate = 3

abbrev pub command_associate_v6 : ℕ
command_associate_v6 = 4

abbrev pub command_associate_done : ℕ
command_associate_done = 5

abbrev pub command_associate_done_v6 : ℕ
command_associate_done_v6 = 6

abbrev pub command_channel_destroy : ℕ
command_channel_destroy = 7

abbrev pub command_ping : ℕ
command_ping = 8

abbrev pub command_pong : ℕ
command_pong = 9

pub record CommandHeader : Type 0 where
  pub command_byte : ℕ

pub record DataHeader : Type 0 where
  pub channel : ℕ

-- `SendHeader` holds addresses of 4 bytes, `SendV6Header` of 16.
pub record SendHeader : Type 0 where
  pub source_ip : List ℕ
  pub dest_ip : List ℕ
  pub source_port : ℕ
  pub dest_port : ℕ
  pub payload_len : ℕ
  pub payload : List ℕ

abbrev pub SendV6Header : Type 0
SendV6Header = SendHeader

-- `AssociateHeader` and `AssociateDoneHeader` hold addresses of 4 bytes, the V6 ones of 16.
pub record AssociateHeader : Type 0 where
  pub source_ip : List ℕ
  pub dest_ip : List ℕ
  pub source_port : ℕ
  pub dest_port : ℕ
  pub channel : ℕ

abbrev pub AssociateV6Header : Type 0
AssociateV6Header = AssociateHeader

abbrev pub AssociateDoneHeader : Type 0
AssociateDoneHeader = AssociateHeader

abbrev pub AssociateDoneV6Header : Type 0
AssociateDoneV6Header = AssociateHeader

pub record AssociateChannelDestroy : Type 0 where
  pub channel : ℕ

pub record PingHeader : Type 0 where
  pub seq : ℕ
  pub seq2 : ℕ
  pub sent_packet : ℕ
  pub recv_packet : ℕ

pub record PongHeader : Type 0 where
  pub seq_copy : ℕ
  pub seq2_copy : ℕ
  pub sent_packet : ℕ
  pub recv_packet : ℕ

-- interfaces/trafficWithTag.go: what travels on a tagged channel.
pub record Traffic : Type 0 where
  pub channel : ℕ
  pub payload : List ℕ

-- `net.UDPAddr`.
pub record UdpAddr : Type 0 where
  pub ip : List ℕ
  pub port : ℕ

-- What `struc.Unpack` leaves: the header, what is left of the input, and whether there was no
-- error. The code goes on after some errors, with the header as it stands then.
pub record Unpacked (A : Type 0) : Type 0 where
  pub value : A
  pub rest : List ℕ
  pub no_error : Bool

-- `struc.Pack` into a buffer: the bytes that it writes, and whether there was no error.
pub record Packed : Type 0 where
  pub bytes : List ℕ
  pub no_error : Bool

pub record Codec (A : Type 0) : Type 0 where
  pub pack : A → Packed
  pub unpack : List ℕ → Unpacked A

-- What is assumed of a header that a property sends over the wire: it packs, and is read back,
-- whatever follows it.
pub record RoundTrips {A : Type 0} (codec : Codec A) (a : A) : Type 0 where
  pub packs : (codec.pack a).no_error ≡ true
  pub unpacks :
      (rest : List ℕ)
      → codec.unpack ((codec.pack a).bytes ++ rest)
        ≡ record { value = a; rest = rest; no_error = true }

pub record Wire : Type 0 where
  pub command : Codec CommandHeader
  pub send : Codec SendHeader
  pub send_v6 : Codec SendV6Header
  pub associate : Codec AssociateHeader
  pub associate_v6 : Codec AssociateV6Header
  pub channel_destroy : Codec AssociateChannelDestroy
  pub ping : Codec PingHeader
  pub pong : Codec PongHeader

-- The package `net`: `IP.To4` and `IP.To16`, where `none` is nil, and `UDPAddr.String`.
pub record Net : Type 0 where
  pub to4 : List ℕ → Option (List ℕ)
  pub to16 : List ℕ → Option (List ℕ)
  pub addr_string : UdpAddr → String

-- `copy(addr[:], ip)` into a zeroed array of `n` bytes.
copy_bytes : ℕ → Option (List ℕ) → List ℕ
copy_bytes n none = replicate n 0
copy_bytes n (some ip) = take n ip ++ replicate (n - length ip) 0

-- `IPv4ByteToAddr` and `IPv6ByteToAddr` slice the array.
unfoldable pub ip_byte_to_addr : List ℕ → List ℕ
ip_byte_to_addr bytes = bytes

pub ipv4_addr_to_byte : Net → List ℕ → List ℕ
ipv4_addr_to_byte net ip = copy_bytes 4 (net.to4 ip)

pub ipv6_addr_to_byte : Net → List ℕ → List ℕ
ipv6_addr_to_byte net ip = copy_bytes 16 (net.to16 ip)

-- An address as a slice, where nil has no bytes.
abbrev pub slice_of : Option (List ℕ) → List ℕ
slice_of none = []
slice_of (some ip) = ip
