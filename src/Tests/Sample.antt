-- ===== src/Tests/Sample.antt =====
-- Concrete libraries for the examples: a codec of the wire format for commands and announcements, and
-- addresses as strings in decimal.
use vlite.Base.{
  ℕ, zero, suc, ◌+◌, ◌*◌, ◌/◌, ◌%◌, List, [], ◌∷◌, ◌++◌, none, some, true, false, ltb, ◌==◌,
  if◌then◌else◌, length, get_elem?,
}
use Prim.Native.String.{String}
use Prim.Native.String
use vlite.Proto.{
  UdpAddr, Codec, Packed, Unpacked, CommandHeader, SendHeader, AssociateHeader,
  AssociateChannelDestroy, PingHeader, PongHeader, Wire, Net,
}
use vlite.Server.{Env, Server, load_or}
use vlite.Channel.{new_finder}

abbrev packed : List ℕ → Packed
packed bytes = record { bytes = bytes; no_error = true }

abbrev read_command : List ℕ → Unpacked CommandHeader
read_command (b ∷ rest) = record {
  value = record { command_byte = b };
  rest = rest;
  no_error = true;
}
read_command [] = record { value = record { command_byte = 0 }; rest = []; no_error = false }

abbrev command_codec : Codec CommandHeader
command_codec = record { pack = λ h. packed (h.command_byte ∷ []); unpack = read_command }

abbrev empty_associate : AssociateHeader
empty_associate = record {
  source_ip = 0 ∷ 0 ∷ 0 ∷ 0 ∷ [];
  dest_ip = 0 ∷ 0 ∷ 0 ∷ 0 ∷ [];
  source_port = 0;
  dest_port = 0;
  channel = 0;
}

abbrev read_associate : List ℕ → Unpacked AssociateHeader
read_associate (a ∷ b ∷ c ∷ d ∷ e ∷ f ∷ g ∷ h ∷ s ∷ t ∷ u ∷ v ∷ w ∷ x ∷ rest) = record {
  value = record {
    source_ip = a ∷ b ∷ c ∷ d ∷ [];
    dest_ip = e ∷ f ∷ g ∷ h ∷ [];
    source_port = s * 256 + t;
    dest_port = u * 256 + v;
    channel = w * 256 + x;
  };
  rest = rest;
  no_error = true;
}
read_associate other = record { value = empty_associate; rest = []; no_error = false }

abbrev two_bytes : ℕ → List ℕ
two_bytes n = n / 256 ∷ n % 256 ∷ []

abbrev write_associate : AssociateHeader → List ℕ
write_associate h =
    h.source_ip
    ++ h.dest_ip
    ++ two_bytes h.source_port
    ++ two_bytes h.dest_port
    ++ two_bytes h.channel

abbrev associate_codec : Codec AssociateHeader
associate_codec = record { pack = λ h. packed (write_associate h); unpack = read_associate }

abbrev empty_send : SendHeader
empty_send = record {
  source_ip = 0 ∷ 0 ∷ 0 ∷ 0 ∷ [];
  dest_ip = 0 ∷ 0 ∷ 0 ∷ 0 ∷ [];
  source_port = 0;
  dest_port = 0;
  payload_len = 0;
  payload = [];
}

abbrev read_send : List ℕ → Unpacked SendHeader
read_send (a ∷ b ∷ c ∷ d ∷ e ∷ f ∷ g ∷ h ∷ s ∷ t ∷ u ∷ v ∷ w ∷ x ∷ payload) = record {
  value = record {
    source_ip = a ∷ b ∷ c ∷ d ∷ [];
    dest_ip = e ∷ f ∷ g ∷ h ∷ [];
    source_port = s * 256 + t;
    dest_port = u * 256 + v;
    payload_len = w * 256 + x;
    payload = payload;
  };
  rest = [];
  no_error = true;
}
read_send other = record { value = empty_send; rest = []; no_error = false }

abbrev send_codec : Codec SendHeader
send_codec = record {
  pack = λ h. packed (
      h.source_ip
      ++ h.dest_ip
      ++ two_bytes h.source_port
      ++ two_bytes h.dest_port
      ++ two_bytes h.payload_len
      ++ h.payload);
  unpack = read_send;
}

abbrev read_destroy : List ℕ → Unpacked AssociateChannelDestroy
read_destroy (a ∷ b ∷ rest) = record {
  value = record { channel = a * 256 + b };
  rest = rest;
  no_error = true;
}
read_destroy other = record { value = record { channel = 0 }; rest = []; no_error = false }

abbrev empty_ping : PingHeader
empty_ping = record { seq = 0; seq2 = 0; sent_packet = 0; recv_packet = 0 }

abbrev empty_pong : PongHeader
empty_pong = record { seq_copy = 0; seq2_copy = 0; sent_packet = 0; recv_packet = 0 }

abbrev pub sample_wire : Wire
sample_wire = record {
  command = command_codec;
  send = send_codec;
  send_v6 = send_codec;
  associate = associate_codec;
  associate_v6 = associate_codec;
  channel_destroy = record { pack = λ h. packed (two_bytes h.channel); unpack = read_destroy };
  ping = record {
    pack = λ h. packed [];
    unpack = λ bytes. record { value = empty_ping; rest = bytes; no_error = true };
  };
  pong = record {
    pack = λ h. packed [];
    unpack = λ bytes. record { value = empty_pong; rest = bytes; no_error = true };
  };
}

abbrev digits : List String
digits = "0" ∷ "1" ∷ "2" ∷ "3" ∷ "4" ∷ "5" ∷ "6" ∷ "7" ∷ "8" ∷ "9" ∷ []

abbrev digit : ℕ → String
digit n = load_or "" (get_elem? digits n)

abbrev joined : String → String → String
joined = Prim.Native.String.◌++◌

-- A number below 100000 in decimal.
abbrev decimal : ℕ → ℕ → String
decimal zero n = digit n
decimal (suc fuel) n =
    let rest = decimal fuel (n / 10) in if ltb n 10 then digit n else joined rest (digit (n % 10))

abbrev dotted : List ℕ → String
dotted [] = ""
dotted (b ∷ []) = decimal 4 b
dotted (b ∷ c ∷ bs) = joined (decimal 4 b) (joined "." (dotted (c ∷ bs)))

abbrev pub sample_net : Net
sample_net = record {
  to4 = λ ip. if length ip == 4 then some ip else none;
  to16 = λ ip. some ip;
  addr_string = λ a. joined (dotted a.ip) (joined ":" (decimal 4 a.port));
}

abbrev pub sample_env : Env
sample_env = record {
  wire = sample_wire;
  net = sample_net;
  tx_to_client_room = 8;
  sent_recv_stats = none;
}

abbrev pub empty_server : Server
empty_server = record {
  tracked_remote_addr = λ ch. none;
  client_logic_connection = λ key. none;
  tx_to_client = [];
  tx_to_client_data = [];
  channel_number_generator = new_finder 0 0;
  udp_timeout_time = 600;
  writes = [];
}

abbrev pub home : UdpAddr
home = record { ip = 10 ∷ 0 ∷ 0 ∷ 1 ∷ []; port = 4000 }

abbrev pub remote : UdpAddr
remote = record { ip = 8 ∷ 8 ∷ 8 ∷ 8 ∷ []; port = 53 }
