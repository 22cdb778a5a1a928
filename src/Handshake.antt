-- ===== src/Handshake.antt =====
-- The two ends together: an announcement of the server, the reply of the client in
-- workers/client/clientWorker.go, and the confirmation in workers/server/serverWorker.go.
pub mod Relay
use vlite.Base.{[], ℕ, ◌≡◌, refl, ap, subst, ◌∙◌, ◌∷◌, ◌++◌, Option, some, true}
use mathlib.Core.List.{append-nil}
use vlite.Proto.{
  Traffic, Wire, Codec, CommandHeader, AssociateHeader, RoundTrips, Unpacked, command_associate,
  command_associate_v6, command_associate_done, command_associate_done_v6,
}
use vlite.Server.{Env, Server, TrackedConnection, lookup_tracker}
use vlite.Server.Agreement.Changes.{put_at}
use vlite.Server.Confirmed.{source_key, dest_key, marked, on_associate_done-tables}
use vlite.Server.Control.{
  done, rx_from_client, on_associate_done, on_control_associate_done, on_control_associate_v6_done,
}
use vlite.ClientWorker.{
  ClientContext, on_associate, rx_from_server, on_control_associate, on_control_associate_v6,
}

-- Announcements and confirmations come in two forms, each with its commands and its header.
pub data Family : Type 0 where
  v4 v6 : Family

abbrev pub codec_of : Wire → Family → Codec AssociateHeader
codec_of wire v4 = wire.associate
codec_of wire v6 = wire.associate_v6

abbrev pub announces : Family → CommandHeader
announces v4 = record { command_byte = command_associate }
announces v6 = record { command_byte = command_associate_v6 }

abbrev pub confirms : Family → CommandHeader
confirms v4 = record { command_byte = command_associate_done }
confirms v6 = record { command_byte = command_associate_done_v6 }

-- A control packet: a command and a header.
abbrev pub control : {A : Type 0} → Wire → Codec A → CommandHeader → A → Traffic
control wire codec command a = record {
  channel = 0;
  payload = (wire.command.pack command).bytes ++ (codec.pack a).bytes;
}

-- The end of the input may be what the header leaves.
unpacks_all :
    {A : Type 0} (codec : Codec A) (a : A)
    → RoundTrips codec a
    → codec.unpack (codec.pack a).bytes ≡ record { value = a; rest = []; no_error = true }
unpacks_all codec a r =
    subst (λ b. codec.unpack b ≡ record { value = a; rest = []; no_error = true })
      (append-nil (codec.pack a).bytes) (r.unpacks [])

module _ (env : Env) (h : AssociateHeader) where
  abbrev pub announcement : Family → Traffic
  announcement fam = control env.wire (codec_of env.wire fam) (announces fam) h

  abbrev pub confirmation : Family → Traffic
  confirmation fam = control env.wire (codec_of env.wire fam) (confirms fam) h

  read_header :
      (codec : Codec AssociateHeader)
      → RoundTrips codec h
      → (codec.unpack (codec.pack h).bytes).value ≡ h
  read_header codec body = ap (λ (u : Unpacked AssociateHeader). u.value) (unpacks_all codec h body)

  pub client_reads :
      (fam : Family) (now : ℕ) (c : ClientContext)
      → RoundTrips (codec_of env.wire fam) h
      → RoundTrips env.wire.command (announces fam)
      → rx_from_server env.wire env.net now c (announcement fam)
        ≡ on_associate env.net env.wire.command
            (codec_of env.wire fam)
            (confirms fam).command_byte
            c
            h
  unfolding rx_from_server on_control_associate on_control_associate_v6
  client_reads v4 now c body header =
      rw (header.unpacks (env.wire.associate.pack h).bytes)
        (rw (read_header env.wire.associate body) refl)
  client_reads v6 now c body header =
      rw (header.unpacks (env.wire.associate_v6.pack h).bytes)
        (rw (read_header env.wire.associate_v6 body) refl)

  pub server_reads :
      (fam : Family) (dialed : Option ℕ) (s : Server)
      → RoundTrips (codec_of env.wire fam) h
      → RoundTrips env.wire.command (confirms fam)
      → rx_from_client env dialed s (confirmation fam) ≡ done (on_associate_done env s h)
  unfolding rx_from_client on_control_associate_done on_control_associate_v6_done
  server_reads v4 dialed s body header =
      rw (header.unpacks (env.wire.associate.pack h).bytes)
        (rw (unpacks_all env.wire.associate h body) refl)
  server_reads v6 dialed s body header =
      rw (header.unpacks (env.wire.associate_v6.pack h).bytes)
        (rw (unpacks_all env.wire.associate_v6 h body) refl)

  -- An announcement, in the form for IPv4 or for IPv6, that arrives at the client is answered with one
  -- packet, the last that it sends. On that packet the server marks the tracker of the connection as
  -- tracked, and leaves every other tracker and the table of channels as they are. The conditions are
  -- that `struc` reads the two commands and the header as they were packed, and that the server has a
  -- tracker for the connection, with the announced channel.
  pub announce-confirms :
      (fam : Family) (now : ℕ) (c : ClientContext) (dialed : Option ℕ) (s : Server)
      (t : TrackedConnection)
      → RoundTrips (codec_of env.wire fam) h
      → RoundTrips env.wire.command (announces fam)
      → RoundTrips env.wire.command (confirms fam)
      → lookup_tracker s (source_key env h) (dest_key env h) ≡ some t
      → t.channel ≡ h.channel
      → (reply : Traffic) × (s' : Server) × ((rx_from_server env.wire env.net now c
            (announcement fam)).tx_to_server
          ≡ c.tx_to_server ++ reply ∷ [])
        × (rx_from_client env dialed s reply ≡ done s')
        × (lookup_tracker s'
            ≡ put_at (source_key env h) (dest_key env h) (marked t) (lookup_tracker s))
        × (s'.tracked_remote_addr ≡ s.tracked_remote_addr)
  unfolding on_associate
  announce-confirms fam now c dialed s t body there back has same =
      let (trackers, channels) = on_associate_done-tables env s h t has same in
      (
        confirmation fam,
        on_associate_done env s h,
        ap (λ (d : ClientContext). d.tx_to_server) (client_reads fam now c body there)
            ∙ replies fam,
        server_reads fam dialed s body back,
        trackers,
        channels,
      )
    where
      replies :
          (f : Family)
          → (on_associate env.net env.wire.command
              (codec_of env.wire f)
              (confirms f).command_byte
              c
              h).tx_to_server
            ≡ c.tx_to_server ++ confirmation f ∷ []
      replies v4 = refl
      replies v6 = refl
