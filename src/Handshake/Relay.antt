-- ===== src/Handshake/Relay.antt =====
-- After an announcement and its confirmation, what comes from the remote address gets to the client's
-- side: `txToClient` in workers/server/serverWorker.go, and `rxFromServerWorker_OnData` in
-- workers/client/clientWorker.go.
use vlite.Base.{
  ℕ, ◌≡◌, ◌≢◌, refl, sym, ap, subst, ◌∙◌, arith, List, [], ◌∷◌, ◌++◌, Option, some, true, not, ◌==◌,
}
use Prim.Native.String.{String}
use vlite.Proto.{Traffic, UdpAddr, Codec, AssociateHeader, RoundTrips}
use vlite.Server.{Env, Server, TrackedConnection, lookup_tracker}
use vlite.Server.Agreement.Changes.{put_at_self}
use vlite.Server.Confirmed.{
  source_key, dest_key, marked, on_associate_done-tables, on_channel, tx_to_client-tracked,
}
use vlite.Server.Control.{Outcome, rx_from_client, on_associate_done, tx_to_client}
use vlite.Server.Agreement.Rounds.{after}
use vlite.ClientWorker.{
  ClientContext, associated, rx_from_server, rx_data, send_to_tun, on_associate,
}
use vlite.ClientWorker.Tables.{associate-rx}
use vlite.Handshake.{
  Family, codec_of, announces, confirms, announcement, confirmation, client_reads, server_reads,
}

-- What comes to the client on a channel that is not the control channel.
rx_from_server-data :
    (env : Env) (now : ℕ) (c : ClientContext) (channel : ℕ) (p : List ℕ)
    → channel ≢ 0
    → rx_from_server env.wire env.net now c (record { channel = channel; payload = p })
      ≡ rx_data c p channel
unfolding rx_from_server
rx_from_server-data env now c channel p ne =
    let other : not (channel == 0) ≡ true = ground arith in rw other refl

module _ (env : Env) (h : AssociateHeader) (fam : Family) where
  -- A packet from the destination of the connection to its source.
  abbrev delivered : ClientContext → List ℕ → ClientContext
  delivered c p =
      send_to_tun c
        (record { source = (associated h).dest; dest = (associated h).source; payload = p })

  arrives :
      (now : ℕ) (c : ClientContext) (codec : Codec AssociateHeader) (reply : ℕ) (p : List ℕ)
      → let c' = on_associate env.net env.wire.command codec reply c h in
        rx_data c' p h.channel ≡ delivered c' p
  unfolding on_associate
  arrives now c codec reply p = associate-rx env.wire env.net codec reply c h p

  -- Once the client has handled an announcement and the server the confirmation, in the form for IPv4
  -- or for IPv6, a packet from the destination of the connection to its source goes to the client as
  -- data on the announced channel, and nothing goes on the control channel; and the client, when that
  -- data arrives, hands out exactly that packet, with these addresses. The conditions are that `struc`
  -- reads the two commands and the header as they were packed, that the server has a tracker for the
  -- connection, with the announced channel, which is not 0, and that the addresses at the server are
  -- those of the connection, as strings.
  pub confirmed-relays :
      (now later : ℕ) (c : ClientContext) (dialed : Option ℕ) (s : Server) (t : TrackedConnection)
      (p : List ℕ) (local_addr from : UdpAddr)
      → RoundTrips (codec_of env.wire fam) h
      → RoundTrips env.wire.command (announces fam)
      → RoundTrips env.wire.command (confirms fam)
      → lookup_tracker s (source_key env h) (dest_key env h) ≡ some t
      → t.channel ≡ h.channel
      → h.channel ≢ 0
      → env.net.addr_string local_addr ≡ source_key env h
      → env.net.addr_string from ≡ dest_key env h
      → let s' = after (rx_from_client env dialed s (confirmation env h fam)) in
        let c' = rx_from_server env.wire env.net now c (announcement env h fam) in
        let sent : Traffic = record { channel = h.channel; payload = p } in
        ((tx_to_client env s' p local_addr from).tx_to_client_data
          ≡ s'.tx_to_client_data ++ sent ∷ [])
        × ((tx_to_client env s' p local_addr from).tx_to_client ≡ s'.tx_to_client)
        × (rx_from_server env.wire env.net later c' sent
            ≡ send_to_tun c' (record {
              source = (associated h).dest;
              dest = (associated h).source;
              payload = p;
            }))
  confirmed-relays now later c dialed s t p local_addr from body there back has same ne from_source
        to_dest =
      let s1 = on_associate_done env s h in
      let codec = codec_of env.wire fam in
      let reply = (confirms fam).command_byte in
      let (trackers, channels) = on_associate_done-tables env s h t has same in
      let look : String → String → Option TrackedConnection = lookup_tracker s1 in
      let found : look (env.net.addr_string local_addr) (env.net.addr_string from)
          ≡ some (marked t) =
        ap (λ k. look k (env.net.addr_string from)) from_source
        ∙ ap (look (source_key env h)) to_dest
        ∙ ap
            (λ (m : String → String → Option TrackedConnection).
              m (source_key env h) (dest_key env h))
            trackers
        ∙ put_at_self (source_key env h) (dest_key env h) (marked t) (lookup_tracker s) in
      let (sends, keeps) = tx_to_client-tracked env s1 p local_addr from (marked t) found refl in
      let sends_on : (tx_to_client env s1 p local_addr from).tx_to_client_data
          ≡ on_channel s1 h.channel p =
        sends ∙ ap (λ n. on_channel s1 n p) same in
      let at_server = sym (server_reads env h fam dialed s body back) in
      let at_client = sym (client_reads env h fam now c body there) in
      let sent : Traffic = record { channel = h.channel; payload = p } in
      (
        subst
            (λ (o : Outcome).
              (tx_to_client env (after o) p local_addr from).tx_to_client_data
              ≡ on_channel (after o) h.channel p)
            at_server sends_on,
        subst
            (λ (o : Outcome).
              (tx_to_client env (after o) p local_addr from).tx_to_client ≡ (after o).tx_to_client)
            at_server keeps,
        subst (λ c'. rx_from_server env.wire env.net later c' sent ≡ delivered c' p) at_client
            (rx_from_server-data env later _ h.channel p ne ∙ arrives now c codec reply p),
      )
