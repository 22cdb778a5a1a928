-- ===== src/ClientWorker/Tables.antt =====
-- The two tables of the client, and where its packets go.
use vlite.Base.{
  ℕ, ◌≡◌, ◌≢◌, sym, ap, ◌∙◌, subst, arith, List, [], ◌∷◌, ◌++◌, some, some_eq, ◌==◌, Bool-cases,
  Option-cases, inl, inr,
}
use Prim.Native.String.{String}
use text.Mathlib.Text.{◌==◌ as str_eq}
use text.Mathlib.TextEquality.{eq_iff}
use vlite.Proto.{Net, Wire, Codec, CommandHeader, AssociateHeader}
use vlite.ClientWorker.{
  ClientContext, TrackedAddrKey, UdpPacket, key_of, associated, on_associate, on_channel_destroy,
  forget, rx_data, tx_on, tx_to_server, deliver,
}

-- A channel belongs to the connection whose key leads to it, both ways.
pub record Linked (net : Net) (c : ClientContext) : Type 0 where
  pub to_channel :
      (k : String) (ch : ℕ)
      → c.tracked_addr k ≡ some ch
      → (r : TrackedAddrKey) × (c.tracked_channel ch ≡ some r) × (key_of net r ≡ k)
  pub to_addr :
      (ch : ℕ) (r : TrackedAddrKey)
      → c.tracked_channel ch ≡ some r
      → c.tracked_addr (key_of net r) ≡ some ch

module _ (net : Net) (command : Codec CommandHeader) (codec : Codec AssociateHeader)
    (reply : ℕ) where
  -- An announcement keeps the two tables linked. The conditions are that they are linked before
  -- it, that its channel has no other connection and its connection no other channel.
  pub on_associate-Linked :
      (c : ClientContext) (h : AssociateHeader)
      → ((r : TrackedAddrKey)
          → c.tracked_channel h.channel ≡ some r
          → key_of net r ≡ key_of net (associated h))
      → ((ch : ℕ) → c.tracked_addr (key_of net (associated h)) ≡ some ch → ch ≡ h.channel)
      → Linked net c
      → Linked net (on_associate net command codec reply c h)
  unfolding on_associate
  on_associate-Linked c h own only l = record {
    to_channel = λ k ch has. elim (Bool-cases (str_eq (key_of net (associated h)) k)) [
      | inl same ↦ (
        associated h,
        ground (arith, eq_iff (key_of net (associated h)) k),
        ground (arith, eq_iff (key_of net (associated h)) k),
      )
      | inr other ↦
          let before : c.tracked_addr k ≡ some ch = ground arith in
          let (r, at, is) = l.to_channel k ch before in
          let ne : ch ≢ h.channel = λ e. ground (
            arith,
            own r (sym (ap c.tracked_channel e) ∙ at),
            eq_iff (key_of net (associated h)) k,
          ) in
          (r, ground arith, is)
    ];
    to_addr = λ ch r has. elim (Bool-cases (h.channel == ch)) [
      | inl same ↦ ground (arith, eq_iff (key_of net (associated h)) (key_of net r))
      | inr other ↦
          let before : c.tracked_channel ch ≡ some r = ground arith in
          let at = l.to_addr ch r before in
          ground (arith, eq_iff (key_of net (associated h)) (key_of net r), only ch)
    ];
  }

-- The end of a channel keeps the two tables linked, whether the client knows the channel or
-- not. The condition is that they are linked before it.
pub on_channel_destroy-Linked :
    (net : Net) (c : ClientContext) (channel : ℕ)
    → Linked net c
    → Linked net (on_channel_destroy net c channel)
unfolding on_channel_destroy
on_channel_destroy-Linked net c channel l = elim (Option-cases (c.tracked_channel channel)) [
  | inl unknown ↦ subst (λ o. Linked net (forget net c channel o)) (sym unknown) l
  | inr (q, known) ↦
      subst (λ o. Linked net (forget net c channel o)) (sym known)
        (record {
          to_channel = λ k ch has.
              let before : c.tracked_addr k ≡ some ch = ground (arith, eq_iff (key_of net q) k) in
              let (r, at, is) = l.to_channel k ch before in
              let q_at = l.to_addr channel q known in
              let ne : ch ≢ channel = λ e.
                let same : r ≡ q = some_eq (sym at ∙ ap c.tracked_channel e ∙ known) in
                let key : key_of net q ≡ k = ap (key_of net) (sym same) ∙ is in
                ground (arith, eq_iff (key_of net q) k) in
              (r, ground arith, is);
          to_addr = λ ch r has.
              let before : c.tracked_channel ch ≡ some r = ground arith in
              let at = l.to_addr ch r before in
              let q_at = l.to_addr channel q known in
              ground (arith, eq_iff (key_of net q) (key_of net r));
        })
]

module _ (wire : Wire) (net : Net) (codec : Codec AssociateHeader) (reply : ℕ) (c : ClientContext)
    (h : AssociateHeader) where
  abbrev pub after_associate : ClientContext
  after_associate = on_associate net wire.command codec reply c h

  abbrev pub connection : UdpPacket → TrackedAddrKey
  connection pack = record { source = pack.source; dest = pack.dest }

  associate-found :
      (k : String) → k ≡ key_of net (associated h) → after_associate.tracked_addr k ≡ some h.channel
  unfolding on_associate
  associate-found k e = ground (arith, eq_iff (key_of net (associated h)) k)

  -- After an announcement, every packet whose connection has the announced key as a string
  -- leaves on the announced channel, and nothing else changes.
  pub associate-tx :
      (pack : UdpPacket)
      → key_of net (connection pack) ≡ key_of net (associated h)
      → tx_to_server wire net after_associate pack ≡ record after_associate {
        tx_to_server_data =
            c.tx_to_server_data ++ record { channel = h.channel; payload = pack.payload } ∷ [];
      }
  unfolding tx_to_server tx_on on_associate
  associate-tx pack e =
      ap (tx_on wire net after_associate pack) (associate-found (key_of net (connection pack)) e)

  -- After an announcement, what comes on its channel is delivered as a packet from the
  -- destination of the connection to its source, and nothing else changes.
  pub associate-rx :
      (p : List ℕ)
      → rx_data after_associate p h.channel ≡ record after_associate {
        local_tx_to_tun =
            c.local_tx_to_tun
            ++ record { source = (associated h).dest; dest = (associated h).source; payload = p }
              ∷ [];
      }
  unfolding rx_data on_associate
  associate-rx p = ap (deliver after_associate p) {y = some (associated h)} (ground arith)
