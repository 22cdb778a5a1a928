-- ===== src/Server/Agreement.antt =====
-- The two tables of the server agree: the trackers of the connections, and the table by channel.
pub mod Changes
pub mod Steps
pub mod Track
pub mod Known
pub mod Handlers
pub mod Rounds
pub mod Loops
use vlite.Base.{ℕ, ◌≡◌, true, false, Option, none, some}
use Prim.Native.String.{String}
use vlite.Server.{Env, RemoteAddr, TrackedConnection, new_tracked_connection}

-- `look` gives the tracker of a source and a destination, `remote` the addresses of a channel.
pub record AgreesOn (env : Env) (look : String → String → Option TrackedConnection)
    (remote : ℕ → Option RemoteAddr) : Type 0 where
  -- The channel of a connection stands in the table, with the connection's addresses.
  pub forward :
      (k d : String) (t : TrackedConnection)
      → look k d ≡ some t
      → t.tracking ≡ true
      → (r : RemoteAddr) × (remote t.channel ≡ some r)
        × (env.net.addr_string r.local_addr ≡ k)
        × (env.net.addr_string r.remote_addr ≡ d)
  -- A channel of the table belongs to the connection of its addresses.
  pub backward :
      (ch : ℕ) (r : RemoteAddr)
      → remote ch ≡ some r
      → (t : TrackedConnection) × (look
            (env.net.addr_string r.local_addr)
            (env.net.addr_string r.remote_addr)
          ≡ some t)
        × (t.tracking ≡ true)
        × (t.channel ≡ ch)
  pub idle :
      (k d : String) (t : TrackedConnection)
      → look k d ≡ some t
      → t.tracking ≡ false
      → t ≡ new_tracked_connection
  pub no_zero : remote 0 ≡ none
