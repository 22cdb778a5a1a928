-- ===== src/Server/Dialing.antt =====
-- A dial that fails, in the handlers of Send of workers/server/serverWorker.go: the mutex of the client
-- stays locked.
use Prim.Native.String.{String}
use vlite.Proto.{SendHeader}
use vlite.Server.{Env, Server, Client, new_client, load_or}
use vlite.Server.Control.{source_of}

-- The client of a source, as a handler of Send takes it.
abbrev pub client_of : Env → Server → SendHeader → Client
client_of env s h =
    load_or (new_client (source_of h))
      (s.client_logic_connection (env.net.addr_string (source_of h)))
