-- ===== src/Lib.antt =====
-- VLite carries the UDP packets of a client's network to a server, and the answers back, over one
-- connection. A packet goes with its addresses over the control channel, number 0, until the server
-- has announced a channel for its connection and the client has confirmed it; from then on it goes on
-- that channel with no header.
--
-- The parts, and where they are:
-- - Channel: `ChannelNumberFinder` of workers/channelNumberFinder/channelNumberFinder.go. `find_next`
--   is `FindNext`, `find_next_raw` is `findNextRaw`, `organise` is `organise` with its loop in `scan`.
--   Channel/Scan is about the loop, Channel/Termination and Channel/Clear about the numbers.
-- - Proto: the headers and addresses of proto, with the libraries `struc` and `net` as the records
--   `Wire` and `Net`. Where a property sends a header, it assumes that the header is read as it was
--   packed (`RoundTrips`).
-- - Server: `UDPServerContext` of workers/server/serverWorker.go. Server/Tracking has the association
--   of connections with channels (`isConnectionTracked`, `trackConnectionAnnounceIfPossible`,
--   `untrackConnection`, `untrackAll`), Server/Control the handlers of `RxFromClientWorker` and
--   `txToClient`, Server/Listener `rxFromRemoteListener` as a step for each answer of the socket. Every
--   handler is a function from state to state; a wait for a mutex that is never unlocked is the outcome
--   `blocked`. Server/Agreement and its modules are about the two tables of the server, Server/Reach
--   about runs of it from its start, Server/Confirmed about a connection that the client has confirmed,
--   Server/Locks about mutexes that stay locked, Server/Dialing about a dial that fails.
-- - ClientWorker: `UDPClientContext` of workers/client/clientWorker.go. ClientWorker/Ping has
--   `sendPing`, `pingRoutine` and the boosting of workers/client/boosting.go, ClientWorker/Tables is
--   about the tables of channels, ClientWorker/Pace about the pings.
-- - Handshake: the announcement of a channel through both ends, and in Handshake/Relay the packets that
--   then use it.
-- - Mask: transport/udp/packetMasker: constantXor, polyxor, prepend, layers, presets and masker2conn.
--   Mask/Xor and Mask/Long are about packets that fit the buffer and that do not, Mask/RoundTrip about
--   masking and unmasking.
-- - Fec: transport/udp/errorCorrection. Fec/Facility is reconstruction/reedSolomon (`AddData`,
--   `ConstructReconstructShard`, `AddShard`, `Reconstruct`), with the library as the record
--   `ReedSolomon`; Fec/Rx and Fec/Tx are the loops of assembly/rx.go and assembly/tx.go. Fec/Chunk says
--   what is relied on and what the messages of a chunk are, Fec/Sending and Fec/Sent are about the
--   sender, Fec/Sequence about its sequence numbers and its ring, Fec/Receiving, Fec/Messages, Fec/Recovery and Fec/Reconstruction about the facility of the
--   receiver, Fec/Delivery, Fec/Completion, Fec/Seen and Fec/Arrivals about what it delivers, and
--   Fec/Transfer about both ends.
-- - Filter: transport/filteredConn/conn.go, the control channel and the data channels on one
--   connection. Filter/Channels has the two queues that it promises, Filter/Boosts its requests for
--   boosting.
-- - Http: transport/http. Http/Wrapper is wrapper/PacketWrapper.go, packets as frames in a stream, and
--   Http/Frames about both directions of it; Http/Holder is headerHolder/header.go; Http/Admission is
--   `ServeHTTP` and `parpareforconnection` of httpServer/server.go, and Http/Replays and Http/Refusals
--   are about requests that come again.
-- - Uni: `onConnection` of transport/uni/uniserver/connin.go, the table of connections that outlive
--   their carriers. Uni/Carriers and Uni/Refusals are about carriers that come again.
-- - Replay: transport/antiReplayWindow/noReplay.go, with the cuckoo filter as a parameter.
--   Replay/Guards is about tables in which every connection has a window, which Uni and Http share.
-- - Armor: transport/udp/packetarmor/packetarmor.go, with the cipher as a parameter. Armor/RoundTrip is
--   about both ends.
-- - Base: the names that the other modules share. Tests: examples, with concrete libraries in
--   Tests/Sample.
--
-- A uint16 is a number below 65536, with its wrap-around written out. A Go channel is the list of what
-- was sent on it and not yet received; a send without waiting needs room in that list. Fuel: `scan`
-- has 65536 rounds, more than the 65535 numbers below its end; `find_next_raw` has three levels;
-- `mask_reads` has one round more than the packet has bytes; `receive_packets` has a round for each
-- message, `read_all` one for each packet and one more, and `passes` one for each parity shard that an
-- epoch sends.
--
-- What is not modelled: the client of HTTP, the start of listeners and the pumps between channels and
-- connections, which are calls of libraries; how many parity shards an epoch releases, which is
-- computed with floats and is an argument; the clients and carriers of the unified transport and the
-- UDP transport; the SCTP relay, the commands and front ends, and vendored libraries. Goroutines that
-- run at once are steps one after the other; a handler is one step.
pub mod Armor
pub mod Base
pub mod Channel
pub mod ClientWorker
pub mod Fec
pub mod Filter
pub mod Handshake
pub mod Http
pub mod Mask
pub mod Replay
pub mod Proto
pub mod Server
pub mod Tests
pub mod Uni
