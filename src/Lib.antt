-- ===== src/Lib.antt =====
-- chat-libp2p: the chat client's protocol and storage.
--
-- A client sends frames over libp2p streams, one cached stream for each remote peer, and two protocols,
-- text and image, exchange requests and responses in their payloads. What arrives and what is sent is
-- kept in a bbolt database: peers, one dialogue for each peer, what is still to be sent, what was
-- received, and when a message is to be destroyed.
--
-- The files and what they model:
--   Frame      internal/common/protocol/frame.go: `encode` and `decode` are Encode and Decode.
--   Reader     internal/common/protocol/reader.go: `read` is Read, over the bytes that a connection
--              delivers before it ends. Its loop runs on fuel, as many steps as the payload has bytes,
--              which is enough since each step takes at least one.
--   Payload    what text/types.go and image/types.go share.
--   Text       internal/common/protocol/text/types.go: FrameBytes, Decode and parse of four actions.
--   Image      internal/common/protocol/image/types.go: the same of six actions.
--   Streams    internal/common/xrmmgr.go: `handle`, `end_loop` (the deferred part of readLoop),
--              `get_stream` (GetStream) and `connected` (Connected). What other goroutines do between
--              two locks, and while a peer is dialled, is an argument. Streams/ReadLoop has the loop of readLoop, over the bytes of
--              one stream, on fuel for one frame more than the stream carries. Streams/Write has
--              WriteWithContext, on the length of the data as fuel, since each chunk has a byte at least;
--              Streams/Sending what every protocol does to send a frame, with its second try.
--   Exchange   internal/common/protocol/text/text.go and image/image.go, one model over a record of what
--              each uses of its actions: handleMeta, handleData and Request.
--   Identify   internal/common/protocol/identify/identify.go, over the same table of waiting requests.
--   Database   internal/client/service/service.go over bbolt, which is a parameter with the documented
--              laws that the code relies on. Database/Table is a database in memory that meets them.
--   Peers      internal/client/service/peer.go and model/peer.go. The gob encoding is a parameter. Peers/Locks
--              has the locks of Save, a step relation in which any calls take turns (`next_step`).
--   Messages   internal/client/service/message.go and model/message.go: the transactions. Messages/Files
--              has the handlers that work on image files, over a file system that is a parameter;
--              Messages/Receive the loop that takes requests; Messages/Ordering the goroutines of AsyncSend
--              from a request to the transaction at its end, Messages/Claims which of them run at a time;
--              Messages/Timer the destroy loop with its ticker.
--   Probe      internal/client/service/probe.go and the heartbeat of
--              internal/common/protocol/heartbeat/heartbeat.go: the statuses of a run; Probe/Runs has the
--              locks and contexts by which Run and Stop end an earlier run, as steps of any calls.
--   Client     internal/client/client.go and route.go: PeerList, SendText, SendImage and FindPeer. The sort of
--              Go's library is a parameter. Client/Runs is Run: what it opens, closes and announces.
--   Server     internal/server/server.go: Run, connectBootstrap and the announced addresses.
--   Deferred   what both runs share: opened resources, `defer` and early returns, and the resource manager,
--              whose Close is not deferred.
--   Mobile     cmd/client/mobile/main.go: linked objects, Fetch and Delete of a session; Mobile/Calls has the
--              lists of peers, Send and the calls passed on, Mobile/Sdk the notifiers, the sessions, the
--              events and the calls of Init, as acts in any order, Mobile/Pump what makes the events,
--              Mobile/Starting what Init returns. A walk has as many steps as there are objects; twenty digits print every 64-bit number.
--   Desktop    cmd/client/pc/main.go: the loop over commands. The SDK's answers are a parameter.
--   Config     internal/client/config.go: the key, the Ethereum address and the directories. The curve and
--              the hash are parameters.
--   Chat       two peers: what the network delivers or loses of one's requests, the other's answers, and
--              the answers of others that Request takes for them.
--   Common     the shared names, lists, byte slices, maps and Unix paths.
--   Examples   the theorems at concrete inputs.
--
-- Bytes are native numbers; a function that reads bytes does not assume that they are below 256 unless a
-- theorem says so. A panic of the Go runtime is `none` or `panicked`. `alloc` is the largest slice that
-- the runtime makes. The clock is an argument, in nanoseconds.
--
-- Not modelled: the upload of log lines (cmd/client/mobile/main.go), the printing of answers
-- (cmd/client/pc/main.go), the options of libp2p, the calls of a client that are only passed on and Dump
-- (internal/client/client.go), the relay server's configuration file and signals
-- (internal/server/config.go, cmd/server), JSON, the database file and the logger, which are network, file
-- and terminal I/O or calls of libraries.
pub mod Common
pub mod Frame
pub mod Reader
pub mod Payload
pub mod Text
pub mod Image
pub mod Streams
pub mod Exchange
pub mod Identify
pub mod Database
pub mod Peers
pub mod Messages
pub mod Probe
pub mod Deferred
pub mod Server
pub mod Client
pub mod Mobile
pub mod Desktop
pub mod Chat
pub mod Config
pub mod Examples
