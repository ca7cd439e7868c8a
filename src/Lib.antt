-- ===== src/Lib.antt =====
-- rpcx: an RPC framework in Go. This library models the core of the protocol and client packages,
-- the server from its registration of services and a connection's bytes to the response and to its
-- shutdown, the plugin containers of both sides, three of the plugins that rpcx brings, and the context
-- of a call.
--
-- Parts, and the files that model them:
--
-- * Messages (protocol/message.go, protocol/compressor.go). `Protocol.Header` has the twelve bytes
--   of `Header` and its accessors, `Protocol.Metadata` has `encodeMetadata` and `decodeMetadata`,
--   `Protocol.Message` has `Message` and `Compressor`. `Protocol.Message.Encode` is
--   `EncodeSlicePointer`, `Write` is `WriteTo` over any writer, `Decode` is `Decode` and `Read`,
--   built from the steps of the source in a monad of state, errors and panics. `Frame` says what a
--   frame is, independently of the code.
-- * The circuit breaker (client/circuit_breaker.go): `Client.Breaker`. Each `time.Now` is an
--   argument, in nanoseconds as natural numbers.
-- * One connection (client/client.go): `Client.Conn` has the table of pending calls and each section
--   of the code that runs under the mutex (`send`, `call`, `SendRaw`, `input`, `Close`),
--   `Client.Conn.Response` has `handleResponse` and `handleServerRequest`, `Client.Conn.Events` has
--   the runs: every order in which these sections may follow one another, with those of `input` at the
--   channel of server messages. `Client.Conn.Account` is about the runs without `SendRaw`, `Client.Conn.Faults` about single sections. `Client.Conn.Send` has `send` as a whole
--   with the request that it builds, and `Client.Conn.Input` has `input`, whose loop has fuel for one
--   round more than the stream has bytes; a round takes one byte at least.
-- * The xclient (client/xclient.go): `Client.FailModes` has `Call` in the modes `Failfast`, `Failtry`
--   and `Failover` over an interface, `XClient`, for the selection of servers, the cache of clients
--   and a client's call. `Client.Cache` fills that interface with `selectClient`, `getCachedClient`
--   and `removeClient`, run one after the other. `Failbackup` is not modelled.
--   `Client.FailModes.Raw` has `SendRaw`, and `Client.FanOut` has `Broadcast`, `Fork` and `Inform`: its
--   steps are those of the caller's loop and of the goroutines, in any order, and `Gather` is what
--   these do before the goroutines start.
-- * The client of several services (client/oneclient.go): `Client.OneClient`, over what making an
--   xclient does and over its calls. `Uniform` is about the settings and `Kept` about the map and
--   the xclient that calls go to.
-- * Selectors (client/selector.go): `Client.Selectors` has the random, the round robin and the
--   weighted round robin selector. `Client.Selectors.Balance` is about one step of the weighted one,
--   `Weights` about its ring and `Turns` about the calls of `Select`. Weights are ints of 64 bits; the
--   theorem on them assumes a total whose square is at most 2^62, so that no sum wraps.
-- * The pool of buffers (util/buffer_pool.go): `BufferPool` has `LimitedPool`, over rounded logarithms
--   that are a parameter. `new_levels` has fuel for each doubling of the size. The buffers that it
--   gives have the length that the theorems on messages ask of the pool.
-- * The server (server/server.go, and the calls of server/service.go). `Server.Handler` has
--   `handleRequest` and `handleRequestForFunction` with `handleError`, `Server.Process` has
--   `processOneRequest` and `sendResponse`, `Server.Conn` has `serveConn` with `readRequest` and
--   `auth`: a round of its loop is a function, and the loop is a relation in which the others (the
--   requests that run, the other connections) may change the state between two rounds.
--   `Server.Process.EndToEnd` and `Server.Conn.Refused` join the server, the wire and the client, and
--   `Server.Process.Rpc` has the whole way of a call, from `send` over the method to its end.
--   `Server.Context` has `Bind`, `Write` and `WriteError` (server/context.go), by which a function of
--   the router answers. `Server.Registry` has the registration of receivers and functions
--   (server/service.go), and `Server.Life` the life of a server and of its connections: `Close`,
--   `Shutdown` and the ends of `serveConn` as steps in any order, and `serveListener` in
--   `Server.Life.Accept`. `Server.LogicSync` has the locks of `WithLogicSync` (server/option.go),
--   which `handleRequest` takes around the call of a service.
-- * The containers of plugins: `Client.Plugins` (client/plugin.go) and `Server.Plugins`
--   (server/plugin.go, errors/error.go) have each of their methods but the server's `MuxMatch`,
--   `Server.Access` the lists of serverplugin/whitelist.go and serverplugin/blacklist.go, and
--   `Server.Alias` serverplugin/alias.go.
-- * The context of a call (share/context.go): `Share` has the tags and the metadata of requests, over
--   a heap of maps that a context may share with its parent.
--
-- A connection reads messages with `Decode` and gives them to `handleResponse` in the client and to
-- `processOneRequest` in the server; `send` and `sendResponse` write what `EncodeSlicePointer` makes.
--
-- What stands for what: bytes are natural numbers below 256, a string is the list of its bytes (the
-- source shares the array between a message and its strings, the model copies), a map is an
-- association list in the order in which `range` goes over it, and a nil map is `none`. A slice has
-- a length and the bytes up to its capacity. A reader is the bytes that it has and the error behind
-- them. Conversions to uint32 and uint64, and additions on them, wrap as in Go; so do the sequence
-- numbers, and the theorems on runs assume fewer than 2^64 calls. `decode_loop` has fuel for one
-- round more than the length of the metadata; a round takes eight bytes at least.
-- `call.done()` is counted, whether or not its channel has room. Where a send blocks on
-- the channel of server messages, the client holds the message, and `input` stands there. The order in which `Go` ranges over a map is that of the
-- list.
--
-- Parameters: the logarithms of the pool of buffers (with what rounding up and down promises), the
-- compressors of the map `Compressors` (with the hypothesis that `Unzip` undoes `Zip`), the buffers of
-- the pool (of the length that was asked for), the writer, the codecs, `ClientErrorFunc`, the `net`
-- package's functions on addresses, the services, `AuthFunc`, the functions of the router, what a
-- selector is wrapped in, breakers and `Connect` in the cache of clients, what reflection tells of a
-- type and its methods, what making an xclient does, `HashString`, and the hooks of plugins, which the
-- server's handlers take as one record.
--
-- Not modelled: logging, tracing, deadlines of connections, what plugins do to the messages of a
-- client's connection, the heartbeat of the client, the strings of `convertRes2Raw`, an error of
-- `Conn.Close`, the xclient's `Failbackup`, `Go`, `Oneshot`, its files and its watch of the discovery,
-- the pools of clients, the other selectors, the server's listeners and its restart, the goroutine of
-- an asynchronous write, panics outside a service, the gateway, discovery and the transports.
pub mod Base
pub mod Protocol
pub mod Client
pub mod BufferPool
pub mod Server
pub mod Share
