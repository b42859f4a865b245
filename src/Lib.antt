-- ===== src/Lib.antt =====
-- gRPCat, a transparent gRPC proxy with a middleware chain, as definitions that run, and the
-- theorems about them.
--
-- The program. A unary or streaming RPC reaches the proxy's handler with its raw frames. The handler
-- splits the path `/service/method` (parser), takes a context from a pool and runs the middlewares
-- over it (middleware), and either answers with the response a middleware has set or forwards the
-- stream to the backend that was chosen, over a connection of the cache (proxy). The command reads
-- the flags, builds the TLS settings and installs a logging and a routing middleware (cmd/grpcat).
--
-- Base: results with errors and panics, lists and lengths over native numbers, Go's int as ℤ, text
--   as lists of code points with what the code uses of package strings, maps as association lists.
-- Parser.Packet: parser/packet.go, ParseGRPCMessage, EncodeGRPCMessage and
--   ParseGRPCMessageFromReader. `Packet.Words` has the 32-bit conversions. A length that the encoder
--   writes wraps at 2 ^ 32 and the parser's sum at 2 ^ 64, as written in the code.
-- Parser.Path: parser/grpc.go, ParseGRPCPath and FormatGRPCPath; `Path.Calls` has the type of the
--   calls and that of their paths.
-- Middleware.Context: middleware/context.go but for Next and the constructors. A context is a
--   `State`; metadata.MD is the interface `Metadata` of grpc's documented operations, which
--   `Metadata.Pairs` fills with a list of pairs, for runs on concrete input.
-- Middleware.Chain: Context.Next and the handlers it calls. A handler is a tree of the calls it
--   makes on its context, Next among them, so that any nesting of Next can be written down. The loop
--   runs on fuel, one more than the length of the chain; `Fault` has the two outcomes, no fuel left
--   and an index out of range, that are shown not to happen. abortIndex is math.MaxInt >> 1 on 64
--   bits, and chains are taken to be no longer than that.
-- Middleware.Pool: middleware/pool.go with NewContext and reset. What a sync.Pool keeps or drops is
--   left open. `Pool.Shared` has the contexts as objects in a heap, to which the pool and the RPCs
--   hold pointers, and many RPCs that acquire, write and release in any order.
-- Proxy.Cache: proxy/cache.go. Entries are pointers into a heap, since a stream goes on with its
--   entry after the map has lost it. getEntry is its two locked sections, and `Pinning` interleaves
--   those, the increment of inFlight, both steps of a release, the loads and evictions of sweeps,
--   Remove and Close, one atomic step at a time; a sweep holds the lock that getEntry waits for.
--   `Racing` has one entry and one sweep over it, each reading of the clock and each load and store
--   of the two atomics a step of its own, between the steps of the callers. grpc.NewClient and the state
--   of a connection are arguments.
-- Proxy.Config: Config of proxy/server.go; the types of grpc that it holds are the record `Grpc`.
-- Proxy.Cache.Backends: the same cache as a map from backends to connections, without pointers,
--   order or evicted entries; its operations are the specification of those of the cache, in
--   `Refinement`.
-- Proxy.Mem: the interface of grpc's package mem that frames rely on, buffers with counted
--   references; `Mem.Counted` fills it with functions from buffers to counts.
-- Proxy.Codec: proxy/codec.go over that interface. `Codec.Ownership` is any sequence of what the
--   codec does to a frame, `Codec.Pumps` the sequence of a pump of the forwarder.
-- Proxy.Forwarder: proxy/forwarder.go. What acquire, NewClientStream and SendMsg return is given to
--   `start_forward`. `Streams` is the rest of Forward: the two goroutines and the select loop take
--   steps in any order, Header, RecvMsg and SendMsg failing at any time and the context ending at any
--   time; a stream gives finitely many messages before it ends.
-- Proxy.Server: proxy/server.go. The handler of TransparentHandler is given the path, the metadata
--   and the first frame of an RPC, and gives the call of Forward, or the error it ends with.
--   `Server.Snapshots` is Use and snapshotMiddlewares on Go's slices, which share their arrays.
--   `Server.Pooled` relates the handler to what others have left in the pool.
-- Proxy.Serving: that handler with Forward, the cache and the first frame, and their deferred calls,
--   for one RPC; the answers of the libraries are the record `Environment`.
-- Proxy.Lifecycle: Start and Stop of proxy/server.go and the signals of cmd/grpcat/main.go. Serve,
--   the goroutine that watches the context, the callers of Stop, the RPCs, the sweeper and the
--   signals take steps in any order. GracefulStop returns when no RPC is left, and Serve when the
--   server is stopped.
-- Proxy.Running: that life of the server and the cache under concurrent use in one system. An RPC
--   holds at most one entry of the cache, and ends only behind the release that it has deferred; a
--   sweep is one step.
-- Cmd: cmd/grpcat/main.go (the flags' TLS settings, parseRoute, and main up to
--   server.Start in `Startup`) and cmd/grpcat/middlewares. The functions that load certificates are
--   arguments. `Startup.Forwarding` follows an RPC from the flags to the call of Forward, and
--   `Output` has the lines that main prints on its way to the server; a line is a datum that says
--   what the line says.
--
-- Not modelled: the sockets, the logger and the flag package, which the source only calls; the Go
-- scheduler and memory model below the atomic steps; the handler's deferred call of
-- ReleaseContext, which `Pool.Shared` takes as an action of the RPC, and the methods that only
-- give a field or a constant text.
pub mod Base
pub mod Parser
pub mod Middleware
pub mod Proxy
pub mod Cmd
