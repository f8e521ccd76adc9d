-- ===== src/Lib.antt =====
-- golinker, an RDMA transport in Go: a model of its core and theorems about it.
--
-- The program frames messages (pkg/message), keeps registered buffers (pkg/buffer), polls
-- completion queues and dispatches what they yield (pkg/cq), connects these in connections and
-- their manager (pkg/connection), and serves them (pkg/server), under a checked configuration
-- (pkg/config). The connections of the device are set up and torn down by internal/rdma. A Send
-- takes a buffer from the send pool, packs the message or a batch of messages into it, and posts
-- it; the completion of the post returns the buffer. A receive completion unpacks the batch and
-- queues its messages.
--
-- Which file models which part:
-- - Base, Errors and Go hold what all parts share: lists and tests over the native numbers, Go's ways
--   to end a call (a value, an error, a panic), buffered channels, maps, slices, machine words, and
--   calls that change a state.
-- - Api: the structs and enumerations of api/*.go.
-- - Message/Bytes, Message/Wire: encoding/binary and pkg/message/wire.go (EncodeCmdHeader ..
--   BatchSize). Message/Encoding, RoundTrip, Parse and Overrun are its
--   theorems.
-- - Message/Transport: what the senders take from api.SendBufferPool and api.Connection.
--   Message/Aggregator is pkg/message/aggregator.go, with its theorems in Flush, Stream
--   and Faults, and Message/Immediate is pkg/message/immediate.go.
-- - Buffer/Pool, Buffer/SendPool, Buffer/RecvPool: pkg/buffer/pool.go, send_pool.go, recv_pool.go. The
--   calls that allocate and register memory are a log of effects. Theorems: Pool/Lifecycle,
--   Pool/Construct, SendPool/Inv, SendPool/Start, RecvPool/Account.
-- - Cq/Channel, Cq/Dispatch: the two handlers of pkg/cq/dispatcher.go; Cq/Poller and Cq/Pool:
--   pkg/cq/poller.go, by rounds, and pkg/cq/pool.go. Theorems: Poller/Rounds, Poller/Parking,
--   Pool/LeastLoaded. Pool/Start: NewPool, with Start/Undo. As steps of the goroutines:
--   Poller/Waiter, a waiter and its queue, with theorems in Poller/Wakeup; Poller/Lifecycle, Start to
--   Close, with Poller/Hangs; Poller/Notify and Poller/Fallback, the loops for queues without a
--   channel.
-- - Config: pkg/config/config.go; Config/Valid and Config/PowerOfTwo are its theorems.
-- - Connection/Conn: pkg/connection/conn.go over the send handler and the pools; Connection/Manager:
--   pkg/connection/manager.go and cm_events.go. Theorems: Conn/State, Conn/Sending, Conn/Receiving,
--   Manager/Events, Manager/Closing. Conn/Outgoing gives the connection over the send pool to the
--   aggregator as its transport, and Conn/Outgoing/Refused has a Send that is refused.
-- - Server: pkg/server/server.go. Server/Steps: the accept loop, the handlers and Stop as interleaved
--   steps, with theorems in Server/Shutdown. Server/Serve: the loop of handler.go. Server/Spin: the
--   rounds of accept.go over the connection manager.
-- - Rdma/Ledger, Rdma/Cm: internal/rdma/real_cm.go over the C calls, with a log of what is taken
--   and of the cleanup calls. Rdma/PingPong, Rdma/DataPath: pingpong.go. Theorems: Rdma/Undo, Rdma/Release,
--   Release/Listen.
-- - Rdma/Events: getCMEvent, GetEvent, AckEvent and Disconnect of real_cm.go, and mapCMEventType of
--   cm.go, with theorems in Events/Wait.
-- - Rdma/Dial: dial.go and conn.go of internal/rdma, from Dial to Close.
-- - Rdma/Listener: Accept of internal/rdma/listener.go, with theorems in
--   Listener/Handout and Listener/Acks.
-- - Rdma/Verbs: real_verbs.go and what it calls of verbs.go, over the C calls: RealVerbs and its
--   completion queues. Verbs/Queue: RealQP and the posts on it. Theorems: Verbs/Owned, Verbs/Close,
--   Verbs/Channel and Verbs/Agrees, over what libibverbs documents, in Verbs/Laws.
-- - Rdma/Completions: PollCQ without reposts and pkg/cq/pollfunc_real.go, with its theorems in
--   Completions/Codes.
-- - Rdma/Echo, Rdma/Sink: runEchoLoop and runSinkLoop of cmd/golinker-bench/server.go, with theorems
--   in Echo/Answers and Sink/Balance.
-- - Bench/Limiter: cmd/golinker-bench/ratelimit/limiter.go. Theorems: Limiter/Bounds, Limiter/Burst.
-- - Bench/Client: cmd/golinker-bench/client.go. Theorems: Client/Balance, Client/Release.
-- - Bench/Compare: cmd/golinker-bench/comparison.go, with Compare/Regression. Bench/Counters:
--   rdma_counters.go and resources/resources.go of it, with Counters/Peak.
-- - Tests: the theorems at concrete inputs.
--
-- State and calls. Each type that the program mutates is a record, and each method a function from
-- the record to its result and the record after it; a method under a lock is one step. A connection
-- manager owns its connections in a heap by id, so that its two tables share them. Code outside the
-- repository (verbs, the connection manager of the device, the operating system, YAML, the clock) is
-- a parameter, and so are the poll function, the memory of a buffer, and user callbacks.
--
-- Numbers. Go's `int` in the configuration is an integer, sizes and counts are natural numbers;
-- atomic counters wrap at 2^32 or 2^64. The operations of float64 are those of the machine, a parameter
-- (Go/Float) with the laws of IEEE 754 that the limiter needs.
--
-- Fuel. The loop of UnpackBatch runs at most `length` rounds, of which each takes 12 bytes at
-- least, and the result is shown never to be that of spent fuel. The other loops have a bound on
-- their rounds as an argument: for the loop of handleConn, one round for each message and one for
-- the end are shown to be enough; for the polls of a queue and the echo loop, the theorem says how
-- many are; for getCMEvent, as many as its context has left. The accept loops and the draining loop
-- of a poller are followed for any number of rounds.
--
-- Not modelled: busyPollLoop, which repeats pollOnce; CreateQP, the memory regions, the reposts and
-- the batches of internal/rdma, which pass their arguments to one C call, and the mock build of it;
-- the command line programs but for what Bench, Rdma/Echo and Rdma/Sink have;
-- the packages health, metrics and util are empty. The cleanup calls of internal/rdma are logged
-- whether or not the device refuses them. How many rounds Wait of the limiter takes depends on the
-- rounding of float64 and is not shown. Completion queues are numbers and never nil. The
-- addresses that Close of a pool clears stay in buffers on loan.
pub mod Base
pub mod Errors
pub mod Go
pub mod Api
pub mod Message
pub mod Buffer
pub mod Cq
pub mod Config
pub mod Connection
pub mod Server
pub mod Rdma
pub mod Bench
pub mod Tests
