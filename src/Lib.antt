-- ===== src/Lib.antt =====
-- GoRedis, a server that speaks the Redis protocol: the parts of its core that these modules describe,
-- and what is shown of them.
--
-- The program. A connection's bytes are parsed to commands (internal/protocol/resp.go). Each command
-- passes executeWithTransaction (internal/handler/pipeline_executor.go), which controls transactions
-- (pipeline_transaction.go, transaction.go), queues a command inside one and runs it otherwise, and then
-- marks the transactions that watch a key it wrote. A command that runs acts on the store
-- (internal/storage). In cluster mode a node serves the keys of its own hash slots and sends clients to
-- the other nodes for the rest (internal/cluster).
--
-- The files.
-- Prelude and its children: what the parts share. A Go string is the list of its bytes, a Go map an
-- association list, whose order stands for the order of an iteration that Go leaves open; `int` and
-- `int64` are integers with the wrap-around written out; decimal numerals as strconv and fmt print and
-- read them.
-- Protocol: Encode and Parse are internal/protocol/resp.go, function by function (ParseCommand is
-- parse_command, EncodeArray is encode_array). A reader is a function from the bytes still to come to a
-- result with the bytes left, or an error. Complete is HasCompleteCommand, with an index into the buffer
-- as the bytes from it on and a panic as `none`. Grammar says which bytes make up a command, apart from
-- the parser. Grammar.Reading, Grammar.Parsing, RoundTrip, Inputs and Inline hold the theorems.
-- Transactions: Manager is TransactionManager of internal/handler/transaction.go, each method a function
-- on its two maps; WriteKeys is GetWriteKeys with the tests on command names; Handlers is
-- pipeline_transaction.go, over the state Server: the manager, the store, and the commands handed to the
-- log. Executor is executeWithTransaction with the handlers of SUBSCRIBE and its relatives in
-- pubsub_handlers.go, over the Client with its pub/sub mode as well. What a command does to the store is
-- the parameter execute, what the processor answers to a subscription the parameter processor, and what
-- a blocking command does the parameter blocking, of which one theorem assumes that it keeps the index.
-- A command does not change the manager while it runs; in the source a push that serves a BLMOVE also
-- touches the destination of this one. Index says when both maps agree. Sessions specifies the manager
-- by what each client sees of it. Views, Exec, Queueing, Watchers and Modes hold the theorems.
-- Cluster: Table and Slot are internal/cluster/slot.go, Node and Ranges node.go, Redirect redirect.go.
-- Nodes are pointers into a heap, since MySelf is also an entry of Nodes; a panic is `none`. Tags,
-- Counted and Changes hold further theorems.
-- Storage: Store and Strings are internal/storage/store.go and string_ops.go, Scan its parseInt64,
-- Seconds the float64 arithmetic of its TTL (Duration.Seconds), Hashes is hash.go and hash_ops.go, Sets
-- and Combine are set.go and set_ops.go. A value holds an address in a heap, which a snapshot shares
-- with the store; `now` and `later` are readings of the clock in nanoseconds, in the order in which the
-- code takes them. Linked and its children Edit, Search, Removal and Backwards are the doubly linked
-- list of list.go, with its nodes at addresses of the list; Lists and Lists.Edits are list_ops.go, where
-- the value of a key is the address of a list. Their other children hold the theorems: Chain says what
-- it means that a list holds a sequence, Sequence and Calls what its methods mean there, Holding and
-- Commands the same for the commands on a key. Bitmaps with Counting and Operations is bitmap.go; its
-- other children hold the theorems. PubSub.Trie, PubSub.Topics and PubSub.State are pubsub.go; what
-- regexp makes of a pattern and the room in a subscriber's Go channel are parameters, compile and room.
-- The other children of PubSub hold its theorems. Seconds.Exact, Expiry, Schedule, Operations, Counters,
-- Keeps, Snapshot, Membership, Adding, Removing and Fields hold the theorems.
--
-- Bounds and fuel. The parser recurses on the number of elements that the header announces and on the
-- bytes, the printing of a number on fuel above it, which is enough since each digit takes a tenth. All
-- other loops are structural, or follow the pointers of a list on its length as fuel, which is enough
-- since a list has as many nodes as its length says. The rounds of CleanupExpiredKeys, which a deadline
-- ends in the source, are a list with each round's clock and sampled keys. The binary digits that Seconds
-- counts have fuel 128: its numbers are below 2^117, since a duration is below 2^63 nanoseconds. The
-- number of snapshots held at once, an int32 in the source, is not bounded here.
--
-- Not modelled: other floating-point operations (HINCRBYFLOAT, the estimate of a HyperLogLog, geometry);
-- sorted sets and Bloom filters of the store; the handlers that parse arguments; the files of AOF and
-- RDB, replication, Sentinel and Lua; goroutines and timeouts. The queued commands of an EXEC follow
-- each other here without a command of another client between them, which the source does not prevent.

pub mod Prelude
pub mod Protocol
pub mod Transactions
pub mod Cluster
pub mod Storage
