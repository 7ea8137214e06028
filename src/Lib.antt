-- ===== src/Lib.antt =====
-- memcore: a verification development for the in-memory data store of this repository.
--
-- The server reads RESP requests from a connection (internal/resp), resolves each in a table of
-- commands (internal/command), locks the shards of its keys (internal/shard), runs the handler over the
-- keyspaces (internal/keyspace), whose values are strings and collections with a compact and a full
-- encoding (internal/value), appends each write to a log (internal/persistence) and replays the log at
-- boot. A background cycle (internal/expiry) evicts keys whose deadline has passed.
--
-- Where each part is:
--   Base          numbers, lists, byte strings, and what the code uses of Go: maps (`GoMap`), varints of
--                 encoding/binary (`Varint`), decimal text of strconv (`Decimal`), integers (`Int`).
--   Value         internal/value: `Limits` (limits.go and normalizeRange of value.go), `Pack` (pack.go),
--                 `Lists` (list.go), `Set` (set.go), `Hash` (hash.go), `Union` (value.go; the payload of
--                 sorted sets is a parameter). A pointer method is a function that returns the new record;
--                 `none` is a panic. `Holds s m` says that a set or hash stands for the map `m`, or a list
--                 for its elements. The linked nodes of a list (`Lists.Nodes`) stand in a store of their
--                 own, at addresses.
--   Keyspace      internal/keyspace: the entries, the TTL index and every method, generic in the value.
--                 `IsValid k` is the invariant that the index lists every key with a deadline.
--   Shard         internal/shard: `Db`, its data methods, `ExpireCycle`, `Unlink` and `shardSet`.
--                 `IsSharded db` says that there is a shard and that each shard is valid.
--   Expiry        internal/expiry: one cycle over the databases.
--   Resp          internal/resp: `Reply` (reply.go), `Writer` (writer.go), `Reader` (reader.go), and
--                 `Fields` for bytes.Fields of inline requests.
--   Persistence   internal/persistence: `Stream` and `Values` (the byte and value codecs of codec.go), `Log`
--                 (writeCommand and readCommand of appendlog.go), `Segments` (replaySegment of recover.go),
--                 `Snapshot` (snapshot.go), `Store` (Store of appendlog.go and Recover of recover.go).
--   Command       internal/command: the entries of the table and their keys (command.go), `Registry`
--                 (registry.go; `Spellings` of a name), `Session` (Context), `Strings` (strings.go),
--                 `Lifetimes` (keys.go), `Hashes` (hashes.go), `Sets` (sets.go), `Lists` (lists.go; `Counts`
--                 for what the arguments of a pop ask for), `Loops` for the counting loop that four of
--                 their handlers share, and `Tables` (the tables of these five files).
--                 In the table the handlers are an open type. `Replays` is about handlers that run again.
--   Server        internal/server: emitRecords, recover and its callbacks (server.go), persistArgs (conn.go).
--   Config        internal/config/settings.go: Get, Set and All behind CONFIG GET and CONFIG SET, and the
--                 documented parameters as a client knows them (`Parameters`).
--
-- How code becomes definitions. A Go []byte or string is a list of numbers; a map is an association
-- list without repeated keys, in one of the orders in which `range` may visit it. A `time.Time` is
-- an instant in nanoseconds from the Unix epoch, and the clock is the argument `now`, with a second
-- one in EXPIRE and TTL, whose handlers read the clock beside the keyspace. maphash is the
-- parameter `hash` from keys to numbers, and the stream below a writer is the parameter `sink`. A
-- reader works on the bytes that are left, so the boundaries of packets do not show. A stretch of
-- code behind a computed value is a helper that takes that value, such as `add_scanned` of `add`. A
-- collection is changed through the pointer in its entry: `write_value` of a keyspace puts the new
-- value into the entry, with its deadline and the index as they were. A data directory is the bytes
-- of its files; `InstallSnapshot` is the list of its calls, and a crash leaves a front of them
-- done. The buffer of the log's writer keeps all that is appended until it is flushed. What the
-- value codec uses of a sorted set is the record of operations `ZSets`; `can_make` stands for the
-- capacities that Go's `make` can allocate.
--
-- Bounds and fuel. `each_elem` takes the length of the pack for fuel, since an element takes a byte or
-- more, and `last_elem` likewise. `replay_loop` and `load_loop` take a round for each byte of the file and
-- one for its end. `read_chunks` takes a round for each byte of the body. `keys_from` takes a round for each
-- index. `max_alloc`, 2^48, is what one `make` can take on a 64-bit machine; beyond it `make` panics.
--
-- Not modelled: sorted sets (internal/value/zset.go), their handlers and those of the server's own commands;
-- dispatch and execution of a command in internal/server/conn.go; errors of the file system; boot
-- configuration, metrics; locks, goroutines and sockets; client libraries.
pub mod Base
pub mod Value
pub mod Keyspace
pub mod Resp
pub mod Persistence
pub mod Shard
pub mod Server
pub mod Command
pub mod Expiry
pub mod Config
