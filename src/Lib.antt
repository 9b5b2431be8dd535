-- ===== src/Lib.antt =====
-- oxicache is a cache server: a sharded S3-FIFO cache in memory, spoken to over a binary protocol,
-- and a client that spreads keys over several servers by a consistent-hash ring. This library models
-- its core. Sources are named by their paths from the repository's root.
--
-- The wire format (crates/wire/src/lib.rs) is in Wire: Wire/Tags has the request and response tags,
-- Wire the headers and SET bodies (encode_header, decode_header, set_body), Wire/Encoder the
-- BatchEncoder, Wire/Frames the validation of a batch body and its iterator (frames, next,
-- decode_replies). Wire/Items describes a body independently, as a count and its items, and
-- Wire/Building, Wire/Parsing and Wire/Walked relate the two. Bodies are lists of bytes as numbers;
-- the lengths that go into 32-bit fields are reduced as the casts do.
--
-- The buffered streams (crates/wire/src/io.rs) are in Io. Io/Reader is FrameReader: its buffer, the
-- capacity of that buffer, the accepted length, the length awaited and the frame lent out. What an
-- allocation or `reserve` gives is a parameter, Allocator, that gives at least what is asked. The
-- loop of a connection is `run` in Io/Reader/Chunks; its fuel is the length of the buffer, and a frame
-- takes five bytes. Io/Writer is FrameWriter: its buffer, the queued pieces, marks for frames whose
-- length comes last, and `flush`, where what each vectored write takes is a parameter. The fuel of a
-- flush is the length of the queue, and each write takes a byte. `tune_allocator` is not modelled.
--
-- The cache (crates/server/src/cache) is in Cache. Cache/Shard is a shard of s3fifo.rs: its queues,
-- its ghost list, its budget, and the frequency and liveness of the entries by the address of their
-- allocation; set, get, del, touch, eviction and compaction. One writer at a time holds the shard's
-- mutex, so writes are sequential; the reads of other threads between the steps of a write are not
-- modelled, nor are reference counts and the epoch collector. The loop of `set` has fuel for each
-- entry of the queues, twice for the small one, and the rounds of `evict_main` have fuel for the
-- frequencies that they lower. The index (table.rs) is there a record of operations without laws,
-- Cache/Index, and Cache/Index/Listed is a list to run it with. Cache/Table is the cuckoo table of
-- table.rs itself: a function from positions, a bucket and a slot, to words, and the entries at the
-- addresses in them; lookup, placement with its displacement walks, removal, growth and insertion.
-- Its readers are single steps, so the sequence number that they check is left out. An insertion has
-- fuel for its attempts to grow, which nothing bounds in the source. Cache/Store is mod.rs: the shards,
-- the batch calls, the counters and the thread-local count of retired entries. Cache/Slab is slab.rs:
-- size classes, free lists, magazines.
--
-- The client (crates/client-rs/src) is in Client: Client/Ring is ring.rs, Client/Health the failure
-- policy of cluster.rs as steps on one word that calls of several tasks interleave, Client/Cluster
-- the choice of a server and the merge of batch replies, Client/Cluster/Batch its batch call: the
-- routing, the shares and the replies in the order in which they land. What a server answers is a
-- parameter. Client/Outcome is how lib.rs indexes and reads the replies to a batch, Client/Link its
-- supervisor of a connection (current, recover, the Backoff), where what an attempt to connect comes
-- to is a parameter, Client/Link/Call its call, where what the sendings come to is one, and
-- Client/Replies its read_loop, over the reader of Io. The fuel of a burst is the length of the buffer.
--
-- The server's connection loop (serve_connection of crates/server/src/tcp.rs) is in Server/Connection,
-- over the reader and the writer of Io. What a request does is a parameter there. The fuel of a burst
-- is the length of the buffer. Server/Dispatch is `dispatch` and `batch` of the same file over the
-- cache and the writer; its fuel is the number of items, and a run takes at least one. The wording of
-- refusals is a parameter, and Server/Dispatch/Alone has the reference that answers each item of a
-- batch by itself. Server/Http is `handle` of crates/server/src/http.rs over `dispatch`: the paths, the
-- bearer token, the methods and the codes; how hyper reads a body under its limit and the text of the
-- metrics are parameters.
--
-- Not modelled: readers that interleave with the writer of a shard, the client's write_loop, the
-- accepting of connections, configuration, metrics, TLS and the command line client.
--
-- Common has the lists, options, bytes and tests on numbers that the other modules share. The tests
-- of each part, Wire/Tests, Io/Tests, Cache/Tests, Client/Tests and Server/Tests, run it on small
-- inputs.
pub mod Common
pub mod Wire
pub mod Io
pub mod Cache
pub mod Client
pub mod Server
