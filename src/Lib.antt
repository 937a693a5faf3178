-- ===== src/Lib.antt =====
-- A verification library of farsight, a scanner that looks for game servers: which address and port
-- to probe next, the queue between the threads, the answers to what the hosts send, and the
-- protocol of the servers.
--
-- The program. A feeder asks the address strategy for addresses and pushes probes into a queue;
-- scanners steal batches from it and send SYN packets; a responder per receive ring answers the
-- hosts' packets, collects the data of a connection until the parser accepts it, reports the result
-- to the strategies, and expires connections. Paths are from the repository's root.
--
-- The parts, by file, with the functions of the source that they translate:
--   Range            farsight/src/net/range.rs: `exclude`, `compile`, `index`
--   LazyHeap         farsight/src/controller/strategy/pmap/heap.rs: `top`, `pop`, `query`, `update`
--   PrefixState      farsight/src/controller/strategy/pmap/graph/prefix.rs: the bitmap of a /24
--   IpAdapter        farsight/src/controller/strategy/ip/pmap.rs: `next_address`, `on_result`
--   PortAdapter      farsight/src/controller/strategy/port/pmap.rs with pmap/graph/banner.rs: the pool of
--                    states, `generate`, `on_result`, `expire`
--   Deque            farsight/src/controller/deque/: `push` and `resize`; Deque/Stealer: `steal` and
--                    `steal_batch`, in four steps that interleave with all others
--   Responder        farsight/src/controller/responder.rs: the handlers of segments, the reorder
--                    buffer, the expiry; Responder/Types has the data and the interface of the traits
--   Minecraft        farsight/src/controller/protocol/minecraft.rs: numbers, request, parser
--   Feeder           farsight/src/controller/feeder.rs: `tick`
--   Writer           farsight/src/controller/session.rs: the loop that writes the hits to the database
--   ExcludeFile      farsight/src/exclude.rs: the parser of the excluded ranges
--   Xdp              farsight/src/xdp/ring.rs: producer and consumer; Xdp/Producer and Xdp/Consumer have the
--                    steps of the kernel beside theirs
--   Receiver         farsight/src/controller/receiver.rs: `receive` and the guard of a batch
--   Tcp, Sender      farsight/src/net/tcp.rs, farsight/src/controller/sender.rs: the template, the sums, and
--                    the four ways to send; Responder/Cut cuts a frame on the other side
--   Filter           farsight-ebpf/src/xdp.rs: what the kernel hands to the responder
--   Std, Words       the standard library's maps, heaps and orders; masks and 32-bit arithmetic
--   External         the random numbers and the floats that the strategies use
-- Below each part, a module for what it proves (Range/Exclude, Deque/Order, Responder/Bounds, ...),
-- and Tests with runs and with the theorems at concrete inputs.
--
-- How code becomes definitions. A method that changes its object takes the state and returns it; a
-- `HashMap` is an association list; a `BinaryHeap` is a list in descending order. An error that `?`
-- returns is a `false` beside the state as it is then (Responder). What must not happen is an
-- outcome of its own: the panic of `CompiledRanges::index`, a read outside the entries, no fuel
-- left.
--
-- Memory. The cells of a ring are a function of the cell, and a frame is a function from an offset
-- to its byte; the memory of the sender is its frames by their addresses, which do not overlap. The
-- kernel's steps on a ring come between the operations, one after another; while a batch is in hand
-- none comes. What a `select!` or a wait gets is a list of rounds.
--
-- Numbers. An address is its 32 bits; sequence numbers, the positions of the rings and the sums of
-- the checksums wrap at 2^32; an `i32` is its 32 bits. The positions of the queue are natural
-- numbers, for an `isize` counts to 2^63. Time is a number. Addresses in ranges are not at the ends
-- of the 32 bits where the source would wrap them.
--
-- Fuel. The wait of the sender goes through the rounds it is given and says when they run out.
-- `exclude_loop` has a round for each range and one more for each cut; `search_loop` one for each
-- entry; `next_loop` one for each index left; `try_pick_loop` one for each prefix in the heap;
-- `stitch_loop` one for each segment held back; `write_loop` one for each seven bits. So each has
-- the rounds that the source's loop can take. `explore` draws at random until a port is new, for a
-- number of draws that is given; when they run out, that is an outcome of its own.
--
-- Parameters. The generator and the permutation of the sweep (the crates rand and perfect_rand),
-- the order of the scores (ordered_float), JSON and UTF-8, and the traits of the responder are
-- arguments; what is relied on is a named hypothesis: draws are within their range, `shuffle`
-- permutes the numbers below the count (Permutes), orders are linear (LinearOrder). The interface
-- that completes an offloaded checksum (Interface) puts the complement of the sum into the field it
-- is told.
--
-- Not modelled. Calls of the address strategy are one after another, as the comment on its lock
-- order asks. In the queue, a push is one step, and so are the load of the buffer and the copy from
-- it; the loads of the two counts are two, in the order that the fence between them keeps. The
-- release of old buffers is left to the epoch crate. The building of the port graph from
-- the database, the tokens of the completer, the database, the configuration, the session's
-- threads, logging and the set-up of sockets and memory are not modelled.
pub mod Deque
pub mod ExcludeFile
pub mod External
pub mod Feeder
pub mod Filter
pub mod IpAdapter
pub mod LazyHeap
pub mod Minecraft
pub mod PortAdapter
pub mod PrefixState
pub mod Prelude
pub mod Range
pub mod Receiver
pub mod Responder
pub mod Sender
pub mod Std
pub mod Tcp
pub mod Words
pub mod Writer
pub mod Xdp
