-- ===== src/Lib.antt =====
-- Verification library of ProsperoAI: an inference system whose desktop side talks to a console over
-- a wire protocol, and which lays out its tensors in one memory region that is planned in advance.
--
-- The parts of the program and the modules that model them:
--   * sdk/include/pai/error.h: Status. A function that fills its output pointers and reports a
--     `pai_status_t` returns a Result.
--   * protocol/frame.c and protocol/message.c, the writers and readers of little-endian fields:
--     Wire. Wire/Value is their meaning as numbers, Wire/RoundTrip the proofs.
--   * protocol/crc32.c: Protocol/Crc. `crc_table` is the table that the code builds on first use.
--     Crc/Bitwise relates the table to single-bit rounds, Crc/Linear and Crc/Detect go from there.
--   * protocol/frame.c: Protocol/Frame, one function for each of `pai_proto_frame_size`, `_encode`,
--     `_decode` and `_validate`. Frame/Layout is the header as a list of fields; Frame/Encode,
--     Frame/RoundTrip and Frame/Integrity hold the proofs.
--   * protocol/message.c, the payloads of GENERATE, TOKEN and EMBED: Protocol/Message, with the proofs
--     in Message/Blob and Message/Generate; STREAM_DATA: Message/Stream;
--     HELLO and ERROR: Message/Report.
--   * protocol/transport_pipe.c, one direction of the pipe: Protocol/Pipe. Pipe/Grow is the loop that
--     doubles the capacity, Pipe/Queue and Pipe/Pull view the pipe as a queue.
--   * memory/mem.h: Memory/Align, with Align/Pow2 and Align/Round.
--   * memory/planner.c: Memory/Planner (registration), Planner/FreeList (`free_list_insert`),
--     Planner/Sweep (the body of the loop of `pai_mem_plan_build`, its release, search, carving and
--     placing in the order of the code) and Planner/Build (sorting, the loop, the finished plan).
--     The children hold the proofs: FreeList/Cover counts how often a byte lies in the list,
--     FreeList/Nodes how many nodes of the pool an insertion takes, Sweep/Live, Fit, Choice, Carving,
--     Usage, Step, Pinned, Reusable and Round go through one round of the loop, Build/Schedule, Rounds
--     and Disjoint through all of them.
--   * memory/allocator.c: Memory/Buddy, over a function from addresses to the words of the region: one
--     word at each address that holds a header field, a link or a back pointer, the 32-bit order of a
--     header among them. Buddy/Tree is the region as a binary tree of blocks, Buddy/Layout how headers
--     and free lists show it, Buddy/Blocks and Sibling where blocks and their other halves lie.
--     Buddy/Start and Owned are about the two ways to begin, Split and Alloc about
--     `pai_buddy_alloc`, Merge and Free about `pai_buddy_free`, and Buddy/Run about any sequence of
--     calls, with writes of the callers to their payloads in between.
--   * memory/arena.c: Memory/Arena, with one allocation in Arena/Bump and runs of calls in Arena/Stack.
--   * cache/kv_cache.c: Cache, over Memory/Buddy; Cache/Runs holds the runs of calls, Begin and Keeps
--     go through them.
--   * tensor/dtype.c: Tensor/Element (sizes of the element types) and Tensor/Quant (the quantisation
--     descriptors). tensor/tensor.c: Tensor, with the checked sizes in Tensor/Size and the offsets of
--     coordinates in Tensor/Offset.
--   * graph/graph.c: Graph. Graph/Defs holds the data and the calls that build a graph up, Graph/Build
--     what makes one well formed, and Graph/Reach the graphs that calls lead to (Reach/Retain and
--     Reach/Insert: they stay well formed; Reach/Timed: the epochs of those marked as sorted).
--     Graph/Topo is `pai_graph_topo_sort`, Kahn's algorithm: Topo/Count, Fold and Scan go through its
--     inner loops, Topo/Loop and Done through the outer one, Topo/Order and Schedule through the
--     epochs. Graph/Lifetime is `pai_graph_value_lifetimes` (proofs in Marks,
--     Cover, Run and Persist), and Graph/MemoryPlan `graph_memory_plan_impl` (Register, Layout, Sound
--     and Persistent).
--
-- How they interact: the frame codec calls the field writers and the CRC; the message codecs call the
-- field writers; the planner calls the alignment helpers. The graph takes the sizes of its values from
-- the tensors, sorts itself, and hands the lifetimes to the planner, whose offsets become the places of
-- the values. The free list, the live allocations and the cursor are handed from function to function
-- as the code changes them in place; so is the graph.
--
-- Numbers are natural numbers with the wrap-around of their C type written out: `add64` and `sub64`
-- for 64 bits, `% 2 ^ 32` for 32 bits. Byte buffers are lists of numbers; where a theorem needs them
-- to be bytes it says so. A pointer that the code tests against NULL is an Option, or a Boolean where
-- the code only writes through it.
--
-- Loops are recursion on the list or on a count that the code bounds. `release_loop` runs for as many
-- rounds as there are live allocations, which is enough since each round keeps one or removes one.
-- `kahn_loop` runs for as many rounds as there are operations, which is enough since each is queued once
-- at most. `ceil_log2_loop` and `floor_log2_loop` have as many rounds as a 64-bit word has bits.
--
-- `grow_cap` has 32 rounds, after which the doubled capacity has wrapped to 0 for good; that outcome
-- is kept apart as `diverges`, and a copy past the end of the pipe's buffer as `overflows`.
--
-- `remove_loop` goes through a free list for as many rounds as the region has bytes, which is enough
-- since a list holds no block twice; `find_order`, `split_loop` and `merge_loop` run for the number of
-- orders between the two that the code compares.
--
-- The C library is a parameter: `qsort` is the argument `sort` of `plan_build`, of which the theorems
-- assume that it returns a sorted permutation, whether `malloc` or `calloc` succeeds is
-- an argument, and where a region is allocated, `malloc` is a function from sizes to addresses.
--
-- Not modelled: the cache's initialisation with malloc and its destruction, the other payloads of
-- protocol/message.c, the pair and the endpoints of the pipe, the connection of
-- protocol/connection.c, the operating system (sockets, clocks, files), floating point kernels,
-- the GPU, the command line, the desktop interface, and the remaining components of the runtime
-- (scheduler, gateway, models), whose state is separate from what is modelled here. Floating point
-- numbers in the quantisation descriptors are a parameter (`FloatOps`).
pub mod Prelude
pub mod Status
pub mod Wire
pub mod Protocol
pub mod Memory
pub mod Tensor
pub mod Cache
pub mod Graph
