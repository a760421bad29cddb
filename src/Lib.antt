-- ===== src/Lib.antt =====
-- Ring All-Reduce over an RDMA transport: a model of the collectives and of the code around them.
--
-- A group of ranks forms a ring. Each rank calls `ring_all_reduce` (src/ring_collectives.cpp) on its
-- own buffer. The buffer is cut into one block per rank (src/block_layout.cpp), a block into pieces.
-- Reduce-Scatter passes blocks around the ring, each rank adding its elements with
-- src/reduction_ops.cpp; All-Gather passes the finished blocks around. Pieces travel under 32-bit
-- tags through a table of operations (include/pg_transport.h), behind which stands the RDMA transport
-- of src/verbs_transport.cpp. src/process_group_api.cpp wraps a context and a transport in a handle.
--
-- Files:
--   Prelude        shared names; lists and tests on the native numbers; `int` and `std::size_t`.
--   Types          the enumerations of include/ring_collectives.h and include/pg_transport.h.
--   BlockLayout    `compute_block_layout`; Closed gives the layout in closed form, Partition what it is.
--   Tag            `make_tag`, by bit operations; Fields reads a tag by division.
--   Memory         buffers as a size and a content; the element types as a parameter, `Scalars`.
--   Reduction      `datatype_size`, `reduce_typed`, `reduce_in_place`; Elementwise says what they do.
--   Pieces         `piece_elements_for`, `piece_count_for` and the sizes and offsets of pieces.
--   Transport      the operation table; Reliable is the contract that the collectives rely on, and
--                  Recorded a transport that records the calls made of it.
--   Ring           Schedule: `positive_mod` and the blocks of each step. Machine: the monad of a call, and
--                  the ways a call over a failing transport can end (Settles).
--                  Context: `ring_collective_create`. Step: the batches of posts and waits that both
--                  phases share (`run_batch`, `run_step`). Collectives: `ring_reduce_scatter_inplace`,
--                  `ring_all_gather_inplace`, `ring_all_reduce`. Phase: the buffers through a phase.
--                  Call: whole calls on a context. World: the calls of all ranks of a group, where
--                  each rank receives what the previous one sends; Pairing: what two neighbours' calls
--                  post. Step/Program, Step/Trace,
--                  Phase/Trace and Call/Trace: the posts and waits of a call, in their order;
--                  World/Interleaving, Times, Needs and Deadlock: those of all ranks, in any order
--                  that their dependencies allow.
--   Verbs          requests and completions of src/verbs_transport.cpp. Posting: `post_receive_previous`
--                  and `post_send_next` with the control message between them; Effects and Received
--                  say what a post leaves. Polling: `poll_one_blocking`, `poll_available`,
--                  `wait_request`, `test_request`, `progress`; Waiting and Polling/Pending say what
--                  they leave. Device: the constructor and the destructor. Wrappers: the table's
--                  functions, which catch exceptions.
--   Resources      what is acquired from libibverbs and the sockets, as events; Replay says whether a
--                  sequence of events is in order.
--   ProcessGroup   `pg_create_from_transport`, `pg_all_reduce`, `pg_close` and the byte streams.
--                  Connect: `connect_process_group`; Sockets, QueuePairs, Settings and Bootstrap are
--                  its parts. Bootstrap/Order: the ranks of a ring connecting to each other.
--                  Group: a group from its creation to its first call.
--   Tests          concrete runs.
--
-- How the code is represented. A call is a function of the context, the user's buffer and the
-- transport's state; it ends with a value, an early return with a status, or a fault, which is an
-- access outside a buffer. Buffers are indexed by elements: the code's byte offsets are all multiples
-- of the element size, and an index passes through the byte offset and back. `std::size_t` and 32-bit
-- values wrap. `int` results of a transport are integers, tested against 0. Bytes of a posted receive
-- are handed over by `wait`, since nobody may read the buffer before. Loops over ranks, batches and
-- pieces are counted loops whose number of rounds the code computes, so no fuel is needed; the loops
-- that poll run over the list of answers that `ibv_poll_cq` gives, and say so when they still poll at
-- its end.
--
-- Bounds of the theorem on a whole call: at most 128 ranks (7 bits of a tag hold the step), at most
-- 4096 pieces of a block (12 bits), pieces below 2 ^ 32 bytes, a buffer below 2 ^ 63 bytes, and 1 to
-- 1024 requests in flight, which `ring_collective_create` ensures.
--
-- Parameters: the arithmetic of the C++ element types, the transport behind the operation table with
-- the contract of include/pg_transport.h as the record Reliable, `htonl` and `ntohl`, and what
-- libibverbs, the sockets and the environment answer in a call of the RDMA transport and of
-- `connect_process_group`.
--
-- Not modelled: memory exhaustion, libibverbs and the sockets themselves, log output, and
-- the tests' mock transport.
pub mod Prelude
pub mod Types
pub mod BlockLayout
pub mod Tag
pub mod Memory
pub mod Reduction
pub mod Pieces
pub mod Transport
pub mod Resources
pub mod Ring
pub mod Verbs
pub mod ProcessGroup
pub mod Tests
