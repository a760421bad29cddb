-- ===== src/Tests/Loopback.antt =====
-- A rank whose transport keeps its contract: posts are recorded, waits serve the oldest request.
use comm_workshop_final.Prelude.{
  ℕ, ◌+◌, ◌%◌, ◌^◌, ◌≡◌, refl, List, [], ◌∷◌, ◌++◌, map, true, none, some, ltb, arith,
}
use comm_workshop_final.Prelude.Int.{ℤ, pos, negsuc}
use comm_workshop_final.Types.{int32, sum, unknown_operation, success, auto}
use comm_workshop_final.Memory.{Buffer, Scalars}
use comm_workshop_final.Reduction.{datatype_size}
use comm_workshop_final.Pieces.{piece_elements_for, element_at}
use comm_workshop_final.Transport.{TransportOps}
use comm_workshop_final.Transport.Reliable.{
  Message, Descriptor, Pending, receiving, sending, Link, Reliable, extend,
}
use comm_workshop_final.Ring.Machine.{done}
use comm_workshop_final.Ring.Context.{Context, ring_collective_create}
use comm_workshop_final.Ring.Context.Created.{IsUsable, ring_collective_create-IsUsable}
use comm_workshop_final.Ring.Collectives.{same, copy_input, ring_all_reduce}
use comm_workshop_final.Ring.Phase.ScatterRun.{scatter_work, scatter_sent, scatter_expected}
use comm_workshop_final.Ring.Phase.GatherRun.{gather_work, gather_sent, gather_expected}
use comm_workshop_final.Ring.Call.{Callable, laid_out}
use comm_workshop_final.Ring.Call.Moved.{moved}
use comm_workshop_final.Ring.Call.AllReduce.{ring_all_reduce-runs}
use comm_workshop_final.BlockLayout.{BlockLayout}
use comm_workshop_final.Ring.Call.Alone.{alone, ring_all_reduce-alone}
use comm_workshop_final.Ring.Call.Tags.{ring_all_reduce-Ascending}
use comm_workshop_final.Ring.Phase.Tags.{Ascending, first_tag}

abbrev pub numbers : Scalars
numbers = record { Elem = ℕ; zeroed = 0; add = λ d x y. x + y; less = λ d x y. ltb x y }

abbrev pub Record : Type 0
Record = Link (Unit {0}) ℕ

abbrev serve : (ℕ → ℕ → ℕ) → List (Pending (Unit {0})) → Record → ℤ × (ℕ → ℕ) × Record
serve inbox [] l = (negsuc 0, λ j. 0, l)
serve inbox (receiving u tag ∷ rest) l = (pos 0, inbox tag, record l { pending = rest })
serve inbox (sending u ∷ rest) l = (pos 0, λ j. 0, record l { pending = rest })

-- A rank of 2, to whom the previous rank sends what `inbox` says.
abbrev pub loopback_with : ℕ → (ℕ → ℕ → ℕ) → TransportOps Record ℕ
loopback_with rank inbox = record {
  Request = Unit {0};
  rank = λ l. pos rank;
  size = λ l. pos 2;
  post_send_next = λ l payload bytes tag mode. (
    pos 0,
    tt,
    record l {
      sent = l.sent ++ (record { tag = tag; bytes = bytes; payload = payload }) ∷ [];
      pending = l.pending ++ sending tt ∷ [];
    },
  );
  post_recv_prev = λ l bytes tag mode. (
    pos 0,
    tt,
    record l {
      expected = l.expected ++ (record { tag = tag; bytes = bytes }) ∷ [];
      pending = l.pending ++ receiving tt tag ∷ [];
    },
  );
  wait = λ l request. serve inbox l.pending l;
  destroy = λ l. l;
}

abbrev pub loopback_with-Reliable :
    (rank : ℕ) (inbox : ℕ → ℕ → ℕ) → Reliable (loopback_with rank inbox) auto inbox
loopback_with-Reliable rank inbox = record {
  view = λ l. l;
  receives = λ l bytes tag p b. (refl, refl);
  sends = λ l payload bytes tag p b. (refl, refl);
  completes_receive = λ l request tag rest e. rw e (refl, refl, λ j. refl);
  completes_send = λ l request rest e. rw e (refl, refl);
}

-- The previous rank sends 10 more than the index.
abbrev inbox : ℕ → ℕ → ℕ
inbox tag j = 10 + j

-- Rank 0 of 2.
abbrev loopback : TransportOps Record ℕ
loopback = loopback_with 0 inbox

abbrev loopback-Reliable : Reliable loopback auto inbox
loopback-Reliable = loopback_with-Reliable 0 inbox

abbrev pub at_rest : Record
at_rest = record { sent = []; expected = []; pending = [] }

ring_collective_create-IsUsable_example :
    (c : Context Record ℕ) × (ring_collective_create numbers loopback (some at_rest) none true
      ≡ (success, some c))
    × (c.transport ≡ at_rest)
    × (c.rank ≡ 0)
    × (c.world_size ≡ 2)
    × (c.sequence ≡ 0)
    × IsUsable c.config
ring_collective_create-IsUsable_example =
    ring_collective_create-IsUsable numbers loopback at_rest none 0 2 refl refl (omega arith)

-- Up to two pieces of four bytes in flight.
abbrev context : Context Record ℕ
context = record {
  transport = at_rest;
  config = record { pipeline_piece_bytes = 4; max_inflight = 2; transfer_mode = auto };
  rank = 0;
  world_size = 2;
  layout = record { counts = []; offsets = [] };
  temporary_buffer = record { size = 0; at = λ j. 0 };
  sequence = 0;
}

abbrev input : Buffer ℕ
input = record { size = 3; at = λ j. j }

context-Callable : Callable context 3 (datatype_size int32)
unfolding datatype_size piece_elements_for
context-Callable = record {
  size_pos = omega arith;
  size_small = omega arith;
  rank_lt = omega arith;
  element_pos = omega arith;
  bytes = omega arith;
  capacity_pos = omega arith;
  capacity_small = omega arith;
  piece_bytes = omega arith;
  pieces = omega arith;
}

in_place : copy_input numbers loopback same input (element_at 3 (datatype_size int32)) ≡ some input
unfolding copy_input
in_place = refl

ring_all_reduce-runs_example :
    let element_size = datatype_size int32 in
    let final = laid_out context 3 element_size in
    let reduced = scatter_work numbers int32 sum final element_size inbox input 1 in
    (t : Record) × (b : Buffer ℕ) × (ring_all_reduce numbers loopback
        (some context)
        same
        (some input)
        3
        int32
        sum
      ≡ (
        done tt,
        some (record (moved numbers final t b) { sequence = 1 % 2 ^ 32 }),
        some (gather_work numbers final element_size inbox reduced 1),
      ))
    × (t
        ≡ extend at_rest
            (scatter_sent numbers int32 sum final element_size inbox input 1
              ++ gather_sent numbers final element_size inbox reduced 1)
            (scatter_expected numbers int32 sum final element_size inbox input 1
              ++ gather_expected numbers final element_size inbox reduced 1))
ring_all_reduce-runs_example =
    ring_all_reduce-runs numbers loopback context int32 sum 3 inbox input same input in_place tt tt
      (omega arith) (omega arith) context-Callable loopback-Reliable refl

ring_all_reduce-Ascending_example :
    (c : Context Record ℕ) × (out : Buffer ℕ) × (messages : List (Message ℕ)) × (descriptors : List
      Descriptor)
    × (ring_all_reduce numbers loopback (some context) same (some input) 3 int32 sum
        ≡ (done tt, some c, some out))
    × (c.transport ≡ extend at_rest messages descriptors)
    × Ascending (first_tag 0) (first_tag 0 + 2 ^ 20) (map (λ m. m.tag) messages)
    × Ascending (first_tag 0) (first_tag 0 + 2 ^ 20) (map (λ d. d.tag) descriptors)
ring_all_reduce-Ascending_example =
    ring_all_reduce-Ascending numbers loopback context int32 sum 3 inbox input same input in_place
      tt tt (omega arith) (omega arith) context-Callable loopback-Reliable refl

-- An operation that does not exist.
ring_all_reduce-alone_example :
    (layout : BlockLayout) × (b : Buffer ℕ) × (ring_all_reduce numbers loopback
        (some (alone numbers loopback context))
        same
        (some input)
        3
        int32
        (unknown_operation (pos 9))
      ≡ (
        done tt,
        some (record (alone numbers loopback context) {
          layout = layout;
          temporary_buffer = b;
          sequence = 1 % 2 ^ 32;
        }),
        some input,
      ))
unfolding datatype_size
ring_all_reduce-alone_example =
    ring_all_reduce-alone numbers loopback context same input input 3 int32
      (unknown_operation (pos 9)) in_place (omega arith) (omega arith)
