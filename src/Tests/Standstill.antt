-- ===== src/Tests/Standstill.antt =====
-- A group of two ranks with one element: one block is empty.
use comm_workshop_final.Prelude.{
  ℕ, zero, suc, ◌+◌, ◌^◌, ◌≤◌, ◌<◌, ◌≡◌, refl, List, [], ◌∷◌, some, arith,
}
use comm_workshop_final.Prelude.Int.{rem, add_ℕ}
use comm_workshop_final.Prelude.Size.{add_size, sub_size, mul_size}
use comm_workshop_final.Types.{int32, sum, auto}
use comm_workshop_final.Memory.{Buffer}
use comm_workshop_final.BlockLayout.{fill_layout, layout_loop, compute_block_layout}
use comm_workshop_final.Tag.{pack, make_tag}
use comm_workshop_final.Reduction.{datatype_size, reduce_in_place}
use comm_workshop_final.Pieces.{
  piece_elements_for, piece_count_for, piece_offset, piece_size, element_at, batches_for,
}
use comm_workshop_final.Transport.{TransportOps}
use comm_workshop_final.Transport.Recorded.{
  Action, asks_receive, asks_send, awaits_receive, awaits_send, recorded,
}
use comm_workshop_final.Ring.Schedule.{
  positive_mod, scatter_send_block, scatter_recv_block, gather_send_block, gather_recv_block,
  owned_block_of,
}
use comm_workshop_final.Ring.Machine.{for_range, for_each}
use comm_workshop_final.Ring.Step.{
  run_step, run_batch, post_pieces, post_receive, post_send, post_recv_prev, post_send_next,
  finish_receive, finish_send, wait, tag_for, reduce_piece,
}
use comm_workshop_final.Ring.Context.{Context}
use comm_workshop_final.Ring.Collectives.{same, copy_input, ring_all_reduce}
use comm_workshop_final.Ring.Call.{Callable}
use comm_workshop_final.Ring.Call.Trace.{Makes, ring_all_reduce-Makes}
use comm_workshop_final.Ring.World.Deadlock.{context_of, Ran, ring_all_reduce-deadlock_free}
use mathlib.Core.List.Memᴰ.{head, tail}
use comm_workshop_final.Ring.World.Interleaving.{
  Group, advance, needs, Happened, move, Reachable, begun, further, Stuck,
}
use comm_workshop_final.Tests.Loopback.{numbers, Record, loopback_with, at_rest}

abbrev group : Context (Record × List Action) ℕ
group = record {
  transport = (at_rest, []);
  config = record { pipeline_piece_bytes = 4; max_inflight = 2; transfer_mode = auto };
  rank = 0;
  world_size = 2;
  layout = record { counts = []; offsets = [] };
  temporary_buffer = record { size = 0; at = λ j. 0 };
  sequence = 0;
}

abbrev element : ℕ → Buffer ℕ
element r = record { size = 1; at = λ j. r + 1 }

-- The calls that they make: in Reduce-Scatter (tag 0) rank 0 sends, in All-Gather rank 1.
abbrev logs : ℕ → List Action
logs zero = asks_send 0 ∷ awaits_send 0 ∷ asks_receive (2 ^ 19) ∷ awaits_receive (2 ^ 19) ∷ []
logs (suc r) = asks_receive 0 ∷ awaits_receive 0 ∷ asks_send (2 ^ 19) ∷ awaits_send (2 ^ 19) ∷ []

abbrev transport_of : ℕ → TransportOps Record ℕ
transport_of r = loopback_with r (λ tag j. 5)

abbrev context : ℕ → Context (Record × List Action) ℕ
context =
    context_of numbers int32 sum 1 group transport_of (λ r. at_rest) (λ r. group.temporary_buffer)
      element element (λ r. same)

good :
    (r : ℕ)
    → r < 2
    → (copy_input numbers
          (recorded (transport_of r))
          same
          (element r)
          (element_at 1 (datatype_size int32))
        ≡ some (element r))
      × (1 ≤ (element r).size)
      × Callable (context r) 1 (datatype_size int32)
unfolding copy_input piece_elements_for datatype_size
good r h = (
  refl,
  omega arith,
  record {
    size_pos = omega arith;
    size_small = omega arith;
    rank_lt = h;
    element_pos = omega arith;
    bytes = omega arith;
    capacity_pos = omega arith;
    capacity_small = omega arith;
    piece_bytes = omega arith;
    pieces = omega arith;
  },
)

ring_all_reduce-Makes_example :
    Makes numbers (transport_of 0) int32 1 (context 0) ((good 0 (omega arith)).2) (
      ring_all_reduce numbers
        (recorded (transport_of 0))
        (some (context 0))
        same
        (some (element 0))
        1
        int32
        sum)
ring_all_reduce-Makes_example =
    ring_all_reduce-Makes numbers (transport_of 0) int32 1 (context 0) ((good 0 (omega arith)).2)
      sum (element 0) same (element 0) ((good 0 (omega arith)).0) tt tt (omega arith) (omega arith)

ran :
    (r : ℕ)
    → r < 2
    → Ran numbers int32 sum 1 group transport_of
        (λ q. at_rest)
        (λ q. group.temporary_buffer)
        element
        element
        (λ q. same)
        r
        (logs r)
unfolding ring_all_reduce datatype_size compute_block_layout for_range for_each run_step run_batch
    post_pieces post_receive post_send post_recv_prev post_send_next finish_receive finish_send wait
    tag_for batches_for element_at make_tag owned_block_of reduce_in_place piece_count_for
    piece_offset piece_size piece_elements_for fill_layout layout_loop scatter_send_block
    scatter_recv_block gather_send_block gather_recv_block positive_mod rem add_ℕ pack add_size
    sub_size mul_size reduce_piece
ran zero h = (_, _, refl, refl)
ran (suc zero) h = (_, _, refl, refl)
ran (suc (suc r)) h = absurd (omega (arith, h))

-- Rank `r` finishes its next call.
abbrev turn : Group → ℕ → Group
turn g r = elim (g r).ahead [ [] ↦ g | a ∷ rest ↦ advance g r a rest ]

-- A turn that can be taken.
abbrev Free : Group → ℕ → List Action → Type 0
Free g r [] = ⊥
Free g r (a ∷ rest) = Happened g (needs 2 r a)

abbrev Open : Group → ℕ → Type 0
Open g r = (r < 2) × Free g r (g r).ahead

turn-Reachable : (g : Group) (r : ℕ) → Reachable 2 logs g → Open g r → Reachable 2 logs (turn g r)
turn-Reachable g r reached (h, ready) = taken (g r).ahead refl ready
  where
    taken :
        (l : List Action)
        → (g r).ahead ≡ l
        → Free g r l
        → Reachable 2 logs (elim l [ [] ↦ g | a ∷ rest ↦ advance g r a rest ])
    taken [] e ready = absurd ready
    taken (a ∷ rest) e ready = further g _ reached (move g r a rest h e ready)

abbrev at_start : Group
at_start = λ r. record { behind = []; ahead = logs r }

abbrev scattered : Group
scattered = turn (turn (turn (turn at_start 1) 0) 1) 0

abbrev all_through : Group
all_through = turn (turn (turn (turn scattered 0) 1) 0) 1

scattered-Reachable : Reachable 2 logs scattered
scattered-Reachable =
    turn-Reachable (turn (turn (turn at_start 1) 0) 1) 0
      (turn-Reachable (turn (turn at_start 1) 0) 1
        (turn-Reachable (turn at_start 1) 0 (turn-Reachable at_start 1 begun (omega arith, tt))
          (omega arith, head refl))
        (omega arith, head refl))
      (omega arith, tail (head refl))

all_through-Reachable : Reachable 2 logs all_through
all_through-Reachable =
    turn-Reachable (turn (turn (turn scattered 0) 1) 0) 1
      (turn-Reachable (turn (turn scattered 0) 1) 0
        (turn-Reachable (turn scattered 0) 1
          (turn-Reachable scattered 0 scattered-Reachable (omega arith, tt))
          (omega arith, tail (tail (head refl))))
        (omega arith, tail (tail (head refl))))
      (omega arith, tail (tail (tail (head refl))))

nothing_ahead : (r : ℕ) → r < 2 → (all_through r).ahead ≡ []
nothing_ahead zero h = refl
nothing_ahead (suc zero) h = refl
nothing_ahead (suc (suc r)) h = absurd (omega (arith, h))

all_through-Stuck : Stuck 2 all_through
all_through-Stuck h (move _ r a rest lt e ready) = cc (nothing_ahead r lt, e)

ring_all_reduce-deadlock_free_example : (all_through 0).ahead ≡ []
unfolding datatype_size
ring_all_reduce-deadlock_free_example =
    ring_all_reduce-deadlock_free numbers int32 sum 1 group transport_of (λ r. at_rest)
      (λ r. group.temporary_buffer) element element (λ r. same) tt tt (omega arith) (omega arith)
      good logs ran all_through all_through-Reachable all_through-Stuck 0 (omega arith)
