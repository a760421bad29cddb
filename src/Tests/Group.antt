-- ===== src/Tests/Group.antt =====
-- A group of two ranks, each with two elements.
use comm_workshop_final.Prelude.{
  ℕ, zero, suc, ◌+◌, ◌*◌, ◌≤◌, ◌<◌, ◌≡◌, refl, List, [], ◌∷◌, All, Option, none, some, true, false,
  arith, ◌==◌, if◌then◌else◌, map,
}
use comm_workshop_final.Prelude.Int.{pos, negsuc}
use comm_workshop_final.Types.{int32, sum, auto, success}
use comm_workshop_final.Memory.{Buffer}
use comm_workshop_final.Reduction.{datatype_size}
use comm_workshop_final.Pieces.{piece_elements_for, element_at}
use comm_workshop_final.Transport.{TransportOps}
use comm_workshop_final.Transport.Reliable.{Message, Descriptor, extend}
use comm_workshop_final.Ring.Machine.{Outcome, done}
use comm_workshop_final.Ring.Context.{Context, effective_config}
use comm_workshop_final.Ring.Collectives.{same, copy_input, ring_all_reduce}
use comm_workshop_final.Ring.Phase.ScatterRun.{scatter_sent}
use comm_workshop_final.Ring.Phase.GatherRun.{gather_sent}
use comm_workshop_final.Ring.Call.{Callable, laid_out}
use comm_workshop_final.Ring.World.{Delivered, Wired, all_sent, chain, member}
use comm_workshop_final.Prelude.Int.{rem, add_ℕ}
use comm_workshop_final.Ring.World.Fold.{Commutes, over_ranks}
use comm_workshop_final.Ring.World.Descriptors.{describe}
use comm_workshop_final.Ring.World.Pairing.{ring_all_reduce-describe}
use comm_workshop_final.Ring.World.AllReduce.{
  rank_context, ring_all_reduce-agrees, ring_all_reduce-over_ranks,
}
use comm_workshop_final.ProcessGroup.{pg_create_from_transport, pg_all_reduce}
use comm_workshop_final.ProcessGroup.Group.{Serves, pg_all_reduce-Serves}
use comm_workshop_final.Ring.Call.Failing.{Ends, ring_all_reduce-any_transport}
use comm_workshop_final.Prelude.Size.{add_size, sub_size, mul_size}
use comm_workshop_final.BlockLayout.{fill_layout, layout_loop, compute_block_layout}
use comm_workshop_final.Tag.{pack}
use comm_workshop_final.Pieces.{piece_count_for, piece_offset, piece_size}
use comm_workshop_final.Reduction.Elementwise.{combine}
use comm_workshop_final.Ring.Schedule.{
  positive_mod, scatter_send_block, scatter_recv_block, gather_send_block, gather_recv_block,
}
use comm_workshop_final.Ring.Phase.ScatterRun.{scatter_work}
use comm_workshop_final.Ring.Phase.GatherRun.{gather_work}
use comm_workshop_final.Tests.Loopback.{
  numbers, Record, loopback_with, loopback_with-Reliable, at_rest,
}

-- Pieces of one element, two in flight.
abbrev members : Context Record ℕ
members = record {
  transport = at_rest;
  config = record { pipeline_piece_bytes = 4; max_inflight = 2; transfer_mode = auto };
  rank = 0;
  world_size = 2;
  layout = record { counts = []; offsets = [] };
  temporary_buffer = record { size = 0; at = λ j. 0 };
  sequence = 0;
}

-- Rank 0 has 1 and 2, rank 1 has 11 and 12.
abbrev elements : ℕ → Buffer ℕ
elements r = record { size = 2; at = λ j. 10 * r + j + 1 }

abbrev laid_out_members : Context Record ℕ
laid_out_members = laid_out members 2 4

-- In Reduce-Scatter (tag 0) rank 0 receives 12 and rank 1 receives 1; in All-Gather rank 0 receives
-- 12 and rank 1 receives 14.
abbrev inboxes : ℕ → ℕ → ℕ → ℕ
inboxes zero tag j = 12
inboxes (suc r) tag j = if tag == 0 then 1 else 14

-- Messages of one element.
All-Delivered :
    (inbox : ℕ → ℕ → ℕ) (l : List (Message ℕ))
    → All (λ m. (m.payload.size ≡ 1) × (inbox m.tag 0 ≡ m.payload.at 0)) l
    → All (Delivered inbox) l
All-Delivered inbox [] h = tt
All-Delivered inbox (m ∷ l) h = (first_only, All-Delivered inbox l h.1)
  where
    first_only : Delivered inbox m
    first_only zero lt = h.0.1
    first_only (suc j) lt = absurd (omega (arith, lt, h.0.0))

wired : Wired numbers int32 sum laid_out_members 4 inboxes elements
unfolding scatter_sent scatter_work gather_sent gather_work scatter_send_block scatter_recv_block
    gather_send_block gather_recv_block positive_mod rem add_ℕ piece_count_for piece_offset
    piece_size piece_elements_for fill_layout layout_loop compute_block_layout pack add_size
    sub_size mul_size combine
wired zero h =
    All-Delivered (inboxes 0) (all_sent numbers int32 sum laid_out_members 4 inboxes elements 1)
      ((refl, refl), ((refl, refl), tt))
wired (suc zero) h =
    All-Delivered (inboxes 1) (all_sent numbers int32 sum laid_out_members 4 inboxes elements 0)
      ((refl, refl), ((refl, refl), tt))
wired (suc (suc r)) h = absurd (omega (arith, h))

good :
    (r : ℕ)
    → r < 2
    → (copy_input numbers (loopback_with r (inboxes r)) same (elements r) (element_at 2 4)
        ≡ some (elements r))
      × (2 ≤ (elements r).size)
      × Callable
          (rank_context numbers int32 sum 2 members inboxes elements
            (λ q. at_rest)
            (λ q. members.temporary_buffer)
            r)
          2
          4
unfolding copy_input piece_elements_for
good r h = (
  refl,
  omega arith,
  record {
    size_pos = omega arith;
    size_small = omega arith;
    rank_lt = h;
    element_pos = omega arith;
    bytes = omega arith;
    capacity_pos = omega arith;
    capacity_small = omega arith;
    piece_bytes = omega arith;
    pieces = omega arith;
  },
)

-- The call of rank `r` of the two.
abbrev run_of : ℕ → Outcome (Unit {0}) × Option (Context Record ℕ) × Option (Buffer ℕ)
run_of r =
    ring_all_reduce numbers (loopback_with r (inboxes r)) (some (member members r)) same
      (some (elements r)) 2 int32 sum

ring_all_reduce-agrees_example :
    (out : ℕ → Buffer ℕ) × ((r : ℕ)
      → r < 2
      → ((c : Context Record ℕ) × (run_of r ≡ (done tt, some c, some (out r))))
        × ((out r).size ≡ 2)
        × ((i : ℕ) → 2 ≤ i → (out r).at i ≡ (elements r).at i))
    × ((i : ℕ)
        → i < 2
        → (q : ℕ) × (q < 2)
          × ((r : ℕ) → r < 2 → (out r).at i ≡ chain numbers int32 sum 2 elements q 1 i))
unfolding datatype_size
ring_all_reduce-agrees_example =
    ring_all_reduce-agrees numbers int32 sum 2 members inboxes elements
      (λ r. loopback_with r (inboxes r)) (λ r. at_rest) (λ r. members.temporary_buffer) (λ r. same)
      elements tt tt (omega arith) (omega arith) good (λ r. loopback_with-Reliable r (inboxes r))
      (λ r h. refl) wired

numbers-Commutes : Commutes numbers int32 sum
unfolding combine
numbers-Commutes = record { comm = λ x y. omega arith; assoc = λ x y z. omega arith }

ring_all_reduce-over_ranks_example :
    (out : Buffer ℕ) × ((c : Context Record ℕ) × (run_of 1 ≡ (done tt, some c, some out)))
    × ((i : ℕ) → i < 2 → out.at i ≡ over_ranks numbers int32 sum elements 1 i)
unfolding datatype_size
ring_all_reduce-over_ranks_example =
    ring_all_reduce-over_ranks numbers int32 sum 2 members inboxes elements
      (λ r. loopback_with r (inboxes r)) (λ r. at_rest) (λ r. members.temporary_buffer) (λ r. same)
      elements tt tt (omega arith) (omega arith) good (λ r. loopback_with-Reliable r (inboxes r))
      (λ r h. refl) wired numbers-Commutes 1 (omega arith)

-- The call of rank `r` of the two, on a transport that records the messages and the receives.
abbrev Asks : ℕ → List (Message ℕ) → List Descriptor → Type 0
Asks r messages descriptors =
    (c : Context Record ℕ) × (out : Buffer ℕ) × (run_of r ≡ (done tt, some c, some out))
    × ((loopback_with-Reliable r (inboxes r)).view c.transport
        ≡ extend ((loopback_with-Reliable r (inboxes r)).view at_rest) messages descriptors)

ring_all_reduce-describe_example :
    (messages others : List (Message ℕ)) × (descriptors receives : List Descriptor) × Asks 0
      messages descriptors
    × Asks 1 others receives
    × (map describe messages ≡ receives)
unfolding datatype_size
ring_all_reduce-describe_example =
    ring_all_reduce-describe numbers int32 sum 2 members inboxes elements
      (λ r. loopback_with r (inboxes r)) (λ r. at_rest) (λ r. members.temporary_buffer) (λ r. same)
      elements tt tt (omega arith) good (λ r. loopback_with-Reliable r (inboxes r)) (λ r h. refl) 1
      (omega arith)

-- A transport on which the wait for a send fails.
abbrev failing : TransportOps Record ℕ
failing = record {
  Request = Unit {0};
  rank = λ l. pos 0;
  size = λ l. pos 2;
  post_send_next = λ l payload bytes tag mode. (pos 0, tt, l);
  post_recv_prev = λ l bytes tag mode. (pos 0, tt, l);
  wait = λ l request. (negsuc 0, λ j. 0, l);
  destroy = λ l. l;
}

ring_all_reduce-any_transport_example :
    Ends numbers failing
      (laid_out members 2 4)
      2
      (ring_all_reduce numbers failing (some members) same (some (elements 0)) 2 int32 sum)
unfolding datatype_size copy_input
ring_all_reduce-any_transport_example =
    ring_all_reduce-any_transport numbers failing int32 tt 2 members ((good 0 (omega arith)).2) sum
      (elements 0) same (elements 0) refl tt (omega arith) (omega arith)

-- Without a configuration: pieces of the default size.
pg_all_reduce-Serves_example :
    let (status, handle) =
      pg_create_from_transport numbers failing (some at_rest) false none true in
    (status ≡ success)
    × Serves numbers failing false 0 2 2
        (pg_all_reduce numbers failing same (some (elements 0)) (pos 2) int32 sum handle)
unfolding datatype_size copy_input effective_config piece_elements_for
pg_all_reduce-Serves_example =
    pg_all_reduce-Serves numbers failing int32 sum at_rest none false 0 2 2 same (elements 0)
      (elements 0) refl refl (omega arith) (omega arith) tt tt (omega arith) (omega arith) refl
      (omega arith) (omega arith) (omega arith)
