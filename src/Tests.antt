-- ===== src/Tests.antt =====
-- Concrete runs: the theorems at inputs where their hypotheses hold.
pub mod Loopback
pub mod Group
pub mod Connecting
pub mod Transfers
pub mod Polls
pub mod Standstill
use comm_workshop_final.Prelude.{
  ℕ, zero, suc, ◌+◌, ◌-◌, ◌*◌, ◌/◌, ◌%◌, ◌^◌, ◌≤◌, ◌<◌, ◌≡◌, ◌≢◌, ◌↔◌, ◌⊎◌, inl, inr, refl, List,
  [], ◌∷◌, ◌++◌, Bool, true, false, Option, none, some, ltb, arith,
}
use comm_workshop_final.Prelude.Int.{ℤ, pos, negsuc}
use comm_workshop_final.Prelude.Size.{size_mod}
use comm_workshop_final.Types.{
  Datatype, int32, float32, Operation, sum, maximum, success, err_tag_range, err_invalid_argument,
  eager, auto,
}
use comm_workshop_final.Memory.{Buffer, Scalars}
use comm_workshop_final.BlockLayout.{BlockLayout, compute_block_layout}
use comm_workshop_final.BlockLayout.Partition.{
  layout_after, IsPartition, InBlock, compute_block_layout-IsPartition, compute_block_layout-covers,
}
use comm_workshop_final.Tag.{reduce_scatter, all_gather, phase_value, make_tag}
use comm_workshop_final.Tag.Fields.{
  sequence_of, phase_of, step_of, piece_of, make_tag-fields, make_tag-injective,
}
use comm_workshop_final.Reduction.{reduce_in_place, block_of}
use comm_workshop_final.Reduction.Elementwise.{
  reduced, status_of, reduce_in_place-reduced, reduce_in_place-status,
}
use comm_workshop_final.Pieces.{piece_count_for, piece_offset, piece_size}
use comm_workshop_final.Pieces.Bounds.{pieces_tile}
use comm_workshop_final.Ring.Schedule.{
  scatter_send_block, scatter_recv_block, gather_send_block, gather_recv_block, owned_block_of,
}
use comm_workshop_final.Ring.Schedule.Blocks.{next_rank}
use comm_workshop_final.Ring.Schedule.Matching.{neighbours_agree, owned_block_hand_over}
use comm_workshop_final.Verbs.{
  RequestState, send, receive, Completion, wc_send, wc_recv, Requests, find,
}
use comm_workshop_final.Verbs.Waiting.{Finishes, wait_request-Finishes}
use comm_workshop_final.ProcessGroup.{interrupted, moved_bytes, transfer_all}
use comm_workshop_final.ProcessGroup.Calls.{transfer_all-whole}

abbrev empty_layout : BlockLayout
empty_layout = record { counts = []; offsets = [] }

compute_block_layout-IsPartition_example :
    ((compute_block_layout 10 (pos 4) empty_layout).0 ≡ success)
    × IsPartition 10 4 (layout_after 10 (pos 4) empty_layout)
compute_block_layout-IsPartition_example =
    compute_block_layout-IsPartition 10 4 empty_layout (omega arith) (omega arith)

compute_block_layout-covers_example :
    (j : ℕ) × (j < 4)
    × InBlock (layout_after 10 (pos 4) empty_layout) 7 j
    × ((k : ℕ) → k < 4 → InBlock (layout_after 10 (pos 4) empty_layout) 7 k → k ≡ j)
compute_block_layout-covers_example =
    compute_block_layout-covers 10 4 7 empty_layout (omega arith) (omega arith) (omega arith)

make_tag-fields_example :
    let (status, stored) = make_tag 5000 all_gather (pos 127) 4095 0 in
    (status ≡ success)
    × (stored < 2 ^ 32)
    × (sequence_of stored ≡ 5000 % 2 ^ 12)
    × (phase_of stored ≡ phase_value all_gather)
    × (step_of stored ≡ 127)
    × (piece_of stored ≡ 4095)
make_tag-fields_example = make_tag-fields 5000 all_gather 127 4095 0 (omega arith) (omega arith)

make_tag-injective_example :
    let step : ℕ = 2 in
    let piece : ℕ = 3 in
    ((make_tag 1 all_gather (pos 2) 3 0).1 ≡ (make_tag 4097 all_gather (pos 2) 3 0).1) ↔ (
      (1 % 2 ^ 12 ≡ 4097 % 2 ^ 12)
      × (phase_value all_gather ≡ phase_value all_gather)
      × (step ≡ step)
      × (piece ≡ piece))
make_tag-injective_example =
    make_tag-injective 1 4097 all_gather all_gather 2 2 3 3 0 (omega arith) (omega arith)
      (omega arith) (omega arith)

-- Numbers as elements.
abbrev numbers : Scalars
numbers = record { Elem = ℕ; zeroed = 0; add = λ d x y. x + y; less = λ d x y. ltb x y }

abbrev counting : Buffer ℕ
counting = record { size = 4; at = λ j. j }

reduce_in_place-reduced_example :
    reduce_in_place numbers (some (counting, 1)) (some (counting, 0)) 2 float32 maximum
    ≡ (success, some (reduced numbers float32 maximum 2 counting 1 counting 0))
reduce_in_place-reduced_example =
    reduce_in_place-reduced numbers float32 maximum 2 counting 1 counting 0 tt tt

reduce_in_place-status_example :
    let (status, result) = reduce_in_place numbers none (some (counting, 0)) 2 int32 sum in
    (status ≡ status_of {E = ℕ} int32 none (some (counting, 0)) sum)
    × (status_of {E = ℕ} int32 none (some (counting, 0)) sum ≢ success → result ≡ block_of none)
reduce_in_place-status_example =
    reduce_in_place-status numbers int32 sum 2 none (some (counting, 0)) (omega arith)

pieces_tile_example :
    (10 / 4 < piece_count_for 11 4)
    × (piece_offset (10 / 4) 4 + 10 % 4 ≡ 10)
    × (10 % 4 < piece_size 11 (10 / 4) 4)
    × ((k : ℕ)
        → k < piece_count_for 11 4
        → piece_offset k 4 ≤ 10
        → 10 < piece_offset k 4 + piece_size 11 k 4
        → k ≡ 10 / 4)
pieces_tile_example = pieces_tile 11 4 10 (omega arith) (omega arith) (omega arith)

neighbours_agree_example :
    (scatter_recv_block (next_rank 3 4) 4 1 ≡ scatter_send_block 3 4 1)
    × (gather_recv_block (next_rank 3 4) 4 1 ≡ gather_send_block 3 4 1)
neighbours_agree_example = neighbours_agree 3 4 1 (omega arith) (omega arith)

owned_block_hand_over_example :
    (scatter_recv_block 3 4 (4 - 2) ≡ owned_block_of 3 4)
    × (gather_send_block 3 4 0 ≡ owned_block_of 3 4)
owned_block_hand_over_example = owned_block_hand_over 3 4 (omega arith) (omega arith)

transfer_all-whole_example :
    transfer_all 32 (moved_bytes 20 ∷ interrupted ∷ moved_bytes 12 ∷ []) ≡ some true
transfer_all-whole_example =
    transfer_all-whole 32 (moved_bytes 20 ∷ interrupted ∷ moved_bytes 12 ∷ [])
      (omega arith, (omega arith, tt)) refl
