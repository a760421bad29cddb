-- ===== src/Ring/Schedule/Matching.antt =====
-- How the steps of a rank and of its neighbour fit together.
use native.Mathlib.Nat.{add-mod_right}
use comm_workshop_final.Prelude.{ℕ, zero, suc, ◌%◌, ◌+◌, ◌-◌, ◌<◌, ◌≡◌, sym, ◌∙◌, ap, arith}
use comm_workshop_final.Ring.Schedule.{
  scatter_send_block, scatter_recv_block, gather_send_block, gather_recv_block, owned_block_of,
}
use comm_workshop_final.Ring.Schedule.Blocks.{
  next_rank, next_rank-lt, back, scatter_send-back, scatter_recv-back, gather_send-back,
  gather_recv-back, owned_block-next, back-zero, back-next, back-suc_rank,
}

-- Going back from the next rank, reduced or not.
pub back_of_next :
    (rank size : ℕ)
    → rank < size
    → (d : ℕ) → d < size
    → back (next_rank rank size) size d ≡ back (rank + 1) size d
back_of_next rank size h zero k =
    back-zero (next_rank rank size) size (next_rank-lt rank size h)
    ∙ sym (ap (λ (t : ℕ). t % size) (omega arith) ∙ add-mod_right (rank + 1) size)
back_of_next rank size h (suc d) k =
    ap (back (next_rank rank size) size) (omega arith)
    ∙ back-next rank size h d (omega arith)
    ∙ sym (back-suc_rank rank size h d (omega arith))
    ∙ ap (back (rank + 1) size) (omega arith)

-- For a rank below the size, in each of the `size - 1` steps of either phase, the next rank receives
-- the block that the rank sends.
pub neighbours_agree :
    (rank size step : ℕ)
    → rank < size
    → step + 1 < size
    → (scatter_recv_block (next_rank rank size) size step ≡ scatter_send_block rank size step)
      × (gather_recv_block (next_rank rank size) size step ≡ gather_send_block rank size step)
neighbours_agree rank size step h k = (
  scatter_recv-back (next_rank rank size) size (next_rank-lt rank size h) step (omega arith)
      ∙ back-next rank size h step (omega arith)
      ∙ sym (scatter_send-back rank size h step (omega arith)),
  gather_recv-back (next_rank rank size) size (next_rank-lt rank size h) step (omega arith)
      ∙ back_of_next rank size h step (omega arith)
      ∙ sym (gather_send-back rank size h step (omega arith)),
)

-- With at least two ranks, a rank ends Reduce-Scatter with the block that it owns: the last step
-- receives it, and All-Gather sends it first.
pub owned_block_hand_over :
    (rank size : ℕ)
    → rank < size
    → 1 < size
    → (scatter_recv_block rank size (size - 2) ≡ owned_block_of rank size)
      × (gather_send_block rank size 0 ≡ owned_block_of rank size)
owned_block_hand_over rank size h k = (
  scatter_recv-back rank size h (size - 2) (omega arith)
      ∙ ap (λ (t : ℕ). t % size) (omega arith)
      ∙ sym (owned_block-next rank size h),
  gather_send-back rank size h 0 (omega arith)
      ∙ ap (λ (t : ℕ). t % size) (omega arith)
      ∙ add-mod_right (rank + 1) size
      ∙ sym (owned_block-next rank size h),
)
