-- ===== src/Ring/Schedule.antt =====
-- Which block a rank sends and receives in a step (`positive_mod` and its uses).
pub mod Blocks
pub mod Matching
pub mod Around
use comm_workshop_final.Prelude.{ℕ, ◌+◌, if◌then◌else◌}
use comm_workshop_final.Prelude.Int.{ℤ, sub_ℕ, is_neg, to_ℕ, rem, add_ℕ}

unfoldable pub positive_mod : ℤ → ℕ → ℤ
unfolding rem add_ℕ
positive_mod value modulus =
    let result = rem value modulus in if is_neg result then add_ℕ result modulus else result

-- Reduce-Scatter: `positive_mod(rank - step, size)` and `positive_mod(rank - step - 1, size)`.
unfoldable pub scatter_send_block : ℕ → ℕ → ℕ → ℕ
unfolding positive_mod
scatter_send_block rank size step = to_ℕ (positive_mod (sub_ℕ rank step) size)

unfoldable pub scatter_recv_block : ℕ → ℕ → ℕ → ℕ
unfolding positive_mod
scatter_recv_block rank size step = to_ℕ (positive_mod (sub_ℕ rank (step + 1)) size)

-- All-Gather: `positive_mod(rank - step + 1, size)` and `positive_mod(rank - step, size)`.
unfoldable pub gather_send_block : ℕ → ℕ → ℕ → ℕ
unfolding positive_mod
gather_send_block rank size step = to_ℕ (positive_mod (sub_ℕ (rank + 1) step) size)

unfoldable pub gather_recv_block : ℕ → ℕ → ℕ → ℕ
unfolding positive_mod
gather_recv_block rank size step = to_ℕ (positive_mod (sub_ℕ rank step) size)

-- `positive_mod(rank + 1, size)`
unfoldable pub owned_block_of : ℕ → ℕ → ℕ
unfolding positive_mod
owned_block_of rank size = to_ℕ (positive_mod (sub_ℕ (rank + 1) 0) size)
