-- ===== src/Ring/Schedule/Around.antt =====
-- Going around the ring from a rank and from its neighbours.
use comm_workshop_final.Prelude.{ℕ, ◌+◌, ◌-◌, ◌%◌, ◌<◌, ◌≡◌, ap, ◌∙◌, arith}
use comm_workshop_final.Ring.Schedule.Blocks.{next_rank, back, wrap, back-zero, back-next}

module _ (rank size : ℕ) (h : rank < size) where
  -- From the previous rank, one place less.
  pub back-previous :
      (d : ℕ) → d + 1 < size → back (back rank size 1) size d ≡ back rank size (d + 1)
  back-previous d k = ground (
    arith,
    wrap (rank + size - 1) size,
    wrap (rank + size - (d + 1)) size,
    wrap (back rank size 1 + size - d) size,
  )

  pub next_rank-previous : next_rank (back rank size 1) size ≡ rank
  next_rank-previous = ground (arith, wrap (rank + size - 1) size, wrap (back rank size 1 + 1) size)

  pub previous-next_rank : back (next_rank rank size) size 1 ≡ rank
  previous-next_rank = back-next rank size h 0 (omega arith) ∙ back-zero rank size h

  -- The last block on the way is that of the next rank.
  pub back-last : back rank size (size - 1) ≡ next_rank rank size
  back-last = ap (λ (t : ℕ). t % size) (omega arith)

  -- Every block is on the way.
  pub back-back : (b : ℕ) → b < size → back rank size (back rank size b) ≡ b
  back-back b k =
      ground (arith, wrap (rank + size - b) size, wrap (rank + size - back rank size b) size)
