-- ===== src/BlockLayout/Partition.antt =====
-- What `compute_block_layout` promises: consecutive blocks that cut the elements up evenly.
use native.Mathlib.Numerals.{add-one}
use comm_workshop_final.Prelude.{
  ℕ, zero, suc, ◌+◌, ◌/◌, ◌%◌, ◌≤◌, ◌<◌, ◌≡◌, refl, ap, ◌∙◌, sym, get_or, length, dec_lt, arith,
}
use comm_workshop_final.Prelude.Int.{ℤ, pos}
use comm_workshop_final.Prelude.Size.{size_mod}
use comm_workshop_final.Types.{success}
use comm_workshop_final.BlockLayout.{BlockLayout, compute_block_layout}
use comm_workshop_final.BlockLayout.Closed.{
  Holds, block_start, block_start-suc, block_start_mono, block_start-end, fill_layout-Holds,
}

-- The layout that a call leaves in its reference argument.
abbrev pub layout_after : ℕ → ℤ → BlockLayout → BlockLayout
layout_after count world_size layout = (compute_block_layout count world_size layout).1

-- Consecutive blocks, `size` of them, that start at 0 and end at `count`.
pub record IsPartition (count size : ℕ) (layout : BlockLayout) : Type 0 where
  pub counts_length : length layout.counts ≡ size
  pub offsets_length : length layout.offsets ≡ size
  starts : get_or layout.offsets 0 0 ≡ 0
  pub consecutive :
      (j : ℕ)
      → j + 1 < size
      → get_or layout.offsets (j + 1) 0 ≡ get_or layout.offsets j 0 + get_or layout.counts j 0
  pub ends : (j : ℕ) → j + 1 ≡ size → get_or layout.offsets j 0 + get_or layout.counts j 0 ≡ count
  even : (j k : ℕ) → j < size → k < size → get_or layout.counts j 0 ≤ get_or layout.counts k 0 + 1

-- Element `i` lies in block `j`.
abbrev pub InBlock : BlockLayout → ℕ → ℕ → Type 0
InBlock layout i j =
    (get_or layout.offsets j 0 ≤ i) × (i < get_or layout.offsets j 0 + get_or layout.counts j 0)

-- Going down from block `hi`, the first block that starts at or before `i`.
locate :
    (base remainder i hi : ℕ)
    → i < block_start base remainder hi
    → (j : ℕ) × (j < hi)
      × (block_start base remainder j ≤ i)
      × (i < block_start base remainder (j + 1))
locate base remainder i zero h = absurd (omega arith)
locate base remainder i (suc hi) h = elim (dec_lt i (block_start base remainder hi)) [
  | yes below ↦ let (j, a, b, c) = locate base remainder i hi below in (j, omega arith, b, c)
  | no above ↦ (hi, omega arith, omega arith, rw (add-one) h)
]

-- No element lies in two blocks.
block_start_unique :
    (base remainder i j k : ℕ)
    → block_start base remainder j ≤ i
    → i < block_start base remainder (j + 1)
    → block_start base remainder k ≤ i
    → i < block_start base remainder (k + 1)
    → k ≡ j
block_start_unique base remainder i j k a b c d = elim (dec_lt j k) [
  | yes lt ↦ absurd (omega (arith, block_start_mono base remainder (j + 1) k (omega arith)))
  | no ge ↦ elim (dec_lt k j) [
    | yes lt ↦ absurd (omega (arith, block_start_mono base remainder (k + 1) j (omega arith)))
    | no le ↦ omega arith
  ]
]

module _ (count size : ℕ) {layout : BlockLayout} (positive : 0 < size)
    (h : Holds (count / size) (count % size) size size layout) where
  block_end :
      (j : ℕ)
      → j < size
      → get_or layout.offsets j 0 + get_or layout.counts j 0
        ≡ block_start (count / size) (count % size) (j + 1)
  block_end j k = rw (h.placed j k, h.sized j k) (block_start-suc (count / size) (count % size) j)

  Holds-IsPartition : IsPartition count size layout
  Holds-IsPartition = record {
    counts_length = h.counts_length;
    offsets_length = h.offsets_length;
    starts = h.placed 0 positive ∙ omega arith;
    consecutive = λ j k. h.placed (j + 1) k ∙ sym (block_end j (omega arith));
    ends = λ j k.
        block_end j (omega arith)
        ∙ ap (block_start (count / size) (count % size)) k
        ∙ block_start-end count size positive;
    even = λ j k a b. rw (h.sized j a, h.sized k b) (ground arith);
  }

  Holds-covers :
      (i : ℕ)
      → i < count
      → (j : ℕ) × (j < size)
        × InBlock layout i j
        × ((k : ℕ) → k < size → InBlock layout i k → k ≡ j)
  Holds-covers i b =
      let (j, below, from, upto) =
        locate (count / size) (count % size) i size
          (omega (arith, block_start-end count size positive)) in
      (
        j,
        below,
        (rw (h.placed j below) from, rw (block_end j below) upto),
        λ k c inside.
            block_start_unique (count / size) (count % size) i j k from upto
              (rw (h.placed k c) at (inside.0)) (rw (block_end k c) at (inside.1)),
      )

-- For a positive `world_size` and fewer than 2 ^ 64 elements the call succeeds and stores a partition
-- of the elements: consecutive blocks from 0 to `count` whose sizes differ by at most one.
pub compute_block_layout-IsPartition :
    (count size : ℕ) (layout : BlockLayout)
    → 0 < size
    → count < size_mod
    → ((compute_block_layout count (pos size) layout).0 ≡ success)
      × IsPartition count size (layout_after count (pos size) layout)
unfolding compute_block_layout
compute_block_layout-IsPartition count zero layout p b = absurd (omega arith)
compute_block_layout-IsPartition count (suc n) layout p b =
    (refl, Holds-IsPartition count (suc n) p (fill_layout-Holds count (suc n) p b))

-- In the layout of fewer than 2 ^ 64 elements for a positive `world_size`, every element lies in
-- exactly one block.
pub compute_block_layout-covers :
    (count size i : ℕ) (layout : BlockLayout)
    → 0 < size
    → count < size_mod
    → i < count
    → (j : ℕ) × (j < size)
      × InBlock (layout_after count (pos size) layout) i j
      × ((k : ℕ) → k < size → InBlock (layout_after count (pos size) layout) i k → k ≡ j)
unfolding compute_block_layout
compute_block_layout-covers count zero i layout p b c = absurd (omega arith)
compute_block_layout-covers count (suc n) i layout p b c =
    Holds-covers count (suc n) p (fill_layout-Holds count (suc n) p b) i c
