-- ===== src/BlockLayout/Closed.antt =====
-- The closed form of what the loop of `compute_block_layout` stores.
use comm_workshop_final.Prelude.{
  ℕ, zero, suc, ◌+◌, ◌*◌, ◌/◌, ◌%◌, ◌≤◌, ◌<◌, min, ◌≡◌, refl, if◌then◌else◌, ltb, get_or, set, List,
  ℕ_discrete, ◌∙◌, length, length-set, length-replicate, get_or-set_self, get_or-set_ne, arith,
}
use comm_workshop_final.Prelude.Size.{size_mod, add_size, add_size_lem}
use comm_workshop_final.BlockLayout.{BlockLayout, layout_loop, fill_layout}

-- Elements of block `block`: the first `remainder` blocks take one more.
abbrev pub block_size : ℕ → ℕ → ℕ → ℕ
block_size base remainder block = base + (if ltb block remainder then 1 else 0)

-- Where block `block` begins.
abbrev pub block_start : ℕ → ℕ → ℕ → ℕ
block_start base remainder block = block * base + min block remainder

pub block_start-suc :
    (base remainder block : ℕ)
    → block_start base remainder block + block_size base remainder block
      ≡ block_start base remainder (block + 1)
block_start-suc base remainder block = ground arith

-- What a layout of `size` blocks holds at the blocks below `hi`.
pub record Holds (base remainder size hi : ℕ) (layout : BlockLayout) : Type 0 where
  pub counts_length : length layout.counts ≡ size
  pub offsets_length : length layout.offsets ≡ size
  pub sized : (j : ℕ) → j < hi → get_or layout.counts j 0 ≡ block_size base remainder j
  pub placed : (j : ℕ) → j < hi → get_or layout.offsets j 0 ≡ block_start base remainder j

-- A write at `hi` extends what is known by that entry.
get_or-set-below :
    (xs : List ℕ) (f : ℕ → ℕ) (hi v : ℕ)
    → hi < length xs
    → v ≡ f hi
    → ((j : ℕ) → j < hi → get_or xs j 0 ≡ f j)
    → (j : ℕ) → j < hi + 1
    → get_or (set xs hi v) j 0 ≡ f j
get_or-set-below xs f hi v h e known j b = elim (ℕ_discrete hi j) [
  | yes same ↦ rw (← same, get_or-set_self xs hi v 0 h) e
  | no other ↦ rw (get_or-set_ne xs hi j v 0 other) (known j (omega arith))
]

pub block_start_mono :
    (base remainder i j : ℕ) → i ≤ j → block_start base remainder i ≤ block_start base remainder j
block_start_mono base remainder i j h = grind arith

-- While the whole layout fits, one round of the loop does not wrap.
round_values :
    (base remainder size block running : ℕ)
    → block < size
    → block_start base remainder size < size_mod
    → running ≡ block_start base remainder block
    → (add_size base (if ltb block remainder then 1 else 0) ≡ block_size base remainder block)
      × (add_size running (block_size base remainder block)
          ≡ block_start base remainder (block + 1))
round_values base remainder size block running h b r = (
  add_size_lem base _ (omega (arith, upto, next)),
  add_size_lem running _ (omega (arith, upto, next, r)) ∙ omega (arith, next, r),
)
  where
    next :
        block_start base remainder block + block_size base remainder block
        ≡ block_start base remainder (block + 1)
    next = block_start-suc base remainder block

    upto : block_start base remainder (block + 1) ≤ block_start base remainder size
    upto = block_start_mono base remainder (block + 1) size (omega arith)

layout_loop-Holds :
    (base remainder size rounds block running : ℕ) (layout : BlockLayout)
    → block + rounds ≡ size
    → block_start base remainder size < size_mod
    → running ≡ block_start base remainder block
    → Holds base remainder size block layout
    → Holds base remainder size size (layout_loop base remainder rounds block running layout)
unfolding layout_loop
layout_loop-Holds base remainder size zero block running layout e b r h =
    let same : block ≡ size = omega arith in rw same at h
layout_loop-Holds base remainder size (suc rounds) block running layout e b r h =
    let values = round_values base remainder size block running (omega arith) b r in
    rw (values.0, values.1)
      (layout_loop-Holds base remainder size rounds (block + 1) _ _ (omega arith) b refl (record {
        counts_length = length-set layout.counts block _ ∙ h.counts_length;
        offsets_length = length-set layout.offsets block _ ∙ h.offsets_length;
        sized =
            get_or-set-below layout.counts (block_size base remainder) block _
              (omega (arith, h.counts_length)) refl h.sized;
        placed =
            get_or-set-below layout.offsets (block_start base remainder) block _
              (omega (arith, h.offsets_length)) r h.placed;
      }))

-- The blocks add up to the elements.
pub block_start-end :
    (count size : ℕ) → 0 < size → block_start (count / size) (count % size) size ≡ count
block_start-end count size h = grind arith

-- The layout that the loop leaves behind.
pub fill_layout-Holds :
    (count size : ℕ)
    → 0 < size
    → count < size_mod
    → Holds (count / size) (count % size) size size (fill_layout count size)
unfolding fill_layout
fill_layout-Holds count size h b =
    layout_loop-Holds (count / size) (count % size) size size 0 0 _ (omega arith)
      (omega (arith, block_start-end count size h)) (omega arith)
      (record {
        counts_length = length-replicate size 0;
        offsets_length = length-replicate size 0;
        sized = λ j k. absurd (omega arith);
        placed = λ j k. absurd (omega arith);
      })
