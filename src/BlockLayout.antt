-- ===== src/BlockLayout.antt =====
-- src/block_layout.hpp and src/block_layout.cpp: how `count` elements are cut into one block per
-- rank. A layout that the caller passes by reference is returned beside the status.
pub mod Closed
pub mod Partition
use comm_workshop_final.Prelude.{
  ℕ, zero, suc, ◌+◌, ◌/◌, ◌%◌, List, replicate, set, if◌then◌else◌, ltb,
}
use comm_workshop_final.Prelude.Int.{ℤ, pos, negsuc}
use comm_workshop_final.Prelude.Size.{add_size}
use comm_workshop_final.Types.{Status, success, err_invalid_argument}

pub record BlockLayout : Type 0 where
  pub counts : List ℕ
  pub offsets : List ℕ

-- The loop over `block`, with the rounds left, `block` and `running_offset` as arguments.
unfoldable pub layout_loop : ℕ → ℕ → ℕ → ℕ → ℕ → BlockLayout → BlockLayout
layout_loop base remainder zero block running_offset layout = layout
layout_loop base remainder (suc rounds) block running_offset layout =
    let block_count = add_size base (if ltb block remainder then 1 else 0) in
    layout_loop base remainder rounds (block + 1) (add_size running_offset block_count) (record {
      counts = set layout.counts block block_count;
      offsets = set layout.offsets block running_offset;
    })

-- The body behind the guard: assign both vectors, then fill them.
unfoldable pub fill_layout : ℕ → ℕ → BlockLayout
unfolding layout_loop
fill_layout count world_size =
    layout_loop (count / world_size) (count % world_size) world_size 0 0
      (record { counts = replicate world_size 0; offsets = replicate world_size 0 })

unfoldable pub compute_block_layout : ℕ → ℤ → BlockLayout → Status × BlockLayout
unfolding fill_layout
compute_block_layout count (negsuc n) layout = (err_invalid_argument, layout)
compute_block_layout count (pos zero) layout = (err_invalid_argument, layout)
compute_block_layout count (pos (suc n)) layout = (success, fill_layout count (suc n))
