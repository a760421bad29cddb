-- ===== src/Ring/Call.antt =====
-- `ring_reduce_scatter_inplace`, `ring_all_gather_inplace` and `ring_all_reduce` as calls on a whole
-- context, over a transport that keeps its contract.
pub mod Moved
pub mod Room
pub mod Run
pub mod AllReduce
pub mod Failing
pub mod Tags
pub mod Alone
pub mod Trace
use native.Mathlib.Nat.{div-le_self}
use comm_workshop_final.Prelude.{
  ℕ, zero, suc, ◌+◌, ◌-◌, ◌*◌, ◌/◌, ◌%◌, ◌^◌, ◌≤◌, ◌<◌, ◌≡◌, refl, sym, ap, ◌∙◌, max, dec_lt, arith,
}
use comm_workshop_final.Prelude.Size.{size_mod}
use comm_workshop_final.Prelude.Int.{pos}
use comm_workshop_final.Types.{Datatype, success}
use comm_workshop_final.BlockLayout.{BlockLayout, compute_block_layout}
use comm_workshop_final.BlockLayout.Closed.{Holds, block_size, fill_layout-Holds}
use comm_workshop_final.BlockLayout.Partition.{layout_after}
use comm_workshop_final.Pieces.{Config, piece_elements_for, piece_count_for}
use comm_workshop_final.Pieces.Bounds.{piece_elements_for-pos, piece_count_for-lt}
use comm_workshop_final.Ring.Context.{Context}
use comm_workshop_final.Ring.Collectives.{count_of}
use comm_workshop_final.Ring.Step.Setup.{le-times}
use comm_workshop_final.Ring.Phase.Ready.{Ready}

-- The numbers of a call: at most 128 ranks, at most 4096 pieces of a block, pieces below 2 ^ 32
-- bytes, `count` elements below 2 ^ 63 bytes.
pub record Callable {T E : Type 0} (c : Context T E) (count element_size : ℕ) : Type 0 where
  pub size_pos : 0 < c.world_size
  pub size_small : c.world_size ≤ 128
  pub rank_lt : c.rank < c.world_size
  pub element_pos : 0 < element_size
  pub bytes : count * element_size < 2 ^ 63
  pub capacity_pos : 0 < c.config.max_inflight
  pub capacity_small : c.config.max_inflight ≤ 1024
  pub piece_bytes : piece_elements_for c.config element_size * element_size < 2 ^ 32
  pub pieces : count / c.world_size + 1 ≤ 4096 * piece_elements_for c.config element_size

-- A block of at most `4096 * pe` elements has at most 4096 pieces.
piece_count_for_small :
    (n pe : ℕ) → 0 < pe → n + pe < size_mod → n ≤ 4096 * pe → piece_count_for n pe ≤ 4096
piece_count_for_small n pe p b h = elim (dec_lt 4096 (piece_count_for n pe)) [
  | yes more ↦ absurd (omega (arith, (piece_count_for-lt n pe 4096 p b).0 more))
  | no few ↦ omega arith
]

-- The layout that the code computes, whatever stood there before.
layout_after-Holds :
    (count size : ℕ) (layout : BlockLayout)
    → 0 < size
    → count < size_mod
    → Holds (count / size) (count % size) size size (layout_after count (pos size) layout)
unfolding compute_block_layout
layout_after-Holds count zero layout p b = absurd (omega arith)
layout_after-Holds count (suc n) layout p b = fill_layout-Holds count (suc n) p b

block_size-le : (base remainder b : ℕ) → block_size base remainder b ≤ base + 1
block_size-le base remainder b = ground arith

module _ {T E : Type 0} (c : Context T E) (count element_size : ℕ) where
  -- The context once `compute_block_layout` has set its layout.
  abbrev pub laid_out : Context T E
  laid_out = record c { layout = layout_after count (pos c.world_size) c.layout }

  module _ (y : Callable c count element_size) where
    count_small : count < 2 ^ 63
    count_small = omega (arith, y.bytes, le-times count element_size y.element_pos)

    layout-Holds :
        Holds
          (count / c.world_size)
          (count % c.world_size)
          c.world_size
          c.world_size
          laid_out.layout
    layout-Holds =
        layout_after-Holds count c.world_size c.layout y.size_pos (omega (arith, count_small))

    count_of-le : (b : ℕ) → b < c.world_size → count_of laid_out b ≤ count / c.world_size + 1
    count_of-le b h = omega (
      arith,
      layout-Holds.sized b h,
      block_size-le (count / c.world_size) (count % c.world_size) b,
    )

    pub laid_out-Ready : Ready laid_out count element_size
    laid_out-Ready = record {
      size_pos = y.size_pos;
      size_small = y.size_small;
      rank_lt = y.rank_lt;
      layout = layout-Holds;
      element_pos = y.element_pos;
      bytes = y.bytes;
      capacity_pos = y.capacity_pos;
      capacity_small = y.capacity_small;
      piece_bytes = y.piece_bytes;
      pieces = λ b h.
          piece_count_for_small (count_of laid_out b) pe
            (piece_elements_for-pos c.config element_size)
            (omega (arith, count_of-le b h, y.pieces, quotient, count_small, pe_small))
            (omega (arith, count_of-le b h, y.pieces));
    }
      where
        pe : ℕ
        pe = piece_elements_for c.config element_size

        pe_small : pe < 2 ^ 32
        pe_small = omega (arith, y.piece_bytes, le-times pe element_size y.element_pos)

        quotient : count / c.world_size ≤ count
        quotient = div-le_self count c.world_size
