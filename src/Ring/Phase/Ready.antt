-- ===== src/Ring/Phase/Ready.antt =====
-- When a phase can run: the context's numbers are in range for `count` elements.
use comm_workshop_final.Prelude.{
  ℕ, ◌+◌, ◌*◌, ◌/◌, ◌%◌, ◌^◌, ◌≤◌, ◌<◌, ◌≡◌, ◌≢◌, ◌⊎◌, inl, inr, dec_lt, arith,
}
use comm_workshop_final.Prelude.Size.{size_mod}
use comm_workshop_final.BlockLayout.Closed.{
  Holds, block_start, block_start-suc, block_start_mono, block_start-end,
}
use comm_workshop_final.Pieces.{piece_elements_for, piece_count_for}
use comm_workshop_final.Pieces.Bounds.{piece_elements_for-pos, piece_count_for-lt}
use comm_workshop_final.Ring.Context.{Context}
use comm_workshop_final.Ring.Collectives.{count_of, offset_of, scatter_step, gather_step}
use comm_workshop_final.Ring.Step.Setup.{Sized, times_mono, le-times}

-- At most 128 ranks and 4096 pieces of a block, pieces below 2 ^ 32 bytes, buffers below 2 ^ 63.
pub record Ready {T E : Type 0} (c : Context T E) (count element_size : ℕ) : Type 0 where
  pub size_pos : 0 < c.world_size
  pub size_small : c.world_size ≤ 128
  pub rank_lt : c.rank < c.world_size
  pub layout :
      Holds (count / c.world_size) (count % c.world_size) c.world_size c.world_size c.layout
  pub element_pos : 0 < element_size
  pub bytes : count * element_size < 2 ^ 63
  pub capacity_pos : 0 < c.config.max_inflight
  pub capacity_small : c.config.max_inflight ≤ 1024
  pub piece_bytes : piece_elements_for c.config element_size * element_size < 2 ^ 32
  pub pieces :
      (block : ℕ)
      → block < c.world_size
      → piece_count_for (count_of c block) (piece_elements_for c.config element_size) ≤ 4096

module _ {T E : Type 0} (c : Context T E) (count element_size : ℕ)
    (y : Ready c count element_size) where
  block_end :
      (b : ℕ)
      → b < c.world_size
      → offset_of c b + count_of c b
        ≡ block_start (count / c.world_size) (count % c.world_size) (b + 1)
  block_end b h =
      rw (y.layout.placed b h, y.layout.sized b h)
        (block_start-suc (count / c.world_size) (count % c.world_size) b)

  -- Blocks lie inside the elements,
  pub block_inside : (b : ℕ) → b < c.world_size → offset_of c b + count_of c b ≤ count
  block_inside b h = omega (
    arith,
    block_end b h,
    block_start_mono (count / c.world_size) (count % c.world_size) (b + 1) c.world_size
        (omega arith),
    block_start-end count c.world_size y.size_pos,
  )

  -- and beside each other.
  pub blocks_apart :
      (a b : ℕ)
      → a < c.world_size
      → b < c.world_size
      → a ≢ b
      → (offset_of c a + count_of c a ≤ offset_of c b)
        ⊎ (offset_of c b + count_of c b ≤ offset_of c a)
  blocks_apart a b ha hb ne = elim (dec_lt a b) [
    | yes lt ↦ inl (
        omega (
          arith,
          block_end a ha,
          y.layout.placed b hb,
          block_start_mono (count / c.world_size) (count % c.world_size) (a + 1) b (omega arith),
        ))
    | no ge ↦ inr (
        omega (
          arith,
          block_end b hb,
          y.layout.placed a ha,
          block_start_mono (count / c.world_size) (count % c.world_size) (b + 1) a (omega arith),
        ))
  ]

  pub block_bytes :
      (b : ℕ) → b < c.world_size → (offset_of c b + count_of c b) * element_size < 2 ^ 63
  block_bytes b h = omega (
    arith,
    y.bytes,
    times_mono (offset_of c b + count_of c b) count element_size (block_inside b h),
  )

  pub count_bytes : (b : ℕ) → b < c.world_size → (0 + count_of c b) * element_size < 2 ^ 63
  count_bytes b h = omega (
    arith,
    y.bytes,
    times_mono (0 + count_of c b) count element_size (omega (arith, block_inside b h)),
  )

  -- The pieces of a block reach its end.
  pub pieces_cover :
      (b : ℕ)
      → b < c.world_size
      → count_of c b
        ≤ piece_count_for (count_of c b) (piece_elements_for c.config element_size)
          * piece_elements_for c.config element_size
  pieces_cover b h = elim (dec_lt (pieces * pe) (count_of c b)) [
    | yes more ↦
        absurd (omega (arith, (piece_count_for-lt (count_of c b) pe pieces pe_pos small).1 more))
    | no covered ↦ omega arith
  ]
    where
      pe : ℕ
      pe = piece_elements_for c.config element_size

      pieces : ℕ
      pieces = piece_count_for (count_of c b) pe

      pe_pos : 0 < pe
      pe_pos = piece_elements_for-pos c.config element_size

      small : count_of c b + pe < size_mod
      small = omega (
        arith,
        count_bytes b h,
        le-times (0 + count_of c b) element_size y.element_pos,
        y.piece_bytes,
        le-times pe element_size y.element_pos,
      )

  pub scatter_step-Sized :
      (number : ℕ) → number + 1 < c.world_size → Sized (scatter_step c element_size number)
  scatter_step-Sized number h = record {
    element_pos = y.element_pos;
    piece_pos = piece_elements_for-pos c.config element_size;
    capacity_pos = y.capacity_pos;
    capacity_small = y.capacity_small;
    number_small = omega (arith, y.size_small);
    piece_bytes = y.piece_bytes;
  }

  pub gather_step-Sized :
      (number : ℕ) → number + 1 < c.world_size → Sized (gather_step c element_size number)
  gather_step-Sized number h = record {
    element_pos = y.element_pos;
    piece_pos = piece_elements_for-pos c.config element_size;
    capacity_pos = y.capacity_pos;
    capacity_small = y.capacity_small;
    number_small = omega (arith, y.size_small);
    piece_bytes = y.piece_bytes;
  }
