-- ===== src/Ring/Call/Room.antt =====
-- The checks of a call with numbers in range, and the size of its temporary buffer.
use comm_workshop_final.Prelude.{
  ℕ, zero, suc, ◌≤◌, ◌<◌, ◌≡◌, arith, List, [], ◌∷◌, ◌==◌, leb, false, get_or, length,
}
use comm_workshop_final.Types.{Datatype}
use comm_workshop_final.Reduction.{datatype_size}
use comm_workshop_final.Pieces.{element_at}
use comm_workshop_final.Pieces.Bounds.{element_at_lem}
use comm_workshop_final.Ring.Schedule.{owned_block_of}
use comm_workshop_final.Ring.Schedule.Blocks.{owned_block-next, next_rank-lt}
use comm_workshop_final.Ring.Context.{Context}
use comm_workshop_final.Ring.Collectives.{max_element, count_of}
use comm_workshop_final.Ring.Step.Setup.{times_mono}
use comm_workshop_final.Ring.Phase.Ready.{Ready, block_inside}
use comm_workshop_final.Ring.Call.{Callable, laid_out, laid_out-Ready}

get_or-max_element : (xs : List ℕ) (i : ℕ) → get_or xs i 0 ≤ max_element xs
get_or-max_element [] i = omega arith
get_or-max_element (x ∷ xs) zero = omega arith
get_or-max_element (x ∷ xs) (suc i) = omega (arith, get_or-max_element xs i)

max_element-le :
    (xs : List ℕ) (bound : ℕ)
    → ((i : ℕ) → i < length xs → get_or xs i 0 ≤ bound)
    → max_element xs ≤ bound
max_element-le [] bound h = omega arith
max_element-le (x ∷ xs) bound h =
    omega (arith, h 0 (omega arith), max_element-le xs bound (λ i lt. h (suc i) (omega arith)))

module _ {T E : Type 0} (c : Context T E) (datatype : Datatype) (count : ℕ)
    (y : Callable c count (datatype_size datatype)) where
  abbrev element_size : ℕ
  element_size = datatype_size datatype

  abbrev final : Context T E
  final = laid_out c count element_size

  r : Ready final count element_size
  r = laid_out-Ready c count element_size y

  abbrev room : ℕ
  room = element_at (max_element final.layout.counts) element_size

  -- The temporary buffer has room for the largest block.
  pub room_enough : (b : ℕ) → b < c.world_size → count_of final b ≤ room
  room_enough b h =
      rw
        (element_at_lem (max_element final.layout.counts) element_size y.element_pos (
          omega (
            arith,
            y.bytes,
            times_mono (max_element final.layout.counts) count element_size (
                max_element-le final.layout.counts count (λ i lt. omega (
                  arith,
                  block_inside final count element_size r i
                      (omega (arith, lt, r.layout.counts_length)),
                ))),
          )))
        (get_or-max_element final.layout.counts b)

  pub known : (element_size == 0) ≡ false
  known = let p = y.element_pos in ground arith

  pub own_block : leb c.world_size (owned_block_of c.rank c.world_size) ≡ false
  own_block =
      let e = owned_block-next c.rank c.world_size y.rank_lt in
      let lt = next_rank-lt c.rank c.world_size y.rank_lt in ground (arith, e, lt)
