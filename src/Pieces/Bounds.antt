-- ===== src/Pieces/Bounds.antt =====
-- The pieces of a block tile it, the batches tile the pieces, and nothing wraps.
use native.Mathlib.Nat.{le-div_iff_mul-le, mul-div_cancel, div-add-mod', mod-lt, div-eq_of_lt-le}
use comm_workshop_final.Prelude.{
  ℕ, zero, suc, ◌+◌, ◌-◌, ◌*◌, ◌/◌, ◌%◌, ◌≤◌, ◌<◌, ◌≡◌, sym, min, max, ◌↔◌, ◌==◌, false, arith,
}
use comm_workshop_final.Prelude.Size.{
  size_mod, add_size, sub_size, add_size_lem, sub_size_lem, mul_size_lem,
}
use comm_workshop_final.Pieces.{
  Config, piece_elements_for, piece_count_for, batches_for, piece_offset, piece_size, element_at,
}

pub piece_elements_for-pos : (config : Config) (n : ℕ) → 1 ≤ piece_elements_for config n
unfolding piece_elements_for
piece_elements_for-pos config n = ground arith

-- Dividing rounded up counts the multiples of `d` below `n`.
ceiling : (n d k : ℕ) → 0 < d → n + d < size_mod → (k < sub_size (add_size n d) 1 / d) ↔ (k * d < n)
ceiling n d k h b =
    rw (add_size_lem n d b, sub_size_lem (n + d) 1 (omega arith) b) (ceiling_up, ceiling_down)
  where
    ceiling_up : k < (n + d - 1) / d → k * d < n
    ceiling_up c = omega (arith, (le-div_iff_mul-le {k = d} {x = suc k} {y = n + d - 1} h).0 c)

    ceiling_down : k * d < n → k < (n + d - 1) / d
    ceiling_down c = (le-div_iff_mul-le {k = d} {x = suc k} {y = n + d - 1} h).1 (omega arith)

-- A piece index is in range exactly when the piece begins inside the block.
pub piece_count_for-lt :
    (count pe k : ℕ)
    → 0 < pe
    → count + pe < size_mod
    → (k < piece_count_for count pe) ↔ (k * pe < count)
unfolding piece_count_for
piece_count_for-lt zero pe k h b = ((λ c. absurd (omega arith)), λ c. absurd (omega arith))
piece_count_for-lt (suc n) pe k h b =
    let e : (suc n == 0) ≡ false = ground arith in rw e (ceiling (suc n) pe k h b)

-- A batch index is in range exactly when some piece of either direction is left for it.
pub batches_for-lt :
    (sends recvs capacity k : ℕ)
    → 0 < capacity
    → max sends recvs + capacity < size_mod
    → (k < batches_for sends recvs capacity) ↔ (k * capacity < max sends recvs)
unfolding batches_for
batches_for-lt sends recvs capacity k h b = ceiling (max sends recvs) capacity k h b

pub piece_offset_lem : (k pe : ℕ) → k * pe < size_mod → piece_offset k pe ≡ k * pe
unfolding piece_offset
piece_offset_lem k pe h = mul_size_lem k pe h

-- A piece that begins inside the block is not empty and ends inside it.
pub piece_size_lem :
    (count k pe : ℕ)
    → count < size_mod
    → k * pe < count
    → piece_size count k pe ≡ min pe (count - k * pe)
unfolding piece_size
piece_size_lem count k pe b h =
    rw (mul_size_lem k pe (omega arith), sub_size_lem count (k * pe) (omega arith) b)

pub element_at_lem :
    (index element_size : ℕ)
    → 0 < element_size
    → index * element_size < size_mod
    → element_at index element_size ≡ index
unfolding element_at
element_at_lem index element_size p b =
    rw (mul_size_lem index element_size b) (mul-div_cancel index p)

-- With pieces of `pe` > 0 elements and no overflow, every element of a block lies in exactly one of
-- its pieces: element `i` in piece `i / pe`, at place `i % pe`.
pub pieces_tile :
    (count pe i : ℕ)
    → 0 < pe
    → count + pe < size_mod
    → i < count
    → (i / pe < piece_count_for count pe)
      × (piece_offset (i / pe) pe + i % pe ≡ i)
      × (i % pe < piece_size count (i / pe) pe)
      × ((k : ℕ)
          → k < piece_count_for count pe
          → piece_offset k pe ≤ i
          → i < piece_offset k pe + piece_size count k pe
          → k ≡ i / pe)
pieces_tile count pe i h b c = (
  (piece_count_for-lt count pe (i / pe) h b).1 begins,
  rw (piece_offset_lem (i / pe) pe (omega arith)) whole,
  rw (piece_size_lem count (i / pe) pe (omega arith) begins) (omega (arith, whole, mod-lt i h)),
  only,
)
  where
    whole : i / pe * pe + i % pe ≡ i
    whole = div-add-mod' i pe

    begins : i / pe * pe < count
    begins = omega (arith, whole)

    only :
        (k : ℕ)
        → k < piece_count_for count pe
        → piece_offset k pe ≤ i
        → i < piece_offset k pe + piece_size count k pe
        → k ≡ i / pe
    only k lt from upto = sym (div-eq_of_lt-le {k = k} pe {m = i} low high)
      where
        inside : k * pe < count
        inside = (piece_count_for-lt count pe k h b).0 lt

        low : k * pe ≤ i
        low = rw (piece_offset_lem k pe (omega (arith, inside))) at from

        high : i < (k + 1) * pe
        high = omega (
          arith,
          upto,
          piece_offset_lem k pe (omega (arith, inside)),
          piece_size_lem count k pe (omega arith) inside,
        )
