-- ===== src/Ring/Step/Setup.antt =====
-- What a step needs in order to run through, and the arithmetic of its pieces.
use comm_workshop_final.Prelude.{ℕ, ◌+◌, ◌-◌, ◌*◌, ◌^◌, ◌≤◌, ◌<◌, ◌≡◌, min, arith}
use comm_workshop_final.Prelude.Size.{mul_size, add_size, add_size_lem, mul_size_lem}
use comm_workshop_final.Tag.{phase_value}
use comm_workshop_final.Tag.Fields.{layout}
use comm_workshop_final.Pieces.{piece_count_for, piece_offset, piece_size, element_at}
use comm_workshop_final.Pieces.Bounds.{
  piece_count_for-lt, piece_offset_lem, piece_size_lem, element_at_lem,
}
use comm_workshop_final.Ring.Step.{Step}

-- The numbers of a step are in range: nothing wraps, and every piece has a tag.
pub record Sized (st : Step) : Type 0 where
  pub element_pos : 0 < st.element_size
  pub piece_pos : 0 < st.piece_elements
  pub capacity_pos : 0 < st.capacity
  pub capacity_small : st.capacity ≤ 1024
  pub number_small : st.number < 2 ^ 7
  pub piece_bytes : st.piece_elements * st.element_size < 2 ^ 32

-- A block of `count` elements at `start` lies below 2 ^ 63 bytes and has at most 4096 pieces.
pub record Addressed (st : Step) (start count : ℕ) : Type 0 where
  pub bytes : (start + count) * st.element_size < 2 ^ 63
  pub pieces : piece_count_for count st.piece_elements ≤ 4096

-- The tag of piece `k`.
abbrev pub tag_of : Step → ℕ → ℕ
tag_of st k = layout st.sequence (phase_value st.phase) st.number k

-- The elements of piece `k` of a block.
abbrev pub elements_of : Step → ℕ → ℕ → ℕ
elements_of st count k = min st.piece_elements (count - k * st.piece_elements)

-- The values that the code computes for piece `k`.
pub record PieceFacts (st : Step) (start count k : ℕ) : Type 0 where
  pub inside : k * st.piece_elements < count
  pub tagged : k < 2 ^ 12
  pub offset : piece_offset k st.piece_elements ≡ k * st.piece_elements
  pub size : piece_size count k st.piece_elements ≡ elements_of st count k
  pub index :
      element_at (add_size start (k * st.piece_elements)) st.element_size
      ≡ start + k * st.piece_elements
  pub bytes :
      mul_size (elements_of st count k) st.element_size ≡ elements_of st count k * st.element_size
  pub bytes_pos : 0 < elements_of st count k * st.element_size
  pub bytes_small : elements_of st count k * st.element_size < 2 ^ 32

-- A product is no smaller than a factor whose other factor is positive.
pub le-times : (n d : ℕ) → 0 < d → n ≤ n * d
le-times n d h = grind arith

pub times_mono : (m n d : ℕ) → m ≤ n → m * d ≤ n * d
times_mono m n d h = grind arith

module _ (st : Step) (z : Sized st) (start count : ℕ) (a : Addressed st start count) where
  small_block : start + count < 2 ^ 63
  small_block = omega (arith, a.bytes, le-times (start + count) st.element_size z.element_pos)

  small_piece : st.piece_elements < 2 ^ 32
  small_piece =
      omega (arith, z.piece_bytes, le-times st.piece_elements st.element_size z.element_pos)

  pub index_in_bytes :
      (i : ℕ) → i ≤ count → element_at (add_size start i) st.element_size ≡ start + i
  index_in_bytes i h = rw (add_size_lem start i (omega (arith, small_block))) (
      element_at_lem (start + i) st.element_size z.element_pos (
        omega
          (arith, a.bytes, times_mono (start + i) (start + count) st.element_size (omega arith))))

  pub piece_facts :
      (k : ℕ) → k < piece_count_for count st.piece_elements → PieceFacts st start count k
  piece_facts k h = record {
    inside = inside;
    tagged = omega (arith, a.pieces);
    offset = piece_offset_lem k st.piece_elements (omega (arith, inside, small_block));
    size = piece_size_lem count k st.piece_elements (omega (arith, small_block)) inside;
    index = index_in_bytes (k * st.piece_elements) (omega (arith, inside));
    bytes = mul_size_lem (elements_of st count k) st.element_size (omega (arith, bounded));
    bytes_pos = omega (
      arith,
      z.piece_pos,
      inside,
      le-times (elements_of st count k) st.element_size z.element_pos,
    );
    bytes_small = bounded;
  }
    where
      inside : k * st.piece_elements < count
      inside =
          (piece_count_for-lt count st.piece_elements k z.piece_pos
              (omega (arith, small_block, small_piece))).0
            h

      bounded : elements_of st count k * st.element_size < 2 ^ 32
      bounded = omega (
        arith,
        z.piece_bytes,
        times_mono (elements_of st count k) st.piece_elements st.element_size (omega arith),
      )
