-- ===== src/Tag.antt =====
-- The 32-bit message tags of src/ring_collectives.cpp (`make_tag`).
pub mod Fields
use Prim.Native.Nat.{bit_and, bit_or}
use comm_workshop_final.Prelude.{
  ℕ, ◌+◌, ◌-◌, ◌*◌, ◌%◌, ◌^◌, Bool, true, false, ◌||◌, if◌then◌else◌, ltb,
}
use comm_workshop_final.Prelude.Int.{ℤ, is_neg, to_ℕ}
use comm_workshop_final.Types.{Status, success, err_tag_range}

abbrev piece_bits : ℕ
piece_bits = 12

abbrev step_bits : ℕ
step_bits = 7

abbrev phase_bits : ℕ
phase_bits = 1

abbrev sequence_bits : ℕ
sequence_bits = 12

-- `(1U << bits) - 1U`
abbrev pub mask : ℕ → ℕ
mask bits = 2 ^ bits - 1

abbrev step_shift : ℕ
step_shift = piece_bits

abbrev phase_shift : ℕ
phase_shift = piece_bits + step_bits

abbrev sequence_shift : ℕ
sequence_shift = piece_bits + step_bits + phase_bits

-- `x << k` on `std::uint32_t`
abbrev pub shift_left : ℕ → ℕ → ℕ
shift_left x k = (x * 2 ^ k) % 2 ^ 32

pub data CollectivePhase : Type 0 where
  reduce_scatter all_gather : CollectivePhase

abbrev pub phase_value : CollectivePhase → ℕ
phase_value reduce_scatter = 0
phase_value all_gather = 1

-- `static_cast<std::uint32_t>(step)` of a `step` that is not negative
abbrev pub step_word : ℤ → ℕ
step_word step = to_ℕ step % 2 ^ 32

-- The word that is stored when the guard lets the arguments through.
unfoldable pub pack : ℕ → CollectivePhase → ℤ → ℕ → ℕ
pack sequence phase step piece =
    bit_or
      (bit_or
        (bit_or (shift_left (bit_and sequence (mask sequence_bits)) sequence_shift)
          (shift_left (bit_and (phase_value phase) 1) phase_shift))
        (shift_left (bit_and (step_word step) (mask step_bits)) step_shift))
      (bit_and piece (mask piece_bits))

-- The last argument is the tag before the call, the second result the tag after it.
unfoldable pub make_tag : ℕ → CollectivePhase → ℤ → ℕ → ℕ → Status × ℕ
make_tag sequence phase step piece tag =
    if is_neg step || ltb (mask step_bits) (step_word step) || ltb (mask piece_bits) piece
    then (err_tag_range, tag)
    else (success, pack sequence phase step piece)
