-- ===== src/Tag/Fields.antt =====
-- The fields of a tag: where `make_tag` puts them, and that they can be read back.
use Prim.Native.Nat.{bit_and, bit_or}
use comm_workshop_final.Prelude.{ℕ, ◌+◌, ◌*◌, ◌/◌, ◌%◌, ◌^◌, ◌<◌, ◌≡◌, refl, ◌∙◌, ◌↔◌, arith}
use comm_workshop_final.Prelude.Bits.{or_disjoint, and_mask}
use comm_workshop_final.Prelude.Int.{pos}
use comm_workshop_final.Types.{success}
use comm_workshop_final.Tag.{
  CollectivePhase, reduce_scatter, all_gather, phase_value, shift_left, step_word, pack, make_tag,
}

-- The word as a sum of its four fields.
abbrev pub layout : ℕ → ℕ → ℕ → ℕ → ℕ
layout sequence phase step piece =
    sequence % 2 ^ 12 * 2 ^ 20 + phase * 2 ^ 19 + step * 2 ^ 12 + piece

phase_bit : (phase : CollectivePhase) → bit_and (phase_value phase) 1 ≡ phase_value phase
phase_bit reduce_scatter = refl
phase_bit all_gather = refl

phase-lt : (phase : CollectivePhase) → phase_value phase < 2
phase-lt reduce_scatter = omega arith
phase-lt all_gather = omega arith

-- One more field below bit `k` of a word whose lower bits are free.
or_field : (k q x r : ℕ) → x ≡ q * 2 ^ k → r < 2 ^ k → bit_or x r ≡ x + r
or_field k q x r e h = rw e (or_disjoint k q r h)

join_fields :
    (s p t i : ℕ)
    → s < 2 ^ 12
    → p < 2
    → t < 2 ^ 7
    → i < 2 ^ 12
    → bit_or (bit_or (bit_or (shift_left s 20) (shift_left p 19)) (shift_left t 12)) i
      ≡ s * 2 ^ 20 + p * 2 ^ 19 + t * 2 ^ 12 + i
join_fields s p t i hs hp ht hi =
    rw
      (
        or_field 20 s (shift_left s 20) (shift_left p 19) (omega arith) (omega arith),
        or_field 19 (s * 2 + p) (shift_left s 20 + shift_left p 19) (shift_left t 12) (omega arith)
            (omega arith),
        or_field 12 (s * 256 + p * 128 + t) (shift_left s 20 + shift_left p 19 + shift_left t 12) i
            (omega arith) hi,
      )
      (omega arith)

pack-layout :
    (sequence : ℕ) (phase : CollectivePhase) (step piece : ℕ)
    → step < 2 ^ 7
    → piece < 2 ^ 12
    → pack sequence phase (pos step) piece ≡ layout sequence (phase_value phase) step piece
unfolding pack
pack-layout sequence phase step piece hs hp =
    rw (and_mask 12 sequence, phase_bit phase, and_mask 7 _, and_mask 12 piece)
      (join_fields (sequence % 2 ^ 12) (phase_value phase) (step_word (pos step) % 2 ^ 7)
          (piece % 2 ^ 12) (omega arith) (phase-lt phase) (omega arith) (omega arith)
        ∙ omega arith)

-- What a call stores for a step and a piece that fit their fields.
pub make_tag-layout :
    (sequence : ℕ) (phase : CollectivePhase) (step piece tag : ℕ)
    → step < 2 ^ 7
    → piece < 2 ^ 12
    → make_tag sequence phase (pos step) piece tag
      ≡ (success, layout sequence (phase_value phase) step piece)
unfolding make_tag
make_tag-layout sequence phase step piece tag hs hp =
    ground (arith, pack-layout sequence phase step piece hs hp)

-- The four fields of a tag.
abbrev pub sequence_of : ℕ → ℕ
sequence_of tag = tag / 2 ^ 20

abbrev pub phase_of : ℕ → ℕ
phase_of tag = tag / 2 ^ 19 % 2

abbrev pub step_of : ℕ → ℕ
step_of tag = tag / 2 ^ 12 % 2 ^ 7

abbrev pub piece_of : ℕ → ℕ
piece_of tag = tag % 2 ^ 12

-- A step from 0 to 127 and a piece below 4096 get a 32-bit tag whose fields, at bits 31..20, 19,
-- 18..12 and 11..0, are the sequence modulo 4096, the phase, the step and the piece.
pub make_tag-fields :
    (sequence : ℕ) (phase : CollectivePhase) (step piece tag : ℕ)
    → step < 2 ^ 7
    → piece < 2 ^ 12
    → let (status, stored) = make_tag sequence phase (pos step) piece tag in
      (status ≡ success)
      × (stored < 2 ^ 32)
      × (sequence_of stored ≡ sequence % 2 ^ 12)
      × (phase_of stored ≡ phase_value phase)
      × (step_of stored ≡ step)
      × (piece_of stored ≡ piece)
make_tag-fields sequence phase step piece tag hs hp =
    rw (make_tag-layout sequence phase step piece tag hs hp) (
      refl,
      omega (arith, phase-lt phase),
      omega (arith, phase-lt phase),
      omega (arith, phase-lt phase),
      omega (arith, phase-lt phase),
      omega (arith, phase-lt phase),
    )

-- Two calls that succeed store the same tag exactly when the sequences agree modulo 4096 and the
-- phases, the steps and the pieces agree.
pub make_tag-injective :
    (sequence sequence' : ℕ) (phase phase' : CollectivePhase) (step step' piece piece' tag : ℕ)
    → step < 2 ^ 7
    → piece < 2 ^ 12
    → step' < 2 ^ 7
    → piece' < 2 ^ 12
    → ((make_tag sequence phase (pos step) piece tag).1
        ≡ (make_tag sequence' phase' (pos step') piece' tag).1)
      ↔ ((sequence % 2 ^ 12 ≡ sequence' % 2 ^ 12)
          × (phase_value phase ≡ phase_value phase')
          × (step ≡ step')
          × (piece ≡ piece'))
make_tag-injective sequence sequence' phase phase' step step' piece piece' tag a b c d =
    rw
      (
        make_tag-layout sequence phase step piece tag a b,
        make_tag-layout sequence' phase' step' piece' tag c d,
      )
      (
        (λ e. (
          omega (arith, phase-lt phase, phase-lt phase'),
          omega (arith, phase-lt phase, phase-lt phase'),
          omega (arith, phase-lt phase, phase-lt phase'),
          omega (arith, phase-lt phase, phase-lt phase'),
        )),
        λ e. omega arith,
      )
