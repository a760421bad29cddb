-- ===== src/Ring/Phase/Fill.antt =====
-- A block that is overwritten piece by piece.
use native.Mathlib.Nat.{mul-add-div_right, mul-add-mod_self_right, mod-eq_of_lt, div-eq_of_lt}
use comm_workshop_final.Prelude.{
  ℕ, ◌+◌, ◌-◌, ◌*◌, ◌/◌, ◌%◌, ◌≤◌, ◌<◌, ◌≡◌, refl, ap, ◌∙◌, min, arith, dec_lt, ap₂, ◌⊎◌,
}
use comm_workshop_final.Types.{Datatype, Operation}
use comm_workshop_final.Reduction.Elementwise.{combine}
use comm_workshop_final.Memory.{Buffer, Scalars, splice, Buffer-ext}
use comm_workshop_final.Ring.Step.{Step}
use comm_workshop_final.Ring.Step.Setup.{tag_of}

-- The elements that the previous rank sends in a step, in the order of the block: element `j` is
-- the one at `j % pe` of piece `j / pe`.
abbrev pub incoming : {E : Type 0} → (ℕ → ℕ → E) → Step → ℕ → E
incoming inbox st j = inbox (tag_of st (j / st.piece_elements)) (j % st.piece_elements)

pub incoming-piece :
    {E : Type 0} (inbox : ℕ → ℕ → E) (st : Step) (k i : ℕ)
    → i < st.piece_elements
    → incoming inbox st (k * st.piece_elements + i) ≡ inbox (tag_of st k) i
incoming-piece inbox st k i h =
    ap₂ (λ q r. inbox (tag_of st q) r)
      (mul-add-div_right (omega arith) k i ∙ ap (λ (t : ℕ). k + t) (div-eq_of_lt h) ∙ omega arith)
      (mul-add-mod_self_right k st.piece_elements i ∙ mod-eq_of_lt h)

-- The block at `start` after its first `n` elements were replaced by those of `new`.
abbrev pub filled : {E : Type 0} → Buffer E → ℕ → (ℕ → E) → ℕ → Buffer E
filled b start new n = splice b start n new

-- The new elements of a received block in Reduce-Scatter: the local one, combined with the one that
-- comes in.
abbrev pub merged :
    (s : Scalars) → Datatype → Operation → (ℕ → ℕ → s.Elem) → Step → ℕ → Buffer s.Elem → ℕ → s.Elem
merged s datatype operation inbox st start work j =
    combine s datatype operation (work.at (start + j)) (incoming inbox st j)

-- Elements of the received block that its first `k` pieces cover.
abbrev pub covered : Step → ℕ → ℕ
covered st k = min (k * st.piece_elements) st.recv_count

pub filled-zero : {E : Type 0} (b : Buffer E) (start : ℕ) (new : ℕ → E) → filled b start new 0 ≡ b
filled-zero b start new = Buffer-ext _ b refl (λ j. ground arith)

-- One more piece, behind the first `lo` elements.
pub filled-piece :
    {E : Type 0} (b : Buffer E) (start lo n hi : ℕ) (new piece : ℕ → E)
    → hi ≡ lo + n
    → ((i : ℕ) → i < n → piece i ≡ new (lo + i))
    → splice (filled b start new lo) (start + lo) n piece ≡ filled b start new hi
filled-piece b start lo n hi new piece e h = Buffer-ext _ _ refl at_index
  where
    at_index :
        (j : ℕ)
        → (splice (filled b start new lo) (start + lo) n piece).at j ≡ (filled b start new hi).at j
    at_index j = elim (dec_lt j start) [
      | yes before ↦ ground arith
      | no after ↦ elim (dec_lt j (start + lo)) [
        | yes old ↦ ground arith
        | no fresh ↦ elim (dec_lt j (start + hi)) [
          | yes here ↦ ground (arith, h (j - (start + lo)))
          | no beyond ↦ ground arith
        ]
      ]
    ]

-- A block that lies beside the one being filled keeps its elements.
pub filled-beside :
    {E : Type 0} (b : Buffer E) (start count n other size : ℕ) (new : ℕ → E) (j : ℕ)
    → n ≤ count
    → (other + size ≤ start) ⊎ (start + count ≤ other)
    → j < size
    → (filled b start new n).at (other + j) ≡ b.at (other + j)
filled-beside b start count n other size new j h apart k = ground arith

-- Behind the filled part nothing has changed yet.
pub filled-ahead :
    {E : Type 0} (b : Buffer E) (start n i : ℕ) (new : ℕ → E)
    → n ≤ i
    → (filled b start new n).at (start + i) ≡ b.at (start + i)
filled-ahead b start n i new h = ground arith

-- The filled part itself.
pub filled-inside :
    {E : Type 0} (b : Buffer E) (start n i : ℕ) (new : ℕ → E)
    → i < n
    → (filled b start new n).at (start + i) ≡ new i
filled-inside b start n i new h = ground arith

pub filled-outside :
    {E : Type 0} (b : Buffer E) (start n i : ℕ) (new : ℕ → E)
    → start + n ≤ i
    → (filled b start new n).at i ≡ b.at i
filled-outside b start n i new h = ground arith
