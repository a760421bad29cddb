-- ===== src/Ring/World/Wiring.antt =====
-- What a step receives, when the previous rank's messages are delivered.
use native.Mathlib.Nat.{div-add-mod', mod-lt}
use comm_workshop_final.Prelude.{
  ℕ, zero, suc, ◌+◌, ◌-◌, ◌*◌, ◌/◌, ◌%◌, ◌<◌, ◌≡◌, subst, ◌∙◌, min, List, [], ◌∷◌, All,
  All-append_left, All-append_right, dec_lt, lt→ltb, arith,
}
use comm_workshop_final.Prelude.Size.{size_mod}
use comm_workshop_final.Types.{Datatype, Operation}
use comm_workshop_final.Memory.{Buffer, Scalars}
use comm_workshop_final.Pieces.{piece_count_for}
use comm_workshop_final.Pieces.Bounds.{pieces_tile}
use comm_workshop_final.Transport.Reliable.{Message}
use comm_workshop_final.Ring.Context.{Context}
use comm_workshop_final.Ring.Step.{Step}
use comm_workshop_final.Ring.Step.Setup.{tag_of}
use comm_workshop_final.Ring.Step.Posting.{message}
use comm_workshop_final.Ring.Step.Batch.{first}
use comm_workshop_final.Ring.Collectives.{scatter_step, gather_step}
use comm_workshop_final.Ring.Phase.ScatterRun.{scatter_work, scatter_sent}
use comm_workshop_final.Ring.Phase.GatherRun.{gather_work, gather_sent}
use comm_workshop_final.Ring.World.{Delivered}

All-first :
    {A : Type 0} (P : A → Type 0) (f : ℕ → A) (n k : ℕ) → All P (first f n) → k < n → P (f k)
All-first P f zero k h lt = absurd (omega arith)
All-first P f (suc n) k h lt = elim (dec_lt k n) [
  | yes below ↦ All-first P f n k (All-append_left P (first f n) (f n ∷ []) h) below
  | no last ↦
      let here : n ≡ k = omega arith in rw here at ((All-append_right P (first f n) (f n ∷ []) h).0)
]

-- The elements of a block that is sent are read back piece by piece.
pub Delivered-elements :
    (s : Scalars) (inbox : ℕ → ℕ → s.Elem) (out : ℕ → s.Elem) (st : Step)
    → 0 < st.piece_elements
    → st.send_count + st.piece_elements < size_mod
    → All
        (Delivered inbox)
        (first (message s out st) (piece_count_for st.send_count st.piece_elements))
    → (j : ℕ) → j < st.send_count
    → inbox (tag_of st (j / st.piece_elements)) (j % st.piece_elements) ≡ out j
Delivered-elements s inbox out st p b all j h =
    given (j % st.piece_elements) inside
    ∙ rw (
      lt→ltb (j % st.piece_elements)
          (min st.piece_elements (st.send_count - j / st.piece_elements * st.piece_elements))
          inside,
      whole,
    )
  where
    whole : j / st.piece_elements * st.piece_elements + j % st.piece_elements ≡ j
    whole = div-add-mod' j st.piece_elements

    inside :
        j % st.piece_elements
        < min st.piece_elements (st.send_count - j / st.piece_elements * st.piece_elements)
    inside = omega (arith, whole, mod-lt j p)

    given : Delivered inbox (message s out st (j / st.piece_elements))
    given =
        All-first (Delivered inbox) (message s out st)
          (piece_count_for st.send_count st.piece_elements) (j / st.piece_elements) all
          ((pieces_tile st.send_count st.piece_elements j p b h).0)

-- The messages of one step are among those of the phase.
module _ (s : Scalars) {T : Type 0} (datatype : Datatype) (operation : Operation)
    (c : Context T s.Elem) (element_size : ℕ) (inbox : ℕ → ℕ → s.Elem) (work : Buffer s.Elem) where
  abbrev pub scatter_messages : ℕ → List (Message s.Elem)
  scatter_messages n =
      let st = scatter_step c element_size n in
      first
        (message s
          (λ j.
            (scatter_work s datatype operation c element_size inbox work n).at (st.send_start + j))
          st)
        (piece_count_for st.send_count st.piece_elements)

  pub All-scatter_sent :
      (P : Message s.Elem → Type 0) (steps n : ℕ)
      → All P (scatter_sent s datatype operation c element_size inbox work steps)
      → n < steps
      → All P (scatter_messages n)
  unfolding scatter_sent
  All-scatter_sent P zero n h lt = absurd (omega arith)
  All-scatter_sent P (suc steps) n h lt = elim (dec_lt n steps) [
    | yes below ↦
        All-scatter_sent P steps n
          (All-append_left P (scatter_sent s datatype operation c element_size inbox work steps)
            (scatter_messages steps) h)
          below
    | no last ↦
        subst (λ k. All P (scatter_messages k)) (omega arith)
          (All-append_right P (scatter_sent s datatype operation c element_size inbox work steps)
            (scatter_messages steps) h)
  ]

  abbrev pub gather_messages : ℕ → List (Message s.Elem)
  gather_messages n =
      let st = gather_step c element_size n in
      first (message s (λ j. (gather_work s c element_size inbox work n).at (st.send_start + j)) st)
        (piece_count_for st.send_count st.piece_elements)

  pub All-gather_sent :
      (P : Message s.Elem → Type 0) (steps n : ℕ)
      → All P (gather_sent s c element_size inbox work steps)
      → n < steps
      → All P (gather_messages n)
  unfolding gather_sent
  All-gather_sent P zero n h lt = absurd (omega arith)
  All-gather_sent P (suc steps) n h lt = elim (dec_lt n steps) [
    | yes below ↦
        All-gather_sent P steps n
          (All-append_left P (gather_sent s c element_size inbox work steps) (gather_messages steps)
            h)
          below
    | no last ↦
        subst (λ k. All P (gather_messages k)) (omega arith)
          (All-append_right P (gather_sent s c element_size inbox work steps)
            (gather_messages steps) h)
  ]
