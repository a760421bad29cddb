-- ===== src/Ring/Step/Batch.antt =====
-- A batch of a step: its posts, its waits, and what they leave behind.
use native.Mathlib.Numerals.{add-one}
use comm_workshop_final.Prelude.{
  ℕ, zero, suc, ◌+◌, ◌-◌, ◌≤◌, ◌<◌, ◌≡◌, refl, ap, sym, subst, ◌∙◌, min, List, [], ◌∷◌, ◌++◌, map,
  dec_lt, arith,
}
use comm_workshop_final.Memory.{Buffer, Scalars}
use comm_workshop_final.Pieces.{piece_count_for}
use comm_workshop_final.Transport.{TransportOps}
use comm_workshop_final.Transport.Reliable.{Pending, receiving, sending, Link, Reliable}
use comm_workshop_final.Ring.Machine.{
  Machine, M, pure, for_range, for_each, Yields, Yields-bind, Yields-for_range,
}
use comm_workshop_final.Ring.Step.{
  PostedRequest, Step, buffer_of, wait, arrive, finish_receive, finish_send, post_pieces,
}
use comm_workshop_final.Ring.Step.Setup.{tag_of}
use comm_workshop_final.Ring.Step.Posting.{posted_as}

-- `f 0`, `f 1`, … in order, below `n`.
abbrev pub first {ℓ} : {A : Type ℓ} → (ℕ → A) → ℕ → List A
first f zero = []
first f (suc n) = first f n ++ f n ∷ []

-- The posted requests of the pieces from `from` up to `to`.
abbrev pub Pieces : {R : Type 0} → Step → ℕ → ℕ → ℕ → List (PostedRequest R) → Type 0
Pieces st count from to [] = from ≡ to
Pieces st count from to (p ∷ ps) =
    (p ≡ posted_as st count p.request from) × (from < to) × Pieces st count (suc from) to ps

pub Pieces-snoc :
    {R : Type 0} (st : Step) (count from to : ℕ) (ps : List (PostedRequest R)) (p : PostedRequest R)
    → Pieces st count from to ps
    → p ≡ posted_as st count p.request to
    → Pieces st count from (suc to) (ps ++ p ∷ [])
Pieces-snoc st count from to [] p e h =
    (h ∙ ap (posted_as st count p.request) (sym e), omega arith, ap suc e)
Pieces-snoc st count from to (q ∷ qs) p e h =
    (e.0, omega (arith, e.1), Pieces-snoc st count (suc from) to qs p e.2 h)

-- The requests as the transport's record shows them.
abbrev pub as_receives : {R : Type 0} → Step → List (PostedRequest R) → List (Pending R)
as_receives st = map (λ p. receiving p.request (tag_of st p.piece_index))

abbrev pub as_sends : {R : Type 0} → List (PostedRequest R) → List (Pending R)
as_sends = map (λ p. sending p.request)

abbrev pub with_pending : {R E : Type 0} → Link R E → List (Pending R) → Link R E
with_pending l ps = record l { pending = ps }

module _ (s : Scalars) {T : Type 0} (ops : TransportOps T s.Elem) where
  -- The invariant rule of a posting loop. The loop does nothing if `from` is past the last piece.
  pub post_pieces-Yields :
      (Q : ℕ → List (PostedRequest ops.Request) → Machine T s.Elem → Type 0)
      (post : ℕ → M (Machine T s.Elem) (PostedRequest ops.Request)) (from to : ℕ)
      (m : Machine T s.Elem)
      → ((k : ℕ) (ps : List (PostedRequest ops.Request)) (n : Machine T s.Elem)
          → k < to
          → Q k ps n
          → Yields (post k) n (λ p o. Q (suc k) (ps ++ p ∷ []) o))
      → Q (min from to) [] m
      → Yields (post_pieces s ops post from to) m (Q to)
  unfolding post_pieces for_range
  post_pieces-Yields Q post from to m keep start = elim (dec_lt to from) [
    | yes past ↦
        let none_left : to - from ≡ 0 = omega arith in
        let here : min from to ≡ to = omega arith in rw none_left ([], m, refl, rw here at start)
    | no before ↦
        let here : min from to ≡ from = omega arith in
        Yields-for_range Q _ (to - from) from to [] m (omega arith)
          (λ k ps n lo hi q.
            Yields-bind (post k) (λ p. pure (ps ++ p ∷ [])) n (λ p o. Q (suc k) (ps ++ p ∷ []) o)
              (Q (k + 1)) (keep k ps n hi q) (λ p o r. (ps ++ p ∷ [], o, refl, rw add-one r)))
          (rw here at start)
  ]

  module _ (st : Step) {inbox : ℕ → ℕ → s.Elem} (rel : Reliable ops st.mode inbox) where
    -- Waiting for the sends consumes them, in the order in which they were posted.
    pub finish_sends-Yields :
        (ps : List (PostedRequest ops.Request)) (m : Machine T s.Elem)
        → (rel.view m.transport).pending ≡ as_sends ps
        → Yields (for_each ps (finish_send s ops)) m (λ u n.
          (n.temporary ≡ m.temporary)
          × (n.work ≡ m.work)
          × (rel.view n.transport ≡ with_pending (rel.view m.transport) []))
    unfolding for_each finish_send wait
    finish_sends-Yields [] m e =
        (tt, m, refl, (refl, refl, ap (with_pending (rel.view m.transport)) e))
    finish_sends-Yields (p ∷ ps) m e =
        let call = ops.wait m.transport p.request in
        let law = rel.completes_send m.transport p.request (as_sends ps) e in
        let (u, n, ran, kept) =
          finish_sends-Yields ps (record m { transport = call.2 }) (ap (λ l. l.pending) law.1) in
        (u, n, rw law.0 ran, (kept.0, kept.1, kept.2 ∙ ap (λ l. with_pending l []) law.1))

    -- The buffers of a step through its pieces. `Holds k` says what they are once the first `k`
    -- pieces are in.
    pub record Invariant (out : ℕ → s.Elem)
        (after : PostedRequest ops.Request → M (Machine T s.Elem) (Unit {0})) : Type 1 where
      pub Holds : ℕ → Buffer s.Elem → Buffer s.Elem → Type 0
      pub room :
          (k : ℕ) (m : Machine T s.Elem)
          → Holds k m.temporary m.work
          → (st.recv_start + st.recv_count ≤ (buffer_of s ops st.recv_region m).size)
            × (st.send_start + st.send_count ≤ m.work.size)
            × ((j : ℕ) → j < st.send_count → m.work.at (st.send_start + j) ≡ out j)
      pub absorbs :
          (k : ℕ) (request : ops.Request) (contents : ℕ → s.Elem) (m : Machine T s.Elem)
          → k < piece_count_for st.recv_count st.piece_elements
          → Holds k m.temporary m.work
          → ((j : ℕ) → contents j ≡ inbox (tag_of st k) j)
          → let p = posted_as st st.recv_count request k in
            Yields
              (after p)
              (arrive s ops st p contents m).1
              (λ u n. (n.transport ≡ m.transport) × Holds (suc k) n.temporary n.work)

    module _ {out : ℕ → s.Elem}
        {after : PostedRequest ops.Request → M (Machine T s.Elem) (Unit {0})}
        (v : Invariant out after) where
      finish_receive-Yields :
          (k : ℕ) (request : ops.Request) (rest : List (Pending ops.Request)) (m : Machine T s.Elem)
          → k < piece_count_for st.recv_count st.piece_elements
          → (rel.view m.transport).pending ≡ receiving request (tag_of st k) ∷ rest
          → v.Holds k m.temporary m.work
          → Yields (finish_receive s ops st after (posted_as st st.recv_count request k)) m (λ u n.
            v.Holds (suc k) n.temporary n.work
            × (rel.view n.transport ≡ with_pending (rel.view m.transport) rest))
      unfolding finish_receive wait
      finish_receive-Yields k request rest m b pend h =
          let call = ops.wait m.transport request in
          let law = rel.completes_receive m.transport request (tag_of st k) rest pend in
          let (u, n, ran, kept) =
            v.absorbs k request call.1 (record m { transport = call.2 }) b h law.2 in
          (u, n, rw law.0 ran, (kept.1, ap rel.view kept.0 ∙ law.1))

      -- Waiting for the receives takes their pieces in.
      pub finish_receives-Yields :
          (from to : ℕ) (ps : List (PostedRequest ops.Request)) (rest : List (Pending ops.Request))
          (m : Machine T s.Elem)
          → Pieces st st.recv_count from to ps
          → to ≤ piece_count_for st.recv_count st.piece_elements
          → (rel.view m.transport).pending ≡ as_receives st ps ++ rest
          → v.Holds from m.temporary m.work
          → Yields (for_each ps (finish_receive s ops st after)) m (λ u n.
            v.Holds to n.temporary n.work
            × (rel.view n.transport ≡ with_pending (rel.view m.transport) rest))
      unfolding for_each finish_receive wait
      finish_receives-Yields from to [] rest m e b pend h =
          (tt, m, refl, (rw e at h, ap (with_pending (rel.view m.transport)) pend))
      finish_receives-Yields from to (p ∷ ps) rest m e b pend h =
          subst
            (λ q. Yields (for_each (q ∷ ps) (finish_receive s ops st after)) m (λ u n.
              v.Holds to n.temporary n.work
              × (rel.view n.transport ≡ with_pending (rel.view m.transport) rest)))
            (sym e.0)
            (Yields-bind (finish_receive s ops st after (posted_as st st.recv_count p.request from))
              (λ u. for_each ps (finish_receive s ops st after)) m _ _
              (finish_receive-Yields from p.request (as_receives st ps ++ rest) m
                (omega (arith, e.1, b))
                (pend
                  ∙ ap
                      (λ q.
                        receiving p.request (tag_of st q.piece_index) ∷ as_receives st ps ++ rest)
                      e.0)
                h)
              (λ u n q.
                let (w, o, ran, kept) =
                  finish_receives-Yields (suc from) to ps rest n e.2 b (ap (λ l. l.pending) q.1)
                    q.0 in
                (w, o, ran, (kept.0, kept.1 ∙ ap (λ l. with_pending l rest) q.1))))
