-- ===== src/Ring/Step/Trace.antt =====
-- The posts and the waits of a step over any transport that records its calls.
pub mod Whole
use native.Mathlib.Numerals.{add-one}
use comm_workshop_final.Prelude.{
  ℕ, suc, ◌+◌, ◌-◌, ◌*◌, ◌^◌, ◌≤◌, ◌<◌, ◌≡◌, refl, sym, ap, ap₂, subst, ◌∙◌, min, List, [], ◌∷◌,
  ◌++◌, map, map-append, append_assoc, append-nil, Bool-cases, inl, inr, ◌&&◌, Option, none, some,
  arith,
}
use comm_workshop_final.Prelude.Int.{ℤ}
use comm_workshop_final.Prelude.Size.{size_mod, mul_size_lem, add_size_lem, mul_size}
use comm_workshop_final.Types.{Datatype, Operation, Status, success}
use comm_workshop_final.Reduction.{reduce_in_place}
use comm_workshop_final.Memory.{Buffer, Scalars, slice, fits}
use comm_workshop_final.Pieces.{batches_for, piece_offset, piece_size, element_at}
use comm_workshop_final.Pieces.Bounds.{batches_for-lt}
use comm_workshop_final.Transport.{TransportOps}
use comm_workshop_final.Transport.Recorded.{
  Action, asks_receive, asks_send, awaits_receive, awaits_send, recorded,
}
use comm_workshop_final.Ring.Machine.{Machine, M, pure, ◌>>=◌, ◌>>◌, for_each}
use comm_workshop_final.Ring.Machine.After.{After, After-bind, After-weaken, After-for_range}
use comm_workshop_final.Ring.Step.{
  PostedRequest, Step, is_zero, transport_result, post_recv_prev, post_send_next, wait, arrive,
  place, posted, buffer_of, post_receive, post_send, post_pieces, finish_receive, finish_send,
  run_batch, run_step, reduce_piece, reduce_result, temporary_region, work_region,
}
use comm_workshop_final.Ring.Step.Setup.{Sized, tag_of}
use comm_workshop_final.Ring.Step.Posting.{tag_for-tag_of}
use comm_workshop_final.Ring.Step.Batch.{first}
use comm_workshop_final.Ring.Step.Program.{
  joined, span, recv_pieces, send_pieces, act, batch_program, step_program,
}

module _ (s : Scalars) {T : Type 0} (ops : TransportOps T s.Elem) where
  abbrev pub State : Type 0
  State = Machine (T × List Action) s.Elem

  -- The calls so far.
  abbrev pub calls : State → List Action
  calls m = m.transport.1

  abbrev Posted : Type 0
  Posted = PostedRequest (ops.Request × Action)

  transport_result-After :
      {A : Type 0} (status : ℤ) (a : A) (m : State) (Q : A → State → Type 0)
      → Q a m
      → After Q (transport_result s (recorded ops) status a m)
  transport_result-After status a m Q q = elim (Bool-cases (is_zero status)) [
    | inl ok ↦ rw ok q
    | inr failed ↦ rw failed tt
  ]

  -- A loop over posted requests whose body makes the wait of each.
  waits-After :
      (body : Posted → M State (Unit {0})) (total : List Action) (ps : List Posted) (m : State)
      → ((p : Posted) (n : State)
          → After (λ u (o : State). calls o ≡ calls n ++ p.request.1 ∷ []) (body p n))
      → calls m ++ map (λ (p : Posted). p.request.1) ps ≡ total
      → After (λ u (n : State). calls n ≡ total) (for_each ps body m)
  unfolding for_each
  waits-After body total [] m one e = sym (append-nil (calls m)) ∙ e
  waits-After body total (p ∷ ps) m one e =
      After-bind (body p) (λ u. for_each ps body) m
        (λ u (o : State). calls o ≡ calls m ++ p.request.1 ∷ []) (λ u (n : State). calls n ≡ total)
        (one p m)
        (λ u n grown. waits-After body total ps n one (
          ap (λ l. l ++ map (λ (x : Posted). x.request.1) ps) grown
          ∙ append_assoc (calls m) (p.request.1 ∷ []) (map (λ (x : Posted). x.request.1) ps)
          ∙ e))

  wait-After :
      (request : ops.Request × Action) (m : State)
      → After
          (λ contents (n : State). calls n ≡ calls m ++ request.1 ∷ [])
          (wait s (recorded ops) request m)
  unfolding wait
  wait-After request m =
      let (status, contents, t) = (recorded ops).wait m.transport request in
      transport_result-After status contents (record m { transport = t }) _ refl

  finish_send-After :
      (p : Posted) (m : State)
      → After
          (λ u (n : State). calls n ≡ calls m ++ p.request.1 ∷ [])
          (finish_send s (recorded ops) p m)
  unfolding finish_send
  finish_send-After p m =
      After-bind (wait s (recorded ops) p.request) (λ contents. pure tt) m _ _
        (wait-After p.request m) (λ contents n e. e)

  module _ (st : Step) (z : Sized st) where
    -- A request of piece `k`, whose wait will be `awaits`, after the call `asks`.
    abbrev Asked : (ℕ → Action) → (ℕ → Action) → ℕ → State → Posted → State → Type 0
    Asked asks awaits k m p n =
        (p.request.1 ≡ awaits (tag_of st k)) × (calls n ≡ calls m ++ asks (tag_of st k) ∷ [])

    post_recv_prev-After :
        (bytes k : ℕ) (m : State)
        → After
            (λ r (n : State).
              (r.1 ≡ awaits_receive (tag_of st k))
              × (calls n ≡ calls m ++ asks_receive (tag_of st k) ∷ []))
            (post_recv_prev s (recorded ops) st bytes (tag_of st k) m)
    unfolding post_recv_prev
    post_recv_prev-After bytes k m =
        let (status, request, t) =
          (recorded ops).post_recv_prev m.transport bytes (tag_of st k) st.mode in
        transport_result-After status request (record m { transport = t }) _ (refl, refl)

    post_send_next-After :
        (payload : Buffer s.Elem) (bytes k : ℕ) (m : State)
        → After
            (λ r (n : State).
              (r.1 ≡ awaits_send (tag_of st k))
              × (calls n ≡ calls m ++ asks_send (tag_of st k) ∷ []))
            (post_send_next s (recorded ops) st payload bytes (tag_of st k) m)
    unfolding post_send_next
    post_send_next-After payload bytes k m =
        let (status, request, t) =
          (recorded ops).post_send_next m.transport payload bytes (tag_of st k) st.mode in
        transport_result-After status request (record m { transport = t }) _ (refl, refl)

    post_receive-After :
        (k : ℕ) (m : State)
        → k < 2 ^ 12
        → After (Asked asks_receive awaits_receive k m) (post_receive s (recorded ops) st k m)
    unfolding post_receive
    post_receive-After k m h =
        let offset = piece_offset k st.piece_elements in
        let elements = piece_size st.recv_count k st.piece_elements in
        let bytes = mul_size elements st.element_size in
        let inside =
          fits (buffer_of s (recorded ops) st.recv_region m)
            (place s (recorded ops) st st.recv_start offset) elements in
        elim (Bool-cases inside) [
          | inl ok ↦
              rw (tag_for-tag_of s (recorded ops) st z k m h, ok)
                (After-bind (post_recv_prev s (recorded ops) st bytes (tag_of st k))
                  (λ r. pure (posted s (recorded ops) r k offset elements)) m _
                  (Asked asks_receive awaits_receive k m) (post_recv_prev-After bytes k m)
                  (λ r n q. q))
          | inr bad ↦ rw (tag_for-tag_of s (recorded ops) st z k m h, bad) tt
        ]

    post_send-After :
        (k : ℕ) (m : State)
        → k < 2 ^ 12
        → After (Asked asks_send awaits_send k m) (post_send s (recorded ops) st k m)
    unfolding post_send
    post_send-After k m h =
        let offset = piece_offset k st.piece_elements in
        let elements = piece_size st.send_count k st.piece_elements in
        let bytes = mul_size elements st.element_size in
        let start = place s (recorded ops) st st.send_start offset in
        elim (Bool-cases (fits m.work start elements)) [
          | inl ok ↦
              rw (tag_for-tag_of s (recorded ops) st z k m h, ok)
                (After-bind
                  (λ m'.
                    post_send_next s (recorded ops) st (slice s.zeroed m'.work start elements) bytes
                      (tag_of st k) m')
                  (λ r. pure (posted s (recorded ops) r k offset elements)) m _
                  (Asked asks_send awaits_send k m)
                  (post_send_next-After (slice s.zeroed m.work start elements) bytes k m)
                  (λ r n q. q))
          | inr bad ↦ rw (tag_for-tag_of s (recorded ops) st z k m h, bad) tt
        ]

    -- The posting loops: the calls that they make, and the waits of the requests that they return.
    abbrev Asks : (ℕ → Action) → (ℕ → Action) → List ℕ → State → List Posted → State → Type 0
    Asks asks awaits pieces m ps n =
        (map (λ (p : Posted). p.request.1) ps ≡ act st awaits pieces)
        × (calls n ≡ calls m ++ act st asks pieces)

    Asks-snoc :
        (asks awaits : ℕ → Action) (from d : ℕ) (m n o : State) (ps : List Posted) (p : Posted)
        → Asks asks awaits (first (λ j. from + j) d) m ps n
        → Asked asks awaits (from + d) n p o
        → Asks asks awaits (first (λ j. from + j) (suc d)) m (ps ++ p ∷ []) o
    Asks-snoc asks awaits from d m n o ps p q r =
        let before = first (λ j. from + j) d in
        (
          map-append (λ (x : Posted). x.request.1) ps (p ∷ [])
              ∙ ap₂ ◌++◌ q.0 (ap (λ a. a ∷ []) r.0)
              ∙ sym (map-append (λ k. awaits (tag_of st k)) before ((from + d) ∷ [])),
          r.1
              ∙ ap (λ l. l ++ asks (tag_of st (from + d)) ∷ []) q.1
              ∙ append_assoc (calls m) (act st asks before) (asks (tag_of st (from + d)) ∷ [])
              ∙ ap (λ l. calls m ++ l)
                  (sym (map-append (λ k. asks (tag_of st k)) before ((from + d) ∷ []))),
        )

    post_pieces-After :
        (asks awaits : ℕ → Action) (post : ℕ → M State Posted) (from to : ℕ) (m : State)
        → to ≤ 2 ^ 12
        → ((k : ℕ) (n : State) → k < 2 ^ 12 → After (Asked asks awaits k n) (post k n))
        → After (Asks asks awaits (span from to) m) (post_pieces s (recorded ops) post from to m)
    unfolding post_pieces
    post_pieces-After asks awaits post from to m small one =
        let upto = from + (to - from) in
        let last : upto - from ≡ to - from = omega arith in
        rw last at (
          After-for_range (λ k ps n. Asks asks awaits (first (λ j. from + j) (k - from)) m ps n)
            (λ piece ps. post piece >>= λ p. pure (ps ++ p ∷ [])) (to - from) from upto [] m refl
            (λ k ps n lo hi q.
              let here : from + (k - from) ≡ k = omega arith in
              let more : k + 1 - from ≡ suc (k - from) = omega arith in
              rw more (
                After-bind (post k) (λ p. pure (ps ++ p ∷ [])) n (Asked asks awaits k n)
                  (Asks asks awaits (first (λ j. from + j) (suc (k - from))) m)
                  (one k n (omega (arith, small)))
                  (λ p o r.
                    Asks-snoc asks awaits from (k - from) m n o ps p q
                      (subst (λ i. Asked asks awaits i n p o) (sym here) r))))
            (let zero_left : from - from ≡ 0 = omega arith in
              rw zero_left (refl, sym (append-nil (calls m)))))
