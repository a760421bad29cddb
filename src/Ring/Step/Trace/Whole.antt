-- ===== src/Ring/Step/Trace/Whole.antt =====
-- A step over any transport that records its calls: if the step ends well, it has made the calls of
-- its program.
use native.Mathlib.Numerals.{add-one}
use comm_workshop_final.Prelude.{
  ℕ, ◌+◌, ◌*◌, ◌^◌, ◌≤◌, ◌<◌, ◌≡◌, refl, sym, ap, ap₂, ◌∙◌, min, List, [], ◌∷◌, ◌++◌, append_assoc,
  append-nil, Bool-cases, inl, inr, ◌&&◌, Option, none, some, arith,
}
use comm_workshop_final.Prelude.Size.{size_mod, mul_size_lem, add_size_lem}
use comm_workshop_final.Types.{Datatype, Operation, Status, success}
use comm_workshop_final.Reduction.{reduce_in_place}
use comm_workshop_final.Memory.{Buffer, Scalars, fits}
use comm_workshop_final.Pieces.{batches_for, element_at}
use comm_workshop_final.Pieces.Bounds.{batches_for-lt}
use comm_workshop_final.Transport.{TransportOps}
use comm_workshop_final.Transport.Recorded.{
  asks_receive, asks_send, awaits_receive, awaits_send, recorded,
}
use comm_workshop_final.Ring.Machine.{M, ◌>>◌, for_each}
use comm_workshop_final.Ring.Machine.After.{After, After-bind, After-weaken, After-for_range}
use comm_workshop_final.Ring.Step.{
  Step, wait, arrive, place, post_receive, post_send, post_pieces, finish_receive, finish_send,
  run_batch, run_step, reduce_piece, reduce_result, temporary_region, work_region,
}
use comm_workshop_final.Ring.Step.Setup.{Sized}
use comm_workshop_final.Ring.Step.Program.{
  joined, span, recv_pieces, send_pieces, act, batch_program, step_program,
}
use comm_workshop_final.Ring.Step.Trace.{
  State, calls, Posted, Asks, waits-After, wait-After, finish_send-After, post_receive-After,
  post_send-After, post_pieces-After,
}

append_four : {A : Type 0} (w a b c d : List A) → w ++ a ++ b ++ c ++ d ≡ w ++ (a ++ b ++ c ++ d)
append_four w a b c d =
    ap (λ l. l ++ d) (ap (λ l. l ++ c) (append_assoc w a b) ∙ append_assoc w (a ++ b) c)
    ∙ append_assoc w (a ++ b ++ c) d

module _ (s : Scalars) {T : Type 0} (ops : TransportOps T s.Elem) where
  module _ (st : Step) (z : Sized st) where
    module _ (after : Posted s ops → M (State s ops) (Unit {0}))
        (quiet : (p : Posted s ops) (n : State s ops)
          → After (λ u (o : State s ops). calls s ops o ≡ calls s ops n) (after p n))
        (recv_small : recv_pieces st ≤ 2 ^ 12) (send_small : send_pieces st ≤ 2 ^ 12) where
      arrive-calls :
          (p : Posted s ops) (contents : ℕ → s.Elem) (m : State s ops)
          → calls s ops ((arrive s (recorded ops) st p contents m).1) ≡ calls s ops m
      arrive-calls p contents m =
          elim st.recv_region
            as (λ region.
              calls s ops
                ((arrive s (recorded ops) (record st { recv_region = region }) p contents m).1)
              ≡ calls s ops m) [ temporary_region ↦ refl | work_region ↦ refl ]

      finish_receive-After :
          (p : Posted s ops) (m : State s ops)
          → After
              (λ u (n : State s ops). calls s ops n ≡ calls s ops m ++ p.request.1 ∷ [])
              (finish_receive s (recorded ops) st after p m)
      unfolding finish_receive
      finish_receive-After p m =
          After-bind (wait s (recorded ops) p.request)
            (λ contents. arrive s (recorded ops) st p contents >> after p) m
            (λ contents (n : State s ops). calls s ops n ≡ calls s ops m ++ p.request.1 ∷ []) _
            (wait-After s ops p.request m)
            (λ contents n e.
              After-weaken (after p (arrive s (recorded ops) st p contents n).1) _ _
                (quiet p (arrive s (recorded ops) st p contents n).1)
                (λ u o same. same ∙ arrive-calls p contents n ∙ e))

      run_batch-After :
          (batch : ℕ) (m : State s ops)
          → batch * st.capacity + st.capacity < size_mod
          → After
              (λ u (n : State s ops). calls s ops n ≡ calls s ops m ++ batch_program st batch)
              (run_batch s (recorded ops) st after batch m)
      unfolding run_batch
      run_batch-After batch m small =
          let from = batch * st.capacity in
          let receives_to = min (from + st.capacity) (recv_pieces st) in
          let sends_to = min (from + st.capacity) (send_pieces st) in
          rw
            (
              mul_size_lem batch st.capacity (omega (arith, small)),
              add_size_lem from st.capacity small,
            )
            (After-bind
              (post_pieces s (recorded ops) (post_receive s (recorded ops) st) from receives_to) _ m
              (Asks s ops st z asks_receive awaits_receive (span from receives_to) m) _
              (post_pieces-After s ops st z asks_receive awaits_receive
                (post_receive s (recorded ops) st) from receives_to m (omega (arith, recv_small))
                (post_receive-After s ops st z))
              (λ receives n q.
                After-bind
                  (post_pieces s (recorded ops) (post_send s (recorded ops) st) from sends_to)
                  (λ sends.
                    for_each receives (finish_receive s (recorded ops) st after)
                    >> for_each sends (finish_send s (recorded ops)))
                  n (Asks s ops st z asks_send awaits_send (span from sends_to) n) _
                  (post_pieces-After s ops st z asks_send awaits_send
                    (post_send s (recorded ops) st) from sends_to n (omega (arith, send_small))
                    (post_send-After s ops st z))
                  (λ sends o r.
                    After-bind (for_each receives (finish_receive s (recorded ops) st after))
                      (λ u. for_each sends (finish_send s (recorded ops))) o
                      (λ u (p : State s ops).
                        calls s ops p
                        ≡ calls s ops o ++ act st awaits_receive (span from receives_to))
                      _
                      (waits-After s ops (finish_receive s (recorded ops) st after) _ receives o
                        finish_receive-After (ap (λ l. calls s ops o ++ l) q.0))
                      (λ u p e.
                        waits-After s ops (finish_send s (recorded ops)) _ sends p
                          (finish_send-After s ops)
                          (ap₂ ◌++◌
                              (e
                                ∙ ap (λ l. l ++ act st awaits_receive (span from receives_to))
                                    (r.1
                                      ∙ ap (λ l. l ++ act st asks_send (span from sends_to)) q.1))
                              r.0
                            ∙ append_four (calls s ops m)
                                (act st asks_receive (span from receives_to))
                                (act st asks_send (span from sends_to))
                                (act st awaits_receive (span from receives_to))
                                (act st awaits_send (span from sends_to)))))))

      -- Over any transport, a step that ends well has made the calls s ops of its program.
      pub run_step-After :
          (m : State s ops)
          → After
              (λ u (n : State s ops). calls s ops n ≡ calls s ops m ++ step_program st)
              (run_step s (recorded ops) st after m)
      unfolding run_step
      run_step-After m =
          let total = batches_for (send_pieces st) (recv_pieces st) st.capacity in
          After-for_range
            (λ k u (n : State s ops). calls s ops n ≡ calls s ops m ++ joined (batch_program st) k)
            (λ batch u. run_batch s (recorded ops) st after batch) total 0 total tt m (omega arith)
            (λ k u n lo hi q.
              After-weaken (run_batch s (recorded ops) st after k n) _ _
                (run_batch-After k n (small k hi))
                (λ v o e.
                  e
                  ∙ ap (λ l. l ++ batch_program st k) q
                  ∙ append_assoc (calls s ops m) (joined (batch_program st) k) (batch_program st k)
                  ∙ rw add-one refl))
            (sym (append-nil (calls s ops m)))
        where
          small :
              (k : ℕ)
              → k < batches_for (send_pieces st) (recv_pieces st) st.capacity
              → k * st.capacity + st.capacity < size_mod
          small k h =
              let inside =
                (batches_for-lt (send_pieces st) (recv_pieces st) st.capacity k z.capacity_pos
                    (omega (arith, z.capacity_small, recv_small, send_small))).0
                  h in
              omega (arith, inside, z.capacity_small, recv_small, send_small)

  -- Adding a received piece makes no call.
  pub reduce_piece-quiet :
      (st : Step) (datatype : Datatype) (operation : Operation) (start : ℕ) (p : Posted s ops)
      (m : State s ops)
      → After
          (λ u (n : State s ops). calls s ops n ≡ calls s ops m)
          (reduce_piece s (recorded ops) st datatype operation start p m)
  unfolding reduce_piece
  reduce_piece-quiet st datatype operation start p m =
      let to = place s (recorded ops) st start p.element_offset in
      let from = element_at p.element_offset st.element_size in
      elim (Bool-cases (fits m.work to p.element_count && fits m.temporary from p.element_count)) [
        | inl ok ↦ rw ok (
            reduce_result-quiet
              (reduce_in_place s (some (m.work, to)) (some (m.temporary, from)) p.element_count
                datatype operation)
              m)
        | inr bad ↦ rw bad tt
      ]
    where
      reduce_result-quiet :
          (result : Status × Option (Buffer s.Elem)) (m : State s ops)
          → After
              (λ u (n : State s ops). calls s ops n ≡ calls s ops m)
              (reduce_result s (recorded ops) result m)
      reduce_result-quiet (success, some b) m = refl
      reduce_result-quiet (success, none) m = tt
      reduce_result-quiet (status, b) m = tt
