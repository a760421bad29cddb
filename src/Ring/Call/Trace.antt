-- ===== src/Ring/Call/Trace.antt =====
-- The calls that a whole `ring_all_reduce` makes of its transport.
use comm_workshop_final.Prelude.{
  ℕ, ◌≤◌, ◌<◌, ◌≡◌, refl, sym, ap, subst, ◌∙◌, List, ◌++◌, append_assoc, Bool-cases, inl, inr,
  Option, some, leb, ◌==◌,
}
use comm_workshop_final.Types.{Datatype, Operation, err_transport}
use comm_workshop_final.Memory.{Buffer, Scalars}
use comm_workshop_final.Reduction.{datatype_size}
use comm_workshop_final.Reduction.Elementwise.{KnownDatatype, KnownOperation}
use comm_workshop_final.BlockLayout.{BlockLayout}
use comm_workshop_final.Pieces.{element_at}
use comm_workshop_final.Transport.{TransportOps}
use comm_workshop_final.Transport.Recorded.{Action, recorded}
use comm_workshop_final.Ring.Schedule.{owned_block_of}
use comm_workshop_final.Ring.Machine.{Outcome, done, returned, fault}
use comm_workshop_final.Ring.Machine.After.{After}
use comm_workshop_final.Ring.Context.{Context}
use comm_workshop_final.Ring.Step.Trace.{State, calls}
use comm_workshop_final.Ring.Phase.Trace.{
  scatter_program, gather_program, scatter_steps-After, gather_steps-After,
}
use comm_workshop_final.Ring.Collectives.{
  SendBuffer, null, same, separate, max_element, resize, Call, scatter_body, scatter_laid_out,
  gather_body, gather_laid_out, gather_after, count_call, all_reduce_body, copy_input,
  ring_all_reduce,
}
use comm_workshop_final.Ring.Call.{Callable, laid_out, laid_out-Ready}
use comm_workshop_final.Ring.Call.Moved.{
  moved, compute_block_layout-success, Callable-moved, Callable-laid_out, layout_after-again,
}
use comm_workshop_final.Ring.Call.Room.{known}
use comm_workshop_final.Ring.Call.AllReduce.{all_reduce_checked-body}
use comm_workshop_final.Ring.Call.Failing.{Ends, ring_all_reduce-any_transport}

-- What a call asks of its transport: both phases, on the context with its layout.
abbrev pub call_program : {T E : Type 0} → Context T E → ℕ → List Action
call_program c element_size = scatter_program c element_size ++ gather_program c element_size

module _ (s : Scalars) {T : Type 0} (ops : TransportOps T s.Elem) where
  abbrev Ctx : Type 0
  Ctx = Context (T × List Action) s.Elem

  abbrev left_by : {A : Type 0} → Call s (recorded ops) A → Outcome A × (Ctx × Buffer s.Elem)
  left_by x = (x.0, (x.1, x.2))

  -- The context is `c` but for its transport and its temporary buffer, and the calls so far are `l`.
  abbrev Called : Ctx → List Action → Ctx × Buffer s.Elem → Type 0
  Called c l (c', work) = (c' ≡ moved s c c'.transport c'.temporary_buffer) × (c'.transport.1 ≡ l)

  run_on-After :
      {A : Type 0} (c : Ctx) (l : List Action) (o : Outcome A × State s ops)
      → After (λ a (m : State s ops). calls s ops m ≡ l) o
      → After
          (λ a. Called c l)
          (left_by (
            o.0,
            record c { transport = o.1.transport; temporary_buffer = o.1.temporary },
            o.1.work,
          ))
  run_on-After c l (done a, m) e = (refl, e)
  run_on-After c l (returned status, m) e = tt
  run_on-After c l (fault, m) e = tt

  module _ (datatype : Datatype) (count : ℕ) (c : Ctx)
      (y : Callable c count (datatype_size datatype)) where
    abbrev element_size : ℕ
    element_size = datatype_size datatype

    abbrev final : Ctx
    final = laid_out c count element_size

    scatter_body-After :
        (operation : Operation) (work : Buffer s.Elem)
        → After
            (λ owned. Called final (c.transport.1 ++ scatter_program final element_size))
            (left_by (scatter_body s (recorded ops) c work count datatype operation))
    unfolding scatter_body scatter_laid_out
    scatter_body-After operation work =
        let resized =
          resize s (recorded ops) c.temporary_buffer
            (element_at (max_element final.layout.counts) element_size) in
        let at_start = moved s final c.transport resized in
        rw
          (
            known c datatype count y,
            compute_block_layout-success count c.world_size c.layout y.size_pos,
          )
          (run_on-After at_start _ _ (
            scatter_steps-After s ops at_start count element_size
              (laid_out-Ready (moved s c c.transport resized) count element_size
                (Callable-moved s c count y c.transport resized))
              datatype operation
              (record { transport = c.transport; temporary = resized; work = work })))

    -- All-Gather with layout `layout`.
    abbrev GathersTo : ℕ → Buffer s.Elem → BlockLayout → Type 0
    GathersTo owned work layout =
        let c' = record c { layout = layout } in
        After (λ u. Called c' (c.transport.1 ++ gather_program c' element_size))
          (left_by (gather_body s (recorded ops) c work count datatype owned))

    gather_body-After : (owned : ℕ) (work : Buffer s.Elem) → GathersTo owned work final.layout
    unfolding gather_body gather_laid_out
    gather_body-After owned work = elim (Bool-cases (leb c.world_size owned)) [
      | inl outside ↦ rw outside tt
      | inr inside ↦ elim (Bool-cases (owned == owned_block_of c.rank c.world_size)) [
        | inl own ↦
            rw
              (
                inside,
                own,
                known c datatype count y,
                compute_block_layout-success count c.world_size c.layout y.size_pos,
              )
              (run_on-After final _ _ (
                gather_steps-After s ops final count element_size
                  (laid_out-Ready c count element_size y)
                  (record {
                    transport = c.transport;
                    temporary = c.temporary_buffer;
                    work = work;
                  })))
        | inr foreign ↦ rw (inside, foreign) tt
      ]
    ]

  -- How many calls are counted in the context says nothing of the transport.
  count_call-After :
      (l : List Action) (x : Call s (recorded ops) (Unit {0}))
      → After (λ u (r : Ctx × Buffer s.Elem). (r.0).transport.1 ≡ l) (left_by x)
      → After
          (λ u (r : Ctx × Buffer s.Elem). (r.0).transport.1 ≡ l)
          (left_by (count_call s (recorded ops) x))
  count_call-After l (done u, c', work) h = h
  count_call-After l (returned status, c', work) h = tt
  count_call-After l (fault, c', work) h = tt

  forget_context :
      {A : Type 0} (c : Ctx) (l : List Action) (x : Call s (recorded ops) A)
      → After (λ a. Called c l) (left_by x)
      → After (λ a (r : Ctx × Buffer s.Elem). (r.0).transport.1 ≡ l) (left_by x)
  forget_context c l (done a, c', work) h = h.1
  forget_context c l (returned status, c', work) h = tt
  forget_context c l (fault, c', work) h = tt

  module _ (datatype : Datatype) (count : ℕ) (c : Ctx)
      (y : Callable c count (datatype_size datatype)) where
    abbrev laid : Ctx
    laid = laid_out c count (datatype_size datatype)

    -- All-Gather on what Reduce-Scatter leaves.
    gather_moved-After :
        (t : T × List Action) (b : Buffer s.Elem) (owned : ℕ) (work : Buffer s.Elem)
        → After
            (λ u. Called (moved s laid t b) (t.1 ++ gather_program laid (datatype_size datatype)))
            (left_by (gather_body s (recorded ops) (moved s laid t b) work count datatype owned))
    gather_moved-After t b owned work =
        subst
          (GathersTo datatype count (moved s laid t b)
            (Callable-moved s laid count (Callable-laid_out s c count y) t b) owned work)
          (layout_after-again count c.world_size c.layout y.size_pos)
          (gather_body-After datatype count (moved s laid t b)
            (Callable-moved s laid count (Callable-laid_out s c count y) t b) owned work)

    gather_after-After :
        (x : Call s (recorded ops) ℕ)
        → After
            (λ owned. Called laid (c.transport.1 ++ scatter_program laid (datatype_size datatype)))
            (left_by x)
        → After
            (λ u (r : Ctx × Buffer s.Elem).
              (r.0).transport.1 ≡ c.transport.1 ++ call_program laid (datatype_size datatype))
            (left_by (gather_after s (recorded ops) count datatype x))
    unfolding gather_after
    gather_after-After (done owned, c', work) h =
        count_call-After _ (gather_body s (recorded ops) c' work count datatype owned) (
          subst
            (λ (d : Ctx).
              After
                (λ u (r : Ctx × Buffer s.Elem).
                  (r.0).transport.1 ≡ c.transport.1 ++ call_program laid (datatype_size datatype))
                (left_by (gather_body s (recorded ops) d work count datatype owned)))
            (sym h.0)
            (subst
              (λ l.
                After (λ u (r : Ctx × Buffer s.Elem). (r.0).transport.1 ≡ l)
                  (left_by (
                    gather_body s (recorded ops) (moved s laid c'.transport c'.temporary_buffer)
                      work count datatype owned)))
              (ap (λ l. l ++ gather_program laid (datatype_size datatype)) h.1
                ∙ append_assoc c.transport.1 (scatter_program laid (datatype_size datatype))
                    (gather_program laid (datatype_size datatype)))
              (forget_context (moved s laid c'.transport c'.temporary_buffer) _ _
                (gather_moved-After c'.transport c'.temporary_buffer owned work))))
    gather_after-After (returned status, c', work) h = tt
    gather_after-After (fault, c', work) h = tt

    -- How a call may end: well, with its program behind it, or with PG_ERR_TRANSPORT.
    abbrev pub Makes : Outcome (Unit {0}) × Option Ctx × Option (Buffer s.Elem) → Type 0
    Makes (done u, some c', some work) =
        c'.transport.1 ≡ c.transport.1 ++ call_program laid (datatype_size datatype)
    Makes (returned status, some c', some work) = status ≡ err_transport
    Makes other = ⊥

    both :
        (size : ℕ) (x : Call s (recorded ops) (Unit {0}))
        → Ends s (recorded ops) laid size (x.0, some x.1, some x.2)
        → After
            (λ u (r : Ctx × Buffer s.Elem).
              (r.0).transport.1 ≡ c.transport.1 ++ call_program laid (datatype_size datatype))
            (left_by x)
        → Makes (x.0, some x.1, some x.2)
    both size (done u, c', work) e h = h
    both size (returned status, c', work) e h = e.0
    both size (fault, c', work) e h = absurd e

    -- With a known datatype and operation, `count` > 0 elements that fit the buffer, numbers in range
    -- and an input that can be copied, `ring_all_reduce` over any transport at all, whose calls may
    -- fail or answer anything, ends in one of two ways. Either with success; then the posts and waits
    -- that it has made of the transport are exactly those of `call_program`, in that order: in each
    -- batch of each step of the two phases the receives of its pieces are posted, then the sends, then
    -- the receives are awaited, then the sends. Or it ends with PG_ERR_TRANSPORT.
    pub ring_all_reduce-Makes :
        (operation : Operation) (work : Buffer s.Elem) (send : SendBuffer s.Elem)
        (recv : Buffer s.Elem)
        → copy_input s (recorded ops) send recv (element_at count (datatype_size datatype))
          ≡ some work
        → KnownDatatype datatype
        → KnownOperation operation
        → 0 < count
        → count ≤ work.size
        → Makes
            (ring_all_reduce s (recorded ops) (some c) send (some recv) count datatype operation)
    unfolding ring_all_reduce copy_input all_reduce_body
    ring_all_reduce-Makes operation work null recv copied kd ko p fits = absurd (cc copied)
    ring_all_reduce-Makes operation work same recv copied kd ko p fits =
        let ends =
          ring_all_reduce-any_transport s (recorded ops) datatype kd count c y operation work same
            recv copied ko p fits in
        both work.size _ ends (
          rw
            (all_reduce_checked-body s (recorded ops) c datatype operation count (λ tag j. s.zeroed)
              work same recv p y.element_pos copied)
            (gather_after-After _ (scatter_body-After datatype count c y operation work)))
    ring_all_reduce-Makes operation work (separate input) recv copied kd ko p fits =
        let ends =
          ring_all_reduce-any_transport s (recorded ops) datatype kd count c y operation work
            (separate input) recv copied ko p fits in
        both work.size _ ends (
          rw
            (all_reduce_checked-body s (recorded ops) c datatype operation count (λ tag j. s.zeroed)
              work (separate input) recv p y.element_pos copied)
            (gather_after-After _ (scatter_body-After datatype count c y operation work)))
