-- ===== src/Ring/Call/Failing.antt =====
-- `ring_all_reduce` on one rank over any transport, whose calls may fail or answer anything.
use comm_workshop_final.Prelude.{
  ℕ, ◌+◌, ◌%◌, ◌^◌, ◌≤◌, ◌<◌, ◌≡◌, refl, sym, ap, subst, arith, ==_iff, some, Option,
}
use comm_workshop_final.Types.{Datatype, Operation, err_transport}
use comm_workshop_final.Memory.{Buffer, Scalars}
use comm_workshop_final.Reduction.{datatype_size}
use comm_workshop_final.Reduction.Elementwise.{KnownDatatype, KnownOperation}
use comm_workshop_final.BlockLayout.{BlockLayout}
use comm_workshop_final.Pieces.{element_at}
use comm_workshop_final.Transport.{TransportOps}
use comm_workshop_final.Ring.Schedule.{owned_block_of}
use comm_workshop_final.Ring.Machine.{Machine, Outcome, done, returned, fault}
use comm_workshop_final.Ring.Machine.Settles.{Settles}
use comm_workshop_final.Ring.Context.{Context}
use comm_workshop_final.Ring.Step.Failing.{Sizes}
use comm_workshop_final.Ring.Phase.Ready.{Ready}
use comm_workshop_final.Ring.Phase.Failing.{scatter_steps-Settles, gather_steps-Settles}
use comm_workshop_final.Ring.Collectives.{
  SendBuffer, null, same, separate, max_element, resize, Call, scatter_body, scatter_laid_out,
  gather_body, gather_laid_out, gather_after, count_call, all_reduce_body, copy_input,
  ring_all_reduce,
}
use comm_workshop_final.Ring.Call.{Callable, laid_out, laid_out-Ready}
use comm_workshop_final.Ring.Call.Moved.{
  moved, compute_block_layout-success, Callable-moved, Callable-laid_out, layout_after-again,
}
use comm_workshop_final.Ring.Call.Room.{room_enough, known, own_block}
use comm_workshop_final.Ring.Call.AllReduce.{all_reduce_checked-body}

module _ (s : Scalars) {T : Type 0} (ops : TransportOps T s.Elem) where
  -- The context is `c` but for its transport and its temporary buffer, and the user's buffer has
  -- `size` elements.
  abbrev pub Stays : Context T s.Elem → ℕ → Context T s.Elem × Buffer s.Elem → Type 0
  Stays c size (c', work) = (c' ≡ moved s c c'.transport c'.temporary_buffer) × (work.size ≡ size)

  -- The outcome of a call beside the context and the buffer that it leaves.
  abbrev left_by : {A : Type 0} → Call s ops A → Outcome A × (Context T s.Elem × Buffer s.Elem)
  left_by x = (x.0, (x.1, x.2))

  -- The context with its sequence number one higher.
  abbrev pub counted : Context T s.Elem → Context T s.Elem
  counted c = record c { sequence = (c.sequence + 1) % 2 ^ 32 }

  -- How a call may end: with success and the sequence number one higher, or with PG_ERR_TRANSPORT
  -- and the sequence number as it was.
  abbrev pub Ends :
      Context T s.Elem
      → ℕ
      → Outcome (Unit {0}) × Option (Context T s.Elem) × Option (Buffer s.Elem)
      → Type 0
  Ends c size (done u, some c', some work) = Stays (counted c) size (c', work)
  Ends c size (returned status, some c', some work) =
      (status ≡ err_transport) × Stays c size (c', work)
  Ends c size other = ⊥

  -- What the steps leave, put back into the context.
  run_on-Settles :
      {A : Type 0} (c : Context T s.Elem) (room size : ℕ) (P : A → Type 0)
      (o : Outcome A × Machine T s.Elem)
      → Settles (Sizes s ops room size) (λ a m. P a × Sizes s ops room size m) o
      → Settles
          (Stays c size)
          (λ a m. P a × Stays c size m)
          (left_by (
            o.0,
            record c { transport = o.1.transport; temporary_buffer = o.1.temporary },
            o.1.work,
          ))
  run_on-Settles c room size P (done a, m) h = (h.0, (refl, h.1.1))
  run_on-Settles c room size P (returned status, m) h = (h.0, (refl, h.1.1))
  run_on-Settles c room size P (fault, m) h = h

  run_on_unit-Settles :
      (c : Context T s.Elem) (room size : ℕ) (o : Outcome (Unit {0}) × Machine T s.Elem)
      → Settles (Sizes s ops room size) (λ u. Sizes s ops room size) o
      → Settles
          (Stays c size)
          (λ u. Stays c size)
          (left_by (
            o.0,
            record c { transport = o.1.transport; temporary_buffer = o.1.temporary },
            o.1.work,
          ))
  run_on_unit-Settles c room size (done u, m) h = (refl, h.1)
  run_on_unit-Settles c room size (returned status, m) h = (h.0, (refl, h.1.1))
  run_on_unit-Settles c room size (fault, m) h = h

  module _ (datatype : Datatype) (kd : KnownDatatype datatype) (count : ℕ) (c : Context T s.Elem)
      (y : Callable c count (datatype_size datatype)) where
    abbrev element_size : ℕ
    element_size = datatype_size datatype

    abbrev final : Context T s.Elem
    final = laid_out c count element_size

    abbrev room : ℕ
    room = element_at (max_element final.layout.counts) element_size

    scatter_body-Settles :
        (operation : Operation) (ko : KnownOperation operation) (work : Buffer s.Elem)
        → count ≤ work.size
        → Settles
            (Stays final work.size)
            (λ owned m. (owned ≡ owned_block_of c.rank c.world_size) × Stays final work.size m)
            (left_by (scatter_body s ops c work count datatype operation))
    unfolding scatter_body scatter_laid_out
    scatter_body-Settles operation ko work fits =
        let resized = resize s ops c.temporary_buffer room in
        let ready : Ready (moved s final c.transport resized) count element_size =
          laid_out-Ready (moved s c c.transport resized) count element_size
            (Callable-moved s c count y c.transport resized) in
        rw
          (
            known c datatype count y,
            compute_block_layout-success count c.world_size c.layout y.size_pos,
          )
          (run_on-Settles final room work.size (λ owned. owned ≡ owned_block_of c.rank c.world_size)
            _
            (scatter_steps-Settles s ops (moved s final c.transport resized) count element_size
              ready room work.size fits datatype operation kd ko (room_enough c datatype count y)
              (record { transport = c.transport; temporary = resized; work = work }) (refl, refl)))

    -- All-Gather ends with layout `layout`.
    abbrev GathersTo : Buffer s.Elem → BlockLayout → Type 0
    GathersTo work layout =
        let c' = record c { layout = layout } in
        Settles (Stays c' work.size) (λ u. Stays c' work.size)
          (left_by (gather_body s ops c work count datatype (owned_block_of c.rank c.world_size)))

    gather_body-Settles : (work : Buffer s.Elem) → count ≤ work.size → GathersTo work final.layout
    unfolding gather_body gather_laid_out
    gather_body-Settles work fits =
        rw
          (
            own_block c datatype count y,
            (==_iff (owned_block_of c.rank c.world_size) (owned_block_of c.rank c.world_size)).1
                refl,
            known c datatype count y,
            compute_block_layout-success count c.world_size c.layout y.size_pos,
          )
          (run_on_unit-Settles final c.temporary_buffer.size work.size _ (
            gather_steps-Settles s ops final count element_size
              (laid_out-Ready c count element_size y) c.temporary_buffer.size work.size fits
              (record { transport = c.transport; temporary = c.temporary_buffer; work = work })
              (refl, refl)))

  count_call-Settles :
      (c : Context T s.Elem) (size : ℕ) (x : Call s ops (Unit {0}))
      → Settles (Stays c size) (λ u. Stays c size) (left_by x)
      → Settles (Stays c size) (λ u. Stays (counted c) size) (left_by (count_call s ops x))
  count_call-Settles c size (done u, c', work) h = (ap counted h.0, h.1)
  count_call-Settles c size (returned status, c', work) h = h
  count_call-Settles c size (fault, c', work) h = h

  module _ (datatype : Datatype) (kd : KnownDatatype datatype) (count : ℕ) (c : Context T s.Elem)
      (y : Callable c count (datatype_size datatype)) where
    abbrev laid : Context T s.Elem
    laid = laid_out c count (datatype_size datatype)

    -- All-Gather on what Reduce-Scatter leaves: a context that differs from `laid` in its transport
    -- and its temporary buffer only.
    gather_moved-Settles :
        (t : T) (b : Buffer s.Elem) (work : Buffer s.Elem)
        → count ≤ work.size
        → Settles
            (Stays laid work.size)
            (λ u. Stays laid work.size)
            (left_by (
              gather_body s ops
                (moved s laid t b)
                work
                count
                datatype
                (owned_block_of c.rank c.world_size)))
    gather_moved-Settles t b work fits =
        subst
          (GathersTo datatype kd count (moved s laid t b)
            (Callable-moved s laid count (Callable-laid_out s c count y) t b) work)
          (layout_after-again count c.world_size c.layout y.size_pos)
          (gather_body-Settles datatype kd count (moved s laid t b)
            (Callable-moved s laid count (Callable-laid_out s c count y) t b) work fits)

    -- The call of All-Gather that follows Reduce-Scatter, and the count of the calls.
    gather_after-Settles :
        (size : ℕ) (x : Call s ops ℕ)
        → count ≤ size
        → Settles
            (Stays laid size)
            (λ owned m. (owned ≡ owned_block_of c.rank c.world_size) × Stays laid size m)
            (left_by x)
        → Settles
            (Stays laid size)
            (λ u. Stays (counted laid) size)
            (left_by (gather_after s ops count datatype x))
    unfolding gather_after
    gather_after-Settles size (done owned, c', work) fits h =
        count_call-Settles laid size (gather_body s ops c' work count datatype owned) (
          rw (h.0, h.1.0, sym h.1.1)
            (gather_moved-Settles c'.transport c'.temporary_buffer work
              (omega (arith, h.1.1, fits))))
    gather_after-Settles size (returned status, c', work) fits h = h
    gather_after-Settles size (fault, c', work) fits h = h

    ends :
        (size : ℕ) (x : Call s ops (Unit {0}))
        → Settles (Stays laid size) (λ u. Stays (counted laid) size) (left_by x)
        → Ends laid size (x.0, some x.1, some x.2)
    ends size (done u, c', work) h = h
    ends size (returned status, c', work) h = h
    ends size (fault, c', work) h = h

    -- With a known datatype and operation, `count` > 0 elements that fit the buffer, numbers in range
    -- (Callable: at most 128 ranks, 4096 pieces of a block, pieces below 2 ^ 32 and the elements below
    -- 2 ^ 63 bytes) and an input that can be copied, `ring_all_reduce` over any transport at all,
    -- whose calls may fail or answer anything, makes no access outside a buffer. It ends with
    -- success, or with PG_ERR_TRANSPORT. Both ways the user's buffer keeps its size and the
    -- context is what it was with the layout of this call, but for the transport and the temporary
    -- buffer; its sequence number is one higher modulo 2 ^ 32 on success, and unchanged on an error.
    pub ring_all_reduce-any_transport :
        (operation : Operation) (work : Buffer s.Elem) (send : SendBuffer s.Elem)
        (recv : Buffer s.Elem)
        → copy_input s ops send recv (element_at count (datatype_size datatype)) ≡ some work
        → KnownOperation operation
        → 0 < count
        → count ≤ work.size
        → Ends laid work.size
            (ring_all_reduce s ops (some c) send (some recv) count datatype operation)
    unfolding ring_all_reduce copy_input all_reduce_body
    ring_all_reduce-any_transport operation work null recv copied ko p fits = absurd (cc copied)
    ring_all_reduce-any_transport operation work same recv copied ko p fits =
        rw
          (all_reduce_checked-body s ops c datatype operation count (λ tag j. s.zeroed) work same
            recv p y.element_pos copied)
          (ends work.size _ (
            gather_after-Settles work.size _ fits
              (scatter_body-Settles datatype kd count c y operation ko work fits)))
    ring_all_reduce-any_transport operation work (separate input) recv copied ko p fits =
        rw
          (all_reduce_checked-body s ops c datatype operation count (λ tag j. s.zeroed) work
            (separate input) recv p y.element_pos copied)
          (ends work.size _ (
            gather_after-Settles work.size _ fits
              (scatter_body-Settles datatype kd count c y operation ko work fits)))
