-- ===== src/Ring/Call/AllReduce.antt =====
-- `ring_all_reduce` as one call.
use comm_workshop_final.Prelude.{
  ℕ, ◌+◌, ◌-◌, ◌%◌, ◌^◌, ◌≤◌, ◌<◌, ◌≡◌, ap, ◌∙◌, arith, [], ◌==◌, Bool, false, subst, if◌then◌else◌,
}
use comm_workshop_final.Types.{Datatype, Operation}
use comm_workshop_final.Memory.{Buffer, Scalars}
use comm_workshop_final.Reduction.{datatype_size}
use comm_workshop_final.Reduction.Elementwise.{KnownDatatype, KnownOperation}
use comm_workshop_final.Pieces.{element_at}
use comm_workshop_final.Transport.{TransportOps}
use comm_workshop_final.Transport.Reliable.{Reliable, extend}
use comm_workshop_final.Ring.Machine.{done}
use comm_workshop_final.Ring.Context.{Context}
use comm_workshop_final.Ring.Phase.ScatterRun.{
  scatter_work, scatter_work-size, scatter_sent, scatter_expected,
}
use comm_workshop_final.Ring.Phase.GatherRun.{gather_work, gather_sent, gather_expected}
use comm_workshop_final.Ring.Call.{Callable, laid_out}
use comm_workshop_final.Ring.Call.Moved.{
  moved, gather_work-moved, gather_sent-moved, gather_expected-moved, Callable-moved,
  Callable-laid_out, layout_after-again,
}
use comm_workshop_final.Prelude.{◌++◌, some}
use comm_workshop_final.Transport.Reliable.{extend-extend}
use comm_workshop_final.Ring.Collectives.{
  SendBuffer, null, same, separate, copy_input, ring_all_reduce, all_reduce_checked,
  all_reduce_body, gather_after, count_call, all_reduce_from,
}
use comm_workshop_final.Ring.Call.Run.{scatter_body-runs, Gathers, gather_body-runs}

if-false : {A : Type 0} (b : Bool) (x y : A) → b ≡ false → (if b then x else y) ≡ y
if-false b x y h = rw h

module _ (s : Scalars) {T : Type 0} (ops : TransportOps T s.Elem) (c : Context T s.Elem)
    (datatype : Datatype) (operation : Operation) (count : ℕ) (inbox : ℕ → ℕ → s.Elem)
    (work : Buffer s.Elem) where
  abbrev element_size : ℕ
  element_size = datatype_size datatype

  abbrev final : Context T s.Elem
  final = laid_out c count element_size

  abbrev steps : ℕ
  steps = c.world_size - 1

  abbrev reduced_work : Buffer s.Elem
  reduced_work = scatter_work s datatype operation final element_size inbox work steps

  all_reduce_body-runs :
      (kd : KnownDatatype datatype) (ko : KnownOperation operation)
      (y : Callable c count (datatype_size datatype))
      (rel : Reliable ops c.config.transfer_mode inbox)
      → (rel.view c.transport).pending ≡ []
      → count ≤ work.size
      → (t : T) × (b : Buffer s.Elem) × (all_reduce_body s ops c work count datatype operation ≡ (
        done tt,
        record (moved s final t b) { sequence = (c.sequence + 1) % 2 ^ 32 },
        gather_work s final element_size inbox (reduced_work) steps,
      ))
        × (rel.view t
            ≡ extend
                (rel.view c.transport)
                (scatter_sent s datatype operation final element_size inbox work steps
                  ++ gather_sent s final element_size inbox (reduced_work) steps)
                (scatter_expected s datatype operation final element_size inbox work steps
                  ++ gather_expected s final element_size inbox (reduced_work) steps))
  unfolding all_reduce_body gather_after
  all_reduce_body-runs kd ko y rel closed fits =
      let (t, b, ran, seen) =
        scatter_body-runs s ops c datatype kd count y rel closed work fits operation ko in
      let ready : Callable (moved s final t b) count element_size =
        Callable-moved s final count (Callable-laid_out s c count y) t b in
      let room : count ≤ reduced_work.size =
        omega (
          arith,
          fits,
          scatter_work-size s datatype operation final element_size inbox work steps,
        ) in
      let (t', b', ran', seen') =
        subst
          (Gathers s ops (moved s final t b) datatype kd count ready rel (ap (λ l. l.pending) seen)
            reduced_work room)
          (layout_after-again count c.world_size c.layout y.size_pos)
          (gather_body-runs s ops (moved s final t b) datatype kd count ready rel
            (ap (λ l. l.pending) seen) reduced_work room) in
      (
        t',
        b',
        ap (gather_after s ops count datatype) ran
            ∙ ap (count_call s ops) (
                rw
                  (gather_work-moved s datatype operation final element_size inbox reduced_work t b
                    steps)
                  at ran'),
        rw
              (
                gather_sent-moved s datatype operation final element_size inbox reduced_work t b
                    steps,
                gather_expected-moved s datatype operation final element_size inbox reduced_work t b
                    steps,
              )
              at seen'
            ∙ extend-extend (rel.view t) (rel.view c.transport) _ _ _ _ seen,
      )

  -- The checks pass when there are elements, the datatype has a size and the input can be copied.
  pub all_reduce_checked-body :
      (send : SendBuffer s.Elem) (recv : Buffer s.Elem)
      → 0 < count
      → 0 < element_size
      → copy_input s ops send recv (element_at count element_size) ≡ some work
      → all_reduce_checked s ops c send recv count datatype operation
        ≡ all_reduce_body s ops c work count datatype operation
  unfolding all_reduce_checked all_reduce_from
  all_reduce_checked-body send recv pos_count pos_size copied =
      let some_elements : (count == 0) ≡ false = ground arith in
      let sized : (element_size == 0) ≡ false = ground arith in
      if-false (count == 0) _ _ some_elements
      ∙ if-false (element_size == 0) _ _ sized
      ∙ ap (all_reduce_from s ops c recv count datatype operation) copied

  -- With a known datatype and operation, `count` > 0 elements that fit the buffer, numbers in range
  -- (Callable: at most 128 ranks, 4096 pieces of a block, pieces below 2 ^ 32 and the elements below
  -- 2 ^ 63 bytes) and an input that can be copied, over a transport that keeps its contract and has
  -- no open request, `ring_all_reduce` on one rank succeeds. Its buffer holds what the steps of Reduce-Scatter and then
  -- those of All-Gather leave of the copied input, the transport has been asked for exactly their
  -- messages and receives, in order, no request is left open, and the sequence number is one higher
  -- modulo 2 ^ 32.
  pub ring_all_reduce-runs :
      (send : SendBuffer s.Elem) (recv : Buffer s.Elem)
      → copy_input s ops send recv (element_at count element_size) ≡ some work
      → KnownDatatype datatype
      → KnownOperation operation
      → 0 < count
      → count ≤ work.size
      → Callable c count element_size
      → (rel : Reliable ops c.config.transfer_mode inbox) → (rel.view c.transport).pending ≡ []
      → (t : T) × (b : Buffer s.Elem) × (ring_all_reduce s ops
            (some c)
            send
            (some recv)
            count
            datatype
            operation
          ≡ (
            done tt,
            some (record (moved s final t b) { sequence = (c.sequence + 1) % 2 ^ 32 }),
            some (gather_work s final element_size inbox reduced_work steps),
          ))
        × (rel.view t
            ≡ extend
                (rel.view c.transport)
                (scatter_sent s datatype operation final element_size inbox work steps
                  ++ gather_sent s final element_size inbox reduced_work steps)
                (scatter_expected s datatype operation final element_size inbox work steps
                  ++ gather_expected s final element_size inbox reduced_work steps))
  unfolding ring_all_reduce copy_input
  ring_all_reduce-runs null recv copied kd ko p fits y rel closed = absurd (cc copied)
  ring_all_reduce-runs same recv copied kd ko p fits y rel closed =
      let (t, b, ran, seen) = all_reduce_body-runs kd ko y rel closed fits in
      (t, b, rw (all_reduce_checked-body same recv p y.element_pos copied, ran), seen)
  ring_all_reduce-runs (separate input) recv copied kd ko p fits y rel closed =
      let (t, b, ran, seen) = all_reduce_body-runs kd ko y rel closed fits in
      (t, b, rw (all_reduce_checked-body (separate input) recv p y.element_pos copied, ran), seen)
