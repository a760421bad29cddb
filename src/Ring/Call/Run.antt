-- ===== src/Ring/Call/Run.antt =====
-- The bodies of the two collectives run through on a context whose layout is not computed yet.
use comm_workshop_final.Prelude.{ℕ, ◌-◌, ◌≤◌, ◌≡◌, refl, sym, ap₂, ◌∙◌, [], ==_iff, append-nil}
use comm_workshop_final.Types.{Datatype, Operation}
use comm_workshop_final.Memory.{Buffer, Scalars}
use comm_workshop_final.Reduction.{datatype_size}
use comm_workshop_final.Reduction.Elementwise.{KnownDatatype, KnownOperation}
use comm_workshop_final.BlockLayout.{BlockLayout}
use comm_workshop_final.Pieces.{element_at}
use comm_workshop_final.Transport.{TransportOps}
use comm_workshop_final.Transport.Reliable.{Reliable, extend}
use comm_workshop_final.Ring.Schedule.{owned_block_of}
use comm_workshop_final.Ring.Machine.{done}
use comm_workshop_final.Ring.Context.{Context}
use comm_workshop_final.Ring.Collectives.{
  max_element, resize, scatter_body, scatter_laid_out, gather_body, gather_laid_out,
}
use comm_workshop_final.Ring.Phase.Ready.{Ready}
use comm_workshop_final.Ring.Phase.ScatterRun.{
  scatter_work, scatter_sent, scatter_expected, scatter_steps-Yields,
}
use comm_workshop_final.Ring.Phase.GatherRun.{
  gather_work, gather_sent, gather_expected, gather_steps-Yields,
}
use comm_workshop_final.Ring.Call.{Callable, laid_out, laid_out-Ready}
use comm_workshop_final.Ring.Call.Room.{room_enough, known, own_block}
use comm_workshop_final.Ring.Call.Moved.{
  moved, scatter_work-moved, scatter_sent-moved, scatter_expected-moved,
  compute_block_layout-success, Callable-moved,
}

module _ (s : Scalars) {T : Type 0} (ops : TransportOps T s.Elem) (c : Context T s.Elem)
    (datatype : Datatype) (kd : KnownDatatype datatype) (count : ℕ)
    (y : Callable c count (datatype_size datatype)) {inbox : ℕ → ℕ → s.Elem}
    (rel : Reliable ops c.config.transfer_mode inbox) (closed : (rel.view c.transport).pending ≡ [])
    (work : Buffer s.Elem) (fits : count ≤ work.size) where
  abbrev element_size : ℕ
  element_size = datatype_size datatype

  abbrev final : Context T s.Elem
  final = laid_out c count element_size

  abbrev steps : ℕ
  steps = c.world_size - 1

  at_machine : (t : T) (b : Buffer s.Elem) → Ready (moved s final t b) count element_size
  at_machine t b =
      laid_out-Ready (moved s c t b) count element_size (Callable-moved s c count y t b)

  r : Ready final count element_size
  r = laid_out-Ready c count element_size y

  abbrev room : ℕ
  room = element_at (max_element final.layout.counts) element_size

  abbrev resized : Buffer s.Elem
  resized = resize s ops c.temporary_buffer room

  -- Nothing is sent or received yet.
  at_rest : rel.view c.transport ≡ extend (rel.view c.transport) [] []
  at_rest = λ i. record {
    sent = sym (append-nil (rel.view c.transport).sent) i;
    expected = sym (append-nil (rel.view c.transport).expected) i;
    pending = closed i;
  }

  module _ (operation : Operation) (ko : KnownOperation operation) where
    abbrev pub reduced_work : Buffer s.Elem
    reduced_work = scatter_work s datatype operation final element_size inbox work steps

    pub scatter_body-runs :
        (t : T) × (b : Buffer s.Elem) × (scatter_body s ops c work count datatype operation
          ≡ (done (owned_block_of c.rank c.world_size), moved s final t b, reduced_work))
        × (rel.view t
            ≡ extend
                (rel.view c.transport)
                (scatter_sent s datatype operation final element_size inbox work steps)
                (scatter_expected s datatype operation final element_size inbox work steps))
    unfolding scatter_body scatter_laid_out scatter_work scatter_sent scatter_expected
    scatter_body-runs =
        let (owned, m, ran, q) =
          scatter_steps-Yields s ops datatype operation kd ko (moved s final c.transport resized)
            count element_size (at_machine c.transport resized) rel work fits room
            (room_enough c datatype count y) (rel.view c.transport)
            (record { transport = c.transport; temporary = resized; work = work })
            (refl, refl, at_rest) in
        (
          m.transport,
          m.temporary,
          rw (
            known c datatype count y,
            compute_block_layout-success count c.world_size c.layout y.size_pos,
            ran,
            q.0,
            q.1.1,
            scatter_work-moved s datatype operation final element_size inbox work c.transport
                resized steps,
          ),
          q.1.2
              ∙ ap₂ (extend (rel.view c.transport))
                  (scatter_sent-moved s datatype operation final element_size inbox work c.transport
                    resized steps)
                  (scatter_expected-moved s datatype operation final element_size inbox work
                    c.transport resized steps),
        )

  -- All-Gather runs through and ends with layout `layout`.
  abbrev pub Gathers : BlockLayout → Type 0
  Gathers layout =
      let c' = record c { layout = layout } in
      (t : T) × (b : Buffer s.Elem) × (gather_body s ops c work count datatype
          (owned_block_of c.rank c.world_size)
        ≡ (done tt, moved s c' t b, gather_work s c' element_size inbox work steps))
      × (rel.view t
          ≡ extend (rel.view c.transport) (gather_sent s c' element_size inbox work steps)
              (gather_expected s c' element_size inbox work steps))

  pub gather_body-runs : Gathers final.layout
  unfolding gather_body gather_laid_out gather_work gather_sent gather_expected
  gather_body-runs =
      let (u, m, ran, q) =
        gather_steps-Yields s ops final count element_size r rel work fits (rel.view c.transport)
          (record { transport = c.transport; temporary = c.temporary_buffer; work = work })
          (refl, at_rest) in
      (
        m.transport,
        m.temporary,
        rw (
          own_block c datatype count y,
          (==_iff (owned_block_of c.rank c.world_size) (owned_block_of c.rank c.world_size)).1 refl,
          known c datatype count y,
          compute_block_layout-success count c.world_size c.layout y.size_pos,
          ran,
          q.0,
        ),
        q.1,
      )
