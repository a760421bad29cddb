-- ===== src/Ring/Phase/Failing.antt =====
-- The two phases over any transport.
use comm_workshop_final.Prelude.{ℕ, ◌+◌, ◌-◌, ◌≤◌, ◌<◌, ◌≡◌, refl, arith}
use comm_workshop_final.Types.{Datatype, Operation}
use comm_workshop_final.Memory.{Scalars}
use comm_workshop_final.Reduction.Elementwise.{KnownDatatype, KnownOperation}
use comm_workshop_final.Pieces.{piece_elements_for}
use comm_workshop_final.Transport.{TransportOps}
use comm_workshop_final.Ring.Schedule.{
  scatter_send_block, scatter_recv_block, gather_send_block, gather_recv_block, owned_block_of,
}
use comm_workshop_final.Ring.Machine.{Machine, pure, for_range, M}
use comm_workshop_final.Ring.Machine.Settles.{Settles, Settles-bind, Settles-for_range}
use comm_workshop_final.Ring.Context.{Context}
use comm_workshop_final.Ring.Step.{Step, run_step, reduce_piece}
use comm_workshop_final.Ring.Step.Setup.{Sized, Addressed}
use comm_workshop_final.Ring.Step.Failing.{Sizes}
use comm_workshop_final.Ring.Step.Failing.Run.{run_step-Settles}
use comm_workshop_final.Ring.Collectives.{
  count_of, offset_of, scatter_step, scatter_steps, gather_step, gather_steps,
}
use comm_workshop_final.Ring.Phase.Ready.{
  Ready, block_inside, block_bytes, count_bytes, scatter_step-Sized, gather_step-Sized,
}
use comm_workshop_final.Ring.Phase.Scatter.{reduce_piece-reduced}
use comm_workshop_final.Ring.Phase.ScatterRun.{sent-lt, received-lt}
use comm_workshop_final.Ring.Phase.GatherRun.{
  sent-lt as gathers_sent-lt, received-lt as gathers_received-lt,
}

module _ (s : Scalars) {T : Type 0} (ops : TransportOps T s.Elem) (c : Context T s.Elem)
    (count element_size : ℕ) (y : Ready c count element_size) (room work_size : ℕ)
    (fits : count ≤ work_size) where
  abbrev Kept : Machine T s.Elem → Type 0
  Kept = Sizes s ops room work_size

  -- A block of the context, as part of the user's buffer and of the temporary one.
  in_work :
      (st : Step) (b : ℕ)
      → b < c.world_size
      → st.element_size ≡ element_size
      → st.piece_elements ≡ piece_elements_for c.config element_size
      → Addressed st (offset_of c b) (count_of c b)
  in_work st b h e p = record {
    bytes = rw e (block_bytes c count element_size y b h);
    pieces = rw p (y.pieces b h);
  }

  in_temporary :
      (st : Step) (b : ℕ)
      → b < c.world_size
      → st.element_size ≡ element_size
      → st.piece_elements ≡ piece_elements_for c.config element_size
      → Addressed st 0 (count_of c b)
  in_temporary st b h e p = record {
    bytes = rw e (count_bytes c count element_size y b h);
    pieces = rw p (y.pieces b h);
  }

  gather_step-Settles :
      (n : ℕ) (m : Machine T s.Elem)
      → n + 1 < c.world_size
      → Kept m
      → Settles Kept (λ u. Kept) (run_step s ops (gather_step c element_size n) (λ p. pure tt) m)
  gather_step-Settles n m h i =
      run_step-Settles s ops room work_size st (gather_step-Sized c count element_size y n h)
        (in_work st to to-lt refl refl) (in_work st from from-lt refl refl)
        (λ k j. omega (arith, block_inside c count element_size y to to-lt, j.1))
        (omega (arith, block_inside c count element_size y from from-lt)) (λ p. pure tt)
        (λ k request o lt j. j) m i
    where
      st : Step
      st = gather_step c element_size n

      from : ℕ
      from = gather_send_block c.rank c.world_size n

      to : ℕ
      to = gather_recv_block c.rank c.world_size n

      from-lt : from < c.world_size
      from-lt = gathers_sent-lt c count element_size y n h

      to-lt : to < c.world_size
      to-lt = gathers_received-lt c count element_size y n h

  pub gather_steps-Settles :
      (m : Machine T s.Elem)
      → Kept m
      → Settles Kept (λ u. Kept) (gather_steps s ops c element_size m)
  unfolding gather_steps
  gather_steps-Settles m i =
      Settles-for_range Kept (λ k u. Kept)
        (λ number u. run_step s ops (gather_step c element_size number) (λ p. pure tt))
        (c.world_size - 1) 0 (c.world_size - 1) tt m (omega arith)
        (λ k u n lo hi q. gather_step-Settles k n (omega arith) q) i

  module _ (datatype : Datatype) (operation : Operation) (kd : KnownDatatype datatype)
      (ko : KnownOperation operation)
      (largest : (b : ℕ) → b < c.world_size → count_of c b ≤ room) where
    scatter_step-Settles :
        (n : ℕ) (m : Machine T s.Elem)
        → n + 1 < c.world_size
        → Kept m
        → Settles Kept
            (λ u. Kept)
            (run_step s ops
              (scatter_step c element_size n)
              (reduce_piece s ops
                (scatter_step c element_size n)
                datatype
                operation
                (offset_of c (scatter_recv_block c.rank c.world_size n)))
              m)
    scatter_step-Settles n m h i =
        run_step-Settles s ops room work_size st z ta (in_work st from from-lt refl refl)
          (λ k j. omega (arith, largest to to-lt, j.0))
          (omega (arith, block_inside c count element_size y from from-lt))
          (reduce_piece s ops st datatype operation (offset_of c to))
          (λ k request o lt j.
            rw
              (reduce_piece-reduced s ops datatype operation kd ko c element_size n z
                (offset_of c to) ta (in_work st to to-lt refl refl) request k o lt
                (omega (arith, largest to to-lt, j.0))
                (omega (arith, block_inside c count element_size y to to-lt, j.1)))
              j)
          m i
      where
        st : Step
        st = scatter_step c element_size n

        from : ℕ
        from = scatter_send_block c.rank c.world_size n

        to : ℕ
        to = scatter_recv_block c.rank c.world_size n

        from-lt : from < c.world_size
        from-lt = sent-lt c count element_size y n h

        to-lt : to < c.world_size
        to-lt = received-lt c count element_size y n h

        z : Sized st
        z = scatter_step-Sized c count element_size y n h

        ta : Addressed st 0 st.recv_count
        ta = in_temporary st to to-lt refl refl

    pub scatter_steps-Settles :
        (m : Machine T s.Elem)
        → Kept m
        → Settles Kept
            (λ owned n. (owned ≡ owned_block_of c.rank c.world_size) × Kept n)
            (scatter_steps s ops c datatype operation element_size m)
    unfolding scatter_steps
    scatter_steps-Settles m i =
        Settles-bind Kept (for_range (c.world_size - 1) 0 step tt)
          (λ u. pure (owned_block_of c.rank c.world_size)) m (λ u. Kept)
          (λ owned n. (owned ≡ owned_block_of c.rank c.world_size) × Kept n)
          (Settles-for_range Kept (λ k u. Kept) step (c.world_size - 1) 0 (c.world_size - 1) tt m
            (omega arith) (λ k u n lo hi q. scatter_step-Settles k n (omega arith) q) i)
          (λ u n q. (refl, q))
      where
        step : ℕ → Unit {0} → M (Machine T s.Elem) (Unit {0})
        step n u = run_step s ops (scatter_step c element_size n) (
            reduce_piece s ops (scatter_step c element_size n) datatype operation
              (offset_of c (scatter_recv_block c.rank c.world_size n)))
