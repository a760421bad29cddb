-- ===== src/Ring/Phase/Trace.antt =====
-- The calls of a phase, over any transport that records them.
use native.Mathlib.Numerals.{add-one}
use comm_workshop_final.Prelude.{
  ℕ, ◌-◌, ◌<◌, ◌≡◌, refl, sym, ap, ◌∙◌, List, ◌++◌, append_assoc, append-nil, arith,
}
use comm_workshop_final.Types.{Datatype, Operation}
use comm_workshop_final.Memory.{Scalars}
use comm_workshop_final.Transport.{TransportOps}
use comm_workshop_final.Transport.Recorded.{Action, recorded}
use comm_workshop_final.Ring.Machine.{M, pure, for_range}
use comm_workshop_final.Ring.Machine.After.{After, After-bind, After-weaken, After-for_range}
use comm_workshop_final.Ring.Context.{Context}
use comm_workshop_final.Ring.Schedule.{scatter_recv_block}
use comm_workshop_final.Ring.Step.{run_step, reduce_piece}
use comm_workshop_final.Ring.Step.Program.{joined, step_program}
use comm_workshop_final.Ring.Step.Trace.{State, calls}
use comm_workshop_final.Ring.Step.Trace.Whole.{run_step-After, reduce_piece-quiet}
use comm_workshop_final.Ring.Collectives.{
  offset_of, scatter_step, gather_step, scatter_steps, gather_steps,
}
use comm_workshop_final.Ring.Phase.Ready.{Ready, scatter_step-Sized, gather_step-Sized}
use comm_workshop_final.Ring.Phase.ScatterRun as ScatterRun
use comm_workshop_final.Ring.Phase.GatherRun as GatherRun

module _ {T E : Type 0} (c : Context T E) (element_size : ℕ) where
  -- All that a phase asks of its transport: what its steps ask, one after the other.
  abbrev pub scatter_program : List Action
  scatter_program = joined (λ n. step_program (scatter_step c element_size n)) (c.world_size - 1)

  abbrev pub gather_program : List Action
  gather_program = joined (λ n. step_program (gather_step c element_size n)) (c.world_size - 1)

module _ (s : Scalars) {T : Type 0} (ops : TransportOps T s.Elem)
    (c : Context (T × List Action) s.Elem) (count element_size : ℕ)
    (y : Ready c count element_size) where
  -- Steps one after the other.
  steps-After :
      (step : ℕ → Unit {0} → M (State s ops) (Unit {0})) (program : ℕ → List Action) (n : ℕ)
      (m : State s ops)
      → ((k : ℕ) (o : State s ops)
          → k < n
          → After (λ u (p : State s ops). calls s ops p ≡ calls s ops o ++ program k) (step k tt o))
      → After
          (λ u (o : State s ops). calls s ops o ≡ calls s ops m ++ joined program n)
          (for_range n 0 step tt m)
  steps-After step program n m one =
      After-for_range (λ k u (o : State s ops). calls s ops o ≡ calls s ops m ++ joined program k)
        step n 0 n tt m (omega arith)
        (λ k u o lo hi q. After-weaken (step k tt o) _ _ (one k o hi) (λ v p e.
          e
          ∙ ap (λ l. l ++ program k) q
          ∙ append_assoc (calls s ops m) (joined program k) (program k)
          ∙ rw add-one refl))
        (sym (append-nil (calls s ops m)))

  pub scatter_steps-After :
      (datatype : Datatype) (operation : Operation) (m : State s ops)
      → After
          (λ owned (n : State s ops).
            calls s ops n ≡ calls s ops m ++ scatter_program c element_size)
          (scatter_steps s (recorded ops) c datatype operation element_size m)
  unfolding scatter_steps
  scatter_steps-After datatype operation m =
      After-bind (for_range (c.world_size - 1) 0 step tt) (λ u. pure _) m _ _
        (steps-After step (λ n. step_program (scatter_step c element_size n)) (c.world_size - 1) m
          (λ k o h.
            run_step-After s ops (scatter_step c element_size k)
              (scatter_step-Sized c count element_size y k (omega arith))
              (reduce_piece s (recorded ops) (scatter_step c element_size k) datatype operation
                (offset_of c (scatter_recv_block c.rank c.world_size k)))
              (reduce_piece-quiet s ops (scatter_step c element_size k) datatype operation
                (offset_of c (scatter_recv_block c.rank c.world_size k)))
              (y.pieces _ (ScatterRun.received-lt c count element_size y k (omega arith)))
              (y.pieces _ (ScatterRun.sent-lt c count element_size y k (omega arith))) o))
        (λ u n e. e)
    where
      step : ℕ → Unit {0} → M (State s ops) (Unit {0})
      step n u = run_step s (recorded ops) (scatter_step c element_size n) (
          reduce_piece s (recorded ops) (scatter_step c element_size n) datatype operation
            (offset_of c (scatter_recv_block c.rank c.world_size n)))

  pub gather_steps-After :
      (m : State s ops)
      → After
          (λ u (n : State s ops). calls s ops n ≡ calls s ops m ++ gather_program c element_size)
          (gather_steps s (recorded ops) c element_size m)
  unfolding gather_steps
  gather_steps-After m =
      steps-After (λ n u. run_step s (recorded ops) (gather_step c element_size n) (λ p. pure tt))
        (λ n. step_program (gather_step c element_size n)) (c.world_size - 1) m
        (λ k o h.
          run_step-After s ops (gather_step c element_size k)
            (gather_step-Sized c count element_size y k (omega arith)) (λ p. pure tt) (λ p n. refl)
            (y.pieces _ (GatherRun.received-lt c count element_size y k (omega arith)))
            (y.pieces _ (GatherRun.sent-lt c count element_size y k (omega arith))) o)
