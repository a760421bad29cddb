-- ===== src/Ring/World/Deadlock.antt =====
-- The calls of all ranks in `ring_all_reduce`, side by side, never come to a standstill.
use comm_workshop_final.Prelude.{
  ℕ, ◌+◌, ◌-◌, ◌*◌, ◌%◌, ◌^◌, ◌≤◌, ◌<◌, ◌≡◌, refl, sym, ap, subst, ◌∙◌, List, [], ◌∷◌, Option, none,
  some, All, All-append, arith,
}
use mathlib.Core.List.{Memᴰ}
use mathlib.Core.List.Memᴰ
use comm_workshop_final.Types.{Datatype, Operation}
use comm_workshop_final.Memory.{Buffer, Scalars}
use comm_workshop_final.Reduction.{datatype_size}
use comm_workshop_final.Reduction.Elementwise.{KnownDatatype, KnownOperation}
use comm_workshop_final.Transport.{TransportOps}
use comm_workshop_final.Ring.Machine.{done}
use comm_workshop_final.Ring.Call.Moved.{moved, Callable-moved}
use comm_workshop_final.Pieces.{piece_count_for, piece_elements_for, element_at}
use comm_workshop_final.Transport.Recorded.{Action, recorded}
use comm_workshop_final.Ring.Schedule.Matching.{neighbours_agree}
use comm_workshop_final.Ring.Context.{Context}
use comm_workshop_final.Ring.Step.Program.{step_program}
use comm_workshop_final.Ring.Collectives.{
  SendBuffer, copy_input, ring_all_reduce, count_of, scatter_step, gather_step,
}
use comm_workshop_final.Ring.Phase.Ready.{Ready}
use comm_workshop_final.Ring.Phase.ScatterRun as ScatterRun
use comm_workshop_final.Ring.Phase.GatherRun as GatherRun
use comm_workshop_final.Ring.Phase.Trace.{scatter_program, gather_program}
use comm_workshop_final.Ring.Call.{Callable, laid_out, laid_out-Ready}
use comm_workshop_final.Ring.Call.Trace.{call_program, Makes, ring_all_reduce-Makes}
use comm_workshop_final.Ring.World.{member}
use comm_workshop_final.Ring.World.Interleaving.{Group, Reachable, Stuck, needs}
use comm_workshop_final.Ring.World.Interleaving.Progress.{Served, Rises, Reachable-done}
use comm_workshop_final.Ring.World.Times.{time, call_program-Rises}
use comm_workshop_final.Ring.World.Needs.{Phase, Phase-Served, All-joined, Memᴰ-joined}

All-weaken :
    {A : Type 0} (P Q : A → Type 0) (l : List A) → ((a : A) → P a → Q a) → All P l → All Q l
All-weaken P Q [] h all = tt
All-weaken P Q (a ∷ l) h all = (h a all.0, All-weaken P Q l h all.1)

module _ {T E : Type 0} (c : Context T E) (count element_size : ℕ)
    (ready : (r : ℕ) → r < c.world_size → Ready (member c r) count element_size)
    (p : 0 < c.world_size) where
  abbrev steps : ℕ
  steps = c.world_size - 1

  -- What each rank asks of its transport in a call.
  abbrev pub programs : ℕ → List Action
  programs r = call_program (member c r) element_size

  -- When all calls are past.
  abbrev last_time : ℕ
  last_time = (c.sequence % 2 ^ 12 * 2 ^ 8 + 2 ^ 8) * 2 ^ 14

  scatter-Phase : Phase c.world_size steps programs (λ r. scatter_step (member c r) element_size)
  scatter-Phase = record {
    holds = λ r n a h m.
        Memᴰ.append_left (gather_program (member c r) element_size) (
          Memᴰ-joined a (λ k. step_program (scatter_step (member c r) element_size k)) steps n h m);
    tags = λ r q n k. refl;
    pairs = λ r n h k.
        ap (λ b. piece_count_for (count_of c b) (piece_elements_for c.config element_size))
          (sym ((neighbours_agree r c.world_size n h (omega (arith, k))).0));
    capacity_pos = λ r n. (ready 0 p).capacity_pos;
    capacity_small = λ r n. (ready 0 p).capacity_small;
    few = λ r n h k.
        (ready r h).pieces _
          (ScatterRun.received-lt (member c r) count element_size (ready r h) n (omega (arith, k)));
  }

  gather-Phase : Phase c.world_size steps programs (λ r. gather_step (member c r) element_size)
  gather-Phase = record {
    holds = λ r n a h m.
        Memᴰ.append_right (scatter_program (member c r) element_size)
          (Memᴰ-joined a (λ k. step_program (gather_step (member c r) element_size k)) steps n h m);
    tags = λ r q n k. refl;
    pairs = λ r n h k.
        ap (λ b. piece_count_for (count_of c b) (piece_elements_for c.config element_size))
          (sym ((neighbours_agree r c.world_size n h (omega (arith, k))).1));
    capacity_pos = λ r n. (ready 0 p).capacity_pos;
    capacity_small = λ r n. (ready 0 p).capacity_small;
    few = λ r n h k.
        (ready r h).pieces _
          (GatherRun.received-lt (member c r) count element_size (ready r h) n (omega (arith, k)));
  }

  programs-Rises :
      (r : ℕ) → r < c.world_size → Rises (time c.config.max_inflight) 0 last_time (programs r)
  programs-Rises r h = call_program-Rises (member c r) count element_size (ready r h)

  programs-Served :
      (r : ℕ)
      → r < c.world_size
      → All
          (λ a.
            Served
              (time c.config.max_inflight)
              c.world_size
              last_time
              programs
              (needs c.world_size r a)
              a)
          (programs r)
  programs-Served r h =
      All-append _ (scatter_program (member c r) element_size)
        (gather_program (member c r) element_size)
        (All-joined _ (λ k. step_program (scatter_step (member c r) element_size k)) steps
          (λ n k.
            Phase-Served c.config.max_inflight c.world_size steps programs
              (λ q. scatter_step (member c q) element_size) scatter-Phase r n h k))
        (All-joined _ (λ k. step_program (gather_step (member c r) element_size k)) steps
          (λ n k.
            Phase-Served c.config.max_inflight c.world_size steps programs
              (λ q. gather_step (member c q) element_size) gather-Phase r n h k))

  -- The same for programs that agree with these on the ranks of the group.
  deadlock_free :
      (logs : ℕ → List Action)
      → ((r : ℕ) → r < c.world_size → programs r ≡ logs r)
      → (g : Group) → Reachable c.world_size logs g
      → Stuck c.world_size g
      → (r : ℕ) → r < c.world_size
      → (g r).ahead ≡ []
  deadlock_free logs same g reached stuck =
      Reachable-done (time c.config.max_inflight) c.world_size last_time logs
        (λ r h.
          subst (Rises (time c.config.max_inflight) 0 last_time) (same r h) (programs-Rises r h))
        (λ r h. subst (All (λ a. Needed logs r a)) (same r h) (
          All-weaken _ _ (programs r) (λ a. in_logs (needs c.world_size r a) a)
            (programs-Served r h)))
        g reached stuck
    where
      Needed : (ℕ → List Action) → ℕ → Action → Type 0
      Needed l r a =
          Served (time c.config.max_inflight) c.world_size last_time l (needs c.world_size r a) a

      in_logs :
          (need : Option (ℕ × Action)) (a : Action)
          → Served (time c.config.max_inflight) c.world_size last_time programs need a
          → Served (time c.config.max_inflight) c.world_size last_time logs need a
      in_logs none a ok = tt
      in_logs (some (q, d)) a (lt, there, early) = (lt, subst (Memᴰ d) (same q lt) there, early)

module _ (s : Scalars) {T : Type 0} (datatype : Datatype) (operation : Operation) (count : ℕ)
    (g : Context (T × List Action) s.Elem) (ops : ℕ → TransportOps T s.Elem) (transports : ℕ → T)
    (temporaries work recv : ℕ → Buffer s.Elem) (send : ℕ → SendBuffer s.Elem) where
  -- The context of rank `r`, with a transport that has made no call yet.
  abbrev pub context_of : ℕ → Context (T × List Action) s.Elem
  context_of r = moved s (member g r) (transports r, []) (temporaries r)

  -- The call of rank `r` succeeds and has made the calls in `log`.
  abbrev pub Ran : ℕ → List Action → Type 0
  Ran r log =
      (c : Context (T × List Action) s.Elem) × (out : Buffer s.Elem) × (ring_all_reduce s
          (recorded (ops r)) (some (context_of r)) (send r) (some (recv r)) count datatype operation
        ≡ (done tt, some c, some out))
      × (c.transport.1 ≡ log)

  -- Every rank of a group calls `ring_all_reduce`, with a known datatype and operation, the same
  -- `count` > 0 that fits each buffer, numbers in range (Callable) and inputs that can be copied, over
  -- transports that record their calls, and all calls succeed. Let these recorded posts and waits of
  -- all ranks be gone through in any interleaving, where the post of a send waits for the
  -- next rank's post of the receive, the wait for a receive for the previous rank's post of the send,
  -- and the wait for a send for the next rank's wait for the receive. Then in a state in which no rank
  -- can go on, all ranks are through: the calls never deadlock.
  pub ring_all_reduce-deadlock_free :
      KnownDatatype datatype
      → KnownOperation operation
      → 0 < count
      → 0 < g.world_size
      → ((r : ℕ)
          → r < g.world_size
          → (copy_input s
                (recorded (ops r))
                (send r)
                (recv r)
                (element_at count (datatype_size datatype))
              ≡ some (work r))
            × (count ≤ (work r).size)
            × Callable (context_of r) count (datatype_size datatype))
      → (logs : ℕ → List Action) → ((r : ℕ) → r < g.world_size → Ran r (logs r))
      → (state : Group) → Reachable g.world_size logs state
      → Stuck g.world_size state
      → (r : ℕ) → r < g.world_size
      → (state r).ahead ≡ []
  ring_all_reduce-deadlock_free kd ko some_elements p good logs ran =
      deadlock_free (laid_out g count (datatype_size datatype)) count (datatype_size datatype)
        (λ r h.
          laid_out-Ready (member g r) count (datatype_size datatype)
            (Callable-moved s (context_of r) count ((good r h).2) g.transport g.temporary_buffer))
        p logs
        (λ r h.
          let (c, out, ended, log) = ran r h in
          sym (
            subst (Makes s (ops r) datatype count (context_of r) ((good r h).2)) ended (
              ring_all_reduce-Makes s (ops r) datatype count (context_of r) ((good r h).2) operation
                (work r) (send r) (recv r) ((good r h).0) kd ko some_elements ((good r h).1)))
          ∙ log)
