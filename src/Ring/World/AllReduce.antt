-- ===== src/Ring/World/AllReduce.antt =====
-- `ring_all_reduce` on every rank of a group.
use comm_workshop_final.Prelude.{ℕ, ◌+◌, ◌-◌, ◌^◌, ◌≤◌, ◌<◌, ◌≡◌, ap, ◌∙◌, [], some, arith}
use comm_workshop_final.Types.{Datatype, Operation}
use comm_workshop_final.Memory.{Buffer, Scalars}
use comm_workshop_final.Reduction.{datatype_size}
use comm_workshop_final.Reduction.Elementwise.{KnownDatatype, KnownOperation}
use comm_workshop_final.BlockLayout.Partition.{compute_block_layout-covers}
use comm_workshop_final.Pieces.{element_at}
use comm_workshop_final.Transport.{TransportOps}
use comm_workshop_final.Transport.Reliable.{Reliable}
use comm_workshop_final.Ring.Schedule.Blocks.{back-lt}
use comm_workshop_final.Ring.Machine.{done}
use comm_workshop_final.Ring.Context.{Context}
use comm_workshop_final.Ring.Collectives.{SendBuffer, copy_input, ring_all_reduce, offset_of}
use comm_workshop_final.Ring.Step.Setup.{le-times}
use comm_workshop_final.Ring.Phase.Ready.{Ready}
use comm_workshop_final.Ring.Phase.ScatterRun.{scatter_work, scatter_work-size}
use comm_workshop_final.Ring.Phase.GatherRun.{gather_work, gather_work-size}
use comm_workshop_final.Ring.Call.{Callable, laid_out, laid_out-Ready}
use comm_workshop_final.Ring.Call.Moved.{
  moved, scatter_work-moved, gather_work-moved, Callable-moved,
}
use comm_workshop_final.Ring.Call.AllReduce.{ring_all_reduce-runs}
use comm_workshop_final.Ring.World.{member, previous_rank, Wired, scattered, gathered, chain}
use comm_workshop_final.Ring.World.Fold.{over_ranks, Commutes, chain-over_ranks}
use comm_workshop_final.Ring.World.Gather.{gathered-result_all, gathered-outside}

module _ (s : Scalars) {T : Type 0} (datatype : Datatype) (operation : Operation) (count : ℕ)
    (g : Context T s.Elem) (inbox : ℕ → ℕ → ℕ → s.Elem) (work : ℕ → Buffer s.Elem) where
  abbrev element_size : ℕ
  element_size = datatype_size datatype

  -- The context of the group once its layout is set.
  abbrev pub group : Context T s.Elem
  group = laid_out g count element_size

  -- What rank `r` has in its buffer after the call.
  abbrev pub outcome : ℕ → Buffer s.Elem
  outcome r = gathered s datatype operation group element_size inbox work r (g.world_size - 1)

  module _ (y : (r : ℕ) → r < g.world_size → Callable (member g r) count element_size) where
    ready : (r : ℕ) → r < g.world_size → Ready (member group r) count element_size
    ready r h = laid_out-Ready (member g r) count element_size (y r h)

    count_small : (r : ℕ) → r < g.world_size → count < 2 ^ 63
    count_small r h = omega (arith, (y r h).bytes, le-times count element_size (y r h).element_pos)

    -- All ranks end with the same element at each index: that of one of the ranks, combined with
    -- those of all the others.
    outcome-chain :
        Wired s datatype operation group element_size inbox work
        → 0 < g.world_size
        → (i : ℕ) → i < count
        → (q : ℕ) × (q < g.world_size)
          × ((r : ℕ)
              → r < g.world_size
              → (outcome r).at i
                ≡ chain s datatype operation g.world_size work q (g.world_size - 1) i)
    outcome-chain wired p i lt =
        let (b, below, inside, only) =
          compute_block_layout-covers count g.world_size i g.layout p
            (omega (arith, count_small 0 p)) lt in
        (
          previous_rank b g.world_size,
          back-lt b g.world_size below 1,
          λ r h.
              let here : offset_of group b + (i - offset_of group b) ≡ i = omega (arith, inside) in
              rw here at (
                gathered-result_all s datatype operation group count element_size ready inbox work
                  wired r b h below (i - offset_of group b) (omega (arith, inside))),
        )

    outcome-outside :
        Wired s datatype operation group element_size inbox work
        → (r i : ℕ) → r < g.world_size
        → count ≤ i
        → (outcome r).at i ≡ (work r).at i
    outcome-outside wired r i h out =
        gathered-outside s datatype operation group count element_size ready inbox work wired
          (g.world_size - 1) r i h (omega arith) out

  outcome-size : (r : ℕ) → (outcome r).size ≡ (work r).size
  outcome-size r =
      gather_work-size s (member group r) element_size (inbox r)
        (scattered s datatype operation group element_size inbox work r (g.world_size - 1))
        (g.world_size - 1)
      ∙ scatter_work-size s datatype operation (member group r) element_size (inbox r) (work r)
          (g.world_size - 1)

  -- The context of rank `r` before the call.
  abbrev pub rank_context : (ℕ → T) → (ℕ → Buffer s.Elem) → ℕ → Context T s.Elem
  rank_context transports temporaries r = moved s (member g r) (transports r) (temporaries r)

  -- The steps do not look at the transport, so the buffer is that of the group.
  outcome-moved :
      (r : ℕ) (t : T) (b : Buffer s.Elem)
      → let final = moved s (member group r) t b in
        gather_work s final element_size
          (inbox r)
          (scatter_work s datatype operation final element_size
            (inbox r)
            (work r)
            (g.world_size - 1))
          (g.world_size - 1)
        ≡ outcome r
  outcome-moved r t b =
      gather_work-moved s datatype operation (member group r) element_size (inbox r)
        (scatter_work s datatype operation (moved s (member group r) t b) element_size (inbox r)
          (work r) (g.world_size - 1))
        t b (g.world_size - 1)
      ∙ ap (λ w. gather_work s (member group r) element_size (inbox r) w (g.world_size - 1))
          (scatter_work-moved s datatype operation (member group r) element_size (inbox r) (work r)
            t b (g.world_size - 1))

  module _ (ops : ℕ → TransportOps T s.Elem) (transports : ℕ → T) (temporaries : ℕ → Buffer s.Elem)
      (send : ℕ → SendBuffer s.Elem) (recv : ℕ → Buffer s.Elem) (kd : KnownDatatype datatype)
      (ko : KnownOperation operation) (p : 0 < g.world_size) (some_elements : 0 < count)
      (good : (r : ℕ)
        → r < g.world_size
        → (copy_input s (ops r) (send r) (recv r) (element_at count element_size) ≡ some (work r))
          × (count ≤ (work r).size)
          × Callable (rank_context transports temporaries r) count element_size)
      (rel : (r : ℕ) → Reliable (ops r) g.config.transfer_mode (inbox r))
      (closed : (r : ℕ) → r < g.world_size → ((rel r).view (transports r)).pending ≡ [])
      (wired : Wired s datatype operation group element_size inbox work) where
    callable : (r : ℕ) → r < g.world_size → Callable (member g r) count element_size
    callable r h =
        Callable-moved s (rank_context transports temporaries r) count ((good r h).2) g.transport
          g.temporary_buffer

    -- The call of rank `r`, which ends well with `out` in its buffer.
    abbrev pub Ends : Buffer s.Elem → ℕ → Type 0
    Ends out r =
        (c : Context T s.Elem) × (ring_all_reduce s (ops r)
            (some (rank_context transports temporaries r)) (send r) (some (recv r)) count datatype
            operation
          ≡ (done tt, some c, some out))

    call-Ends : (r : ℕ) → r < g.world_size → Ends (outcome r) r
    call-Ends r h =
        let (t, b, ran, seen) =
          ring_all_reduce-runs s (ops r) (rank_context transports temporaries r) datatype operation
            count (inbox r) (work r) (send r) (recv r) ((good r h).0) kd ko some_elements
            ((good r h).1) ((good r h).2) (rel r) (closed r h) in
        (_, rw (outcome-moved r (transports r) (temporaries r)) at ran)

    -- Every rank of a group calls `ring_all_reduce`, with a known datatype and operation, the same
    -- `count` > 0 that fits each buffer, numbers in range (Callable), inputs that can be copied, and
    -- a transport that keeps its contract, has no open request and delivers the messages of the
    -- previous rank. Then every call succeeds, the elements from `count` on are as before, and at
    -- each index below `count` all ranks hold one and the same element: the elements of all ranks
    -- combined, in the order of the ring, beginning with some rank.
    pub ring_all_reduce-agrees :
        (out : ℕ → Buffer s.Elem) × ((r : ℕ)
          → r < g.world_size
          → Ends (out r) r
            × ((out r).size ≡ (work r).size)
            × ((i : ℕ) → count ≤ i → (out r).at i ≡ (work r).at i))
        × ((i : ℕ)
            → i < count
            → (q : ℕ) × (q < g.world_size)
              × ((r : ℕ)
                  → r < g.world_size
                  → (out r).at i
                    ≡ chain s datatype operation g.world_size work q (g.world_size - 1) i))
    ring_all_reduce-agrees = (
      outcome,
      (λ r h. (call-Ends r h, outcome-size r, λ i. outcome-outside callable wired r i h)),
      outcome-chain callable wired p,
    )

    -- Under the same conditions, if the grouping and the order of a combination do not matter, every
    -- rank ends with the elements of ranks 0, 1, …, combined, at each index below `count`.
    pub ring_all_reduce-over_ranks :
        Commutes s datatype operation
        → (r : ℕ) → r < g.world_size
        → (out : Buffer s.Elem) × Ends out r
          × ((i : ℕ)
              → i < count
              → out.at i ≡ over_ranks s datatype operation work (g.world_size - 1) i)
    ring_all_reduce-over_ranks laws r h = (
      outcome r,
      call-Ends r h,
      λ i lt.
          let (q, below, all) = outcome-chain callable wired p i lt in
          all r h ∙ chain-over_ranks s datatype operation laws g.world_size work i q below,
    )
