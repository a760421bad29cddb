-- ===== src/Ring/World/Pairing.antt =====
-- The calls of two neighbours in the ring: what one transport is asked to send and the other to
-- receive.
use comm_workshop_final.Prelude.{ℕ, ◌-◌, ◌≤◌, ◌<◌, ◌≡◌, ap, ap₂, ◌∙◌, List, [], ◌++◌, map, some}
use comm_workshop_final.Types.{Datatype, Operation}
use comm_workshop_final.Memory.{Buffer, Scalars}
use comm_workshop_final.Reduction.{datatype_size}
use comm_workshop_final.Reduction.Elementwise.{KnownDatatype, KnownOperation}
use comm_workshop_final.Pieces.{element_at}
use comm_workshop_final.Transport.{TransportOps}
use comm_workshop_final.Transport.Reliable.{Message, Descriptor, Reliable, extend}
use comm_workshop_final.Ring.Schedule.Blocks.{back-lt}
use comm_workshop_final.Ring.Machine.{done}
use comm_workshop_final.Ring.Context.{Context}
use comm_workshop_final.Ring.Collectives.{SendBuffer, copy_input, ring_all_reduce}
use comm_workshop_final.Ring.Phase.ScatterRun.{scatter_work, scatter_sent, scatter_expected}
use comm_workshop_final.Ring.Phase.GatherRun.{gather_sent, gather_expected}
use comm_workshop_final.Ring.Call.{Callable, laid_out}
use comm_workshop_final.Ring.Call.Moved.{
  moved, scatter_work-moved, scatter_sent-moved, scatter_expected-moved, gather_sent-moved,
  gather_expected-moved,
}
use comm_workshop_final.Ring.Call.AllReduce.{ring_all_reduce-runs}
use comm_workshop_final.Ring.World.{member, previous_rank, scattered, all_sent}
use comm_workshop_final.Ring.World.Descriptors.{describe, all_sent-describe}

module _ (s : Scalars) {T : Type 0} (datatype : Datatype) (operation : Operation) (count : ℕ)
    (g : Context T s.Elem) (inbox : ℕ → ℕ → ℕ → s.Elem) (work : ℕ → Buffer s.Elem) where
  abbrev element_size : ℕ
  element_size = datatype_size datatype

  abbrev group : Context T s.Elem
  group = laid_out g count element_size

  abbrev steps : ℕ
  steps = g.world_size - 1

  -- All receives that rank `r` posts in a call.
  abbrev all_expected : ℕ → List Descriptor
  all_expected r =
      scatter_expected s datatype operation (member group r) element_size (inbox r) (work r) steps
      ++ gather_expected s (member group r) element_size (inbox r)
          (scattered s datatype operation group element_size inbox work r steps) steps

  -- Neither depends on the rank's transport and its temporary buffer.
  module _ (r : ℕ) (t : T) (b : Buffer s.Elem) where
    abbrev final : Context T s.Elem
    final = moved s (member group r) t b

    abbrev reduced_work : Buffer s.Elem
    reduced_work = scatter_work s datatype operation final element_size (inbox r) (work r) steps

    same_work : reduced_work ≡ scattered s datatype operation group element_size inbox work r steps
    same_work =
        scatter_work-moved s datatype operation (member group r) element_size (inbox r) (work r) t b
          steps

    all_sent-moved :
        scatter_sent s datatype operation final element_size (inbox r) (work r) steps
          ++ gather_sent s final element_size (inbox r) reduced_work steps
        ≡ all_sent s datatype operation group element_size inbox work r
    all_sent-moved =
        ap₂ ◌++◌
          (scatter_sent-moved s datatype operation (member group r) element_size (inbox r) (work r)
            t b steps)
          (gather_sent-moved s datatype operation (member group r) element_size (inbox r)
              reduced_work t b steps
            ∙ ap (λ w. gather_sent s (member group r) element_size (inbox r) w steps) same_work)

    all_expected-moved :
        scatter_expected s datatype operation final element_size (inbox r) (work r) steps
          ++ gather_expected s final element_size (inbox r) reduced_work steps
        ≡ all_expected r
    all_expected-moved =
        ap₂ ◌++◌
          (scatter_expected-moved s datatype operation (member group r) element_size (inbox r)
            (work r) t b steps)
          (gather_expected-moved s datatype operation (member group r) element_size (inbox r)
              reduced_work t b steps
            ∙ ap (λ w. gather_expected s (member group r) element_size (inbox r) w steps) same_work)

  module _ (ops : ℕ → TransportOps T s.Elem) (transports : ℕ → T) (temporaries : ℕ → Buffer s.Elem)
      (send : ℕ → SendBuffer s.Elem) (recv : ℕ → Buffer s.Elem) (kd : KnownDatatype datatype)
      (ko : KnownOperation operation) (some_elements : 0 < count)
      (good : (r : ℕ)
        → r < g.world_size
        → (copy_input s (ops r) (send r) (recv r) (element_at count element_size) ≡ some (work r))
          × (count ≤ (work r).size)
          × Callable (moved s (member g r) (transports r) (temporaries r)) count element_size)
      (rel : (r : ℕ) → Reliable (ops r) g.config.transfer_mode (inbox r))
      (closed : (r : ℕ) → r < g.world_size → ((rel r).view (transports r)).pending ≡ []) where
    -- The call of rank `r` succeeds, and it has asked its transport for these messages and receives, in
    -- their order, and has left no request open.
    abbrev pub Asks : ℕ → List (Message s.Elem) → List Descriptor → Type 0
    Asks r messages descriptors =
        (c : Context T s.Elem) × (out : Buffer s.Elem) × (ring_all_reduce s (ops r)
            (some (moved s (member g r) (transports r) (temporaries r))) (send r) (some (recv r))
            count datatype operation
          ≡ (done tt, some c, some out))
        × ((rel r).view c.transport ≡ extend ((rel r).view (transports r)) messages descriptors)

    ring_all_reduce-Asks :
        (r : ℕ)
        → r < g.world_size
        → Asks r (all_sent s datatype operation group element_size inbox work r) (all_expected r)
    ring_all_reduce-Asks r h =
        let context = moved s (member g r) (transports r) (temporaries r) in
        let (t, b, ran, seen) =
          ring_all_reduce-runs s (ops r) context datatype operation count (inbox r) (work r)
            (send r) (recv r) ((good r h).0) kd ko some_elements ((good r h).1) ((good r h).2)
            (rel r) (closed r h) in
        (
          _,
          _,
          ran,
          seen
              ∙ ap₂ (extend ((rel r).view (transports r)))
                  (all_sent-moved r (transports r) (temporaries r))
                  (all_expected-moved r (transports r) (temporaries r)),
        )

    -- Under the conditions of a call that holds for every rank of a group (a known datatype and
    -- operation, `count` > 0 that fits each buffer, numbers in range, inputs that can be copied, and
    -- a transport that keeps its contract and has no open request): the calls of a rank and of the
    -- one before it in the ring succeed, and the tags and bytes of all messages that the call of the
    -- previous rank gives to its transport are those of all receives that the call of this rank
    -- posts on its own, in the same order.
    pub ring_all_reduce-describe :
        (r : ℕ)
        → r < g.world_size
        → (messages others : List (Message s.Elem)) × (descriptors receives : List Descriptor)
          × Asks (previous_rank r g.world_size) messages descriptors
          × Asks r others receives
          × (map describe messages ≡ receives)
    ring_all_reduce-describe r h = (
      _,
      _,
      _,
      _,
      ring_all_reduce-Asks (previous_rank r g.world_size) (back-lt r g.world_size h 1),
      ring_all_reduce-Asks r h,
      all_sent-describe s datatype operation group element_size inbox work r h,
    )
