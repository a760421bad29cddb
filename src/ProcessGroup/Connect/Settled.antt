-- ===== src/ProcessGroup/Connect/Settled.antt =====
-- What `connect_process_group` leaves held, whatever the system answers.
use comm_workshop_final.Prelude.{
  ◌≡◌, refl, ap, ◌∙◌, List, [], ◌∷◌, ◌++◌, Bool, true, false, not, ◌||◌, Option, none, some,
  if◌then◌else◌, ◌==◌, leb, Bool-cases, inl, inr, ◌⊎◌, append_assoc,
}
use comm_workshop_final.Prelude.Int.{ℤ, pos, negsuc}
use comm_workshop_final.Types.{Status, success, err_transport}
use comm_workshop_final.Memory.{Scalars}
use comm_workshop_final.Pieces.{Config}
use comm_workshop_final.Transport.{TransportOps}
use comm_workshop_final.Resources.{
  Resource, device, domain, completion_queue, transport_object, queue_next, queue_previous,
  next_socket, previous_socket, Event, released,
}
use comm_workshop_final.Resources.Replay.{replay, replay-append}
use comm_workshop_final.Verbs.Device.{
  VerbsTransport, set_control_sockets, destroy_transport, release_requests,
}
use comm_workshop_final.ProcessGroup.Settings.{collective_config}
use comm_workshop_final.Ring.Context.{create_checked, new_context, ring_collective_create}
use comm_workshop_final.ProcessGroup.{handle_for, ProcessGroupHandle, pg_create_from_transport}
use comm_workshop_final.ProcessGroup.Bootstrap.{Surroundings, delete_transport}
use comm_workshop_final.ProcessGroup.Connect.{
  Result, after, created, configured, controlled, at_barrier,
}

-- Both sockets are held, beside the transport's parts; even ranks have connected first.
abbrev pub parts : List Resource
parts = queue_previous ∷ queue_next ∷ completion_queue ∷ transport_object ∷ domain ∷ device ∷ []

abbrev pub with_sockets : Bool → List Resource
with_sockets even =
    if even then previous_socket ∷ next_socket ∷ parts else next_socket ∷ previous_socket ∷ parts

-- The transport as it is made, with its queue pairs, and with its sockets.
module _ (rank size : ℤ) where
  abbrev pub blank : VerbsTransport
  blank = record {
    rank = rank;
    world_size = size;
    context_set = true;
    pd_set = true;
    cq_set = true;
    qp_next_set = false;
    qp_prev_set = false;
    next_socket_open = false;
    previous_socket_open = false;
    next_request_id = 1;
    pending_requests = [];
  }

  abbrev pub ringed : VerbsTransport
  ringed = record blank { qp_next_set = true; qp_prev_set = true }

  abbrev pub wired : VerbsTransport
  wired = record ringed { next_socket_open = true; previous_socket_open = true }

-- How a call ends: it still waits, it succeeds or it fails.
pub data Ending : Type 0 where
  waits succeeds failed : Ending

abbrev pub ending : Option Status → Ending
ending none = waits
ending (some success) = succeeds
ending (some status) = failed

module _ (s : Scalars) {T : Type 0} (ops : TransportOps T s.Elem)
    (c_transport : VerbsTransport → T) where
  abbrev Handle : Type 0
  Handle = ProcessGroupHandle s ops

  abbrev SettledAs : List Resource → Ending → Option Handle → List Event → Type 0
  SettledAs held waits handle events =
      (handle ≡ none) × (left : List Resource) × (replay (some held) events ≡ some left)
  SettledAs held succeeds none events = ⊥
  SettledAs held succeeds (some handle) events =
      (v : VerbsTransport) × (handle.collectives.transport ≡ c_transport v)
      × (handle.owns_transport ≡ true)
      × (replay (some held) (events ++ delete_transport v) ≡ some [])
  SettledAs held failed handle events = (handle ≡ none) × (replay (some held) events ≡ some [])

  -- How the call may end, from a point where `held` is held. On an error everything has been given
  -- back and there is no handle. On success the handle owns the transport of an object whose
  -- destruction gives back everything. While the call waits, no call so far was a misuse.
  abbrev pub Settled : List Resource → Result s ops c_transport → Type 0
  Settled held (status, handle, events) = SettledAs held (ending status) handle events

  after-SettledAs :
      (held later : List Resource) (before : List Event) (e : Ending) (handle : Option Handle)
      (events : List Event)
      → replay (some held) before ≡ some later
      → SettledAs later e handle events
      → SettledAs held e handle (before ++ events)
  after-SettledAs held later before waits handle events e (no_handle, left, h) =
      (no_handle, left, replay-append (some held) before events ∙ ap (λ x. replay x events) e ∙ h)
  after-SettledAs held later before succeeds none events e h = h
  after-SettledAs held later before succeeds (some handle) events e (v, same, owns, h) = (
    v,
    same,
    owns,
    ap (replay (some held)) (append_assoc before events (delete_transport v))
        ∙ replay-append (some held) before (events ++ delete_transport v)
        ∙ ap (λ x. replay x (events ++ delete_transport v)) e
        ∙ h,
  )
  after-SettledAs held later before failed handle events e (no_handle, h) =
      (no_handle, replay-append (some held) before events ∙ ap (λ x. replay x events) e ∙ h)

  -- Calls before the rest.
  pub after-Settled :
      (held later : List Resource) (before : List Event) (r : Result s ops c_transport)
      → replay (some held) before ≡ some later
      → Settled later r
      → Settled held (after s ops c_transport before r)
  after-Settled held later before (status, handle, events) e h =
      after-SettledAs held later before (ending status) handle events e h

  -- The handle that is made owns the transport that it is made from.
  create_checked-cases :
      (t : T) (config : Config) (rank size : ℤ)
      → ((handle : Handle) × (handle_for s ops true (create_checked s ops t (some config) rank size)
            ≡ (success, some handle))
          × (handle.collectives.transport ≡ t)
          × (handle.owns_transport ≡ true))
        ⊎ (handle_for s ops true (create_checked s ops t (some config) rank size)
            ≡ (err_transport, none))
  unfolding create_checked handle_for new_context
  create_checked-cases t config (pos rank) (pos size) =
      elim (Bool-cases (size == 0 || leb size rank)) [
        | inl bad ↦ inr (rw bad refl)
        | inr fine ↦ inl (
          record {
            collectives = new_context s ops t (some config) rank size;
            owns_transport = true;
          },
          rw fine refl,
          refl,
          refl,
        )
      ]
  create_checked-cases t config (pos rank) (negsuc size) = inr refl
  create_checked-cases t config (negsuc rank) size = inr refl

  module _ (rank size : ℤ) where
    wired-replay :
        (even : Bool)
        → replay (some (with_sockets even)) (delete_transport (wired rank size)) ≡ some []
    unfolding replay destroy_transport release_requests
    wired-replay true = refl
    wired-replay false = refl

    created-Settled :
        (even : Bool) (config : Config)
        → Settled (with_sockets even) (
            created s ops c_transport (wired rank size) (
              pg_create_from_transport s ops
                (some (c_transport (wired rank size)))
                true
                (some config)
                true))
    unfolding created pg_create_from_transport ring_collective_create
    created-Settled even config =
        elim (create_checked-cases (c_transport (wired rank size)) config
          (ops.rank (c_transport (wired rank size))) (ops.size (c_transport (wired rank size)))) [
            | inl (handle, made, same, owns) ↦
                rw made ((wired rank size), same, owns, wired-replay even)
            | inr failed_to ↦ rw failed_to (refl, wired-replay even)
          ]

    module _ {Text : Type 0} (w : Surroundings Text) where
      configured-Settled :
          (even : Bool) (config : Option Config)
          → Settled (with_sockets even) (configured s ops c_transport (wired rank size) config)
      unfolding configured
      configured-Settled even none = (refl, wired-replay even)
      configured-Settled even (some config) = created-Settled even config

      pub hang_up-replay :
          (even : Bool)
          → replay (some (with_sockets even)) (
              released next_socket ∷ released previous_socket ∷ delete_transport (ringed rank size))
            ≡ some []
      unfolding replay destroy_transport release_requests
      hang_up-replay true = refl
      hang_up-replay false = refl

      pub at_barrier-Settled :
          (even : Bool) (went : Option Bool)
          → Settled (with_sockets even) (at_barrier s ops c_transport w (ringed rank size) went)
      unfolding at_barrier controlled set_control_sockets replay
      at_barrier-Settled even none = (refl, _, refl)
      at_barrier-Settled even (some false) = (refl, hang_up-replay even)
      at_barrier-Settled even (some true) =
          elim (Bool-cases (not (w.next_ready == 1) || not (w.previous_ready == 1))) [
            | inl bad ↦ rw bad (refl, hang_up-replay even)
            | inr fine ↦
                rw fine
                  (configured-Settled even (collective_config w.piece_bytes w.inflight w.mode))
          ]
