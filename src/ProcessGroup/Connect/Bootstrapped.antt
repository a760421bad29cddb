-- ===== src/ProcessGroup/Connect/Bootstrapped.antt =====
-- The stages of `connect_process_group` from the sockets on, and those before them.
use comm_workshop_final.Prelude.{
  ℕ, ◌≡◌, refl, ap, ◌∙◌, List, [], ◌∷◌, ◌++◌, Bool, true, false, not, ◌||◌, Option, none, some,
  if◌then◌else◌, Bool-cases, inl, inr, All,
}
use comm_workshop_final.Prelude.Int.{ℤ}
use comm_workshop_final.Memory.{Scalars}
use comm_workshop_final.Transport.{TransportOps}
use comm_workshop_final.Resources.{
  Resource, queue_next, queue_previous, next_socket, previous_socket, listener, Event, acquired,
  used, sent, released, modified, QueueState, initialised, ready_to_receive, ready_to_send,
}
use comm_workshop_final.Resources.Replay.{replay, happen, replay-append, replay-unchanged, holds}
use comm_workshop_final.Verbs.Device.{VerbsTransport, destroy_transport, release_requests}
use comm_workshop_final.ProcessGroup.{transfer_all}
use comm_workshop_final.ProcessGroup.Sockets.{
  Listening, listen_and_accept, Dialling, connect_to_host,
}
use comm_workshop_final.ProcessGroup.Sockets.Attempts.{connect_to_host-replay, with_socket}
use comm_workshop_final.ProcessGroup.QueuePairs.{Transition, transition_qp_to_rts}
use comm_workshop_final.ProcessGroup.Bootstrap.{
  words, Surroundings, Exchange, in_turn, connects_first, exchange, ring_sockets,
}
use comm_workshop_final.ProcessGroup.Connect.{
  Result, local_next, local_previous, hang_up, moved_queues, move_both, met, connected,
}
use comm_workshop_final.ProcessGroup.Connect.Settled.{
  Settled, after-Settled, hang_up-replay, at_barrier-Settled, with_sockets, parts, ringed,
}

-- Reads and writes on resources that are held change nothing.
in_turn-replay :
    (held : List Resource) (l : List (Event × Option Bool))
    → All (λ x. happen held x.0 ≡ some held) l
    → replay (some held) ((in_turn l).1) ≡ some held
unfolding in_turn replay
in_turn-replay held [] h = refl
in_turn-replay held ((call, none) ∷ rest) h = ap (λ x. replay x []) h.0
in_turn-replay held ((call, some false) ∷ rest) h = ap (λ x. replay x []) h.0
in_turn-replay held ((call, some true) ∷ rest) h =
    ap (λ x. replay x ((in_turn rest).1)) h.0 ∙ in_turn-replay held rest h.1

exchange-replay :
    (even : Bool) (bytes : ℕ) (a b : List ℕ) (x : Exchange)
    → replay (some (with_sockets even)) ((exchange bytes a b x).1) ≡ some (with_sockets even)
unfolding exchange
exchange-replay even bytes a b x =
    in_turn-replay (with_sockets even)
      ((sent next_socket a, transfer_all bytes x.write_next)
        ∷ (sent previous_socket b, transfer_all bytes x.write_previous)
        ∷ (used next_socket, transfer_all bytes x.read_next)
        ∷ (used previous_socket, transfer_all bytes x.read_previous)
        ∷ [])
      (writes_next even, (writes_previous even, (reads_next even, (reads_previous even, tt))))
  where
    writes_next :
        (even : Bool) → happen (with_sockets even) (sent next_socket a) ≡ some (with_sockets even)
    writes_next true = refl
    writes_next false = refl

    writes_previous :
        (even : Bool)
        → happen (with_sockets even) (sent previous_socket b) ≡ some (with_sockets even)
    writes_previous true = refl
    writes_previous false = refl

    reads_next :
        (even : Bool) → happen (with_sockets even) (used next_socket) ≡ some (with_sockets even)
    reads_next true = refl
    reads_next false = refl

    reads_previous :
        (even : Bool) → happen (with_sockets even) (used previous_socket) ≡ some (with_sockets even)
    reads_previous true = refl
    reads_previous false = refl

-- The transitions of a queue pair that is held change nothing that is held.
transition_qp_to_rts-replay :
    (held : List Resource) (queue : Resource) (qpn lid : ℕ) (t : Transition)
    → holds queue held ≡ true
    → replay (some held) ((transition_qp_to_rts queue qpn lid t).1) ≡ some held
unfolding transition_qp_to_rts
transition_qp_to_rts-replay held queue qpn lid t h = elim (Bool-cases t.to_init) [
  | inr stopped ↦ rw stopped (replay-unchanged held _ (moves initialised, tt))
  | inl first ↦ elim (Bool-cases t.to_rtr) [
    | inr stopped ↦
        rw (first, stopped)
          (replay-unchanged held _ (moves initialised, (moves (ready_to_receive qpn lid), tt)))
    | inl second ↦
        rw (first, second)
          (replay-unchanged held _
            (moves initialised, (moves (ready_to_receive qpn lid), (moves ready_to_send, tt))))
  ]
]
  where
    moves : (state : QueueState) → happen held (modified queue state) ≡ some held
    moves state = rw h

-- What is held once the two sockets are there, or not.
abbrev pub with_previous : Bool → List Resource → List Resource
with_previous accepted held = if accepted then previous_socket ∷ held else held

abbrev pub sockets_held : Bool → Bool → Bool → List Resource
sockets_held even next previous =
    if even
    then with_previous previous (with_socket next parts)
    else with_socket next (with_previous previous parts)

listen_and_accept-replay :
    (l : Listening) (next : Bool)
    → replay (some (with_socket next parts)) ((listen_and_accept l).1)
      ≡ some (with_previous ((listen_and_accept l).0) (with_socket next parts))
unfolding listen_and_accept replay
listen_and_accept-replay l next = elim (Bool-cases l.creates) [
  | inr closed ↦ rw closed refl
  | inl opened ↦ elim (Bool-cases (not l.binds || not l.listens)) [
    | inl unbound ↦ rw (opened, unbound) (not_bound next)
    | inr bound ↦ elim (Bool-cases l.accepts) [
      | inl accepted ↦ rw (opened, bound, accepted) (accepts_one next)
      | inr refused_one ↦ rw (opened, bound, refused_one) (given_back next)
    ]
  ]
]
  where
    not_bound :
        (next : Bool)
        → replay
            (some (with_socket next parts))
            (acquired listener ∷ used listener ∷ released listener ∷ [])
          ≡ some (with_socket next parts)
    not_bound true = refl
    not_bound false = refl

    given_back :
        (next : Bool)
        → replay
            (some (with_socket next parts))
            (acquired listener ∷ used listener ∷ used listener ∷ released listener ∷ [])
          ≡ some (with_socket next parts)
    given_back true = refl
    given_back false = refl

    accepts_one :
        (next : Bool)
        → replay (some (with_socket next parts)) (
            acquired listener
            ∷ used listener
            ∷ used listener
            ∷ acquired previous_socket
            ∷ released listener
            ∷ [])
          ≡ some (previous_socket ∷ with_socket next parts)
    accepts_one true = refl
    accepts_one false = refl

-- Either order gives both sockets, or those that could be had.
pub ring_sockets-replay :
    (rank : ℕ) (d : Dialling) (l : Listening)
    → let (next, previous, events) = ring_sockets rank (connect_to_host d) (listen_and_accept l) in
      replay (some parts) events ≡ some (sockets_held (connects_first rank) next previous)
unfolding ring_sockets
ring_sockets-replay rank d l = elim (Bool-cases (connects_first rank)) [
  | inl even ↦ rw even (
      replay-append (some parts) ((connect_to_host d).1) ((listen_and_accept l).1)
      ∙ ap (λ x. replay x ((listen_and_accept l).1)) (connect_to_host-replay parts d refl refl)
      ∙ listen_and_accept-replay l ((connect_to_host d).0))
  | inr odd ↦ rw odd (
      replay-append (some parts) ((listen_and_accept l).1) ((connect_to_host d).1)
      ∙ ap (λ x. replay x ((connect_to_host d).1)) (listen_and_accept-replay l false)
      ∙ dials ((listen_and_accept l).0))
]
  where
    dials :
        (previous : Bool)
        → replay (some (with_previous previous parts)) ((connect_to_host d).1)
          ≡ some (with_socket ((connect_to_host d).0) (with_previous previous parts))
    dials true = connect_to_host-replay (with_previous true parts) d refl refl
    dials false = connect_to_host-replay parts d refl refl

module _ (s : Scalars) {T : Type 0} (ops : TransportOps T s.Elem) (c_transport : VerbsTransport → T)
    {Text : Type 0} (w : Surroundings Text) (rank size : ℤ) where
  abbrev v : VerbsTransport
  v = ringed rank size

  abbrev Well : List Resource → Result s ops c_transport → Type 0
  Well = Settled s ops c_transport

  moved_queues-Settled :
      (even next previous : Bool)
      → Well (with_sockets even) (moved_queues s ops c_transport w v next previous)
  unfolding moved_queues
  moved_queues-Settled even true true =
      after-Settled s ops c_transport (with_sockets even) (with_sockets even) _ _
        (exchange-replay even 1 (1 ∷ []) (1 ∷ []) w.barrier)
        (at_barrier-Settled s ops c_transport rank size w even
          ((exchange 1 (1 ∷ []) (1 ∷ []) w.barrier).0))
  moved_queues-Settled even true false = (refl, hang_up-replay s ops c_transport rank size w even)
  moved_queues-Settled even false previous =
      (refl, hang_up-replay s ops c_transport rank size w even)

  move_both-Settled :
      (even : Bool) (first second : Bool × List Event)
      → replay (some (with_sockets even)) first.1 ≡ some (with_sockets even)
      → replay (some (with_sockets even)) second.1 ≡ some (with_sockets even)
      → Well (with_sockets even) (move_both s ops c_transport w v first second)
  unfolding move_both
  move_both-Settled even (false, events) second h k =
      after-Settled s ops c_transport (with_sockets even) (with_sockets even) events
        (hang_up s ops c_transport w v) h (refl, hang_up-replay s ops c_transport rank size w even)
  move_both-Settled even (true, events) (previous, more) h k =
      after-Settled s ops c_transport (with_sockets even) (with_sockets even) (events ++ more) _
        (replay-append (some (with_sockets even)) events more ∙ ap (λ x. replay x more) h ∙ k)
        (moved_queues-Settled even true previous)

  met-Settled :
      (even : Bool) (went : Option Bool) → Well (with_sockets even) (met s ops c_transport w v went)
  unfolding met replay
  met-Settled even none = (refl, _, refl)
  met-Settled even (some false) = (refl, hang_up-replay s ops c_transport rank size w even)
  met-Settled even (some true) =
      move_both-Settled even _ _
        (transition_qp_to_rts-replay (with_sockets even) queue_next w.remote_next.qpn
          w.remote_next.lid w.move_next (has_next even))
        (transition_qp_to_rts-replay (with_sockets even) queue_previous w.remote_previous.qpn
          w.remote_previous.lid w.move_previous (has_previous even))
    where
      has_next : (even : Bool) → holds queue_next (with_sockets even) ≡ true
      has_next true = refl
      has_next false = refl

      has_previous : (even : Bool) → holds queue_previous (with_sockets even) ≡ true
      has_previous true = refl
      has_previous false = refl

  pub connected-Settled :
      (even next previous : Bool)
      → Well (sockets_held even next previous) (connected s ops c_transport w v next previous)
  unfolding connected replay destroy_transport release_requests
  connected-Settled even true true =
      after-Settled s ops c_transport (with_sockets even) (with_sockets even) _ _
        (exchange-replay even 8 (words (local_next s ops c_transport w))
          (words (local_previous s ops c_transport w)) w.metadata)
        (met-Settled even (
          (exchange 8 (words (local_next s ops c_transport w))
            (words (local_previous s ops c_transport w)) w.metadata).0))
  connected-Settled true true false = (refl, refl)
  connected-Settled false true false = (refl, refl)
  connected-Settled true false true = (refl, refl)
  connected-Settled false false true = (refl, refl)
  connected-Settled true false false = (refl, refl)
  connected-Settled false false false = (refl, refl)
