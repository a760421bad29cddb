-- ===== src/Verbs/Wrappers.antt =====
-- src/verbs_transport.cpp: `implementation_of` and the functions behind the table of operations,
-- which turn an exception into -1.
pub mod Effects
pub mod Received
pub mod Waits
use comm_workshop_final.Prelude.{ℕ, Bool, ◌&&◌, Option, none, some, if◌then◌else◌, List, []}
use comm_workshop_final.Prelude.Int.{ℤ, pos, negsuc}
use comm_workshop_final.Types.{TransferMode}
use comm_workshop_final.Resources.{Event}
use comm_workshop_final.Verbs.{Requests}
use comm_workshop_final.Verbs.Device.{VerbsTransport, destroy_transport}
use comm_workshop_final.Verbs.Polling.{
  Poll, Batch, Polled, polled, thrown, polling, Answered, refused, answered_as, wait_request,
  test_request, progress,
}
use comm_workshop_final.Verbs.Posting.{
  Endpoint, Surroundings, WorkRequest, ControlMessage, Posted, internal_of, post_receive_previous,
  post_send_next,
}

-- The object behind a `pg_transport_t`; both pointers may be null.
abbrev pub implementation_of : Option (Option VerbsTransport) → Option VerbsTransport
implementation_of none = none
implementation_of (some implementation) = implementation

unfoldable pub verbs_rank : Option (Option VerbsTransport) → ℤ
verbs_rank transport = elim (implementation_of transport) [ none ↦ negsuc 0 | some v ↦ v.rank ]

unfoldable pub verbs_size : Option (Option VerbsTransport) → ℤ
verbs_size transport = elim (implementation_of transport) [
  | none ↦ negsuc 0
  | some v ↦ v.world_size
]

-- What a call leaves: its result, the object, `request->internal`, what it stored as `request->id`,
-- the memory regions that it registered and deregistered, the work request that the device accepted and
-- the control message that was written.
pub record Answer : Type 0 where
  pub status : ℤ
  pub transport : Option VerbsTransport
  pub internal : ℕ
  pub stored_id : Option ℕ
  pub events : List Event
  pub work : Option WorkRequest
  pub message : Option ControlMessage

-- The members that the two directions use.
abbrev pub towards_next : VerbsTransport → Endpoint
towards_next v = record {
  connected = v.qp_next_set && v.next_socket_open;
  next_request_id = v.next_request_id;
  requests = v.pending_requests;
}

abbrev pub towards_previous : VerbsTransport → Endpoint
towards_previous v = record {
  connected = v.qp_prev_set && v.previous_socket_open;
  next_request_id = v.next_request_id;
  requests = v.pending_requests;
}

-- No object: nothing is done.
abbrev pub no_object : Option ℕ → Answer
no_object request = record {
  status = negsuc 0;
  transport = none;
  internal = internal_of request;
  stored_id = none;
  events = [];
  work = none;
  message = none;
}

-- The `try` block: 0, or -1 after an exception.
abbrev pub answered : VerbsTransport → Posted → Answer
answered v p = record {
  status = if p.threw then negsuc 0 else pos 0;
  transport = some (record v {
    next_request_id = p.endpoint.next_request_id;
    pending_requests = p.endpoint.requests;
  });
  internal = p.internal;
  stored_id = p.stored_id;
  events = p.events;
  work = p.work;
  message = p.message;
}

module _ (htonl : ℕ → ℕ) where
  unfoldable pub verbs_post_send_next :
      Surroundings → Option (Option VerbsTransport) → ℕ → ℕ → ℕ → TransferMode → Option ℕ → Answer
  verbs_post_send_next w transport buffer bytes tag mode request =
      elim (implementation_of transport) [
        | none ↦ no_object request
        | some v ↦
            answered v (post_send_next htonl w (towards_next v) buffer bytes tag mode request)
      ]

unfoldable pub verbs_post_recv_prev :
    Surroundings → Option (Option VerbsTransport) → ℕ → ℕ → ℕ → TransferMode → Option ℕ → Answer
verbs_post_recv_prev w transport buffer bytes tag mode request =
    elim (implementation_of transport) [
      | none ↦ no_object request
      | some v ↦
          answered v (post_receive_previous w (towards_previous v) buffer bytes tag mode request)
    ]

-- What a call that polls leaves: its result, the object, `request->internal`, what it stored through
-- `completed`, what it released, and the answers of the device that are left.
pub record Reply (P : Type 0) : Type 0 where
  pub status : ℤ
  pub transport : Option VerbsTransport
  pub internal : ℕ
  pub stored : Option Bool
  pub events : List Event
  pub unasked : List P

-- The request is refused, or its wait threw: -1, and `request` is as it was.
abbrev pub unanswered : {P : Type 0} → Option VerbsTransport → Option ℕ → List P → Reply P
unanswered v request polls = record {
  status = negsuc 0;
  transport = v;
  internal = internal_of request;
  stored = none;
  events = [];
  unasked = polls;
}

abbrev pub with_requests : VerbsTransport → Requests → VerbsTransport
with_requests v requests = record v { pending_requests = requests }

-- The `try` blocks; `none` when the call still polls after these answers.
unfoldable pub reply_of_wait :
    VerbsTransport → Option ℕ → List Poll → Answered (ℤ × List Event) Poll → Option (Reply Poll)
reply_of_wait v request polls refused = some (unanswered (some v) request polls)
reply_of_wait v request polls (answered_as (polled (status, events) left rest)) = some (record {
  status = status;
  transport = some (with_requests v left);
  internal = 0;
  stored = none;
  events = events;
  unasked = rest;
})
reply_of_wait v request polls (answered_as (thrown left rest)) =
    some (unanswered (some (with_requests v left)) request rest)
reply_of_wait v request polls (answered_as (polling left)) = none

unfoldable pub reply_of_test :
    VerbsTransport → Option ℕ → List Batch → Answered Bool Batch → Option (Reply Batch)
reply_of_test v request batches refused = some (unanswered (some v) request batches)
reply_of_test v request batches (answered_as (polled completed left rest)) =
    some (record (unanswered (some (with_requests v left)) request rest) {
      status = pos 0;
      stored = some completed;
    })
reply_of_test v request batches (answered_as (thrown left rest)) =
    some (unanswered (some (with_requests v left)) request rest)
reply_of_test v request batches (answered_as (polling left)) = none

unfoldable pub reply_of_progress : VerbsTransport → Polled ℤ Batch → Option (Reply Batch)
reply_of_progress v (polled status left rest) =
    some (record (unanswered (some (with_requests v left)) none rest) { status = status })
reply_of_progress v (thrown left rest) = some (unanswered (some (with_requests v left)) none rest)
reply_of_progress v (polling left) = none

module _ (ntohl : ℕ → ℕ) where
  unfoldable pub verbs_wait :
      Option (Option VerbsTransport) → List Poll → Option ℕ → Option (Reply Poll)
  unfolding reply_of_wait
  verbs_wait transport polls request = elim (implementation_of transport) [
    | none ↦ some (unanswered none request polls)
    | some v ↦
        reply_of_wait v request polls
          (wait_request ntohl (internal_of request) polls v.pending_requests)
  ]

  -- `out`: `completed` is not null.
  unfoldable pub verbs_test :
      Option (Option VerbsTransport) → List Batch → Option ℕ → Bool → Option (Reply Batch)
  unfolding reply_of_test
  verbs_test transport batches request out = elim (implementation_of transport) [
    | none ↦ some (unanswered none request batches)
    | some v ↦
        reply_of_test v request batches
          (test_request ntohl (internal_of request) out batches v.pending_requests)
  ]

  unfoldable pub verbs_progress : Option (Option VerbsTransport) → List Batch → Option (Reply Batch)
  unfolding reply_of_progress
  verbs_progress transport batches = elim (implementation_of transport) [
    | none ↦ some (unanswered none none batches)
    | some v ↦ reply_of_progress v (progress ntohl batches v.pending_requests)
  ]

-- Deleting a null pointer does nothing.
unfoldable pub verbs_destroy : Option (Option VerbsTransport) → List Event
verbs_destroy transport = elim (implementation_of transport) [
  | none ↦ []
  | some v ↦ destroy_transport v
]
