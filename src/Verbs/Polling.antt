-- ===== src/Verbs/Polling.antt =====
-- src/verbs_transport.cpp: polling for completions, and waiting for and testing a request. What
-- `ibv_poll_cq` answers is a list, in its order.
pub mod Pending
use comm_workshop_final.Prelude.{
  ℕ, ◌+◌, List, [], ◌∷◌, Bool, true, false, not, ◌||◌, Option, none, some, if◌then◌else◌, ◌==◌,
  length,
}
use comm_workshop_final.Prelude.Int.{ℤ, pos, negsuc}
use comm_workshop_final.Resources.{Event, region, released_if}
use comm_workshop_final.Verbs.{RequestState, Completion, Requests, find, erase, handle_completion}

-- What `ibv_poll_cq` answers when it is asked for one completion.
pub data Poll : Type 0 where
  nothing poll_failed : Poll
  delivered : Completion → Poll

-- What it answers when it is asked for 16.
pub data Batch : Type 0 where
  batch_failed : Batch
  batch : List Completion → Batch

-- How a loop over polls ends: with a value, by an exception, or not with these answers. What it
-- leaves of the requests and of the answers.
pub data Polled (A P : Type 0) : Type 0 where
  polled : A → Requests → List P → Polled A P
  thrown : Requests → List P → Polled A P
  polling : Requests → Polled A P

-- How a call for a request ends: it refuses the request, or as its polls do.
pub data Answered (A P : Type 0) : Type 0 where
  refused : Answered A P
  answered_as : Polled A P → Answered A P

-- The memory region is deregistered, the state is deleted and `request->internal` set to null.
unfoldable pub consume_request : ℕ → RequestState → Requests → Requests × List Event
consume_request key state requests = (erase key requests, released_if state.registered (region key))

-- The state of a request that is completed.
abbrev pub completed_state : Option RequestState → Option RequestState
completed_state none = none
completed_state (some state) = if state.completed then some state else none

-- `state->completed` of a pending request.
abbrev pub is_completed : ℕ → Requests → Bool
is_completed key requests = elim (find key requests) [ none ↦ false | some state ↦ state.completed ]

-- What is stored through `completed`.
unfoldable pub tested : ℕ → Polled ℕ Batch → Polled Bool Batch
tested key (polled n later rest) = polled (is_completed key later) later rest
tested key (thrown later rest) = thrown later rest
tested key (polling later) = polling later

unfoldable pub returned_zero : Polled ℕ Batch → Polled ℤ Batch
returned_zero (polled n later rest) = polled (pos 0) later rest
returned_zero (thrown later rest) = thrown later rest
returned_zero (polling later) = polling later

module _ (ntohl : ℕ → ℕ) where
  unfoldable pub poll_one_blocking : List Poll → Requests → Polled (Unit {0}) Poll
  poll_one_blocking [] requests = polling requests
  poll_one_blocking (nothing ∷ rest) requests = poll_one_blocking rest requests
  poll_one_blocking (poll_failed ∷ rest) requests = thrown requests rest
  poll_one_blocking (delivered c ∷ rest) requests = elim (handle_completion ntohl c requests) [
    | none ↦ thrown requests rest
    | some later ↦ polled tt later rest
  ]

  -- `while (!state->completed) poll_one_blocking();`, then `consume_request`. The value is the
  -- status and what the consumption released. The test and the poll are taken in one step for each
  -- answer: after `nothing` the poll goes on, and the test would find what it found before.
  unfoldable pub wait_loop : ℕ → List Poll → Requests → Polled (ℤ × List Event) Poll
  unfolding consume_request
  wait_loop key [] requests = elim (completed_state (find key requests)) [
    | some state ↦
        let (left, events) = consume_request key state requests in
        polled (state.status, events) left []
    | none ↦ polling requests
  ]
  wait_loop key (p ∷ rest) requests = elim (completed_state (find key requests)) [
    | some state ↦
        let (left, events) = consume_request key state requests in
        polled (state.status, events) left (p ∷ rest)
    | none ↦ elim p [
      | nothing ↦ wait_loop key rest requests
      | poll_failed ↦ thrown requests rest
      | delivered c ↦ elim (handle_completion ntohl c requests) [
        | none ↦ thrown requests rest
        | some later ↦ wait_loop key rest later
      ]
    ]
  ]

  -- `key` is the request's `internal` pointer, 0 if it is null.
  unfoldable pub wait_request : ℕ → List Poll → Requests → Answered (ℤ × List Event) Poll
  unfolding wait_loop
  wait_request key polls requests = if key == 0 then refused else elim (find key requests) [
    | none ↦ refused
    | some state ↦ answered_as (wait_loop key polls requests)
  ]

  -- The completions of one batch, until one of them throws: whether it did.
  unfoldable pub handle_batch : List Completion → Requests → Bool × Requests
  handle_batch [] requests = (false, requests)
  handle_batch (c ∷ rest) requests = elim (handle_completion ntohl c requests) [
    | none ↦ (true, requests)
    | some later ↦ handle_batch rest later
  ]

  -- After a batch that was not empty, with how many there were before.
  unfoldable pub poll_available : ℕ → List Batch → Requests → Polled ℕ Batch
  unfolding handle_batch
  poll_available processed [] requests = polling requests
  poll_available processed (batch_failed ∷ rest) requests = thrown requests rest
  poll_available processed (batch [] ∷ rest) requests = polled processed requests rest
  poll_available processed (batch (c ∷ cs) ∷ rest) requests =
      let (threw, later) = handle_batch (c ∷ cs) requests in
      let more = poll_available (processed + length (c ∷ cs)) rest later in
      if threw then thrown later rest else more

  -- `out`: `completed` is not null. Only for a request that is not completed yet, the queue is
  -- emptied.
  unfoldable pub test_request : ℕ → Bool → List Batch → Requests → Answered Bool Batch
  unfolding poll_available tested
  test_request key out batches requests =
      if key == 0 || not out then refused else elim (find key requests) [
        | none ↦ refused
        | some state ↦ answered_as (
            if state.completed
            then polled true requests batches
            else tested key (poll_available 0 batches requests))
      ]

  unfoldable pub progress : List Batch → Requests → Polled ℤ Batch
  unfolding poll_available returned_zero
  progress batches requests = returned_zero (poll_available 0 batches requests)
