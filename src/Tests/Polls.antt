-- ===== src/Tests/Polls.antt =====
-- Polling for two pending requests.
use comm_workshop_final.Prelude.{ℕ, ◌≡◌, refl, List, [], ◌∷◌, true, false, some, arith}
use comm_workshop_final.Prelude.Int.{ℤ, pos}
use comm_workshop_final.Types.{eager}
use comm_workshop_final.Resources.{Event}
use comm_workshop_final.Verbs.{RequestState, send, Completion, wc_send, Requests}
use comm_workshop_final.Verbs.Polling.{
  Poll, nothing, delivered, Batch, batch, Polled, answered_as, wait_request, test_request,
}
use comm_workshop_final.Verbs.Polling.Pending.{Tests, test_request-Tests}
use comm_workshop_final.Verbs.Waiting.{Finishes, wait_request-Finishes}
use comm_workshop_final.Verbs.Device.{VerbsTransport}
use comm_workshop_final.Verbs.Wrappers.{verbs_wait}
use comm_workshop_final.Verbs.Wrappers.Waits.{Waits, verbs_wait-Waits}

-- Two pending requests, and their completions in the other order.
abbrev state_of : ℕ → RequestState
state_of tag = record {
  kind = send;
  id = tag;
  tag = tag;
  mode = eager;
  registered = true;
  completed = false;
  status = pos 0;
}

abbrev sent_completion : ℕ → Completion
sent_completion key = record {
  wr_id = key;
  success = true;
  opcode = wc_send;
  with_imm = false;
  imm_data = 0;
}

abbrev two_requests : Requests
two_requests = (8, state_of 1) ∷ (9, state_of 2) ∷ []

abbrev polls : List Poll
polls = nothing ∷ delivered (sent_completion 9) ∷ delivered (sent_completion 8) ∷ []

wait_request-Finishes_example :
    (outcome : Polled (ℤ × List Event) Poll) × (wait_request (λ n. n) 8 polls two_requests
      ≡ answered_as outcome)
    × Finishes
        (λ n. n)
        8
        (nothing ∷ delivered (sent_completion 9) ∷ [])
        (sent_completion 8)
        []
        two_requests
        (state_of 1)
        outcome
wait_request-Finishes_example =
    wait_request-Finishes (λ n. n) 8 (nothing ∷ delivered (sent_completion 9) ∷ [])
      (sent_completion 8) [] two_requests (state_of 1) (λ e. absurd (omega (arith, e))) refl refl
      ((λ e. absurd (omega (arith, e))), (λ e. absurd (omega (arith, e))), (state_of 2, refl), tt)
      refl

abbrev batches : List Batch
batches = batch (sent_completion 9 ∷ sent_completion 8 ∷ []) ∷ batch [] ∷ []

test_request-Tests_example :
    Tests 8 two_requests (test_request (λ n. n) 8 true batches two_requests)
test_request-Tests_example = test_request-Tests (λ n. n) 8 true batches two_requests

abbrev rank_one : VerbsTransport
rank_one = record {
  rank = pos 1;
  world_size = pos 4;
  context_set = true;
  pd_set = true;
  cq_set = true;
  qp_next_set = true;
  qp_prev_set = true;
  next_socket_open = true;
  previous_socket_open = true;
  next_request_id = 3;
  pending_requests = two_requests;
}

verbs_wait-Waits_example :
    Waits rank_one (some 8) (verbs_wait (λ n. n) (some (some rank_one)) polls (some 8))
verbs_wait-Waits_example = verbs_wait-Waits (λ n. n) rank_one polls (some 8)
