-- ===== src/Verbs/Wrappers/Waits.antt =====
-- How `verbs_wait` and `verbs_test` end, whatever the device answers.
use comm_workshop_final.Prelude.{
  ℕ, List, [], ◌∷◌, true, Option, none, some, ◌==◌, ◌≡◌, refl, ◌∙◌, ap, Bool-cases, Option-cases,
  inl, inr, ◌⊎◌,
}
use comm_workshop_final.Prelude.Int.{ℤ, negsuc}
use comm_workshop_final.Resources.{Event, region, released_if}
use comm_workshop_final.Verbs.{RequestState, Requests, find, erase, handle_completion}
use comm_workshop_final.Verbs.Device.{VerbsTransport}
use comm_workshop_final.Verbs.Polling.{
  consume_request, Poll, nothing, poll_failed, delivered, Polled, polled, thrown, polling,
  answered_as, completed_state, wait_loop, wait_request,
}
use comm_workshop_final.Verbs.Posting.{internal_of}
use comm_workshop_final.Verbs.Wrappers.{Reply, unanswered, with_requests, reply_of_wait, verbs_wait}
use comm_workshop_final.Verbs.Polling.Pending.{
  Progressed, Progressed-refl, Progressed-trans, handle_completion-Progressed,
}

-- What a wait may leave: after an exception, and while it polls, all requests are pending; while it
-- polls, its own is not completed. When it returns, its own was completed, and is consumed.
abbrev pub Ends : ℕ → Requests → Polled (ℤ × List Event) Poll → Type 0
Ends key requests (polled (status, events) left rest) =
    (later : Requests) × (state : RequestState) × Progressed requests later
    × (find key later ≡ some state)
    × (state.completed ≡ true)
    × (status ≡ state.status)
    × (events ≡ released_if state.registered (region key))
    × (left ≡ erase key later)
Ends key requests (thrown left rest) = Progressed requests left
Ends key requests (polling left) =
    Progressed requests left × (completed_state (find key left) ≡ none)

Ends-later :
    (key : ℕ) (requests later : Requests) (p : Polled (ℤ × List Event) Poll)
    → Progressed requests later
    → Ends key later p
    → Ends key requests p
Ends-later key requests later (polled (status, events) left rest) h
      (more, state, g, a, b, c, d, e) =
    (more, state, Progressed-trans requests later more h g, a, b, c, d, e)
Ends-later key requests later (thrown left rest) h g = Progressed-trans requests later left h g
Ends-later key requests later (polling left) h (g, busy) =
    (Progressed-trans requests later left h g, busy)

completed_state-cases :
    (key : ℕ) (requests : Requests)
    → (completed_state (find key requests) ≡ none)
      ⊎ ((state : RequestState) × (completed_state (find key requests) ≡ some state)
          × (find key requests ≡ some state)
          × (state.completed ≡ true))
completed_state-cases key requests = elim (Option-cases (find key requests)) [
  | inl unknown ↦ inl (ap completed_state unknown)
  | inr (state, here) ↦ elim (Bool-cases state.completed) [
    | inl done ↦ inr (state, ap completed_state here ∙ rw done refl, here, done)
    | inr busy ↦ inl (ap completed_state here ∙ rw busy refl)
  ]
]

-- How `verbs_wait` may end.
abbrev pub Waits : VerbsTransport → Option ℕ → Option (Reply Poll) → Type 0
Waits v request none = Unit {0}
Waits v request (some reply) =
    ((reply.status ≡ negsuc 0)
      × (reply.internal ≡ internal_of request)
      × (reply.events ≡ [])
      × ((left : Requests) × (reply.transport ≡ some (with_requests v left))
          × Progressed v.pending_requests left))
    ⊎ ((reply.internal ≡ 0)
        × ((later : Requests) × (state : RequestState) × (reply.transport
              ≡ some (with_requests v (erase (internal_of request) later)))
            × Progressed v.pending_requests later
            × (find (internal_of request) later ≡ some state)
            × (state.completed ≡ true)
            × (reply.status ≡ state.status)
            × (reply.events ≡ released_if state.registered (region (internal_of request)))))

reply_of_wait-Waits :
    (v : VerbsTransport) (request : Option ℕ) (polls : List Poll) (p : Polled (ℤ × List Event) Poll)
    → Ends (internal_of request) v.pending_requests p
    → Waits v request (reply_of_wait v request polls (answered_as p))
unfolding reply_of_wait
reply_of_wait-Waits v request polls (polled (status, events) left rest)
      (later, state, kept, here, done, same, freed, erased) =
    inr (
      refl,
      (later, state, ap (λ r. some (with_requests v r)) erased, kept, here, done, same, freed),
    )
reply_of_wait-Waits v request polls (thrown left rest) kept =
    inl (refl, refl, refl, (left, refl, kept))
reply_of_wait-Waits v request polls (polling left) kept = tt

module _ (ntohl : ℕ → ℕ) where
  wait_loop-Ends :
      (key : ℕ) (ps : List Poll) (requests : Requests)
      → Ends key requests (wait_loop ntohl key ps requests)
  unfolding wait_loop consume_request
  wait_loop-Ends key [] requests = elim (completed_state-cases key requests) [
    | inl busy ↦ rw (wait_loop, busy) (Progressed-refl requests, busy)
    | inr (state, ready, here, done) ↦
        rw (wait_loop, ready)
          (requests, state, Progressed-refl requests, here, done, refl, refl, refl)
  ]
  wait_loop-Ends key (p ∷ ps) requests = elim (completed_state-cases key requests) [
    | inl busy ↦
        rw (wait_loop, busy)
          (elim p
            as (λ p. Ends key requests (elim p [
              | nothing ↦ wait_loop ntohl key ps requests
              | poll_failed ↦ thrown requests ps
              | delivered c ↦ elim (handle_completion ntohl c requests) [
                | none ↦ thrown requests ps
                | some later ↦ wait_loop ntohl key ps later
              ]
            ])) [
              | nothing ↦ wait_loop-Ends key ps requests
              | poll_failed ↦ Progressed-refl requests
              | delivered c ↦ elim (Option-cases (handle_completion ntohl c requests)) [
                | inl threw ↦ rw threw (Progressed-refl requests)
                | inr (later, handled) ↦ rw handled (
                    Ends-later key requests later (wait_loop ntohl key ps later)
                      (handle_completion-Progressed ntohl c requests later handled)
                      (wait_loop-Ends key ps later))
              ]
            ])
    | inr (state, ready, here, done) ↦
        rw (wait_loop, ready)
          (requests, state, Progressed-refl requests, here, done, refl, refl, refl)
  ]

  -- Whatever the device answers, `verbs_wait` on an existing transport, when it returns, ends in one of
  -- two ways. Either its result is -1, `request` still points to its state, nothing is released, and
  -- every pending request is still pending, with at most its status and its completion changed. Or
  -- the requests changed in that way until the one that is waited for was completed; its status is
  -- the result, its memory region is deregistered if it had one, it alone is no longer pending, and
  -- `request` points to nothing.
  pub verbs_wait-Waits :
      (v : VerbsTransport) (polls : List Poll) (request : Option ℕ)
      → Waits v request (verbs_wait ntohl (some (some v)) polls request)
  unfolding verbs_wait wait_request reply_of_wait
  verbs_wait-Waits v polls request = elim (Bool-cases (internal_of request == 0)) [
    | inl null ↦ rw null (refused_lem v polls request)
    | inr set ↦ elim (Option-cases (find (internal_of request) v.pending_requests)) [
      | inl unknown ↦ rw (set, unknown) (refused_lem v polls request)
      | inr (state, here) ↦
          rw (set, here)
            (reply_of_wait-Waits v request polls
              (wait_loop ntohl (internal_of request) polls v.pending_requests)
              (wait_loop-Ends (internal_of request) polls v.pending_requests))
    ]
  ]
    where
      refused_lem :
          (v : VerbsTransport) (polls : List Poll) (request : Option ℕ)
          → Waits v request (some (unanswered (some v) request polls))
      refused_lem v polls request =
          inl (refl, refl, refl, (v.pending_requests, refl, Progressed-refl v.pending_requests))
