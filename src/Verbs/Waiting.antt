-- ===== src/Verbs/Waiting.antt =====
-- What waiting on a request of the RDMA transport gives, and what it leaves of the others.
use comm_workshop_final.Prelude.{
  ℕ, List, [], ◌∷◌, ◌++◌, true, false, some, if◌then◌else◌, ◌==◌, ◌≡◌, ◌≢◌, ap, Option-cases, inl,
  inr, arith, ==_iff, sym, ◌∙◌, ℕ_discrete,
}
use comm_workshop_final.Prelude.Int.{ℤ}
use comm_workshop_final.Verbs.{
  RequestState, Completion, Requests, find, update, erase, complete_request, handle_completion,
}
use comm_workshop_final.Verbs.Requests.{
  ==-differ, find-update_same, find-update_other, find-erase_other,
}
use comm_workshop_final.Resources.{Event, region, released_if}
use comm_workshop_final.Verbs.Polling.{
  Poll, nothing, poll_failed, delivered, Polled, polled, thrown, polling, answered_as,
  consume_request, poll_one_blocking, wait_loop, wait_request,
}

module _ (ntohl : ℕ → ℕ) where
  -- What the polls make of the request at `key`, whose state is `state`.
  abbrev apply_to : ℕ → List Poll → RequestState → RequestState
  apply_to key [] state = state
  apply_to key (delivered c ∷ cs) state =
      apply_to key cs (if c.wr_id == key then complete_request ntohl state c else state)
  apply_to key (p ∷ cs) state = apply_to key cs state

  -- No poll fails, and each completion names a pending request other than the one at `key`.
  abbrev Others : ℕ → Requests → List Poll → Type 0
  Others key requests [] = Unit {0}
  Others key requests (nothing ∷ cs) = Others key requests cs
  Others key requests (poll_failed ∷ cs) = ⊥
  Others key requests (delivered c ∷ cs) =
      (c.wr_id ≢ 0)
      × (c.wr_id ≢ key)
      × ((state : RequestState) × (find c.wr_id requests ≡ some state))
      × Others key requests cs

  -- A completion of a pending request changes that request alone.
  handle_completion-at :
      (c : Completion) (requests : Requests) (state : RequestState)
      → c.wr_id ≢ 0
      → find c.wr_id requests ≡ some state
      → (later : Requests) × (handle_completion ntohl c requests ≡ some later)
        × (find c.wr_id later ≡ some (complete_request ntohl state c))
        × ((other : ℕ) → other ≢ c.wr_id → find other later ≡ find other requests)
  unfolding handle_completion
  handle_completion-at c requests state ne here = (
    update c.wr_id (complete_request ntohl state c) requests,
    rw (==-differ c.wr_id 0 ne, here),
    find-update_same c.wr_id (complete_request ntohl state c) state requests here,
    λ other h. find-update_other c.wr_id other (complete_request ntohl state c) requests h,
  )

  complete_request-completed :
      (state : RequestState) (c : Completion) → (complete_request ntohl state c).completed ≡ true
  unfolding complete_request
  complete_request-completed state c = ground arith

  -- The pending requests stay pending.
  stay_pending :
      (c : Completion) (requests later : Requests) (state : RequestState)
      → find c.wr_id later ≡ some (complete_request ntohl state c)
      → ((other : ℕ) → other ≢ c.wr_id → find other later ≡ find other requests)
      → (key : ℕ) (cs : List Poll) → Others key requests cs
      → Others key later cs
  stay_pending c requests later state here away key [] h = tt
  stay_pending c requests later state here away key (nothing ∷ cs) h =
      stay_pending c requests later state here away key cs h
  stay_pending c requests later state here away key (poll_failed ∷ cs) h = absurd h
  stay_pending c requests later state here away key (delivered d ∷ cs) (a, b, (old, e), h) =
      (a, b, found, stay_pending c requests later state here away key cs h)
    where
      found : (s : RequestState) × (find d.wr_id later ≡ some s)
      found = elim (ℕ_discrete d.wr_id c.wr_id) [
        | yes same ↦ (complete_request ntohl state c, rw same here)
        | no differ ↦ (old, away d.wr_id differ ∙ e)
      ]

  -- A completed request ends the loop, whatever is still in the queue.
  wait_loop-ready :
      (key : ℕ) (ps : List Poll) (requests : Requests) (state : RequestState)
      → find key requests ≡ some state
      → state.completed ≡ true
      → wait_loop ntohl key ps requests
        ≡ polled (state.status, released_if state.registered (region key)) (erase key requests) ps
  unfolding wait_loop consume_request
  wait_loop-ready key [] requests state here done = rw (wait_loop, here, done)
  wait_loop-ready key (p ∷ ps) requests state here done = rw (wait_loop, here, done)

  wait_loop-step :
      (key : ℕ) (c : Completion) (ps : List Poll) (requests later : Requests) (state : RequestState)
      → find key requests ≡ some state
      → state.completed ≡ false
      → handle_completion ntohl c requests ≡ some later
      → wait_loop ntohl key (delivered c ∷ ps) requests ≡ wait_loop ntohl key ps later
  unfolding wait_loop
  wait_loop-step key c ps requests later state here busy handled =
      rw (wait_loop, here, busy, handled)

  wait_loop-nothing :
      (key : ℕ) (ps : List Poll) (requests : Requests) (state : RequestState)
      → find key requests ≡ some state
      → state.completed ≡ false
      → wait_loop ntohl key (nothing ∷ ps) requests ≡ wait_loop ntohl key ps requests
  unfolding wait_loop
  wait_loop-nothing key ps requests state here busy = rw (wait_loop, here, busy)

  -- How the wait ends, and the other requests afterwards.
  abbrev pub Finishes :
      ℕ
      → List Poll
      → Completion
      → List Poll
      → Requests
      → RequestState
      → Polled (ℤ × List Event) Poll
      → Type 0
  Finishes key before c rest requests state outcome =
      (left : Requests) × (outcome
        ≡ polled
            ((complete_request ntohl state c).status, released_if state.registered (region key))
            left rest)
      × ((other : ℕ) (s : RequestState)
          → other ≢ key
          → find other requests ≡ some s
          → find other left ≡ some (apply_to other before s))

  complete_request-registered :
      (state : RequestState) (c : Completion)
      → (complete_request ntohl state c).registered ≡ state.registered
  unfolding complete_request
  complete_request-registered state c = ground arith

  wait_loop-Finishes :
      (key : ℕ) (before : List Poll) (c : Completion) (rest : List Poll) (requests : Requests)
      (state : RequestState)
      → key ≢ 0
      → find key requests ≡ some state
      → state.completed ≡ false
      → Others key requests before
      → c.wr_id ≡ key
      → Finishes key before c rest requests state
          (wait_loop ntohl key (before ++ delivered c ∷ rest) requests)
  wait_loop-Finishes key [] c rest requests state ne here busy others same =
      let (later, handled, found, away) =
        handle_completion-at c requests state (λ z. ne (sym same ∙ z))
          (ap (λ k. find k requests) same ∙ here) in
      (
        erase key later,
        wait_loop-step key c rest requests later state here busy handled
            ∙ wait_loop-ready key rest later (complete_request ntohl state c)
                (ap (λ k. find k later) (sym same) ∙ found) (complete_request-completed state c)
            ∙ ap
                (λ b.
                  polled ((complete_request ntohl state c).status, released_if b (region key))
                    (erase key later) rest)
                (complete_request-registered state c),
        λ other s differ e.
            find-erase_other key other later differ ∙ away other (λ z. differ (z ∙ same)) ∙ e,
      )
  wait_loop-Finishes key (nothing ∷ ds) c rest requests state ne here busy others same =
      let (left, ran, kept) =
        wait_loop-Finishes key ds c rest requests state ne here busy others same in
      (left, wait_loop-nothing key (ds ++ delivered c ∷ rest) requests state here busy ∙ ran, kept)
  wait_loop-Finishes key (poll_failed ∷ ds) c rest requests state ne here busy others same =
      absurd others
  wait_loop-Finishes key (delivered d ∷ ds) c rest requests state ne here busy
        (nz, differ, (old, e), others) same =
      let (later, handled, found, away) = handle_completion-at d requests old nz e in
      let (left, ran, kept) =
        wait_loop-Finishes key ds c rest later state ne (away key (λ z. differ (sym z)) ∙ here) busy
          (stay_pending d requests later old found away key ds others) same in
      (
        left,
        wait_loop-step key d (ds ++ delivered c ∷ rest) requests later state here busy handled
            ∙ ran,
        λ other s apart f. elim (ℕ_discrete d.wr_id other) [
          | yes hit ↦
              let first : old ≡ s = cc (sym e ∙ ap (λ k. find k requests) hit ∙ f) in
              rw ((==_iff d.wr_id other).1 hit) (
                kept other (complete_request ntohl s d) apart (
                  ap (λ k. find k later) (sym hit)
                  ∙ found
                  ∙ ap (λ o. some (complete_request ntohl o d)) first))
          | no miss ↦
              rw (==-differ d.wr_id other miss)
                (kept other s apart (away other (λ z. miss (sym z)) ∙ f))
        ],
      )

  -- The loop of `wait_request` agrees with a round of it as the code has it: for a pending request that
  -- is not completed, a blocking poll, and then the loop on what that leaves.
  wait_loop-poll_one_blocking :
      (key : ℕ) (ps : List Poll) (requests : Requests) (state : RequestState)
      → find key requests ≡ some state
      → state.completed ≡ false
      → wait_loop ntohl key ps requests ≡ elim (poll_one_blocking ntohl ps requests) [
        | polled u later rest ↦ wait_loop ntohl key rest later
        | thrown later rest ↦ thrown later rest
        | polling later ↦ polling later
      ]
  unfolding wait_loop poll_one_blocking
  wait_loop-poll_one_blocking key [] requests state here busy = rw (wait_loop, here, busy)
  wait_loop-poll_one_blocking key (nothing ∷ ps) requests state here busy =
      wait_loop-nothing key ps requests state here busy
      ∙ wait_loop-poll_one_blocking key ps requests state here busy
  wait_loop-poll_one_blocking key (poll_failed ∷ ps) requests state here busy =
      rw (wait_loop, here, busy)
  wait_loop-poll_one_blocking key (delivered c ∷ ps) requests state here busy =
      elim (Option-cases (handle_completion ntohl c requests)) [
        | inl none_left ↦ rw (wait_loop, here, busy, none_left)
        | inr (later, handled) ↦ rw (wait_loop, here, busy, handled)
      ]

  -- `wait_request` on a pending request that is not completed, over polls that find nothing or find
  -- completions of other pending requests, and then one of its own, returns the status that this one
  -- gives, deregisters the request's memory and leaves the later answers unasked. Every other request
  -- then is as the completions that were taken for it make it.
  pub wait_request-Finishes :
      (key : ℕ) (before : List Poll) (c : Completion) (rest : List Poll) (requests : Requests)
      (state : RequestState)
      → key ≢ 0
      → find key requests ≡ some state
      → state.completed ≡ false
      → Others key requests before
      → c.wr_id ≡ key
      → (outcome : Polled (ℤ × List Event) Poll) × (wait_request ntohl key
            (before ++ delivered c ∷ rest)
            requests
          ≡ answered_as outcome)
        × Finishes key before c rest requests state outcome
  unfolding wait_request
  wait_request-Finishes key before c rest requests state ne here busy others same = (
    wait_loop ntohl key (before ++ delivered c ∷ rest) requests,
    rw (==-differ key 0 ne, here),
    wait_loop-Finishes key before c rest requests state ne here busy others same,
  )
