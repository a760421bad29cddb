-- ===== src/Verbs/Polling/Pending.antt =====
-- Polling completes pending requests and leaves all of them pending.
use comm_workshop_final.Prelude.{
  ℕ, ◌+◌, List, [], ◌∷◌, Bool, true, false, not, ◌||◌, none, some, ◌==◌, ◌≡◌, refl, sym, subst, ap,
  ◌∙◌, Bool-cases, Option-cases, inl, inr, length,
}
use comm_workshop_final.Prelude.Int.{ℤ, negsuc}
use comm_workshop_final.Verbs.{
  RequestState, Completion, Requests, find, update, complete_request, handle_completion, accepts,
}
use comm_workshop_final.Verbs.Polling.{
  Batch, batch_failed, batch, Polled, polled, thrown, polling, Answered, refused, answered_as,
  handle_batch, poll_available, tested, test_request, is_completed,
}

-- What polling may change of a request: whether it is completed, and its status.
pub record Later (old new : RequestState) : Type 0 where
  pub kind : new.kind ≡ old.kind
  pub id : new.id ≡ old.id
  pub tag : new.tag ≡ old.tag
  pub mode : new.mode ≡ old.mode
  pub registered : new.registered ≡ old.registered
  pub completed : old.completed ≡ true → new.completed ≡ true

Later-refl : (s : RequestState) → Later s s
Later-refl s = record {
  kind = refl;
  id = refl;
  tag = refl;
  mode = refl;
  registered = refl;
  completed = λ e. e;
}

-- The same requests, in the same order, under the same pointers, each later than it was.
abbrev pub Progressed : Requests → Requests → Type 0
Progressed [] [] = Unit {0}
Progressed [] (y ∷ ys) = ⊥
Progressed (x ∷ xs) [] = ⊥
Progressed ((k, old) ∷ xs) ((l, new) ∷ ys) = (k ≡ l) × Later old new × Progressed xs ys

pub Progressed-refl : (xs : Requests) → Progressed xs xs
Progressed-refl [] = tt
Progressed-refl ((k, s) ∷ xs) = (refl, Later-refl s, Progressed-refl xs)

pub Progressed-trans :
    (xs ys zs : Requests) → Progressed xs ys → Progressed ys zs → Progressed xs zs
Progressed-trans [] [] zs p q = q
Progressed-trans [] (y ∷ ys) zs p q = absurd p
Progressed-trans ((k, a) ∷ xs) [] zs p q = absurd p
Progressed-trans ((k, a) ∷ xs) ((l, b) ∷ ys) [] p q = absurd q
Progressed-trans ((k, a) ∷ xs) ((l, b) ∷ ys) ((m, c) ∷ zs) (e, s, p) (f, t, q) = (
  e ∙ f,
  record {
    kind = t.kind ∙ s.kind;
    id = t.id ∙ s.id;
    tag = t.tag ∙ s.tag;
    mode = t.mode ∙ s.mode;
    registered = t.registered ∙ s.registered;
    completed = λ h. t.completed (s.completed h);
  },
  Progressed-trans xs ys zs p q,
)

marked :
    (state : RequestState) (status : ℤ)
    → Later state (record state { status = status; completed = true })
marked state status = record {
  kind = refl;
  id = refl;
  tag = refl;
  mode = refl;
  registered = refl;
  completed = λ e. refl;
}

-- The requests that a loop over polls leaves.
abbrev pub left_in : {A P : Type 0} → Polled A P → Requests
left_in (polled a left rest) = left
left_in (thrown left rest) = left
left_in (polling left) = left

is_completed-find :
    (key : ℕ) (requests : Requests) (state : RequestState)
    → find key requests ≡ some state
    → is_completed key requests ≡ state.completed
is_completed-find key requests state here =
    ap (λ o. elim o [ none ↦ false | some found ↦ found.completed ]) here

-- How a test may end.
abbrev pub Tests : ℕ → Requests → Answered Bool Batch → Type 0
Tests key requests refused = Unit {0}
Tests key requests (answered_as (polled b left rest)) =
    (b ≡ is_completed key left) × Progressed requests left
Tests key requests (answered_as p) = Progressed requests (left_in p)

tested-Tests :
    (key : ℕ) (requests : Requests) (p : Polled ℕ Batch)
    → Progressed requests (left_in p)
    → Tests key requests (answered_as (tested key p))
unfolding tested
tested-Tests key requests (polled n left rest) h = (refl, h)
tested-Tests key requests (thrown left rest) h = h
tested-Tests key requests (polling left) h = h

module _ (ntohl : ℕ → ℕ) where
  complete_request-Later :
      (state : RequestState) (c : Completion) → Later state (complete_request ntohl state c)
  unfolding complete_request
  complete_request-Later state c = elim (Bool-cases (not c.success)) [
    | inl failed ↦ rw failed (marked state (negsuc 0))
    | inr went ↦ elim (Bool-cases (accepts ntohl state c)) [
      | inl good ↦ rw (went, good) (marked state state.status)
      | inr bad ↦ rw (went, bad) (marked state (negsuc 0))
    ]
  ]

  update-Progressed :
      (key : ℕ) (c : Completion) (state : RequestState) (requests : Requests)
      → find key requests ≡ some state
      → Progressed requests (update key (complete_request ntohl state c) requests)
  update-Progressed key c state [] h = tt
  update-Progressed key c state ((k, old) ∷ rest) h = elim (Bool-cases (k == key)) [
    | inl here ↦
        let found : some old ≡ some state = rw here at h in
        let same : state ≡ old = cc found in
        rw here (
          refl,
          subst (λ o. Later o (complete_request ntohl state c)) same
              (complete_request-Later state c),
          Progressed-refl rest,
        )
    | inr away ↦ rw away (refl, Later-refl old, update-Progressed key c state rest (rw away at h))
  ]

  pub handle_completion-Progressed :
      (c : Completion) (requests later : Requests)
      → handle_completion ntohl c requests ≡ some later
      → Progressed requests later
  unfolding handle_completion
  handle_completion-Progressed c requests later h = elim (Bool-cases (c.wr_id == 0)) [
    | inl null ↦ absurd (cc (rw null at h))
    | inr set ↦ elim (Option-cases (find c.wr_id requests)) [
      | inl unknown ↦ absurd (cc (rw (set, unknown) at h))
      | inr (state, here) ↦
          let same : update c.wr_id (complete_request ntohl state c) requests ≡ later =
            cc (rw (set, here) at h) in
          subst (Progressed requests) same (update-Progressed c.wr_id c state requests here)
    ]
  ]

  handle_batch-Progressed :
      (cs : List Completion) (requests : Requests)
      → Progressed requests ((handle_batch ntohl cs requests).1)
  unfolding handle_batch
  handle_batch-Progressed [] requests = Progressed-refl requests
  handle_batch-Progressed (c ∷ cs) requests =
      elim (Option-cases (handle_completion ntohl c requests)) [
        | inl threw ↦ rw (handle_batch, threw) (Progressed-refl requests)
        | inr (later, handled) ↦
            rw (handle_batch, handled)
              (Progressed-trans requests later _
                (handle_completion-Progressed c requests later handled)
                (handle_batch-Progressed cs later))
      ]

  poll_available-Progressed :
      (n : ℕ) (batches : List Batch) (requests : Requests)
      → Progressed requests (left_in (poll_available ntohl n batches requests))
  unfolding poll_available
  poll_available-Progressed n [] requests = Progressed-refl requests
  poll_available-Progressed n (batch_failed ∷ rest) requests = Progressed-refl requests
  poll_available-Progressed n (batch [] ∷ rest) requests = Progressed-refl requests
  poll_available-Progressed n (batch (c ∷ cs) ∷ rest) requests =
      let step = handle_batch-Progressed (c ∷ cs) requests in
      elim (Bool-cases ((handle_batch ntohl (c ∷ cs) requests).0)) [
        | inl threw ↦ rw threw step
        | inr went ↦ rw went (
            Progressed-trans requests ((handle_batch ntohl (c ∷ cs) requests).1) _ step (
              poll_available-Progressed (n + length (c ∷ cs)) rest
                ((handle_batch ntohl (c ∷ cs) requests).1)))
      ]

  -- Whatever the device answers, `test_request` keeps every pending request pending, in its place,
  -- and changes at most its status and whether it is completed, never from completed to not; also
  -- when it throws. What it stores is whether the tested request is completed at the end.
  pub test_request-Tests :
      (key : ℕ) (out : Bool) (batches : List Batch) (requests : Requests)
      → Tests key requests (test_request ntohl key out batches requests)
  unfolding test_request
  test_request-Tests key out batches requests = elim (Bool-cases (key == 0 || not out)) [
    | inl bad ↦ rw bad tt
    | inr fine ↦ elim (Option-cases (find key requests)) [
      | inl unknown ↦ rw (fine, unknown) tt
      | inr (state, here) ↦ elim (Bool-cases state.completed) [
        | inl done ↦
            rw (fine, here, done)
              (sym (is_completed-find key requests state here ∙ done), Progressed-refl requests)
        | inr busy ↦
            rw (fine, here, busy)
              (tested-Tests key requests (poll_available ntohl 0 batches requests)
                (poll_available-Progressed 0 batches requests))
      ]
    ]
  ]
