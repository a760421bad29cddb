-- ===== src/Verbs/Posting/Effects.antt =====
-- What a post leaves of the pending requests.
use comm_workshop_final.Prelude.{
  ℕ, ◌≡◌, refl, [], ◌∷◌, true, false, Option, none, some, ==_iff, Bool-cases, Option-cases, inl,
  inr, ◌⊎◌,
}
use comm_workshop_final.Prelude.Int.{pos}
use comm_workshop_final.Types.{TransferMode}
use comm_workshop_final.Resources.{region, acquired, released}
use comm_workshop_final.Verbs.{choose_mode, send, erase, Requests, RequestState}
use comm_workshop_final.Verbs.Posting.{
  Endpoint, Surroundings, ControlMessage, Posted, register_memory, internal_of, invalid, new_state,
  accepted, matches, post_send_next, send_in_mode, send_registered,
}

-- A call that threw left the requests and `*request` as they were, and deregistered the memory that it
-- registered; any other one has put one request in front, in the mode that was chosen, to which
-- `internal` points, and keeps its memory registered.
abbrev pub Posts : Surroundings → Endpoint → ℕ → ℕ → TransferMode → Option ℕ → Posted → Type 0
Posts w e bytes tag requested_mode request p =
    ((p.threw ≡ true)
      × (p.endpoint.requests ≡ e.requests)
      × (p.internal ≡ internal_of request)
      × (p.stored_id ≡ none)
      × (p.work ≡ none)
      × ((p.events ≡ [])
          ⊎ (p.events ≡ acquired (region w.address) ∷ released (region w.address) ∷ [])))
    ⊎ ((p.threw ≡ false)
        × (p.internal ≡ w.address)
        × (p.stored_id ≡ some e.next_request_id)
        × (p.events ≡ acquired (region w.address) ∷ [])
        × ((mode : TransferMode) × (choose_mode requested_mode bytes ≡ some mode)
            × (p.endpoint.requests
                ≡ (
                  w.address,
                  record {
                    kind = send;
                    id = e.next_request_id;
                    tag = tag;
                    mode = mode;
                    registered = true;
                    completed = false;
                    status = pos 0;
                  },
                )
                  ∷ e.requests)))

pub erase-first :
    (key : ℕ) (state : RequestState) (rest : Requests) → erase key ((key, state) ∷ rest) ≡ rest
erase-first key state rest = rw ((==_iff key key).1 refl) refl

module _ (htonl : ℕ → ℕ) (w : Surroundings) (e : Endpoint) (buffer bytes tag : ℕ)
    (requested_mode : TransferMode) (request : Option ℕ) where
  abbrev Goal : Posted → Type 0
  Goal = Posts w e bytes tag requested_mode request

  send_registered-Posts :
      (control : ControlMessage) (mode : TransferMode)
      → choose_mode requested_mode bytes ≡ some mode
      → Goal (send_registered htonl w e control buffer bytes tag request mode)
  unfolding send_registered
  send_registered-Posts control mode chosen = elim (Option-cases (register_memory w buffer bytes)) [
    | inl failed ↦ rw (send_registered, failed) (inl (refl, refl, refl, refl, refl, inl refl))
    | inr (keys, registered) ↦ elim (Bool-cases (accepted w.post_status)) [
      | inl taken ↦
          rw (send_registered, registered, taken)
            (inr (refl, refl, refl, refl, (mode, chosen, refl)))
      | inr failed ↦
          rw (send_registered, registered, failed)
            (inl (
              refl,
              erase-first w.address (new_state send e tag mode) e.requests,
              refl,
              refl,
              refl,
              inr refl,
            ))
    ]
  ]

  send_in_mode-Posts :
      (mode : Option TransferMode)
      → choose_mode requested_mode bytes ≡ mode
      → Goal (send_in_mode htonl w e buffer bytes tag request mode)
  unfolding send_in_mode
  send_in_mode-Posts none chosen = inl (refl, refl, refl, refl, refl, inl refl)
  send_in_mode-Posts (some mode) chosen =
      elim w.control
        as (λ c.
          Goal (
            send_in_mode htonl (record w { control = c }) e buffer bytes tag request (some mode))) [
              | none ↦ inl (refl, refl, refl, refl, refl, inl refl)
              | some control ↦ elim (Bool-cases (matches control bytes tag mode)) [
                | inl same ↦ rw same (send_registered-Posts control mode chosen)
                | inr other ↦ rw other (inl (refl, refl, refl, refl, refl, inl refl))
              ]
            ]

  pub post_send_next-Posts : Goal (post_send_next htonl w e buffer bytes tag requested_mode request)
  unfolding post_send_next
  post_send_next-Posts = elim (Bool-cases (invalid e buffer bytes request)) [
    | inl bad ↦ rw bad (inl (refl, refl, refl, refl, refl, inl refl))
    | inr fine ↦ rw fine (send_in_mode-Posts (choose_mode requested_mode bytes) refl)
  ]
