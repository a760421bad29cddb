-- ===== src/Verbs/Wrappers/Effects.antt =====
-- What the result of a send says of the transport.
use comm_workshop_final.Prelude.{
  ℕ, ◌≡◌, ap, List, [], ◌∷◌, true, false, Option, none, some, if◌then◌else◌, inl, inr, ◌⊎◌,
}
use comm_workshop_final.Prelude.Int.{pos, negsuc}
use comm_workshop_final.Types.{TransferMode}
use comm_workshop_final.Resources.{region, acquired, released}
use comm_workshop_final.Verbs.{choose_mode, send, RequestState}
use comm_workshop_final.Verbs.Device.{VerbsTransport}
use comm_workshop_final.Verbs.Posting.{Surroundings, internal_of}
use comm_workshop_final.Verbs.Posting.Effects.{post_send_next-Posts}
use comm_workshop_final.Verbs.Wrappers.{Answer, towards_next, verbs_post_send_next}

-- The pending requests of an answer.
abbrev pub pending_after : Answer → Option (List (ℕ × RequestState))
pending_after a = elim a.transport [ none ↦ none | some v ↦ some v.pending_requests ]

-- Whatever the device and the socket answer, a send on an existing transport ends in one of two ways.
-- Either its result is -1; then the pending requests and the caller's request are as before, no work
-- request was accepted, and memory that was registered for it has been deregistered. Or its result
-- is 0; then exactly one request has been added, a send, not completed, with the transport's next id,
-- this tag and the mode that was chosen; its memory stays registered, and the caller's request points
-- to it and has its id.
pub verbs_post_send_next-pending_after :
    (htonl : ℕ → ℕ) (w : Surroundings) (v : VerbsTransport) (buffer bytes tag : ℕ)
    (requested_mode : TransferMode) (request : Option ℕ)
    → let a =
        verbs_post_send_next htonl w (some (some v)) buffer bytes tag requested_mode request in
      ((a.status ≡ negsuc 0)
        × (pending_after a ≡ some v.pending_requests)
        × (a.internal ≡ internal_of request)
        × (a.stored_id ≡ none)
        × (a.work ≡ none)
        × ((a.events ≡ [])
            ⊎ (a.events ≡ acquired (region w.address) ∷ released (region w.address) ∷ [])))
      ⊎ ((a.status ≡ pos 0)
          × (a.internal ≡ w.address)
          × (a.stored_id ≡ some v.next_request_id)
          × (a.events ≡ acquired (region w.address) ∷ [])
          × ((mode : TransferMode) × (choose_mode requested_mode bytes ≡ some mode)
              × (pending_after a
                  ≡ some (
                      (
                        w.address,
                        record {
                          kind = send;
                          id = v.next_request_id;
                          tag = tag;
                          mode = mode;
                          registered = true;
                          completed = false;
                          status = pos 0;
                        },
                      )
                      ∷ v.pending_requests))))
unfolding verbs_post_send_next
verbs_post_send_next-pending_after htonl w v buffer bytes tag requested_mode request =
    elim (post_send_next-Posts htonl w (towards_next v) buffer bytes tag requested_mode request) [
      | inl (threw, same, internal, id, work, events) ↦
          inl (
            ap (λ b. if b then negsuc 0 else pos 0) threw,
            ap some same,
            internal,
            id,
            work,
            events,
          )
      | inr (threw, internal, id, events, (mode, chosen, added)) ↦ inr (
        ap (λ b. if b then negsuc 0 else pos 0) threw,
        internal,
        id,
        events,
        (mode, chosen, ap some added),
      )
    ]
