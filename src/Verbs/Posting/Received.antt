-- ===== src/Verbs/Posting/Received.antt =====
-- What `post_receive_previous` leaves, when its control message cannot be written too.
use comm_workshop_final.Prelude.{
  ℕ, ◌≡◌, refl, [], ◌∷◌, true, false, Option, none, some, Bool-cases, Option-cases, inl, inr, ◌⊎◌,
}
use comm_workshop_final.Prelude.Int.{pos}
use comm_workshop_final.Types.{TransferMode}
use comm_workshop_final.Resources.{region, acquired, released}
use comm_workshop_final.Verbs.{choose_mode, receive}
use comm_workshop_final.Verbs.Posting.{
  Endpoint, Surroundings, ControlMessage, Posted, internal_of, invalid, new_state, accepted,
  mode_value, post_receive_previous, receive_in_mode,
}
use comm_workshop_final.Verbs.Posting.Effects.{erase-first}
use comm_workshop_final.Verbs.Posting.Handshake.{
  AwaitsIn, receive_work-AwaitsIn, invalid-bytes, invalid-register_memory,
}

-- The control message that tells the sender of a receive.
abbrev pub message_of : ℕ → ℕ → ℕ → ℕ → TransferMode → ControlMessage
message_of buffer bytes tag key mode = record {
  magic = 0x52444d41;
  tag = tag;
  remote_address = buffer;
  remote_key = key;
  bytes = bytes;
  mode = mode_value mode;
  reserved = 0;
}

module _ (w : Surroundings) (e : Endpoint) (buffer bytes tag : ℕ) (requested_mode : TransferMode)
    (request : Option ℕ) where
  -- Nothing was posted, and memory that was registered is deregistered.
  abbrev pub Refused : Posted → Type 0
  Refused p =
      (p.threw ≡ true)
      × (p.endpoint.requests ≡ e.requests)
      × (p.internal ≡ internal_of request)
      × (p.stored_id ≡ none)
      × (p.work ≡ none)
      × (p.message ≡ none)
      × ((p.events ≡ [])
          ⊎ (p.events ≡ acquired (region w.address) ∷ released (region w.address) ∷ []))

  -- The receive was posted; the call throws if the control message could not be written.
  abbrev pub Receives : Posted → Type 0
  Receives p =
      (p.internal ≡ w.address)
      × (p.stored_id ≡ some e.next_request_id)
      × (p.events ≡ acquired (region w.address) ∷ [])
      × ((mode : TransferMode) × (keys : ℕ × ℕ) × (choose_mode requested_mode bytes ≡ some mode)
          × (w.keys ≡ some keys)
          × (p.endpoint.requests
              ≡ (
                w.address,
                record {
                  kind = receive;
                  id = e.next_request_id;
                  tag = tag;
                  mode = mode;
                  registered = true;
                  completed = false;
                  status = pos 0;
                },
              )
                ∷ e.requests)
          × AwaitsIn mode p.work w.address (buffer, bytes, keys.0)
          × (((w.written ≡ true)
                × (p.threw ≡ false)
                × (p.message ≡ some (message_of buffer bytes tag (keys.1) mode)))
              ⊎ ((w.written ≡ false) × (p.threw ≡ true) × (p.message ≡ none))))

  abbrev Goal : Posted → Type 0
  Goal p = Refused p ⊎ Receives p

  receive_in_mode-Receives :
      (mode : Option TransferMode)
      → invalid e buffer bytes request ≡ false
      → choose_mode requested_mode bytes ≡ mode
      → Goal (receive_in_mode w e buffer bytes tag request mode)
  unfolding receive_in_mode
  receive_in_mode-Receives none fine chosen = inl (refl, refl, refl, refl, refl, refl, inl refl)
  receive_in_mode-Receives (some mode) fine chosen =
      let asks = invalid-register_memory w e buffer bytes request fine in
      elim (Option-cases w.keys) [
        | inl failed ↦
            rw (receive_in_mode, asks, failed) (inl (refl, refl, refl, refl, refl, refl, inl refl))
        | inr (keys, registered) ↦ elim (Bool-cases (accepted w.post_status)) [
          | inr failed ↦
              rw (receive_in_mode, asks, registered, failed)
                (inl (
                  refl,
                  erase-first w.address (new_state receive e tag mode) e.requests,
                  refl,
                  refl,
                  refl,
                  refl,
                  inr refl,
                ))
          | inl taken ↦ elim (Bool-cases w.written) [
            | inl told ↦
                rw
                  (
                    receive_in_mode,
                    asks,
                    registered,
                    taken,
                    told,
                    invalid-bytes e buffer bytes request fine,
                  )
                  (inr (
                    refl,
                    refl,
                    refl,
                    (
                      mode,
                      keys,
                      chosen,
                      refl,
                      refl,
                      receive_work-AwaitsIn w buffer bytes keys.0 mode,
                      inl (refl, refl, refl),
                    ),
                  ))
            | inr untold ↦
                rw (receive_in_mode, asks, registered, taken, untold)
                  (inr (
                    refl,
                    refl,
                    refl,
                    (
                      mode,
                      keys,
                      chosen,
                      refl,
                      refl,
                      receive_work-AwaitsIn w buffer bytes keys.0 mode,
                      inr (refl, refl, refl),
                    ),
                  ))
          ]
        ]
      ]

  pub post_receive_previous-Receives :
      Goal (post_receive_previous w e buffer bytes tag requested_mode request)
  unfolding post_receive_previous
  post_receive_previous-Receives = elim (Bool-cases (invalid e buffer bytes request)) [
    | inl bad ↦ rw bad (inl (refl, refl, refl, refl, refl, refl, inl refl))
    | inr fine ↦ rw fine (receive_in_mode-Receives (choose_mode requested_mode bytes) fine refl)
  ]
