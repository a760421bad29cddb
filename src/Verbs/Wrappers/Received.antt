-- ===== src/Verbs/Wrappers/Received.antt =====
-- What the result of a receive says of the transport.
use comm_workshop_final.Prelude.{
  ℕ, ◌≡◌, ap, [], ◌∷◌, true, false, Option, none, some, if◌then◌else◌, inl, inr, ◌⊎◌,
}
use comm_workshop_final.Prelude.Int.{pos, negsuc}
use comm_workshop_final.Types.{TransferMode}
use comm_workshop_final.Resources.{region, acquired, released}
use comm_workshop_final.Verbs.{choose_mode, receive}
use comm_workshop_final.Verbs.Device.{VerbsTransport}
use comm_workshop_final.Verbs.Posting.{Surroundings, internal_of}
use comm_workshop_final.Verbs.Posting.Handshake.{AwaitsIn}
use comm_workshop_final.Verbs.Posting.Received.{message_of, post_receive_previous-Receives}
use comm_workshop_final.Verbs.Wrappers.{Answer, towards_previous, verbs_post_recv_prev}
use comm_workshop_final.Verbs.Wrappers.Effects.{pending_after}

module _ (w : Surroundings) (v : VerbsTransport) (buffer bytes tag : ℕ)
    (requested_mode : TransferMode) (request : Option ℕ) where
  -- Nothing is posted: the pending requests and the caller's request are as before, and memory that
  -- was registered has been deregistered.
  abbrev pub Declines : Answer → Type 0
  Declines a =
      (a.status ≡ negsuc 0)
      × (pending_after a ≡ some v.pending_requests)
      × (a.internal ≡ internal_of request)
      × (a.stored_id ≡ none)
      × (a.work ≡ none)
      × (a.message ≡ none)
      × ((a.events ≡ [])
          ⊎ (a.events ≡ acquired (region w.address) ∷ released (region w.address) ∷ []))

  -- A receive is posted and pending, in the mode that was chosen; the result is 0 if its control
  -- message is written and -1 if that fails.
  abbrev pub Awaits : Answer → Type 0
  Awaits a =
      (a.internal ≡ w.address)
      × (a.stored_id ≡ some v.next_request_id)
      × (a.events ≡ acquired (region w.address) ∷ [])
      × ((mode : TransferMode) × (keys : ℕ × ℕ) × (choose_mode requested_mode bytes ≡ some mode)
          × (w.keys ≡ some keys)
          × (pending_after a
              ≡ some (
                  (
                    w.address,
                    record {
                      kind = receive;
                      id = v.next_request_id;
                      tag = tag;
                      mode = mode;
                      registered = true;
                      completed = false;
                      status = pos 0;
                    },
                  )
                  ∷ v.pending_requests))
          × AwaitsIn mode a.work w.address (buffer, bytes, keys.0)
          × (((w.written ≡ true)
                × (a.status ≡ pos 0)
                × (a.message ≡ some (message_of buffer bytes tag (keys.1) mode)))
              ⊎ ((w.written ≡ false) × (a.status ≡ negsuc 0) × (a.message ≡ none))))

  -- Whatever the device and the socket answer, a receive on an existing transport ends in one of three
  -- ways. Its result is -1 and nothing is posted: the pending requests and the caller's request are
  -- as before, and memory that was registered for it has been deregistered. Or the receive is
  -- posted: exactly one request has been added, a receive, not completed, with the transport's next
  -- id, this tag and the mode that was chosen, its work request has the buffer in eager mode only,
  -- its memory stays registered, and the caller's request points to it and has its id. Then the
  -- result is 0 if the control message was written, which gives the sender the buffer's address, its
  -- remote key, the bytes, the tag and the mode; and -1 if it could not be, though the request is
  -- pending.
  pub verbs_post_recv_prev-Awaits :
      let a = verbs_post_recv_prev w (some (some v)) buffer bytes tag requested_mode request in
      Declines a ⊎ Awaits a
  unfolding verbs_post_recv_prev
  verbs_post_recv_prev-Awaits =
      elim (post_receive_previous-Receives w (towards_previous v) buffer bytes tag requested_mode
        request) [
          | inl (threw, same, internal, id, work, message, events) ↦ inl (
            ap (λ b. if b then negsuc 0 else pos 0) threw,
            ap some same,
            internal,
            id,
            work,
            message,
            events,
          )
          | inr (internal, id, events, (mode, keys, chosen, by, added, work, told)) ↦ inr (
            internal,
            id,
            events,
            (
              mode,
              keys,
              chosen,
              by,
              ap some added,
              work,
              elim told [
                | inl (written, threw, message) ↦
                    inl (written, ap (λ b. if b then negsuc 0 else pos 0) threw, message)
                | inr (unwritten, threw, message) ↦
                    inr (unwritten, ap (λ b. if b then negsuc 0 else pos 0) threw, message)
              ],
            ),
          )
        ]
