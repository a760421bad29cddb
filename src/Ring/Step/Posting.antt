-- ===== src/Ring/Step/Posting.antt =====
-- The loops that post receives and sends: each call is accepted and recorded in order.
use native.Mathlib.Nat.{add_assoc}
use comm_workshop_final.Prelude.{
  ℕ, ◌+◌, ◌*◌, ◌^◌, ◌≤◌, ◌<◌, ◌≡◌, refl, ap, ◌∙◌, [], ◌∷◌, ◌++◌, le→leb, arith,
}
use comm_workshop_final.Memory.{Scalars, clip, clip_cong}
use comm_workshop_final.Tag.Fields.{make_tag-layout}
use comm_workshop_final.Transport.{TransportOps}
use comm_workshop_final.Transport.Reliable.{Message, Descriptor, receiving, sending, Reliable}
use comm_workshop_final.Ring.Machine.{Machine, done, Yields}
use comm_workshop_final.Ring.Step.{
  PostedRequest, Step, buffer_of, tag_for, post_recv_prev, post_send_next, post_receive, post_send,
}
use comm_workshop_final.Ring.Step.Setup.{Sized, PieceFacts, tag_of, elements_of}

-- The record that the loops keep of piece `k` of a block.
abbrev pub posted_as : {R : Type 0} → Step → ℕ → R → ℕ → PostedRequest R
posted_as st count request k = record {
  request = request;
  piece_index = k;
  element_offset = k * st.piece_elements;
  element_count = elements_of st count k;
}

-- The descriptor of piece `k` of the received block.
abbrev pub descriptor : Step → ℕ → Descriptor
descriptor st k = record {
  tag = tag_of st k;
  bytes = elements_of st st.recv_count k * st.element_size;
}

-- The message with piece `k` of the sent block, whose elements are `out`.
abbrev pub message : (s : Scalars) → (ℕ → s.Elem) → Step → ℕ → Message s.Elem
message s out st k = record {
  tag = tag_of st k;
  bytes = elements_of st st.send_count k * st.element_size;
  payload = clip s.zeroed (elements_of st st.send_count k) (λ j. out (k * st.piece_elements + j));
}

module _ (s : Scalars) {T : Type 0} (ops : TransportOps T s.Elem) (st : Step) (z : Sized st) where
  pub tag_for-tag_of :
      (k : ℕ) (m : Machine T s.Elem) → k < 2 ^ 12 → tag_for s ops st k m ≡ (done (tag_of st k), m)
  unfolding tag_for
  tag_for-tag_of k m h = rw (make_tag-layout st.sequence st.phase st.number k 0 z.number_small h)

  module _ {inbox : ℕ → ℕ → s.Elem} (rel : Reliable ops st.mode inbox) where
    -- Only the transport changes, and its record of the step grows by this receive.
    pub post_receive-Yields :
        (k : ℕ) (m : Machine T s.Elem)
        → PieceFacts st st.recv_start st.recv_count k
        → st.recv_start + st.recv_count ≤ (buffer_of s ops st.recv_region m).size
        → Yields (post_receive s ops st k) m (λ p n.
          (p ≡ posted_as st st.recv_count p.request k)
          × (n.temporary ≡ m.temporary)
          × (n.work ≡ m.work)
          × (rel.view n.transport ≡ record (rel.view m.transport) {
            expected = (rel.view m.transport).expected ++ descriptor st k ∷ [];
            pending = (rel.view m.transport).pending ++ receiving p.request (tag_of st k) ∷ [];
          }))
    unfolding post_receive post_recv_prev
    post_receive-Yields k m f room =
        let call =
          ops.post_recv_prev m.transport (elements_of st st.recv_count k * st.element_size)
            (tag_of st k) st.mode in
        let law =
          rel.receives m.transport (elements_of st st.recv_count k * st.element_size) (tag_of st k)
            f.bytes_pos f.bytes_small in
        (
          posted_as st st.recv_count call.1 k,
          record m { transport = call.2 },
          rw (
            f.offset,
            f.size,
            tag_for-tag_of k m f.tagged,
            f.index,
            le→leb (st.recv_start + k * st.piece_elements + elements_of st st.recv_count k)
                (buffer_of s ops st.recv_region m).size (omega (arith, f.inside, room)),
            f.bytes,
            law.0,
          ),
          (refl, refl, refl, law.1),
        )

    -- Only the transport changes, and its record of the step grows by this message.
    pub post_send-Yields :
        (out : ℕ → s.Elem) (k : ℕ) (m : Machine T s.Elem)
        → PieceFacts st st.send_start st.send_count k
        → st.send_start + st.send_count ≤ m.work.size
        → ((j : ℕ) → j < st.send_count → m.work.at (st.send_start + j) ≡ out j)
        → Yields (post_send s ops st k) m (λ p n.
          (p ≡ posted_as st st.send_count p.request k)
          × (n.temporary ≡ m.temporary)
          × (n.work ≡ m.work)
          × (rel.view n.transport ≡ record (rel.view m.transport) {
            sent = (rel.view m.transport).sent ++ message s out st k ∷ [];
            pending = (rel.view m.transport).pending ++ sending p.request ∷ [];
          }))
    unfolding post_send post_send_next
    post_send-Yields out k m f room same =
        let payload = (message s out st k).payload in
        let bytes = elements_of st st.send_count k * st.element_size in
        let call = ops.post_send_next m.transport payload bytes (tag_of st k) st.mode in
        let law = rel.sends m.transport payload bytes (tag_of st k) f.bytes_pos f.bytes_small in
        (
          posted_as st st.send_count call.1 k,
          record m { transport = call.2 },
          rw (
            f.offset,
            f.size,
            tag_for-tag_of k m f.tagged,
            f.index,
            le→leb (st.send_start + k * st.piece_elements + elements_of st st.send_count k)
                m.work.size (omega (arith, f.inside, room)),
            f.bytes,
            copied,
            law.0,
          ),
          (refl, refl, refl, law.1),
        )
      where
        copied :
            clip s.zeroed
              (elements_of st st.send_count k)
              (λ j. m.work.at (st.send_start + k * st.piece_elements + j))
            ≡ (message s out st k).payload
        copied = clip_cong s.zeroed (elements_of st st.send_count k) _ _ (λ j h.
            ap m.work.at (add_assoc st.send_start (k * st.piece_elements) j)
            ∙ same (k * st.piece_elements + j) (omega (arith, f.inside)))
