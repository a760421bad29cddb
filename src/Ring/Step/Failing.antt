-- ===== src/Ring/Step/Failing.antt =====
-- A step over any transport, whose calls may fail or answer anything.
pub mod Run
use native.Mathlib.Numerals.{add-one}
use comm_workshop_final.Prelude.{
  ℕ, zero, suc, ◌+◌, ◌-◌, ◌*◌, ◌^◌, ◌≤◌, ◌<◌, ◌≡◌, refl, sym, ap, subst, ◌∙◌, min, List, [], ◌∷◌,
  ◌++◌, Bool, true, false, Bool-cases, inl, inr, le→leb, if◌then◌else◌, dec_lt, arith,
}
use comm_workshop_final.Prelude.Int.{ℤ}
use comm_workshop_final.Prelude.Size.{mul_size}
use comm_workshop_final.Memory.{Buffer, Scalars, slice}
use comm_workshop_final.Pieces.{piece_count_for, batches_for}
use comm_workshop_final.Transport.{TransportOps}
use comm_workshop_final.Ring.Machine.{
  Machine, Outcome, done, returned, fault, M, pure, ◌>>=◌, ◌>>◌, for_range, for_each,
}
use comm_workshop_final.Ring.Machine.Settles.{
  Settles, Settles-bind, Settles-for_range, Settles-for_each,
}
use comm_workshop_final.Ring.Step.{
  PostedRequest, Step, buffer_of, with_buffer, Region, temporary_region, work_region, is_zero,
  transport_result, post_recv_prev, post_send_next, wait, arrive, place, post_receive, post_send,
  post_pieces, finish_receive, finish_send, run_batch, run_step,
}
use comm_workshop_final.Ring.Step.Setup.{
  Sized, Addressed, PieceFacts, piece_facts, tag_of, elements_of,
}
use comm_workshop_final.Ring.Step.Posting.{posted_as, tag_for-tag_of}
use comm_workshop_final.Ring.Step.Batch.{Pieces, Pieces-snoc}

module _ (s : Scalars) {T : Type 0} (ops : TransportOps T s.Elem) (room work_size : ℕ) where
  -- The buffers keep their sizes.
  abbrev pub Sizes : Machine T s.Elem → Type 0
  Sizes m = (m.temporary.size ≡ room) × (m.work.size ≡ work_size)

  transport_result-Settles :
      {A : Type 0} (status : ℤ) (a : A) (m : Machine T s.Elem) (Q : A → Machine T s.Elem → Type 0)
      → Sizes m
      → Q a m
      → Settles Sizes Q (transport_result s ops status a m)
  transport_result-Settles status a m Q i q = elim (Bool-cases (is_zero status)) [
    | inl ok ↦ rw ok q
    | inr failed ↦ rw failed (refl, i)
  ]

  module _ (st : Step) (z : Sized st) (ra : Addressed st st.recv_start st.recv_count)
      (sa : Addressed st st.send_start st.send_count)
      (recv_room : (m : Machine T s.Elem)
        → Sizes m
        → st.recv_start + st.recv_count ≤ (buffer_of s ops st.recv_region m).size)
      (send_room : st.send_start + st.send_count ≤ work_size) where
    abbrev recv_pieces : ℕ
    recv_pieces = piece_count_for st.recv_count st.piece_elements

    abbrev send_pieces : ℕ
    send_pieces = piece_count_for st.send_count st.piece_elements

    -- The posted request of piece `k`.
    abbrev Posts : ℕ → ℕ → PostedRequest ops.Request → Machine T s.Elem → Type 0
    Posts count k p m = (p ≡ posted_as st count p.request k) × Sizes m

    post_recv_prev-Settles :
        (bytes tag : ℕ) (m : Machine T s.Elem)
        → Sizes m
        → Settles Sizes (λ r. Sizes) (post_recv_prev s ops st bytes tag m)
    unfolding post_recv_prev
    post_recv_prev-Settles bytes tag m i =
        let (status, request, t) = ops.post_recv_prev m.transport bytes tag st.mode in
        transport_result-Settles status request (record m { transport = t }) (λ r. Sizes) i i

    post_send_next-Settles :
        (payload : Buffer s.Elem) (bytes tag : ℕ) (m : Machine T s.Elem)
        → Sizes m
        → Settles Sizes (λ r. Sizes) (post_send_next s ops st payload bytes tag m)
    unfolding post_send_next
    post_send_next-Settles payload bytes tag m i =
        let (status, request, t) = ops.post_send_next m.transport payload bytes tag st.mode in
        transport_result-Settles status request (record m { transport = t }) (λ r. Sizes) i i

    pub wait-Settles :
        (request : ops.Request) (m : Machine T s.Elem)
        → Sizes m
        → Settles Sizes (λ r. Sizes) (wait s ops request m)
    unfolding wait
    wait-Settles request m i =
        let (status, contents, t) = ops.wait m.transport request in
        transport_result-Settles status contents (record m { transport = t }) (λ r. Sizes) i i

    pub post_receive-Settles :
        (k : ℕ) (m : Machine T s.Elem)
        → k < recv_pieces
        → Sizes m
        → Settles Sizes (Posts st.recv_count k) (post_receive s ops st k m)
    unfolding post_receive
    post_receive-Settles k m lt i =
        let f = piece_facts st z st.recv_start st.recv_count ra k lt in
        rw
          (
            f.offset,
            f.size,
            tag_for-tag_of s ops st z k m f.tagged,
            f.index,
            le→leb (st.recv_start + k * st.piece_elements + elements_of st st.recv_count k)
                (buffer_of s ops st.recv_region m).size (omega (arith, f.inside, recv_room m i)),
          )
          (Settles-bind Sizes
            (post_recv_prev s ops st (mul_size (elements_of st st.recv_count k) st.element_size)
              (tag_of st k))
            (λ request. pure (posted_as st st.recv_count request k)) m (λ r. Sizes)
            (Posts st.recv_count k)
            (post_recv_prev-Settles (mul_size (elements_of st st.recv_count k) st.element_size)
              (tag_of st k) m i)
            (λ r n j. (refl, j)))

    pub post_send-Settles :
        (k : ℕ) (m : Machine T s.Elem)
        → k < send_pieces
        → Sizes m
        → Settles Sizes (Posts st.send_count k) (post_send s ops st k m)
    unfolding post_send
    post_send-Settles k m lt i =
        let f = piece_facts st z st.send_start st.send_count sa k lt in
        rw
          (
            f.offset,
            f.size,
            tag_for-tag_of s ops st z k m f.tagged,
            f.index,
            le→leb (st.send_start + k * st.piece_elements + elements_of st st.send_count k)
                m.work.size (omega (arith, f.inside, send_room, i.1)),
          )
          (Settles-bind Sizes
            (λ m'.
              post_send_next s ops st
                (slice s.zeroed m'.work (st.send_start + k * st.piece_elements)
                  (elements_of st st.send_count k))
                (mul_size (elements_of st st.send_count k) st.element_size) (tag_of st k) m')
            (λ request. pure (posted_as st st.send_count request k)) m (λ r. Sizes)
            (Posts st.send_count k)
            (post_send_next-Settles _ (mul_size (elements_of st st.send_count k) st.element_size)
              (tag_of st k) m i)
            (λ r n j. (refl, j)))

    -- The posting loops leave the requests of the pieces that they went through.
    pub post_pieces-Settles :
        (count to from : ℕ) (post : ℕ → M (Machine T s.Elem) (PostedRequest ops.Request))
        (m : Machine T s.Elem)
        → ((k : ℕ) (n : Machine T s.Elem)
            → k < to
            → Sizes n
            → Settles Sizes (Posts count k) (post k n))
        → Sizes m
        → Settles Sizes
            (λ ps n. Pieces st count (min from to) to ps × Sizes n)
            (post_pieces s ops post from to m)
    unfolding post_pieces for_range
    post_pieces-Settles count to from post m one i = elim (dec_lt to from) [
      | yes past ↦
          let none_left : to - from ≡ 0 = omega arith in
          let here : min from to ≡ to = omega arith in rw (none_left, here) (refl, i)
      | no before ↦
          let here : min from to ≡ from = omega arith in
          rw here (
            Settles-for_range Sizes (λ k ps n. Pieces st count from k ps × Sizes n)
              (λ piece ps. post piece >>= λ p. pure (ps ++ p ∷ [])) (to - from) from to [] m
              (omega arith)
              (λ k ps n lo hi q.
                Settles-bind Sizes (post k) (λ p. pure (ps ++ p ∷ [])) n (Posts count k)
                  (λ qs o. Pieces st count from (k + 1) qs × Sizes o) (one k n hi q.1)
                  (λ p o r. (rw add-one (Pieces-snoc st count from k ps p q.0 r.0), r.1)))
              (refl, i))
    ]
