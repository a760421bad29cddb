-- ===== src/Ring/Phase/Gather.antt =====
-- A step of All-Gather: each piece that comes in goes straight into the user's buffer.
use comm_workshop_final.Prelude.{ℕ, suc, ◌+◌, ◌*◌, ◌≤◌, ◌<◌, ◌≡◌, refl, sym, ◌∙◌, ◌⊎◌, arith}
use comm_workshop_final.Memory.{Buffer, Scalars, splice}
use comm_workshop_final.Pieces.{piece_count_for}
use comm_workshop_final.Transport.{TransportOps}
use comm_workshop_final.Transport.Reliable.{Reliable}
use comm_workshop_final.Ring.Machine.{pure}
use comm_workshop_final.Ring.Context.{Context}
use comm_workshop_final.Ring.Step.{Step}
use comm_workshop_final.Ring.Step.Setup.{
  Sized, Addressed, PieceFacts, piece_facts, tag_of, elements_of, index_in_bytes,
}
use comm_workshop_final.Ring.Step.Batch.{Invariant}
use comm_workshop_final.Ring.Collectives.{gather_step}
use comm_workshop_final.Ring.Phase.Fill.{
  incoming, incoming-piece, filled, filled-piece, filled-beside, covered,
}

module _ (s : Scalars) {T : Type 0} (ops : TransportOps T s.Elem) (c : Context T s.Elem)
    (element_size number : ℕ) where
  abbrev pub st : Step
  st = gather_step c element_size number

  module _ (z : Sized st) (ra : Addressed st st.recv_start st.recv_count) {inbox : ℕ → ℕ → s.Elem}
      (rel : Reliable ops st.mode inbox) (work0 : Buffer s.Elem)
      (fits_recv : st.recv_start + st.recv_count ≤ work0.size)
      (fits_send : st.send_start + st.send_count ≤ work0.size)
      (apart : (st.send_start + st.send_count ≤ st.recv_start)
        ⊎ (st.recv_start + st.recv_count ≤ st.send_start)) where
    pub place_piece :
        (k : ℕ) (contents : ℕ → s.Elem)
        → k < piece_count_for st.recv_count st.piece_elements
        → ((j : ℕ) → contents j ≡ inbox (tag_of st k) j)
        → splice
            (filled work0 st.recv_start (incoming inbox st) (covered st k))
            (st.recv_start + k * st.piece_elements)
            (elements_of st st.recv_count k)
            contents
          ≡ filled work0 st.recv_start (incoming inbox st) (covered st (suc k))
    place_piece k contents lt given = rw here (
        filled-piece work0 st.recv_start (k * st.piece_elements) (elements_of st st.recv_count k)
          (covered st (suc k)) (incoming inbox st) contents next
          (λ i h. given i ∙ sym (incoming-piece inbox st k i (omega arith))))
      where
        f : PieceFacts st st.recv_start st.recv_count k
        f = piece_facts st z st.recv_start st.recv_count ra k lt

        here : covered st k ≡ k * st.piece_elements
        here = omega (arith, f.inside)

        next : covered st (suc k) ≡ k * st.piece_elements + elements_of st st.recv_count k
        next = omega (arith, f.inside)

    unfoldable pub gather_invariant :
        Invariant s ops st rel (λ j. work0.at (st.send_start + j)) (λ p. pure tt)
    gather_invariant = record {
      Holds = λ k t w. w ≡ filled work0 st.recv_start (incoming inbox st) (covered st k);
      room = λ k m h. (
        rw h fits_recv,
        rw h fits_send,
        λ j b. rw h (
            filled-beside work0 st.recv_start st.recv_count (covered st k) st.send_start
              st.send_count (incoming inbox st) j (omega arith) apart b),
      );
      absorbs = λ k request contents m lt h given. (
        tt,
        record m { work = filled work0 st.recv_start (incoming inbox st) (covered st (suc k)) },
        rw
            (index_in_bytes st z st.recv_start st.recv_count ra (k * st.piece_elements)
              (omega (arith, (piece_facts st z st.recv_start st.recv_count ra k lt).inside)))
            (rw h (rw (place_piece k contents lt given))),
        (refl, refl),
      );
    }
