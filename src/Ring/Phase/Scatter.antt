-- ===== src/Ring/Phase/Scatter.antt =====
-- A step of Reduce-Scatter: each piece that comes in is combined with the local block.
use native.Mathlib.Nat.{add_assoc, zero-add}
use comm_workshop_final.Prelude.{
  ℕ, suc, ◌+◌, ◌*◌, ◌≤◌, ◌<◌, ◌≡◌, refl, sym, ap, ap₂, ◌∙◌, ◌⊎◌, le→leb, arith,
}
use comm_workshop_final.Types.{Datatype, Operation}
use comm_workshop_final.Memory.{Buffer, Scalars, splice}
use comm_workshop_final.Reduction.Elementwise.{
  combine, KnownDatatype, KnownOperation, reduced, reduce_in_place-reduced,
}
use comm_workshop_final.Pieces.{piece_count_for}
use comm_workshop_final.Pieces.Bounds.{element_at_lem}
use comm_workshop_final.Transport.{TransportOps}
use comm_workshop_final.Transport.Reliable.{Reliable}
use comm_workshop_final.Ring.Machine.{Machine, done}
use comm_workshop_final.Ring.Context.{Context}
use comm_workshop_final.Ring.Step.{Step, reduce_piece}
use comm_workshop_final.Ring.Step.Setup.{
  Sized, Addressed, PieceFacts, piece_facts, tag_of, elements_of, index_in_bytes, times_mono,
}
use comm_workshop_final.Ring.Step.Posting.{posted_as}
use comm_workshop_final.Ring.Step.Batch.{Invariant}
use comm_workshop_final.Ring.Collectives.{scatter_step}
use comm_workshop_final.Ring.Phase.Fill.{
  incoming-piece, filled, filled-piece, filled-beside, filled-ahead, filled-inside, merged, covered,
}

module _ (s : Scalars) {T : Type 0} (ops : TransportOps T s.Elem) (datatype : Datatype)
    (operation : Operation) (kd : KnownDatatype datatype) (ko : KnownOperation operation)
    (c : Context T s.Elem) (element_size number : ℕ) where
  abbrev pub st : Step
  st = scatter_step c element_size number

  module _ (z : Sized st) (start : ℕ) (ta : Addressed st 0 st.recv_count)
      (wa : Addressed st start st.recv_count) where
    pub reduce_piece-reduced :
        (request : ops.Request) (k : ℕ) (m : Machine T s.Elem)
        → k < piece_count_for st.recv_count st.piece_elements
        → st.recv_count ≤ m.temporary.size
        → start + st.recv_count ≤ m.work.size
        → reduce_piece s ops st datatype operation start (posted_as st st.recv_count request k) m
          ≡ (
            done tt,
            record m {
              work =
                  reduced s datatype operation
                    (elements_of st st.recv_count k)
                    m.work
                    (start + k * st.piece_elements)
                    m.temporary
                    (k * st.piece_elements);
            },
          )
    unfolding reduce_piece
    reduce_piece-reduced request k m lt tr wr =
        let f = piece_facts st z 0 st.recv_count ta k lt in
        rw (
          index_in_bytes st z start st.recv_count wa (k * st.piece_elements)
              (omega (arith, f.inside)),
          element_at_lem (k * st.piece_elements) element_size z.element_pos (
              omega (
                arith,
                ta.bytes,
                times_mono (k * st.piece_elements) (0 + st.recv_count) element_size
                    (omega (arith, f.inside)),
              )),
          le→leb (start + k * st.piece_elements + elements_of st st.recv_count k) m.work.size
              (omega (arith, f.inside)),
          le→leb (k * st.piece_elements + elements_of st st.recv_count k) m.temporary.size
              (omega (arith, f.inside)),
          reduce_in_place-reduced s datatype operation (elements_of st st.recv_count k) m.work
              (start + k * st.piece_elements) m.temporary (k * st.piece_elements) kd ko,
        )

    -- The reduction that `reduce_piece` makes of piece `k`, on a buffer filled so far.
    pub merge_piece :
        (inbox : ℕ → ℕ → s.Elem) (work0 : Buffer s.Elem) (k : ℕ) (temporary : Buffer s.Elem)
        (contents : ℕ → s.Elem)
        → k < piece_count_for st.recv_count st.piece_elements
        → ((j : ℕ) → contents j ≡ inbox (tag_of st k) j)
        → reduced s datatype operation
            (elements_of st st.recv_count k)
            (filled work0 start (merged s datatype operation inbox st start work0) (covered st k))
            (start + k * st.piece_elements)
            (splice temporary (0 + k * st.piece_elements) (elements_of st st.recv_count k) contents)
            (k * st.piece_elements)
          ≡ filled work0 start
              (merged s datatype operation inbox st start work0)
              (covered st (suc k))
    merge_piece inbox work0 k temporary contents lt given = rw here (
        filled-piece work0 start (k * st.piece_elements) (elements_of st st.recv_count k)
          (covered st (suc k)) (merged s datatype operation inbox st start work0) _ next at_piece)
      where
        f : PieceFacts st 0 st.recv_count k
        f = piece_facts st z 0 st.recv_count ta k lt

        here : covered st k ≡ k * st.piece_elements
        here = omega (arith, f.inside)

        next : covered st (suc k) ≡ k * st.piece_elements + elements_of st st.recv_count k
        next = omega (arith, f.inside)

        at_piece :
            (i : ℕ)
            → i < elements_of st st.recv_count k
            → combine s datatype operation
                ((filled work0 start
                    (merged s datatype operation inbox st start work0)
                    (k * st.piece_elements)).at
                  (start + k * st.piece_elements + i))
                ((splice temporary
                    (0 + k * st.piece_elements)
                    (elements_of st st.recv_count k)
                    contents).at
                  (k * st.piece_elements + i))
              ≡ merged s datatype operation inbox st start work0 (k * st.piece_elements + i)
        at_piece i h =
            ap₂ (combine s datatype operation)
              (ap
                  (filled work0 start (merged s datatype operation inbox st start work0)
                    (k * st.piece_elements)).at
                  (add_assoc start (k * st.piece_elements) i)
                ∙ filled-ahead work0 start (k * st.piece_elements) (k * st.piece_elements + i)
                    (merged s datatype operation inbox st start work0) (omega arith))
              (ap
                  (splice temporary (0 + k * st.piece_elements) (elements_of st st.recv_count k)
                    contents).at
                  (ap (λ (t : ℕ). t + i) (sym (zero-add (k * st.piece_elements))))
                ∙ filled-inside temporary (0 + k * st.piece_elements)
                    (elements_of st st.recv_count k) i contents h
                ∙ given i
                ∙ sym (incoming-piece inbox st k i (omega arith)))

    module _ {inbox : ℕ → ℕ → s.Elem} (rel : Reliable ops st.mode inbox) (work0 : Buffer s.Elem)
        (room : ℕ) (fits_temporary : st.recv_count ≤ room)
        (fits_recv : start + st.recv_count ≤ work0.size)
        (fits_send : st.send_start + st.send_count ≤ work0.size)
        (apart : (st.send_start + st.send_count ≤ start)
          ⊎ (start + st.recv_count ≤ st.send_start)) where
      unfoldable pub scatter_invariant :
          Invariant s ops st rel
            (λ j. work0.at (st.send_start + j))
            (reduce_piece s ops st datatype operation start)
      scatter_invariant = record {
        Holds = λ k t w.
            (t.size ≡ room)
            × (w
                ≡ filled work0 start (merged s datatype operation inbox st start work0)
                    (covered st k));
        room = λ k m h. (
          rw (h.0, zero-add) fits_temporary,
          rw h.1 fits_send,
          λ j b. rw h.1 (
              filled-beside work0 start st.recv_count (covered st k) st.send_start st.send_count
                (merged s datatype operation inbox st start work0) j (omega arith) apart b),
        );
        absorbs = λ k request contents m lt h given.
            let arrived =
              splice m.temporary (0 + k * st.piece_elements) (elements_of st st.recv_count k)
                contents in
            (
              tt,
              record {
                transport = m.transport;
                temporary = arrived;
                work =
                    filled work0 start (merged s datatype operation inbox st start work0)
                      (covered st (suc k));
              },
              rw
                  (index_in_bytes st z 0 st.recv_count ta (k * st.piece_elements)
                    (omega (arith, (piece_facts st z 0 st.recv_count ta k lt).inside)))
                  (reduce_piece-reduced request k (record m { temporary = arrived }) lt
                      (rw h.0 fits_temporary) (rw h.1 fits_recv)
                    ∙ rw h.1 (rw (merge_piece inbox work0 k m.temporary contents lt given))),
              (refl, (h.0, refl)),
            );
      }
