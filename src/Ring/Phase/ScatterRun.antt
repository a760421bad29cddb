-- ===== src/Ring/Phase/ScatterRun.antt =====
-- `ring_reduce_scatter_inplace` on one rank, over a transport that keeps its contract.
use native.Mathlib.Numerals.{add-one}
use comm_workshop_final.Prelude.{
  ℕ, zero, suc, ◌+◌, ◌-◌, ◌≤◌, ◌<◌, ◌≡◌, ◌≢◌, refl, sym, ap, ◌∙◌, List, [], ◌++◌, arith,
}
use comm_workshop_final.Types.{Datatype, Operation}
use comm_workshop_final.Memory.{Buffer, Scalars}
use comm_workshop_final.Reduction.Elementwise.{KnownDatatype, KnownOperation}
use comm_workshop_final.Pieces.{piece_count_for}
use comm_workshop_final.Transport.{TransportOps}
use comm_workshop_final.Transport.Reliable.{
  Message, Descriptor, Link, Reliable, extend, extend-extend,
}
use comm_workshop_final.Ring.Schedule.{scatter_send_block, scatter_recv_block, owned_block_of}
use comm_workshop_final.Ring.Schedule.Blocks.{
  back-lt, back-injective, scatter_send-back, scatter_recv-back,
}
use comm_workshop_final.Ring.Machine.{Machine, M, Yields, Yields-bind, Yields-for_range, for_range}
use comm_workshop_final.Ring.Context.{Context}
use comm_workshop_final.Ring.Step.{Step, run_step, reduce_piece}
use comm_workshop_final.Ring.Step.Setup.{Sized, Addressed}
use comm_workshop_final.Ring.Step.Posting.{descriptor, message}
use comm_workshop_final.Ring.Step.Batch.{first}
use comm_workshop_final.Ring.Step.Run.{run_step-Yields}
use comm_workshop_final.Ring.Collectives.{count_of, offset_of, scatter_step, scatter_steps}
use comm_workshop_final.Ring.Phase.Fill.{filled, filled-zero, merged, covered}
use comm_workshop_final.Ring.Phase.Scatter.{scatter_invariant}
use comm_workshop_final.Ring.Phase.Ready.{
  Ready, block_inside, blocks_apart, block_bytes, count_bytes, pieces_cover, scatter_step-Sized,
}

module _ {T E : Type 0} (c : Context T E) (count element_size : ℕ) (y : Ready c count element_size)
    (number : ℕ) (h : number + 1 < c.world_size) where
  abbrev sent_block : ℕ
  sent_block = scatter_send_block c.rank c.world_size number

  abbrev received_block : ℕ
  received_block = scatter_recv_block c.rank c.world_size number

  pub sent-lt : sent_block < c.world_size
  sent-lt =
      rw (scatter_send-back c.rank c.world_size y.rank_lt number (omega arith))
        (back-lt c.rank c.world_size y.rank_lt number)

  pub received-lt : received_block < c.world_size
  received-lt =
      rw (scatter_recv-back c.rank c.world_size y.rank_lt number (omega arith))
        (back-lt c.rank c.world_size y.rank_lt (number + 1))

  pub sent-ne-received : sent_block ≢ received_block
  sent-ne-received e = absurd (
      omega (
        arith,
        back-injective c.rank c.world_size y.rank_lt number (number + 1) (omega arith) h (
            sym (scatter_send-back c.rank c.world_size y.rank_lt number (omega arith))
            ∙ e
            ∙ scatter_recv-back c.rank c.world_size y.rank_lt number (omega arith)),
      ))

module _ (s : Scalars) {T : Type 0} (datatype : Datatype) (operation : Operation)
    (c : Context T s.Elem) (element_size : ℕ) (inbox : ℕ → ℕ → s.Elem) (work : Buffer s.Elem) where
  -- The user's buffer after the first `n` steps.
  unfoldable pub scatter_work : ℕ → Buffer s.Elem
  scatter_work zero = work
  scatter_work (suc n) =
      let block = scatter_recv_block c.rank c.world_size n in
      filled (scatter_work n) (offset_of c block)
        (merged s datatype operation inbox (scatter_step c element_size n) (offset_of c block)
          (scatter_work n))
        (count_of c block)

  -- What the first `n` steps send and expect.
  unfoldable pub scatter_sent : ℕ → List (Message s.Elem)
  scatter_sent zero = []
  scatter_sent (suc n) =
      let st = scatter_step c element_size n in
      scatter_sent n
      ++ first (message s (λ j. (scatter_work n).at (st.send_start + j)) st)
          (piece_count_for st.send_count st.piece_elements)

  unfoldable pub scatter_expected : ℕ → List Descriptor
  scatter_expected zero = []
  scatter_expected (suc n) =
      let st = scatter_step c element_size n in
      scatter_expected n ++ first (descriptor st) (piece_count_for st.recv_count st.piece_elements)

  pub scatter_work-size : (n : ℕ) → (scatter_work n).size ≡ work.size
  unfolding scatter_work
  scatter_work-size zero = refl
  scatter_work-size (suc n) = scatter_work-size n

module _ (s : Scalars) {T : Type 0} (ops : TransportOps T s.Elem) (datatype : Datatype)
    (operation : Operation) (kd : KnownDatatype datatype) (ko : KnownOperation operation)
    (c : Context T s.Elem) (count element_size : ℕ) (y : Ready c count element_size)
    {inbox : ℕ → ℕ → s.Elem} (rel : Reliable ops c.config.transfer_mode inbox)
    (work : Buffer s.Elem) (fits : count ≤ work.size) (room : ℕ)
    (largest : (b : ℕ) → b < c.world_size → count_of c b ≤ room) (l : Link ops.Request s.Elem) where
  abbrev after_steps : ℕ → Buffer s.Elem
  after_steps = scatter_work s datatype operation c element_size inbox work

  -- The state between the steps.
  abbrev AfterScatter : ℕ → Machine T s.Elem → Type 0
  AfterScatter n m =
      (m.temporary.size ≡ room)
      × (m.work ≡ after_steps n)
      × (rel.view m.transport
          ≡ extend l (scatter_sent s datatype operation c element_size inbox work n)
              (scatter_expected s datatype operation c element_size inbox work n))

  scatter_step-Yields :
      (n : ℕ) (m : Machine T s.Elem)
      → n + 1 < c.world_size
      → AfterScatter n m
      → Yields
          (run_step s ops (scatter_step c element_size n) (
            reduce_piece s ops
              (scatter_step c element_size n)
              datatype
              operation
              (offset_of c (scatter_recv_block c.rank c.world_size n))))
          m
          (λ u o. AfterScatter (suc n) o)
  unfolding scatter_work scatter_sent scatter_expected scatter_invariant
  scatter_step-Yields n m h (t, w, seen) =
      let (u, o, ran, kept) =
        run_step-Yields s ops st z ra sa rel
          (scatter_invariant s ops datatype operation kd ko c element_size n z start ra wa rel
            (after_steps n) room (largest to to-lt) inside inside_sent
            (blocks_apart c count element_size y from to from-lt to-lt
              (sent-ne-received c count element_size y n h)))
          m (ap (λ k. k.pending) seen)
          (
            t,
            rw none_yet (
                w
                ∙ sym (
                    filled-zero (after_steps n) start
                      (merged s datatype operation inbox st start (after_steps n)))),
          ) in
      (
        u,
        o,
        ran,
        (
          kept.0.0,
          rw all_covered at (kept.0.1),
          kept.1 ∙ extend-extend (rel.view m.transport) l _ _ _ _ seen,
        ),
      )
    where
      st : Step
      st = scatter_step c element_size n

      from : ℕ
      from = scatter_send_block c.rank c.world_size n

      to : ℕ
      to = scatter_recv_block c.rank c.world_size n

      start : ℕ
      start = offset_of c to

      from-lt : from < c.world_size
      from-lt = sent-lt c count element_size y n h

      to-lt : to < c.world_size
      to-lt = received-lt c count element_size y n h

      z : Sized st
      z = scatter_step-Sized c count element_size y n h

      ra : Addressed st 0 st.recv_count
      ra = record {
        bytes = count_bytes c count element_size y to to-lt;
        pieces = y.pieces to to-lt;
      }

      wa : Addressed st start st.recv_count
      wa = record {
        bytes = block_bytes c count element_size y to to-lt;
        pieces = y.pieces to to-lt;
      }

      sa : Addressed st st.send_start st.send_count
      sa = record {
        bytes = block_bytes c count element_size y from from-lt;
        pieces = y.pieces from from-lt;
      }

      inside : start + st.recv_count ≤ (after_steps n).size
      inside = omega (
        arith,
        block_inside c count element_size y to to-lt,
        scatter_work-size s datatype operation c element_size inbox work n,
      )

      inside_sent : st.send_start + st.send_count ≤ (after_steps n).size
      inside_sent = omega (
        arith,
        block_inside c count element_size y from from-lt,
        scatter_work-size s datatype operation c element_size inbox work n,
      )

      none_yet : covered st 0 ≡ 0
      none_yet = omega arith

      all_covered : covered st (piece_count_for st.recv_count st.piece_elements) ≡ st.recv_count
      all_covered = omega (arith, pieces_cover c count element_size y to to-lt)

  -- Reduce-Scatter runs through: it returns the owned block, and leaves what is described above.
  pub scatter_steps-Yields :
      (m : Machine T s.Elem)
      → AfterScatter 0 m
      → Yields (scatter_steps s ops c datatype operation element_size) m (λ owned n.
        (owned ≡ owned_block_of c.rank c.world_size) × AfterScatter (c.world_size - 1) n)
  unfolding scatter_steps
  scatter_steps-Yields m start =
      Yields-bind (for_range (c.world_size - 1) 0 step tt) _ m
        (λ u. AfterScatter (c.world_size - 1)) _
        (Yields-for_range (λ n u. AfterScatter n) step (c.world_size - 1) 0 (c.world_size - 1) tt m
          (omega arith) (λ n u o lo hi q. rw add-one (scatter_step-Yields n o (omega arith) q))
          start)
        (λ u n q. (owned_block_of c.rank c.world_size, n, refl, (refl, q)))
    where
      step : ℕ → Unit {0} → M (Machine T s.Elem) (Unit {0})
      step n u = run_step s ops (scatter_step c element_size n) (
          reduce_piece s ops (scatter_step c element_size n) datatype operation
            (offset_of c (scatter_recv_block c.rank c.world_size n)))
