-- ===== src/Ring/Phase/GatherRun.antt =====
-- `ring_all_gather_inplace` on one rank, over a transport that keeps its contract.
use native.Mathlib.Numerals.{add-one}
use native.Mathlib.Nat.{mod-lt}
use comm_workshop_final.Prelude.{
  ℕ, zero, suc, ◌+◌, ◌-◌, ◌≤◌, ◌<◌, ◌≡◌, ◌≢◌, refl, sym, ap, ◌∙◌, List, [], ◌++◌, arith,
}
use comm_workshop_final.Memory.{Buffer, Scalars}
use comm_workshop_final.Pieces.{piece_count_for}
use comm_workshop_final.Transport.{TransportOps}
use comm_workshop_final.Transport.Reliable.{
  Message, Descriptor, Link, Reliable, extend, extend-extend,
}
use comm_workshop_final.Ring.Schedule.{gather_send_block, gather_recv_block}
use comm_workshop_final.Ring.Schedule.Blocks.{
  back, back-lt, back-suc_ne, gather_send-back, gather_recv-back,
}
use comm_workshop_final.Ring.Machine.{Machine, pure, Yields, Yields-for_range}
use comm_workshop_final.Ring.Context.{Context}
use comm_workshop_final.Ring.Step.{Step, run_step}
use comm_workshop_final.Ring.Step.Setup.{Sized, Addressed}
use comm_workshop_final.Ring.Step.Posting.{descriptor, message}
use comm_workshop_final.Ring.Step.Batch.{first}
use comm_workshop_final.Ring.Step.Run.{run_step-Yields}
use comm_workshop_final.Ring.Collectives.{count_of, offset_of, gather_step, gather_steps}
use comm_workshop_final.Ring.Phase.Fill.{incoming, filled, filled-zero, covered}
use comm_workshop_final.Ring.Phase.Gather.{gather_invariant}
use comm_workshop_final.Ring.Phase.Ready.{
  Ready, block_inside, blocks_apart, block_bytes, pieces_cover, gather_step-Sized,
}

module _ {T E : Type 0} (c : Context T E) (count element_size : ℕ) (y : Ready c count element_size)
    (number : ℕ) (h : number + 1 < c.world_size) where
  abbrev sent_block : ℕ
  sent_block = gather_send_block c.rank c.world_size number

  abbrev received_block : ℕ
  received_block = gather_recv_block c.rank c.world_size number

  -- One rank further on: the block that is sent lies one place ahead of the received one.
  ahead : sent_block ≡ back (c.rank + 1) c.world_size number
  ahead = gather_send-back c.rank c.world_size y.rank_lt number (omega arith)

  pub sent-lt : sent_block < c.world_size
  sent-lt = rw ahead (mod-lt (c.rank + 1 + c.world_size - number) (omega arith))

  pub received-lt : received_block < c.world_size
  received-lt =
      rw (gather_recv-back c.rank c.world_size y.rank_lt number (omega arith))
        (back-lt c.rank c.world_size y.rank_lt number)

  pub sent-ne-received : sent_block ≢ received_block
  sent-ne-received e =
      back-suc_ne c.rank c.world_size y.rank_lt number h
        (sym ahead ∙ e ∙ gather_recv-back c.rank c.world_size y.rank_lt number (omega arith))

module _ (s : Scalars) {T : Type 0} (c : Context T s.Elem) (element_size : ℕ)
    (inbox : ℕ → ℕ → s.Elem) (work : Buffer s.Elem) where
  -- The user's buffer after the first `n` steps.
  unfoldable pub gather_work : ℕ → Buffer s.Elem
  gather_work zero = work
  gather_work (suc n) =
      let block = gather_recv_block c.rank c.world_size n in
      filled (gather_work n) (offset_of c block) (incoming inbox (gather_step c element_size n))
        (count_of c block)

  -- What the first `n` steps send and expect.
  unfoldable pub gather_sent : ℕ → List (Message s.Elem)
  gather_sent zero = []
  gather_sent (suc n) =
      let st = gather_step c element_size n in
      gather_sent n
      ++ first (message s (λ j. (gather_work n).at (st.send_start + j)) st)
          (piece_count_for st.send_count st.piece_elements)

  unfoldable pub gather_expected : ℕ → List Descriptor
  gather_expected zero = []
  gather_expected (suc n) =
      let st = gather_step c element_size n in
      gather_expected n ++ first (descriptor st) (piece_count_for st.recv_count st.piece_elements)

  pub gather_work-size : (n : ℕ) → (gather_work n).size ≡ work.size
  unfolding gather_work
  gather_work-size zero = refl
  gather_work-size (suc n) = gather_work-size n

module _ (s : Scalars) {T : Type 0} (ops : TransportOps T s.Elem) (c : Context T s.Elem)
    (count element_size : ℕ) (y : Ready c count element_size) {inbox : ℕ → ℕ → s.Elem}
    (rel : Reliable ops c.config.transfer_mode inbox) (work : Buffer s.Elem)
    (fits : count ≤ work.size) (l : Link ops.Request s.Elem) where
  abbrev after_steps : ℕ → Buffer s.Elem
  after_steps = gather_work s c element_size inbox work

  -- The state between the steps.
  abbrev AfterGather : ℕ → Machine T s.Elem → Type 0
  AfterGather n m =
      (m.work ≡ after_steps n)
      × (rel.view m.transport
          ≡ extend l (gather_sent s c element_size inbox work n)
              (gather_expected s c element_size inbox work n))

  gather_step-Yields :
      (n : ℕ) (m : Machine T s.Elem)
      → n + 1 < c.world_size
      → AfterGather n m
      → Yields
          (run_step s ops (gather_step c element_size n) (λ p. pure tt))
          m
          (λ u o. AfterGather (suc n) o)
  unfolding gather_work gather_sent gather_expected gather_invariant
  gather_step-Yields n m h (w, seen) =
      let (u, o, ran, kept) =
        run_step-Yields s ops st z ra sa rel
          (gather_invariant s ops c element_size n z ra rel (after_steps n) inside inside_sent (
            blocks_apart c count element_size y from to from-lt to-lt
              (sent-ne-received c count element_size y n h)))
          m (ap (λ k. k.pending) seen)
          (rw none_yet
            (w ∙ sym (filled-zero (after_steps n) (offset_of c to) (incoming inbox st)))) in
      (
        u,
        o,
        ran,
        (rw all_covered at (kept.0), kept.1 ∙ extend-extend (rel.view m.transport) l _ _ _ _ seen),
      )
    where
      st : Step
      st = gather_step c element_size n

      from : ℕ
      from = gather_send_block c.rank c.world_size n

      to : ℕ
      to = gather_recv_block c.rank c.world_size n

      from-lt : from < c.world_size
      from-lt = sent-lt c count element_size y n h

      to-lt : to < c.world_size
      to-lt = received-lt c count element_size y n h

      z : Sized st
      z = gather_step-Sized c count element_size y n h

      ra : Addressed st st.recv_start st.recv_count
      ra = record {
        bytes = block_bytes c count element_size y to to-lt;
        pieces = y.pieces to to-lt;
      }

      sa : Addressed st st.send_start st.send_count
      sa = record {
        bytes = block_bytes c count element_size y from from-lt;
        pieces = y.pieces from from-lt;
      }

      inside : st.recv_start + st.recv_count ≤ (after_steps n).size
      inside = omega (
        arith,
        block_inside c count element_size y to to-lt,
        gather_work-size s c element_size inbox work n,
      )

      inside_sent : st.send_start + st.send_count ≤ (after_steps n).size
      inside_sent = omega (
        arith,
        block_inside c count element_size y from from-lt,
        gather_work-size s c element_size inbox work n,
      )

      none_yet : covered st 0 ≡ 0
      none_yet = omega arith

      all_covered : covered st (piece_count_for st.recv_count st.piece_elements) ≡ st.recv_count
      all_covered = omega (arith, pieces_cover c count element_size y to to-lt)

  -- All-Gather runs through, and leaves what is described above.
  pub gather_steps-Yields :
      (m : Machine T s.Elem)
      → AfterGather 0 m
      → Yields (gather_steps s ops c element_size) m (λ u n. AfterGather (c.world_size - 1) n)
  unfolding gather_steps
  gather_steps-Yields m start =
      Yields-for_range (λ n u. AfterGather n)
        (λ number u. run_step s ops (gather_step c element_size number) (λ p. pure tt))
        (c.world_size - 1) 0 (c.world_size - 1) tt m (omega arith)
        (λ n u o lo hi q. rw add-one (gather_step-Yields n o (omega arith) q)) start
