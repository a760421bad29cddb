-- ===== src/Ring/World/Gather.antt =====
-- The buffers of all ranks through All-Gather.
use comm_workshop_final.Prelude.{
  ℕ, zero, suc, ◌+◌, ◌-◌, ◌≤◌, ◌<◌, ◌≡◌, ◌≢◌, sym, ap, subst, ◌∙◌, All-append_right, dec_lt, arith,
}
use comm_workshop_final.Types.{Datatype, Operation}
use comm_workshop_final.Memory.{Buffer, Scalars}
use comm_workshop_final.Pieces.Bounds.{piece_elements_for-pos}
use comm_workshop_final.Ring.Schedule.{gather_send_block, gather_recv_block}
use comm_workshop_final.Ring.Schedule.Blocks.{
  next_rank, next_rank-lt, back, back-lt, back-injective, back-zero, back-next, gather_send-back,
  gather_recv-back,
}
use comm_workshop_final.Ring.Schedule.Matching.{back_of_next}
use comm_workshop_final.Ring.Schedule.Around.{
  next_rank-previous, previous-next_rank, back-last, back-back,
}
use comm_workshop_final.Ring.Context.{Context}
use comm_workshop_final.Ring.Collectives.{count_of, offset_of, gather_step}
use comm_workshop_final.Ring.Phase.Fill.{incoming, filled-inside, filled-beside, filled-outside}
use comm_workshop_final.Ring.Phase.Ready.{Ready, block_inside, blocks_apart}
use comm_workshop_final.Ring.Phase.ScatterRun.{scatter_sent}
use comm_workshop_final.Ring.Phase.GatherRun.{gather_work}
use comm_workshop_final.Ring.World.{
  member, previous_rank, Delivered, Wired, scattered, gathered, chain,
}
use comm_workshop_final.Ring.World.Wiring.{Delivered-elements, All-gather_sent}
use comm_workshop_final.Ring.World.Scatter.{block_and_piece, scattered-chain, scattered-outside}

module _ (s : Scalars) {T : Type 0} (datatype : Datatype) (operation : Operation)
    (c : Context T s.Elem) (count element_size : ℕ)
    (y : (r : ℕ) → r < c.world_size → Ready (member c r) count element_size)
    (inbox : ℕ → ℕ → ℕ → s.Elem) (work : ℕ → Buffer s.Elem)
    (wired : Wired s datatype operation c element_size inbox work) where
  abbrev size : ℕ
  size = c.world_size

  abbrev buffer : ℕ → ℕ → Buffer s.Elem
  buffer = gathered s datatype operation c element_size inbox work

  -- The element that every rank ends with at index `i` of block `b`: the rank before `b` combines
  -- its own with those that it got.
  abbrev pub result : ℕ → ℕ → s.Elem
  result b i = chain s datatype operation size work (previous_rank b size) (size - 1) i

  abbrev HoldsResult : ℕ → ℕ → ℕ → Type 0
  HoldsResult r n b =
      (j : ℕ)
      → j < count_of c b
      → (buffer r n).at (offset_of c b + j) ≡ result b (offset_of c b + j)

  -- What a rank receives in a step is the block as the previous rank has it.
  received :
      (r n j : ℕ)
      → r < size
      → n + 1 < size
      → j < count_of c (back r size n)
      → incoming (inbox r) (gather_step (member c r) element_size n) j
        ≡ (buffer (previous_rank r size) n).at (offset_of c (back r size n) + j)
  received r n j h k inside =
      Delivered-elements s (inbox r)
        (λ i. (buffer q n).at (offset_of c (gather_send_block q size n) + i))
        (gather_step (member c q) element_size n) (piece_elements_for-pos c.config element_size)
        (block_and_piece s datatype operation c count element_size y inbox work wired q
          (gather_send_block q size n) lt (rw block (back-lt r size h n)))
        (All-gather_sent s datatype operation (member c q) element_size (inbox q)
          (scattered s datatype operation c element_size inbox work q (size - 1))
          (Delivered (inbox r)) (size - 1) n
          (All-append_right (Delivered (inbox r))
            (scatter_sent s datatype operation (member c q) element_size (inbox q) (work q)
              (size - 1))
            _ (wired r h))
          (omega arith))
        j (rw block inside)
      ∙ ap (λ b. (buffer q n).at (offset_of c b + j)) block
    where
      q : ℕ
      q = previous_rank r size

      lt : q < size
      lt = back-lt r size h 1

      block : gather_send_block q size n ≡ back r size n
      block =
          gather_send-back q size lt n (omega arith)
          ∙ sym (back_of_next q size lt n (omega arith))
          ∙ ap (λ (t : ℕ). back t size n) (next_rank-previous r size h)

  -- A step brings the result if the previous rank has it,
  step_inside :
      (r n : ℕ)
      → r < size
      → n + 1 < size
      → HoldsResult (previous_rank r size) n (back r size n)
      → HoldsResult r (suc n) (back r size n)
  unfolding gather_work
  step_inside r n h k before = subst (HoldsResult r (suc n)) block (λ j lt.
      filled-inside (buffer r n) (offset_of c to) (count_of c to) j
        (incoming (inbox r) (gather_step (member c r) element_size n)) lt
      ∙ subst
          (λ b.
            j < count_of c b
            → incoming (inbox r) (gather_step (member c r) element_size n) j
              ≡ result b (offset_of c b + j))
          (sym block) (λ inside. received r n j h k inside ∙ before j inside) lt)
    where
      to : ℕ
      to = gather_recv_block r size n

      block : to ≡ back r size n
      block = gather_recv-back r size h n (omega arith)

  -- and leaves the other blocks alone.
  step_beside :
      (r n b : ℕ)
      → r < size
      → n + 1 < size
      → b < size
      → b ≢ back r size n
      → HoldsResult r n b
      → HoldsResult r (suc n) b
  unfolding gather_work
  step_beside r n b h k lt ne before j inside =
      filled-beside (buffer r n) (offset_of c to) (count_of c to) (count_of c to) (offset_of c b)
        (count_of c b) (incoming (inbox r) (gather_step (member c r) element_size n)) j
        (omega arith)
        (blocks_apart (member c r) count element_size (y r h) b to lt
          (rw block (back-lt r size h n)) (λ e. ne (e ∙ block)))
        inside
      ∙ before j inside
    where
      to : ℕ
      to = gather_recv_block r size n

      block : to ≡ back r size n
      block = gather_recv-back r size h n (omega arith)

  -- Reduce-Scatter ends with the result of the next rank's block.
  own_result : (r : ℕ) → r < size → HoldsResult r 0 (next_rank r size)
  unfolding gather_work
  own_result r h j lt =
      subst
        (λ b.
          j < count_of c b
          → (scattered s datatype operation c element_size inbox work r (size - 1)).at
              (offset_of c b + j)
            ≡ chain s datatype operation size work r (size - 1) (offset_of c b + j))
        (back-last r size h)
        (scattered-chain s datatype operation c count element_size y inbox work wired (size - 1) r h
          (omega arith) j)
        lt
      ∙ ap
          (λ q.
            chain s datatype operation size work q (size - 1) (offset_of c (next_rank r size) + j))
          (sym (previous-next_rank r size h))

  -- After `n` steps of All-Gather a rank has the results of its own block and of the `n` before it.
  gathered-result :
      (n r m : ℕ) → r < size → n < size → m ≤ n → HoldsResult r n (back (next_rank r size) size m)
  unfolding gather_work
  gathered-result zero r m h k l =
      subst (HoldsResult r 0)
        (sym (back-zero (next_rank r size) size (next_rank-lt r size h))
          ∙ ap (back (next_rank r size) size) (omega arith))
        (own_result r h)
  gathered-result (suc n) r m h k l = elim (dec_lt m (suc n)) [
    | yes old ↦
        step_beside r n (back (next_rank r size) size m) h (omega arith)
          (back-lt (next_rank r size) size (next_rank-lt r size h) m)
          (λ e. absurd (
            omega (
              arith,
              back-injective (next_rank r size) size (next_rank-lt r size h) m (n + 1) (omega arith)
                  (omega arith) (e ∙ sym (back-next r size h n (omega arith))),
            )))
          (gathered-result n r m h (omega arith) (omega arith))
    | no new ↦
        subst (HoldsResult r (suc n))
          (sym (back-next r size h n (omega arith))
            ∙ ap (back (next_rank r size) size) (omega arith))
          (step_inside r n h (omega arith) (
            subst (HoldsResult (previous_rank r size) n)
              (ap (λ (t : ℕ). back t size n) (next_rank-previous r size h))
              (gathered-result n (previous_rank r size) n (back-lt r size h 1) (omega arith)
                (omega arith))))
  ]

  -- In the end a rank has the results of all blocks.
  pub gathered-result_all : (r b : ℕ) → r < size → b < size → HoldsResult r (size - 1) b
  gathered-result_all r b h k =
      subst (HoldsResult r (size - 1))
        (back-back (next_rank r size) size (next_rank-lt r size h) b k)
        (gathered-result (size - 1) r (back (next_rank r size) size b) h (omega arith)
          (omega (arith, back-lt (next_rank r size) size (next_rank-lt r size h) b)))

  -- Elements outside the blocks are never written.
  pub gathered-outside :
      (n r i : ℕ) → r < size → n < size → count ≤ i → (buffer r n).at i ≡ (work r).at i
  unfolding gather_work
  gathered-outside zero r i h k out =
      scattered-outside s datatype operation c count element_size y inbox work wired (size - 1) r i
        h (omega arith) out
  gathered-outside (suc n) r i h k out =
      filled-outside (buffer r n) (offset_of c to) (count_of c to) i
        (incoming (inbox r) (gather_step (member c r) element_size n))
        (omega (
          arith,
          block_inside (member c r) count element_size (y r h) to
              (rw (gather_recv-back r size h n (omega arith)) (back-lt r size h n)),
        ))
      ∙ gathered-outside n r i h (omega arith) out
    where
      to : ℕ
      to = gather_recv_block r size n
