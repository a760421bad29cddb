-- ===== src/Ring/World/Scatter.antt =====
-- The buffers of all ranks through Reduce-Scatter.
use comm_workshop_final.Prelude.{
  ℕ, zero, suc, ◌+◌, ◌-◌, ◌≤◌, ◌<◌, ◌≡◌, ◌≢◌, refl, ap, ap₂, subst, ◌∙◌, All-append_left, arith,
}
use comm_workshop_final.Prelude.Size.{size_mod}
use comm_workshop_final.Types.{Datatype, Operation}
use comm_workshop_final.Memory.{Buffer, Scalars}
use comm_workshop_final.Reduction.Elementwise.{combine}
use comm_workshop_final.Pieces.{piece_elements_for}
use comm_workshop_final.Pieces.Bounds.{piece_elements_for-pos}
use comm_workshop_final.Ring.Schedule.{scatter_send_block, scatter_recv_block}
use comm_workshop_final.Ring.Schedule.Blocks.{
  back, back-lt, back-injective, scatter_send-back, scatter_recv-back,
}
use comm_workshop_final.Ring.Schedule.Around.{back-previous}
use comm_workshop_final.Ring.Context.{Context}
use comm_workshop_final.Ring.Collectives.{count_of, offset_of, scatter_step}
use comm_workshop_final.Ring.Step.Setup.{le-times}
use comm_workshop_final.Ring.Phase.Fill.{
  incoming, merged, filled-inside, filled-beside, filled-outside,
}
use comm_workshop_final.Ring.Phase.Ready.{Ready, block_inside, blocks_apart}
use comm_workshop_final.Ring.Phase.ScatterRun.{scatter_work}
use comm_workshop_final.Ring.World.{member, previous_rank, Delivered, Wired, scattered, chain}
use comm_workshop_final.Ring.World.Wiring.{Delivered-elements, All-scatter_sent}

module _ (s : Scalars) {T : Type 0} (datatype : Datatype) (operation : Operation)
    (c : Context T s.Elem) (count element_size : ℕ)
    (y : (r : ℕ) → r < c.world_size → Ready (member c r) count element_size)
    (inbox : ℕ → ℕ → ℕ → s.Elem) (work : ℕ → Buffer s.Elem)
    (wired : Wired s datatype operation c element_size inbox work) where
  abbrev size : ℕ
  size = c.world_size

  abbrev buffer : ℕ → ℕ → Buffer s.Elem
  buffer = scattered s datatype operation c element_size inbox work

  abbrev value : ℕ → ℕ → ℕ → s.Elem
  value = chain s datatype operation size work

  -- A block and a piece together stay below 2 ^ 64.
  pub block_and_piece :
      (r b : ℕ)
      → r < size
      → b < size
      → count_of c b + piece_elements_for c.config element_size < size_mod
  block_and_piece r b h k = omega (
    arith,
    (y r h).bytes,
    (y r h).piece_bytes,
    block_inside (member c r) count element_size (y r h) b k,
    le-times count element_size (y r h).element_pos,
    le-times (piece_elements_for c.config element_size) element_size (y r h).element_pos,
  )

  -- What a rank receives in a step is the block as the previous rank has it.
  received :
      (r n j : ℕ)
      → r < size
      → n + 1 < size
      → j < count_of c (back r size (n + 1))
      → incoming (inbox r) (scatter_step (member c r) element_size n) j
        ≡ (buffer (previous_rank r size) n).at (offset_of c (back r size (n + 1)) + j)
  received r n j h k inside =
      Delivered-elements s (inbox r)
        (λ i. (buffer q n).at (offset_of c (scatter_send_block q size n) + i))
        (scatter_step (member c q) element_size n) (piece_elements_for-pos c.config element_size)
        (block_and_piece q (scatter_send_block q size n) lt (rw block (back-lt r size h (n + 1))))
        (All-scatter_sent s datatype operation (member c q) element_size (inbox q) (work q)
          (Delivered (inbox r)) (size - 1) n (All-append_left (Delivered (inbox r)) _ _ (wired r h))
          (omega arith))
        j (rw block inside)
      ∙ ap (λ b. (buffer q n).at (offset_of c b + j)) block
    where
      q : ℕ
      q = previous_rank r size

      lt : q < size
      lt = back-lt r size h 1

      block : scatter_send_block q size n ≡ back r size (n + 1)
      block = scatter_send-back q size lt n (omega arith) ∙ back-previous r size h n k

  -- A step combines the received block with what comes in,
  step_inside :
      (r n j : ℕ)
      → r < size
      → n + 1 < size
      → j < count_of c (back r size (n + 1))
      → (buffer r (suc n)).at (offset_of c (back r size (n + 1)) + j)
        ≡ combine s datatype operation
            ((buffer r n).at (offset_of c (back r size (n + 1)) + j))
            (incoming (inbox r) (scatter_step (member c r) element_size n) j)
  unfolding scatter_work
  step_inside r n j h k inside =
      subst
        (λ b.
          j < count_of c b
          → (buffer r (suc n)).at (offset_of c b + j)
            ≡ combine s datatype operation ((buffer r n).at (offset_of c b + j))
                (incoming (inbox r) (scatter_step (member c r) element_size n) j))
        (scatter_recv-back r size h n (omega arith))
        (λ lt.
          filled-inside (buffer r n) (offset_of c (scatter_recv_block r size n))
            (count_of c (scatter_recv_block r size n)) j
            (merged s datatype operation (inbox r) (scatter_step (member c r) element_size n)
              (offset_of c (scatter_recv_block r size n)) (buffer r n))
            lt)
        inside

  -- and leaves the other blocks alone.
  step_beside :
      (r n b j : ℕ)
      → r < size
      → n + 1 < size
      → b < size
      → b ≢ back r size (n + 1)
      → j < count_of c b
      → (buffer r (suc n)).at (offset_of c b + j) ≡ (buffer r n).at (offset_of c b + j)
  unfolding scatter_work
  step_beside r n b j h k lt ne inside =
      filled-beside (buffer r n) (offset_of c to) (count_of c to) (count_of c to) (offset_of c b)
        (count_of c b)
        (merged s datatype operation (inbox r) (scatter_step (member c r) element_size n)
          (offset_of c to) (buffer r n))
        j (omega arith)
        (blocks_apart (member c r) count element_size (y r h) b to lt
          (rw block (back-lt r size h (n + 1))) (λ e. ne (e ∙ block)))
        inside
    where
      to : ℕ
      to = scatter_recv_block r size n

      block : to ≡ back r size (n + 1)
      block = scatter_recv-back r size h n (omega arith)

  -- The blocks that are still to come hold the rank's own elements.
  still_own :
      (r n m j : ℕ)
      → r < size
      → n < m
      → m < size
      → j < count_of c (back r size m)
      → (buffer r n).at (offset_of c (back r size m) + j)
        ≡ (work r).at (offset_of c (back r size m) + j)
  unfolding scatter_work
  still_own r zero m j h a b inside = refl
  still_own r (suc n) m j h a b inside =
      step_beside r n (back r size m) j h (omega arith) (back-lt r size h m)
        (λ e. absurd (omega (arith, back-injective r size h m (n + 1) b (omega arith) e))) inside
      ∙ still_own r n m j h (omega arith) b inside

  -- At block `b`, rank `r` holds the elements of ranks `r` to `r - n`, combined.
  abbrev HoldsChain : ℕ → ℕ → ℕ → Type 0
  HoldsChain r n b =
      (j : ℕ)
      → j < count_of c b
      → (buffer r n).at (offset_of c b + j) ≡ value r n (offset_of c b + j)

  next_chain :
      (r n : ℕ)
      → r < size
      → n + 1 < size
      → HoldsChain (previous_rank r size) n (back (previous_rank r size) size n)
      → HoldsChain r (suc n) (back r size (n + 1))
  unfolding chain
  next_chain r n h k before j here =
      step_inside r n j h k here
      ∙ ap₂ (combine s datatype operation) (still_own r n (n + 1) j h (omega arith) k here) (
          received r n j h k here
          ∙ subst (HoldsChain (previous_rank r size) n) (back-previous r size h n k) before j here)

  -- After `n` steps the block received last combines the elements of `n + 1` ranks.
  pub scattered-chain : (n r : ℕ) → r < size → n < size → HoldsChain r n (back r size n)
  unfolding scatter_work chain
  scattered-chain zero r h k = λ j inside. refl
  scattered-chain (suc n) r h k =
      subst (λ d. HoldsChain r (suc n) (back r size d)) (omega arith)
        (next_chain r n h (omega arith)
          (scattered-chain n (previous_rank r size) (back-lt r size h 1) (omega arith)))

  -- Elements outside the blocks are never written.
  pub scattered-outside :
      (n r i : ℕ) → r < size → n < size → count ≤ i → (buffer r n).at i ≡ (work r).at i
  unfolding scatter_work
  scattered-outside zero r i h k out = refl
  scattered-outside (suc n) r i h k out =
      filled-outside (buffer r n) (offset_of c to) (count_of c to) i
        (merged s datatype operation (inbox r) (scatter_step (member c r) element_size n)
          (offset_of c to) (buffer r n))
        (omega (
          arith,
          block_inside (member c r) count element_size (y r h) to
              (rw (scatter_recv-back r size h n (omega arith)) (back-lt r size h (n + 1))),
        ))
      ∙ scattered-outside n r i h (omega arith) out
    where
      to : ℕ
      to = scatter_recv_block r size n
