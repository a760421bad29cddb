-- ===== src/Ring/World/Needs.antt =====
-- Whatever a call of a rank waits for is a call of its neighbour, and due earlier.
use native.Mathlib.Nat.{div-add-mod', mod-lt}
use comm_workshop_final.Prelude.{
  ℕ, zero, suc, ◌+◌, ◌-◌, ◌*◌, ◌/◌, ◌%◌, ◌^◌, ◌≤◌, ◌<◌, ◌≡◌, ap, subst, ◌∙◌, min, max, List, [],
  ◌∷◌, ◌++◌, map, All, All-append, dec_lt, arith,
}
use mathlib.Core.List.{Memᴰ}
use mathlib.Core.List.Memᴰ
use mathlib.Core.List.Memᴰ.{head}
use comm_workshop_final.Pieces.{batches_for}
use comm_workshop_final.Pieces.Bounds.{batches_for-lt}
use comm_workshop_final.Transport.Recorded.{
  Action, asks_receive, asks_send, awaits_receive, awaits_send,
}
use comm_workshop_final.Ring.Step.{Step}
use comm_workshop_final.Ring.Step.Setup.{tag_of}
use comm_workshop_final.Ring.Step.Batch.{first}
use comm_workshop_final.Ring.Step.Program.{
  joined, span, batch_pieces, recv_pieces, send_pieces, act, batch_program, step_program,
}
use comm_workshop_final.Ring.Schedule.Blocks.{next_rank, back-lt}
use comm_workshop_final.Ring.Schedule.Around.{next_rank-previous}
use comm_workshop_final.Ring.World.{previous_rank}
use comm_workshop_final.Ring.World.Interleaving.{needs}
use comm_workshop_final.Ring.World.Interleaving.Progress.{Served}
use comm_workshop_final.Ring.World.Times.{All-span, time}

Memᴰ-first : {A : Type 0} (f : ℕ → A) (n j : ℕ) → j < n → Memᴰ (f j) (first f n)
Memᴰ-first f zero j h = absurd (omega (arith, h))
Memᴰ-first f (suc n) j h = elim (dec_lt j n) [
  | yes below ↦ Memᴰ.append_left (f n ∷ []) (Memᴰ-first f n j below)
  | no last ↦ let here : j ≡ n = omega arith in Memᴰ.append_right (first f n) (head (ap f here))
]

Memᴰ-span : (from to k : ℕ) → from ≤ k → k < to → Memᴰ k (span from to)
Memᴰ-span from to k low high =
    subst (λ i. Memᴰ i (span from to)) (omega arith)
      (Memᴰ-first (λ j. from + j) (to - from) (k - from) (omega (arith, low, high)))

pub Memᴰ-joined :
    {A : Type 0} (a : A) (f : ℕ → List A) (n k : ℕ) → k < n → Memᴰ a (f k) → Memᴰ a (joined f n)
Memᴰ-joined a f zero k h m = absurd (omega (arith, h))
Memᴰ-joined a f (suc n) k h m = elim (dec_lt k n) [
  | yes below ↦ Memᴰ.append_left (f n) (Memᴰ-joined a f n k below m)
  | no last ↦
      let here : k ≡ n = omega arith in
      Memᴰ.append_right (joined f n) (subst (λ i. Memᴰ a (f i)) here m)
]

pub All-joined :
    {A : Type 0} (P : A → Type 0) (f : ℕ → List A) (n : ℕ)
    → ((k : ℕ) → k < n → All P (f k))
    → All P (joined f n)
All-joined P f zero h = tt
All-joined P f (suc n) h =
    All-append P (joined f n) (f n) (All-joined P f n (λ k lt. h k (omega (arith, lt))))
      (h n (omega arith))

All-map :
    {A B : Type 0} (P : B → Type 0) (f : A → B) (l : List A)
    → All (λ a. P (f a)) l
    → All P (map f l)
All-map P f [] h = tt
All-map P f (a ∷ l) h = (h.0, All-map P f l h.1)

module _ (st : Step) where
  -- What the program of a step holds: the calls of its pieces.
  All-act :
      (P : Action → Type 0) (f : ℕ → Action) (pieces batch : ℕ)
      → ((k : ℕ) → k < pieces → P (f (tag_of st k)))
      → All P (act st f (batch_pieces st pieces batch))
  All-act P f pieces batch h =
      All-map P (λ k. f (tag_of st k)) (batch_pieces st pieces batch)
        (All-span (λ k. P (f (tag_of st k))) (batch * st.capacity)
          (min (batch * st.capacity + st.capacity) pieces)
          (λ k low high. h k (omega (arith, high))))

  pub step_program-All :
      (P : Action → Type 0)
      → ((k : ℕ)
          → k < recv_pieces st
          → P (asks_receive (tag_of st k)) × P (awaits_receive (tag_of st k)))
      → ((k : ℕ) → k < send_pieces st → P (asks_send (tag_of st k)) × P (awaits_send (tag_of st k)))
      → All P (step_program st)
  step_program-All P received sent =
      All-joined P (batch_program st) (batches_for (send_pieces st) (recv_pieces st) st.capacity)
        (λ b lt.
          let rs = batch_pieces st (recv_pieces st) b in
          let ss = batch_pieces st (send_pieces st) b in
          All-append P (act st asks_receive rs ++ act st asks_send ss ++ act st awaits_receive rs)
            (act st awaits_send ss)
            (All-append P (act st asks_receive rs ++ act st asks_send ss) (act st awaits_receive rs)
              (All-append P (act st asks_receive rs) (act st asks_send ss)
                (All-act P (λ t. asks_receive t) (recv_pieces st) b (λ k h. (received k h).0))
                (All-act P (λ t. asks_send t) (send_pieces st) b (λ k h. (sent k h).0)))
              (All-act P (λ t. awaits_receive t) (recv_pieces st) b (λ k h. (received k h).1)))
            (All-act P (λ t. awaits_send t) (send_pieces st) b (λ k h. (sent k h).1)))

  module _ (p : 0 < st.capacity) (recv_small : recv_pieces st ≤ 2 ^ 12)
      (send_small : send_pieces st ≤ 2 ^ 12) (small : st.capacity ≤ 1024) where
    -- A piece is in its batch, and the batch is one of the step's.
    Memᴰ-batch_pieces :
        (pieces k : ℕ) → k < pieces → Memᴰ k (batch_pieces st pieces (k / st.capacity))
    Memᴰ-batch_pieces pieces k h =
        let whole : k / st.capacity * st.capacity + k % st.capacity ≡ k =
          div-add-mod' k st.capacity in
        let rest : k % st.capacity < st.capacity = mod-lt k p in
        Memᴰ-span (k / st.capacity * st.capacity)
          (min (k / st.capacity * st.capacity + st.capacity) pieces) k (omega (arith, whole))
          (omega (arith, whole, rest, h))

    batch_of-lt :
        (k : ℕ)
        → k < max (send_pieces st) (recv_pieces st)
        → k / st.capacity < batches_for (send_pieces st) (recv_pieces st) st.capacity
    batch_of-lt k h =
        (batches_for-lt (send_pieces st) (recv_pieces st) st.capacity (k / st.capacity) p
            (omega (arith, small, recv_small, send_small))).1
          (omega (arith, div-add-mod' k st.capacity, h))

    in_step :
        (a : Action) (k : ℕ)
        → k < max (send_pieces st) (recv_pieces st)
        → Memᴰ a (batch_program st (k / st.capacity))
        → Memᴰ a (step_program st)
    in_step a k h m =
        Memᴰ-joined a (batch_program st) (batches_for (send_pieces st) (recv_pieces st) st.capacity)
          (k / st.capacity) (batch_of-lt k h) m

    pub receives-Memᴰ :
        (k : ℕ)
        → k < recv_pieces st
        → Memᴰ (asks_receive (tag_of st k)) (step_program st)
          × Memᴰ (awaits_receive (tag_of st k)) (step_program st)
    receives-Memᴰ k h =
        let rs = batch_pieces st (recv_pieces st) (k / st.capacity) in
        let ss = batch_pieces st (send_pieces st) (k / st.capacity) in
        let here = Memᴰ-batch_pieces (recv_pieces st) k h in
        (
          in_step (asks_receive (tag_of st k)) k (omega (arith, h)) (
              Memᴰ.append_left (act st awaits_send ss) (
                Memᴰ.append_left (act st awaits_receive rs) (
                  Memᴰ.append_left (act st asks_send ss)
                    (Memᴰ.map (λ i. asks_receive (tag_of st i)) here)))),
          in_step (awaits_receive (tag_of st k)) k (omega (arith, h)) (
              Memᴰ.append_left (act st awaits_send ss) (
                Memᴰ.append_right (act st asks_receive rs ++ act st asks_send ss)
                  (Memᴰ.map (λ i. awaits_receive (tag_of st i)) here))),
        )

    pub sends-Memᴰ : (k : ℕ) → k < send_pieces st → Memᴰ (asks_send (tag_of st k)) (step_program st)
    sends-Memᴰ k h =
        let rs = batch_pieces st (recv_pieces st) (k / st.capacity) in
        let ss = batch_pieces st (send_pieces st) (k / st.capacity) in
        in_step (asks_send (tag_of st k)) k (omega (arith, h)) (
          Memᴰ.append_left (act st awaits_send ss) (
            Memᴰ.append_left (act st awaits_receive rs) (
              Memᴰ.append_right (act st asks_receive rs) (
                Memᴰ.map (λ i. asks_send (tag_of st i)) (Memᴰ-batch_pieces (send_pieces st) k h)))))

-- The steps of one phase on all ranks: what one rank sends the next one receives, under the same
-- tags, and each rank's program holds the programs of its steps.
pub record Phase (size steps : ℕ) (programs : ℕ → List Action) (step : ℕ → ℕ → Step) : Type 0 where
  pub holds :
      (r n : ℕ) (a : Action) → n < steps → Memᴰ a (step_program (step r n)) → Memᴰ a (programs r)
  pub tags : (r q n k : ℕ) → tag_of (step r n) k ≡ tag_of (step q n) k
  pub pairs :
      (r n : ℕ)
      → r < size
      → n < steps
      → send_pieces (step r n) ≡ recv_pieces (step (next_rank r size) n)
  pub capacity_pos : (r n : ℕ) → 0 < (step r n).capacity
  pub capacity_small : (r n : ℕ) → (step r n).capacity ≤ 1024
  pub few : (r n : ℕ) → r < size → n < steps → recv_pieces (step r n) ≤ 2 ^ 12

module _ (capacity size steps : ℕ) (programs : ℕ → List Action) (step : ℕ → ℕ → Step)
    (f : Phase size steps programs step) where
  -- What a call of rank `r` waits for is due earlier, in the program of a neighbour.
  abbrev Fine : ℕ → Action → Type 0
  Fine r a = Served (time capacity) size 0 programs (needs size r a) a

  sends-few : (r n : ℕ) → r < size → n < steps → send_pieces (step r n) ≤ 2 ^ 12
  sends-few r n h k =
      omega
        (arith, f.pairs r n h k, f.few (next_rank r size) n (mod-lt (r + 1) (omega (arith, h))) k)

  next-lt : (r : ℕ) → r < size → next_rank r size < size
  next-lt r h = mod-lt (r + 1) (omega (arith, h))

  -- The next rank posts and awaits the receive for a piece that `r` sends.
  next_receives :
      (r n i : ℕ)
      → r < size
      → n < steps
      → i < send_pieces (step r n)
      → Memᴰ (asks_receive (tag_of (step r n) i)) (programs (next_rank r size))
        × Memᴰ (awaits_receive (tag_of (step r n) i)) (programs (next_rank r size))
  next_receives r n i h k lt =
      let q = next_rank r size in
      let same : tag_of (step q n) i ≡ tag_of (step r n) i = f.tags q r n i in
      let (posts, waits) =
        receives-Memᴰ (step q n) (f.capacity_pos q n) (f.few q n (next-lt r h) k)
          (sends-few q n (next-lt r h) k) (f.capacity_small q n) i
          (omega (arith, f.pairs r n h k, lt)) in
      (
        subst (λ t. Memᴰ (asks_receive t) (programs q)) same (f.holds q n _ k posts),
        subst (λ t. Memᴰ (awaits_receive t) (programs q)) same (f.holds q n _ k waits),
      )

  -- The previous rank posts the send for a piece that `r` receives.
  previous_sends :
      (r n i : ℕ)
      → r < size
      → n < steps
      → i < recv_pieces (step r n)
      → Memᴰ (asks_send (tag_of (step r n) i)) (programs (previous_rank r size))
  previous_sends r n i h k lt =
      let q = previous_rank r size in
      let below : q < size = back-lt r size h 1 in
      let pair : send_pieces (step q n) ≡ recv_pieces (step r n) =
        f.pairs q n below k ∙ ap (λ t. recv_pieces (step t n)) (next_rank-previous r size h) in
      subst (λ t. Memᴰ (asks_send t) (programs q)) (f.tags q r n i)
        (f.holds q n _ k (
          sends-Memᴰ (step q n) (f.capacity_pos q n) (f.few q n below k) (sends-few q n below k)
            (f.capacity_small q n) i (omega (arith, pair, lt))))

  pub Phase-Served : (r n : ℕ) → r < size → n < steps → All (Fine r) (step_program (step r n))
  Phase-Served r n h k =
      step_program-All (step r n) (Fine r)
        (λ i lt. (tt, (back-lt r size h 1, previous_sends r n i h k lt, omega arith)))
        (λ i lt.
          let (posts, waits) = next_receives r n i h k lt in
          ((next-lt r h, posts, omega arith), (next-lt r h, waits, omega arith)))
