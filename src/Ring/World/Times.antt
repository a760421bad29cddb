-- ===== src/Ring/World/Times.antt =====
-- When a call is due: by its phase, its step, its batch, and its place in the batch, all of which its
-- tag tells. The programs of the ranks rise in this time.
use native.Mathlib.Nat.{div-eq_of_lt-le}
use comm_workshop_final.Prelude.{
  ℕ, zero, suc, ◌+◌, ◌-◌, ◌*◌, ◌/◌, ◌%◌, ◌^◌, ◌≤◌, ◌<◌, ◌≡◌, refl, min, List, [], ◌∷◌, ◌++◌, All,
  All-append, dec_lt, arith,
}
use comm_workshop_final.Tag.{phase_value}
use comm_workshop_final.Pieces.{batches_for}
use comm_workshop_final.Pieces.Bounds.{batches_for-lt}
use comm_workshop_final.Transport.Recorded.{
  Action, asks_receive, asks_send, awaits_receive, awaits_send,
}
use comm_workshop_final.Ring.Step.{Step}
use comm_workshop_final.Ring.Step.Setup.{tag_of}
use comm_workshop_final.Ring.Step.Batch.{first}
use comm_workshop_final.Ring.Step.Program.{
  joined, span, batch_pieces, recv_pieces, send_pieces, act, batch_program, step_program,
}
use comm_workshop_final.Ring.Context.{Context}
use comm_workshop_final.Ring.Collectives.{scatter_step, gather_step}
use comm_workshop_final.Ring.Phase.Ready.{Ready}
use comm_workshop_final.Ring.Phase.ScatterRun as ScatterRun
use comm_workshop_final.Ring.Phase.GatherRun as GatherRun
use comm_workshop_final.Ring.Phase.Trace.{scatter_program, gather_program}
use comm_workshop_final.Ring.Call.Trace.{call_program}
use comm_workshop_final.Ring.World.Interleaving.Progress.{Rises, Rises-widen, Rises-append}

-- The phase and step of a tag, then the batch of its piece, for batches of `capacity` pieces.
abbrev pub slot : ℕ → ℕ → ℕ
slot capacity tag = tag / 2 ^ 12 * 2 ^ 12 + tag % 2 ^ 12 / capacity

abbrev pub time : ℕ → Action → ℕ
time capacity (asks_receive tag) = slot capacity tag * 4
time capacity (asks_send tag) = slot capacity tag * 4 + 1
time capacity (awaits_receive tag) = slot capacity tag * 4 + 2
time capacity (awaits_send tag) = slot capacity tag * 4 + 3

-- A step's place among all steps.
abbrev pub round : Step → ℕ
round st = st.sequence % 2 ^ 12 * 2 ^ 8 + phase_value st.phase * 2 ^ 7 + st.number

pub All-first_below :
    {A : Type 0} (P : A → Type 0) (f : ℕ → A) (n : ℕ)
    → ((j : ℕ) → j < n → P (f j))
    → All P (first f n)
All-first_below P f zero h = tt
All-first_below P f (suc n) h =
    All-append P (first f n) (f n ∷ []) (All-first_below P f n (λ j lt. h j (omega (arith, lt))))
      (h n (omega arith), tt)

pub All-span :
    (P : ℕ → Type 0) (from to : ℕ) → ((k : ℕ) → from ≤ k → k < to → P k) → All P (span from to)
All-span P from to h =
    All-first_below P (λ j. from + j) (to - from)
      (λ j lt. h (from + j) (omega arith) (omega (arith, lt)))

-- Calls that are due at one time.
Rises-act :
    (capacity v : ℕ) (st : Step) (f : ℕ → Action) (l : List ℕ)
    → All (λ k. time capacity (f (tag_of st k)) ≡ v) l
    → Rises (time capacity) v v (act st f l)
Rises-act capacity v st f [] h = omega arith
Rises-act capacity v st f (k ∷ l) (e, h) = (
  omega (arith, e),
  Rises-widen (time capacity) _ v v v (act st f l) (omega (arith, e)) (omega arith)
      (Rises-act capacity v st f l h),
)

Rises-joined :
    (capacity : ℕ) (t : ℕ → ℕ) (f : ℕ → List Action) (n : ℕ)
    → ((k : ℕ) → k < n → Rises (time capacity) (t k) (t (suc k)) (f k))
    → Rises (time capacity) (t 0) (t n) (joined f n)
Rises-joined capacity t f zero h = omega arith
Rises-joined capacity t f (suc n) h =
    Rises-append (time capacity) (t 0) (t n) (t (suc n)) (joined f n) (f n)
      (Rises-joined capacity t f n (λ k lt. h k (omega (arith, lt)))) (h n (omega arith))

module _ (st : Step) (p : 0 < st.capacity) (recv_small : recv_pieces st ≤ 2 ^ 12)
    (send_small : send_pieces st ≤ 2 ^ 12) where
  slot-tag_of :
      (batch pieces k : ℕ)
      → pieces ≤ 2 ^ 12
      → batch * st.capacity ≤ k
      → k < min (batch * st.capacity + st.capacity) pieces
      → slot st.capacity (tag_of st k) ≡ round st * 2 ^ 12 + batch
  slot-tag_of batch pieces k small low high =
      let quotient : tag_of st k / 2 ^ 12 ≡ round st = omega (arith, small, high) in
      let piece : tag_of st k % 2 ^ 12 ≡ k = omega (arith, small, high) in
      let mine : k / st.capacity ≡ batch =
        div-eq_of_lt-le {k = batch} st.capacity {m = k} low (omega (arith, high)) in
      rw (quotient, piece, mine)

  -- The time at which a batch begins.
  abbrev due : ℕ → ℕ
  due batch = (round st * 2 ^ 12 + batch) * 4

  kind-Rises :
      (f : ℕ → Action) (place pieces batch : ℕ)
      → pieces ≤ 2 ^ 12
      → ((tag : ℕ) → time st.capacity (f tag) ≡ slot st.capacity tag * 4 + place)
      → Rises
          (time st.capacity)
          (due batch + place)
          (due batch + place)
          (act st f (batch_pieces st pieces batch))
  kind-Rises f place pieces batch small at_place =
      Rises-act st.capacity (due batch + place) st f (batch_pieces st pieces batch) (
        All-span (λ k. time st.capacity (f (tag_of st k)) ≡ due batch + place) (batch * st.capacity)
          (min (batch * st.capacity + st.capacity) pieces)
          (λ k low high.
            omega (arith, at_place (tag_of st k), slot-tag_of batch pieces k small low high)))

  batch-Rises :
      (batch : ℕ) → Rises (time st.capacity) (due batch) (due (suc batch)) (batch_program st batch)
  batch-Rises batch =
      Rises-widen (time st.capacity) (due batch) (due batch + 0) (due batch + 3) (due (suc batch)) _
        (omega arith) (omega arith)
        (later 2 _ _
          (later 1 _ _
            (later 0 _ _
              (kind-Rises (λ t. asks_receive t) 0 (recv_pieces st) batch recv_small
                (λ t. omega arith))
              (kind-Rises (λ t. asks_send t) 1 (send_pieces st) batch send_small (λ t. refl)))
            (kind-Rises (λ t. awaits_receive t) 2 (recv_pieces st) batch recv_small (λ t. refl)))
          (kind-Rises (λ t. awaits_send t) 3 (send_pieces st) batch send_small (λ t. refl)))
    where
      later :
          (place : ℕ) (k l : List Action)
          → Rises (time st.capacity) (due batch + 0) (due batch + place) k
          → Rises (time st.capacity) (due batch + (place + 1)) (due batch + (place + 1)) l
          → Rises (time st.capacity) (due batch + 0) (due batch + (place + 1)) (k ++ l)
      later place k l a b =
          Rises-append (time st.capacity) (due batch + 0) (due batch + place)
            (due batch + (place + 1)) k l a
            (Rises-widen (time st.capacity) (due batch + place) (due batch + (place + 1))
              (due batch + (place + 1)) (due batch + (place + 1)) l (omega arith) (omega arith) b)

  pub batches_for-le :
      st.capacity ≤ 1024 → batches_for (send_pieces st) (recv_pieces st) st.capacity ≤ 2 ^ 12
  batches_for-le small =
      elim (dec_lt (2 ^ 12) (batches_for (send_pieces st) (recv_pieces st) st.capacity)) [
        | yes more ↦
            let inside =
              (batches_for-lt (send_pieces st) (recv_pieces st) st.capacity (2 ^ 12) p
                  (omega (arith, small, recv_small, send_small))).0
                more in
            absurd (omega (arith, inside, p, recv_small, send_small))
        | no few ↦ omega arith
      ]

  pub step-Rises :
      (n : ℕ)
      → st.capacity ≤ 1024
      → round st ≡ n
      → Rises (time st.capacity) (n * 2 ^ 14) (suc n * 2 ^ 14) (step_program st)
  step-Rises n small here =
      Rises-widen (time st.capacity) (n * 2 ^ 14) (due 0)
        (due (batches_for (send_pieces st) (recv_pieces st) st.capacity)) (suc n * 2 ^ 14)
        (step_program st) (omega (arith, here)) (omega (arith, here, batches_for-le small))
        (Rises-joined st.capacity due (batch_program st)
          (batches_for (send_pieces st) (recv_pieces st) st.capacity) (λ k lt. batch-Rises k))

module _ {T E : Type 0} (c : Context T E) (count element_size : ℕ)
    (y : Ready c count element_size) where
  -- The round of the first step of a call.
  abbrev first_round : ℕ
  first_round = c.sequence % 2 ^ 12 * 2 ^ 8

  scatter_program-Rises :
      Rises
        (time c.config.max_inflight)
        ((first_round + 0) * 2 ^ 14)
        ((first_round + (c.world_size - 1)) * 2 ^ 14)
        (scatter_program c element_size)
  scatter_program-Rises =
      Rises-joined c.config.max_inflight (λ n. (first_round + n) * 2 ^ 14)
        (λ n. step_program (scatter_step c element_size n)) (c.world_size - 1)
        (λ n h.
          let st = scatter_step c element_size n in
          Rises-widen (time c.config.max_inflight) _ ((first_round + n) * 2 ^ 14)
            (suc (first_round + n) * 2 ^ 14) _ (step_program st) (omega arith) (omega arith)
            (step-Rises st y.capacity_pos
              (y.pieces _ (ScatterRun.received-lt c count element_size y n (omega (arith, h))))
              (y.pieces _ (ScatterRun.sent-lt c count element_size y n (omega (arith, h))))
              (first_round + n) y.capacity_small (omega arith)))

  gather_program-Rises :
      Rises
        (time c.config.max_inflight)
        ((first_round + 2 ^ 7 + 0) * 2 ^ 14)
        ((first_round + 2 ^ 7 + (c.world_size - 1)) * 2 ^ 14)
        (gather_program c element_size)
  gather_program-Rises =
      Rises-joined c.config.max_inflight (λ n. (first_round + 2 ^ 7 + n) * 2 ^ 14)
        (λ n. step_program (gather_step c element_size n)) (c.world_size - 1)
        (λ n h.
          let st = gather_step c element_size n in
          Rises-widen (time c.config.max_inflight) _ ((first_round + 2 ^ 7 + n) * 2 ^ 14)
            (suc (first_round + 2 ^ 7 + n) * 2 ^ 14) _ (step_program st) (omega arith) (omega arith)
            (step-Rises st y.capacity_pos
              (y.pieces _ (GatherRun.received-lt c count element_size y n (omega (arith, h))))
              (y.pieces _ (GatherRun.sent-lt c count element_size y n (omega (arith, h))))
              (first_round + 2 ^ 7 + n) y.capacity_small (omega arith)))

  -- The calls of both phases rise in time.
  pub call_program-Rises :
      Rises
        (time c.config.max_inflight)
        0
        ((first_round + 2 ^ 8) * 2 ^ 14)
        (call_program c element_size)
  call_program-Rises =
      Rises-append (time c.config.max_inflight) 0 ((first_round + 2 ^ 7) * 2 ^ 14) _
        (scatter_program c element_size) (gather_program c element_size)
        (Rises-widen (time c.config.max_inflight) 0 ((first_round + 0) * 2 ^ 14) _ _
          (scatter_program c element_size) (omega arith) (omega (arith, y.size_pos, y.size_small))
          scatter_program-Rises)
        (Rises-widen (time c.config.max_inflight) _ _ _ _ (gather_program c element_size)
          (omega arith) (omega (arith, y.size_pos, y.size_small)) gather_program-Rises)
