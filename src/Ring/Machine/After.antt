-- ===== src/Ring/Machine/After.antt =====
-- Partial correctness of a run: what holds if it ends with a value.
use comm_workshop_final.Prelude.{ℕ, zero, suc, ◌+◌, ◌≤◌, ◌<◌, ◌≡◌, subst, arith}
use comm_workshop_final.Ring.Machine.{Outcome, done, returned, fault, M, and_then, ◌>>=◌, for_range}

module _ {S : Type 0} where
  abbrev pub After : {A : Type 0} → (A → S → Type 0) → Outcome A × S → Type 0
  After Q (done a, n) = Q a n
  After Q (returned status, n) = Unit {0}
  After Q (fault, n) = Unit {0}

  pub After-weaken :
      {A : Type 0} (o : Outcome A × S) (Q R : A → S → Type 0)
      → After Q o
      → ((a : A) (n : S) → Q a n → R a n)
      → After R o
  After-weaken (done a, n) Q R h weaker = weaker a n h
  After-weaken (returned status, n) Q R h weaker = tt
  After-weaken (fault, n) Q R h weaker = tt

  and_then-After :
      {A B : Type 0} (f : A → M S B) (o : Outcome A × S) (Q : A → S → Type 0) (R : B → S → Type 0)
      → After Q o
      → ((a : A) (n : S) → Q a n → After R (f a n))
      → After R (and_then f o)
  and_then-After f (done a, n) Q R h next = next a n h
  and_then-After f (returned status, n) Q R h next = tt
  and_then-After f (fault, n) Q R h next = tt

  pub After-bind :
      {A B : Type 0} (x : M S A) (f : A → M S B) (m : S) (Q : A → S → Type 0) (R : B → S → Type 0)
      → After Q (x m)
      → ((a : A) (n : S) → Q a n → After R (f a n))
      → After R ((x >>= f) m)
  After-bind x f m Q R h next = and_then-After f (x m) Q R h next

  -- The invariant rule of counted loops.
  pub After-for_range :
      {A : Type 0} (P : ℕ → A → S → Type 0) (body : ℕ → A → M S A) (rounds i j : ℕ) (a : A) (m : S)
      → i + rounds ≡ j
      → ((k : ℕ) (b : A) (n : S) → i ≤ k → k < j → P k b n → After (P (k + 1)) (body k b n))
      → P i a m
      → After (P j) (for_range rounds i body a m)
  unfolding for_range
  After-for_range P body zero i j a m e keep p = subst (λ k. P k a m) (omega arith) p
  After-for_range P body (suc rounds) i j a m e keep p =
      After-bind (body i a) (λ b. for_range rounds (i + 1) body b) m (P (i + 1)) (P j)
        (keep i a m (omega arith) (omega arith) p)
        (λ b n q.
          After-for_range P body rounds (i + 1) j b n (omega arith)
            (λ k c o l h. keep k c o (omega arith) h) q)
