-- ===== src/Ring/Machine/Settles.antt =====
-- Runs that may be cut short by an error: how they can end.
use comm_workshop_final.Prelude.{ℕ, zero, suc, ◌+◌, ◌≤◌, ◌<◌, ◌≡◌, subst, List, [], ◌∷◌, arith}
use comm_workshop_final.Types.{err_transport}
use comm_workshop_final.Ring.Machine.{
  Outcome, done, returned, fault, M, and_then, ◌>>=◌, for_range, for_each,
}

module _ {S : Type 0} (I : S → Type 0) where
  -- A value as `Q` says, or an early return with PG_ERR_TRANSPORT in a state as `I` says; never an
  -- access outside a buffer.
  abbrev pub Settles : {A : Type 0} → (A → S → Type 0) → Outcome A × S → Type 0
  Settles Q (done a, n) = Q a n
  Settles Q (returned status, n) = (status ≡ err_transport) × I n
  Settles Q (fault, n) = ⊥

  and_then-Settles :
      {A B : Type 0} (f : A → M S B) (o : Outcome A × S) (Q : A → S → Type 0) (R : B → S → Type 0)
      → Settles Q o
      → ((a : A) (n : S) → Q a n → Settles R (f a n))
      → Settles R (and_then f o)
  and_then-Settles f (done a, n) Q R h next = next a n h
  and_then-Settles f (returned status, n) Q R h next = h
  and_then-Settles f (fault, n) Q R h next = absurd h

  pub Settles-bind :
      {A B : Type 0} (x : M S A) (f : A → M S B) (m : S) (Q : A → S → Type 0) (R : B → S → Type 0)
      → Settles Q (x m)
      → ((a : A) (n : S) → Q a n → Settles R (f a n))
      → Settles R ((x >>= f) m)
  Settles-bind x f m Q R h next = and_then-Settles f (x m) Q R h next

  -- The invariant rules of the two loops.
  pub Settles-for_range :
      {A : Type 0} (P : ℕ → A → S → Type 0) (body : ℕ → A → M S A) (rounds i j : ℕ) (a : A) (m : S)
      → i + rounds ≡ j
      → ((k : ℕ) (b : A) (n : S) → i ≤ k → k < j → P k b n → Settles (P (k + 1)) (body k b n))
      → P i a m
      → Settles (P j) (for_range rounds i body a m)
  unfolding for_range
  Settles-for_range P body zero i j a m e keep p = subst (λ k. P k a m) (omega arith) p
  Settles-for_range P body (suc rounds) i j a m e keep p =
      Settles-bind (body i a) (λ b. for_range rounds (i + 1) body b) m (P (i + 1)) (P j)
        (keep i a m (omega arith) (omega arith) p)
        (λ b n q.
          Settles-for_range P body rounds (i + 1) j b n (omega arith)
            (λ k c o l h. keep k c o (omega arith) h) q)

  -- `D` says what the list still holds.
  pub Settles-for_each :
      {A : Type 0} (D : List A → Type 0) (body : A → M S (Unit {0})) (xs : List A) (m : S)
      → ((x : A) (rest : List A) (n : S)
          → D (x ∷ rest)
          → I n
          → Settles (λ u o. I o) (body x n) × D rest)
      → D xs
      → I m
      → Settles (λ u o. I o) (for_each xs body m)
  unfolding for_each
  Settles-for_each D body [] m keep d i = i
  Settles-for_each D body (x ∷ xs) m keep d i =
      let (now, later) = keep x xs m d i in
      Settles-bind (body x) (λ u. for_each xs body) m (λ u o. I o) (λ u o. I o) now
        (λ u n j. Settles-for_each D body xs n keep later j)
