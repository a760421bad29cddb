-- ===== src/Ring/Machine.antt =====
-- What a running collective changes, and the monad of its steps: a step gives a value, an early
-- return with a status, or a fault (an access outside a buffer).
pub mod Settles
pub mod After
use comm_workshop_final.Prelude.{
  ℕ, zero, suc, ◌+◌, ◌≤◌, ◌<◌, ◌≡◌, refl, List, [], ◌∷◌, Bool, true, false, arith,
}
use comm_workshop_final.Types.{Status}
use comm_workshop_final.Memory.{Buffer}

pub record Machine (T E : Type 0) : Type 0 where
  pub transport : T
  pub temporary : Buffer E
  pub work : Buffer E

pub data Outcome {ℓ} (A : Type ℓ) : Type ℓ where
  done : A → Outcome A
  returned : Status → Outcome A
  fault : Outcome A

abbrev pub M : Type 0 → Type 0 → Type 0
M S A = S → Outcome A × S

module _ {S : Type 0} where
  abbrev pub pure : {A : Type 0} → A → M S A
  pure a m = (done a, m)

  abbrev pub return_status : {A : Type 0} → Status → M S A
  return_status status m = (returned status, m)

  abbrev pub and_then : {A B : Type 0} → (A → M S B) → Outcome A × S → Outcome B × S
  and_then f (done a, m) = f a m
  and_then f (returned status, m) = (returned status, m)
  and_then f (fault, m) = (fault, m)

  infixl 5 ◌>>=◌ ◌>>◌
  abbrev pub ◌>>=◌ : {A B : Type 0} → M S A → (A → M S B) → M S B
  ◌>>=◌ x f m = and_then f (x m)

  abbrev pub ◌>>◌ : {B : Type 0} → M S (Unit {0}) → M S B → M S B
  ◌>>◌ x y m = and_then (λ u. y) (x m)

  -- An access is made only if the test says that it lies in its buffer.
  abbrev pub check : Bool → M S (Unit {0})
  check true m = (done tt, m)
  check false m = (fault, m)

  -- `for (k = i; k < i + rounds; ++k) value = body(k, value)`
  unfoldable pub for_range : {A : Type 0} → ℕ → ℕ → (ℕ → A → M S A) → A → M S A
  for_range zero i body a = pure a
  for_range (suc rounds) i body a = body i a >>= λ b. for_range rounds (i + 1) body b

  unfoldable pub for_each : {A : Type 0} → List A → (A → M S (Unit {0})) → M S (Unit {0})
  for_each [] body = pure tt
  for_each (x ∷ xs) body = body x >> for_each xs body

  -- From `m` on, `x` gives a value, and what it gives and leaves behind is as `Q` says.
  abbrev pub Yields : {A : Type 0} → M S A → S → (A → S → Type 0) → Type 0
  Yields {A} x m Q = (a : A) × (n : S) × (x m ≡ (done a, n)) × Q a n

  pub Yields-bind :
      {A B : Type 0} (x : M S A) (f : A → M S B) (m : S) (Q : A → S → Type 0) (R : B → S → Type 0)
      → Yields x m Q
      → ((a : A) (n : S) → Q a n → Yields (f a) n R)
      → Yields (x >>= f) m R
  Yields-bind x f m Q R (a, n, e, q) h =
      let (b, o, e', r) = h a n q in (b, o, rw (e, and_then) e', r)

  -- The invariant rule of counted loops.
  pub Yields-for_range :
      {A : Type 0} (P : ℕ → A → S → Type 0) (body : ℕ → A → M S A) (rounds i j : ℕ) (a : A) (m : S)
      → i + rounds ≡ j
      → ((k : ℕ) (b : A) (n : S) → i ≤ k → k < j → P k b n → Yields (body k b) n (P (k + 1)))
      → P i a m
      → Yields (for_range rounds i body a) m (P j)
  unfolding for_range
  Yields-for_range P body zero i j a m e keep p =
      let same : i ≡ j = omega arith in (a, m, refl, rw same at p)
  Yields-for_range P body (suc rounds) i j a m e keep p =
      Yields-bind (body i a) (λ b. for_range rounds (i + 1) body b) m (P (i + 1)) (P j)
        (keep i a m (omega arith) (omega arith) p)
        (λ b n q.
          Yields-for_range P body rounds (i + 1) j b n (omega arith)
            (λ k c o l h. keep k c o (omega arith) h) q)
