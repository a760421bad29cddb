-- ===== src/Memory.antt =====
-- Memory blocks, in elements of the collective's datatype, and the element types themselves.
-- The source addresses them by bytes, always at a multiple of the element size.
use comm_workshop_final.Prelude.{
  ℕ, ◌+◌, ◌-◌, ◌<◌, Bool, ◌&&◌, ◌≡◌, refl, if◌then◌else◌, ltb, leb, ◌==◌, Bool-cases, inl, inr,
  ltb→lt,
}
use comm_workshop_final.Types.{Datatype}

-- `at` is the contents; only the indices below `size` belong to the block.
pub record Buffer (E : Type 0) : Type 0 where
  pub size : ℕ
  pub at : ℕ → E

-- The C++ element types: `+` and `<` of `std::int32_t`, `float` and `double`, which the language
-- defines. `zeroed` is the value whose bytes are all zero.
pub record Scalars : Type 1 where
  pub Elem : Type 0
  pub zeroed : Elem
  pub add : Datatype → Elem → Elem → Elem
  pub less : Datatype → Elem → Elem → Bool

-- Index `j` is one of the `n` from `start` on.
abbrev pub within : ℕ → ℕ → ℕ → Bool
within start n j = leb start j && ltb j (start + n)

module _ {E : Type 0} where
  -- `buffer[i] = value`
  abbrev pub store : Buffer E → ℕ → E → Buffer E
  store b i v = record b { at = λ j. if j == i then v else b.at j }

  -- The first `n` elements of `f`; beyond them stands `zero`.
  abbrev pub clip : E → ℕ → (ℕ → E) → Buffer E
  clip zero n f = record { size = n; at = λ j. if ltb j n then f j else zero }

  -- A copy of `n` elements from index `start` on.
  abbrev pub slice : E → Buffer E → ℕ → ℕ → Buffer E
  slice zero b start n = clip zero n (λ j. b.at (start + j))

  -- `n` elements of `source` are written from index `start` on.
  abbrev pub splice : Buffer E → ℕ → ℕ → (ℕ → E) → Buffer E
  splice b start n source = record b {
    at = λ j. if within start n j then source (j - start) else b.at j;
  }

  -- The `n` elements from `start` on belong to the block.
  abbrev pub fits : Buffer E → ℕ → ℕ → Bool
  fits b start n = leb (start + n) b.size

-- Blocks are equal when they have one size and agree at every index.
pub Buffer-ext :
    {E : Type 0} (b c : Buffer E) → b.size ≡ c.size → ((j : ℕ) → b.at j ≡ c.at j) → b ≡ c
Buffer-ext b c s h = λ i. record { size = s i; at = λ j. h j i }

pub clip_cong :
    {E : Type 0} (zero : E) (n : ℕ) (f g : ℕ → E)
    → ((j : ℕ) → j < n → f j ≡ g j)
    → clip zero n f ≡ clip zero n g
clip_cong zero n f g h = Buffer-ext _ _ refl (λ j. elim (Bool-cases (ltb j n)) [
  | inl below ↦ rw below (h j (ltb→lt j n below))
  | inr above ↦ rw above
])
