-- ===== src/Ring/World/Fold.antt =====
-- Where the order does not matter, the combination around the ring is that over the ranks in order.
use comm_workshop_final.Prelude.{ℕ, zero, suc, ◌+◌, ◌-◌, ◌<◌, ◌≡◌, refl, sym, ap, ◌∙◌, arith}
use comm_workshop_final.Types.{Datatype, Operation}
use comm_workshop_final.Memory.{Buffer, Scalars}
use comm_workshop_final.Reduction.Elementwise.{combine}
use comm_workshop_final.Ring.Schedule.Blocks.{next_rank, back, back-lt, wrap}
use comm_workshop_final.Ring.Schedule.Around.{back-previous, previous-next_rank, back-last}
use comm_workshop_final.Ring.World.{previous_rank, chain}

-- The elements of ranks `n`, `n - 1`, …, 0 at index `i`, combined.
pub over_ranks : (s : Scalars) → Datatype → Operation → (ℕ → Buffer s.Elem) → ℕ → ℕ → s.Elem
over_ranks s datatype operation work zero i = (work 0).at i
over_ranks s datatype operation work (suc n) i =
    combine s datatype operation ((work (suc n)).at i) (over_ranks s datatype operation work n i)

-- The order and the grouping of a combination do not matter.
pub record Commutes (s : Scalars) (datatype : Datatype) (operation : Operation) : Type 0 where
  pub comm : (x y : s.Elem) → combine s datatype operation x y ≡ combine s datatype operation y x
  pub assoc :
      (x y z : s.Elem)
      → combine s datatype operation x (combine s datatype operation y z)
        ≡ combine s datatype operation (combine s datatype operation x y) z

module _ (s : Scalars) (datatype : Datatype) (operation : Operation)
    (laws : Commutes s datatype operation) (size : ℕ) (work : ℕ → Buffer s.Elem) (i : ℕ) where
  abbrev element : ℕ → s.Elem
  element r = (work r).at i

  abbrev around : ℕ → ℕ → s.Elem
  around r n = chain s datatype operation size work r n i

  -- The last rank of a chain can be split off at its end.
  around-suc :
      (n r : ℕ)
      → r < size
      → n + 1 < size
      → around r (suc n) ≡ combine s datatype operation (around r n) (element (back r size (n + 1)))
  unfolding chain
  around-suc zero r h k = refl
  around-suc (suc n) r h k =
      ap (combine s datatype operation (element r)) (
        around-suc n (previous_rank r size) (back-lt r size h 1) (omega arith)
        ∙ ap (λ b. combine s datatype operation (around (previous_rank r size) n) (element b))
            (back-previous r size h (n + 1) (omega arith) ∙ ap (back r size) (omega arith)))
      ∙ laws.assoc (element r) (around (previous_rank r size) n) (element (back r size (suc n + 1)))

  -- Once around, it does not matter where the chain begins.
  around-next_rank : (m r : ℕ) → r < size → suc m ≡ size → around (next_rank r size) m ≡ around r m
  unfolding chain
  around-next_rank zero r h e = ap element (omega (arith, wrap (r + 1) size (omega arith)))
  around-next_rank (suc m) r h e =
      ap (combine s datatype operation (element (next_rank r size)))
        (ap (λ q. around q m) (previous-next_rank r size h))
      ∙ laws.comm (element (next_rank r size)) (around r m)
      ∙ ap (λ b. combine s datatype operation (around r m) (element b))
          (sym (ap (back r size) (omega arith) ∙ back-last r size h))
      ∙ sym (around-suc m r h (omega arith))

  around-zero : (r : ℕ) → r < size → around r (size - 1) ≡ around 0 (size - 1)
  around-zero zero h = refl
  around-zero (suc r) h =
      ap (λ q. around q (size - 1)) (omega (arith, wrap (r + 1) size (omega arith)))
      ∙ around-next_rank (size - 1) r (omega arith) (omega arith)
      ∙ around-zero r (omega arith)

  -- From rank `r` down to rank 0 the chain does not pass the end of the ring.
  around-down : (r : ℕ) → r < size → around r r ≡ over_ranks s datatype operation work r i
  unfolding chain over_ranks
  around-down zero h = refl
  around-down (suc r) h = ap (combine s datatype operation (element (suc r))) (
      ap (λ q. around q r) (omega (arith, wrap (suc r + size - 1) size (omega arith)))
      ∙ around-down r (omega arith))

  pub chain-over_ranks :
      (r : ℕ)
      → r < size
      → chain s datatype operation size work r (size - 1) i
        ≡ over_ranks s datatype operation work (size - 1) i
  chain-over_ranks r h =
      around-zero r h
      ∙ sym (around-zero (size - 1) (omega arith))
      ∙ around-down (size - 1) (omega arith)
