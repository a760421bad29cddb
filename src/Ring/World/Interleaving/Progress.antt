-- ===== src/Ring/World/Interleaving/Progress.antt =====
-- A group whose programs rise in time, and in which whatever a call waits for is due earlier, never
-- comes to a standstill.
use comm_workshop_final.Prelude.{
  ℕ, zero, suc, ◌≤◌, ◌<◌, ◌≡◌, refl, sym, ap, subst, ◌∙◌, ◌⊎◌, inl, inr, List, [], ◌∷◌, ◌++◌, All,
  All-append_right, Option, none, some, dec_lt, arith,
}
use mathlib.Core.List.{Memᴰ}
use mathlib.Core.List.Memᴰ
use mathlib.Core.List.Memᴰ.{head, tail}
use comm_workshop_final.Transport.Recorded.{Action}
use comm_workshop_final.Ring.World.Interleaving.{
  Group, Happened, needs, Reachable, Reachable-Sound, Sound, move, Stuck,
}

-- A time for every call, for which the programs rise.
module _ (time : Action → ℕ) where
  -- No call is earlier than the one before it, nor earlier than `low`, nor later than `high`.
  abbrev pub Rises : ℕ → ℕ → List Action → Type 0
  Rises low high [] = low ≤ high
  Rises low high (a ∷ l) = (low ≤ time a) × Rises (time a) high l

  pub Rises-widen :
      (low mid high top : ℕ) (l : List Action)
      → low ≤ mid
      → high ≤ top
      → Rises mid high l
      → Rises low top l
  Rises-widen low mid high top [] h g e = omega (arith, h, g, e)
  Rises-widen low mid high top (a ∷ l) h g (e, rest) =
      (omega (arith, h, e), Rises-widen (time a) (time a) high top l (omega arith) g rest)

  pub Rises-append :
      (low mid high : ℕ) (k l : List Action)
      → Rises low mid k
      → Rises mid high l
      → Rises low high (k ++ l)
  Rises-append low mid high [] l h e = Rises-widen low mid high high l h (omega arith) e
  Rises-append low mid high (a ∷ k) l (b, h) e = (b, Rises-append (time a) mid high k l h e)

  Rises-append_right :
      (low high : ℕ) (k l : List Action) → Rises low high (k ++ l) → (from : ℕ) × Rises from high l
  Rises-append_right low high [] l h = (low, h)
  Rises-append_right low high (a ∷ k) l h = Rises-append_right (time a) high k l h.1

  Rises-Memᴰ :
      (low high : ℕ) (l : List Action) (d : Action) → Rises low high l → Memᴰ d l → low ≤ time d
  Rises-Memᴰ low high [] d h m = absurd (Memᴰ.not-nil m)
  Rises-Memᴰ low high (a ∷ l) d h (head e) = omega (arith, h.0, ap time e)
  Rises-Memᴰ low high (a ∷ l) d h (tail m) = omega (arith, h.0, Rises-Memᴰ (time a) high l d h.1 m)

  List-cases : (l : List Action) → (l ≡ []) ⊎ ((a : Action) × (rest : List Action) × (l ≡ a ∷ rest))
  List-cases [] = inl refl
  List-cases (a ∷ rest) = inr (a, rest, refl)

  -- Of the ranks below `n` that have calls ahead, one whose next call is earliest.
  abbrev Earliest : Group → ℕ → Type 0
  Earliest g n =
      (r : ℕ) × (a : Action) × (rest : List Action) × (r < n)
      × ((g r).ahead ≡ a ∷ rest)
      × ((q : ℕ) (b : Action) (more : List Action)
          → q < n
          → (g q).ahead ≡ b ∷ more
          → time a ≤ time b)

  earliest : (g : Group) (n : ℕ) → ((r : ℕ) → r < n → (g r).ahead ≡ []) ⊎ Earliest g n
  earliest g zero = inl (λ r h. absurd (omega (arith, h)))
  earliest g (suc n) = elim (earliest g n) [
    | inl all_done ↦ elim (List-cases (g n).ahead) [
      | inl finished ↦ inl (λ r h. below n finished all_done r h)
      | inr (a, rest, e) ↦ inr (
        n,
        a,
        rest,
        omega arith,
        e,
        λ q b more h f. elim (dec_lt q n) [
          | yes lt ↦ absurd (cc (all_done q lt, f))
          | no ge ↦
              let same : q ≡ n = omega arith in
              let equal : b ≡ a = cc (f, e, same) in omega (arith, ap time equal)
        ],
      )
    ]
    | inr (r, a, rest, h, e, least) ↦ elim (List-cases (g n).ahead) [
      | inl finished ↦ inr (
        r,
        a,
        rest,
        omega (arith, h),
        e,
        λ q b more k f. elim (dec_lt q n) [
          | yes lt ↦ least q b more lt f
          | no ge ↦ let same : q ≡ n = omega arith in absurd (cc (finished, f, same))
        ],
      )
      | inr (b, more, f) ↦ elim (dec_lt (time b) (time a)) [
        | yes earlier ↦ inr (
          n,
          b,
          more,
          omega arith,
          f,
          λ q c others k i. elim (dec_lt q n) [
            | yes lt ↦ omega (arith, least q c others lt i, earlier)
            | no ge ↦
                let same : q ≡ n = omega arith in
                let equal : c ≡ b = cc (f, i, same) in omega (arith, ap time equal)
          ],
        )
        | no later ↦ inr (
          r,
          a,
          rest,
          omega (arith, h),
          e,
          λ q c others k i. elim (dec_lt q n) [
            | yes lt ↦ least q c others lt i
            | no ge ↦
                let same : q ≡ n = omega arith in
                let equal : c ≡ b = cc (f, i, same) in omega (arith, ap time equal, later)
          ],
        )
      ]
    ]
  ]
    where
      below :
          (n : ℕ)
          → (g n).ahead ≡ []
          → ((r : ℕ) → r < n → (g r).ahead ≡ [])
          → (r : ℕ) → r < suc n
          → (g r).ahead ≡ []
      below n finished all_done r h = elim (dec_lt r n) [
        | yes lt ↦ all_done r lt
        | no ge ↦ let same : n ≡ r = omega arith in subst (λ q. (g q).ahead ≡ []) same finished
      ]

  module _ (size high : ℕ) (programs : ℕ → List Action) where
    -- What a call needs comes earlier, in the neighbour's program.
    abbrev pub Served : Option (ℕ × Action) → Action → Type 0
    Served none a = Unit {0}
    Served (some (q, d)) a = (q < size) × Memᴰ d (programs q) × (time d < time a)

    -- In a ring whose programs rise in time, and in which what each call needs comes earlier in the
    -- neighbour's program, a state that can be reached and in which nobody can finish a call is one
    -- in which all programs are done.
    pub Reachable-done :
        ((r : ℕ) → r < size → Rises 0 high (programs r))
        → ((r : ℕ) → r < size → All (λ a. Served (needs size r a) a) (programs r))
        → (g : Group) → Reachable size programs g
        → Stuck size g
        → (r : ℕ) → r < size
        → (g r).ahead ≡ []
    Reachable-done rising served g reached stuck = elim (earliest g size) [
      | inl finished ↦ finished
      | inr (r, a, rest, h, e, least) ↦
          absurd (stuck _ (move g r a rest h e (happened r a rest h e least)))
    ]
      where
        sound : Sound programs g
        sound = Reachable-Sound size programs g reached

        happened :
            (r : ℕ) (a : Action) (rest : List Action)
            → r < size
            → (g r).ahead ≡ a ∷ rest
            → ((q : ℕ) (b : Action) (more : List Action)
                → q < size
                → (g q).ahead ≡ b ∷ more
                → time a ≤ time b)
            → Happened g (needs size r a)
        happened r a rest h e least = before (needs size r a) (
            (All-append_right (λ b. Served (needs size r b) b) (g r).behind (a ∷ rest)
              (subst (All (λ b. Served (needs size r b) b))
                (sym (sound r) ∙ ap (λ l. (g r).behind ++ l) e) (served r h))).0)
          where
            late :
                (q : ℕ) (d : Action)
                → q < size
                → time d < time a
                → Memᴰ d (g q).ahead
                → ((g q).ahead ≡ [])
                  ⊎ ((b : Action) × (more : List Action) × ((g q).ahead ≡ b ∷ more))
                → ⊥
            late q d lt early still (inl nothing) = Memᴰ.not-nil (subst (Memᴰ d) nothing still)
            late q d lt early still (inr (b, more, f)) =
                let (from, rises) = Rises-append_right 0 high (g q).behind (b ∷ more) (
                  subst (Rises 0 high) (sym (sound q) ∙ ap (λ l. (g q).behind ++ l) f)
                    (rising q lt)) in
                let first =
                  Rises-Memᴰ (time b) high (b ∷ more) d (omega arith, rises.1)
                    (subst (Memᴰ d) f still) in
                absurd (omega (arith, first, early, least q b more lt f))

            before : (need : Option (ℕ × Action)) → Served need a → Happened g need
            before none ok = tt
            before (some (q, d)) (lt, there, early) =
                elim (Memᴰ.append_cases (g q).behind (subst (Memᴰ d) (sym (sound q)) there)) [
                  | inl past ↦ past
                  | inr still ↦ absurd (late q d lt early still (List-cases (g q).ahead))
                ]
