-- ===== src/ProcessGroup/Bootstrap/Order.antt =====
-- The order in which the ranks of a ring connect and accept, over all ranks: src/process_group_api.cpp,
-- where `connect_process_group` calls `connect_to_host` and `listen_and_accept`.
use native.Mathlib.Numerals.{add-one}
use comm_workshop_final.Prelude.{
  ℕ, zero, suc, ◌+◌, ◌-◌, ◌%◌, ◌≤◌, ◌<◌, ◌≡◌, ◌≢◌, refl, sym, ap, subst, dec_lt, ◌∙◌, if◌then◌else◌,
  ◌==◌, Bool-cases, inl, inr, ◌⊎◌, ==_iff, arith,
}
use comm_workshop_final.Ring.Schedule.Blocks.{next_rank, wrap, back}
use comm_workshop_final.Ring.Schedule.Around.{previous-next_rank}
use comm_workshop_final.ProcessGroup.Bootstrap.{connects_first}

-- How many of its two calls each rank has behind it.
abbrev pub Progress : Type 0
Progress = ℕ → ℕ

-- Whether the call that connects is the first or the second one, and that which accepts.
abbrev pub connect_call : ℕ → ℕ
connect_call r = if connects_first r then 0 else 1

abbrev pub accept_call : ℕ → ℕ
accept_call r = if connects_first r then 1 else 0

abbrev pub advance : Progress → ℕ → Progress
advance p r = λ q. if q == r then p q + 1 else p q

-- What a rank of a ring can do: connect while the next rank is in its call that listens, and accept
-- once the previous rank has connected.
pub data Moves (size : ℕ) : Progress → Progress → Type 0 where
  connect :
      (p : Progress) (r : ℕ)
      → r < size
      → p r ≡ connect_call r
      → p (next_rank r size) ≡ accept_call (next_rank r size)
      → Moves size p (advance p r)
  accept :
      (p : Progress) (r : ℕ)
      → r < size
      → connect_call r < p r
      → p (next_rank r size) ≡ accept_call (next_rank r size)
      → Moves size p (advance p (next_rank r size))

-- What can come about from a ring whose ranks have done neither call.
pub data Reachable (size : ℕ) : Progress → Type 0 where
  begun : Reachable size (λ r. 0)
  further : (p q : Progress) → Reachable size p → Moves size p q → Reachable size q

calls : (r : ℕ) → (connect_call r ≡ r % 2) × (accept_call r ≡ 1 - r % 2)
unfolding connects_first
calls r = ground arith

-- No rank does more than two calls, and none accepts before the previous one has connected.
record Sound (size : ℕ) (p : Progress) : Type 0 where
  two : (r : ℕ) → r < size → p r ≤ 2
  before :
      (r : ℕ)
      → r < size
      → accept_call (next_rank r size) < p (next_rank r size)
      → connect_call r < p r

advance-cases :
    (p : Progress) (r q : ℕ)
    → ((q ≡ r) × (advance p r q ≡ p q + 1)) ⊎ ((q ≢ r) × (advance p r q ≡ p q))
advance-cases p r q = elim (Bool-cases (q == r)) [
  | inl same ↦ inl ((==_iff q r).0 same, rw same refl)
  | inr other ↦ inr (λ e. cc ((==_iff q r).1 e, other), rw other refl)
]

next_rank-injective :
    (size q r : ℕ) → q < size → r < size → next_rank q size ≡ next_rank r size → q ≡ r
next_rank-injective size q r h k e =
    sym (previous-next_rank q size h) ∙ ap (λ t. back t size 1) e ∙ previous-next_rank r size k

module _ (size : ℕ) where
  advance-Sound :
      (p : Progress) (r : ℕ)
      → Sound size p
      → p r < 2
      → ((q : ℕ) → q < size → next_rank q size ≡ r → accept_call r < p r + 1 → connect_call q < p q)
      → Sound size (advance p r)
  advance-Sound p r s small first = record {
    two = λ q h. elim (advance-cases p r q) [
      | inl here ↦ omega (arith, here.1, ap p here.0, small)
      | inr there ↦ omega (arith, there.1, s.two q h)
    ];
    before = λ q h lt. grows q (earlier q h lt);
  }
    where
      grows : (q : ℕ) → connect_call q < p q → connect_call q < advance p r q
      grows q lt = elim (advance-cases p r q) [
        | inl here ↦ omega (arith, here.1, lt)
        | inr there ↦ omega (arith, there.1, lt)
      ]

      earlier :
          (q : ℕ)
          → q < size
          → accept_call (next_rank q size) < advance p r (next_rank q size)
          → connect_call q < p q
      earlier q h lt = elim (advance-cases p r (next_rank q size)) [
        | inl here ↦
            first q h here.0
              (subst (λ t. accept_call t < p t + 1) here.0 (omega (arith, here.1, lt)))
        | inr there ↦ s.before q h (omega (arith, there.1, lt))
      ]

  move-Sound : (p q : Progress) → Sound size p → Moves size p q → Sound size q
  move-Sound p q s (connect _ r h now listens) =
      advance-Sound p r s (omega (arith, now, calls r)) (λ t k e lt.
        s.before t k (subst (λ u. accept_call u < p u) (sym e) (omega (arith, now, lt, calls r))))
  move-Sound p q s (accept _ r h connected listens) =
      advance-Sound p (next_rank r size) s (omega (arith, listens, calls (next_rank r size)))
        (λ t k e lt.
          subst (λ u. connect_call u < p u) (sym (next_rank-injective size t r k h e)) connected)

  Reachable-Sound : (p : Progress) → Reachable size p → Sound size p
  Reachable-Sound p begun = record {
    two = λ r h. omega arith;
    before = λ r h lt. absurd (omega (arith, lt));
  }
  Reachable-Sound p (further o _ reached move) = move-Sound o p (Reachable-Sound o reached) move

  -- Nobody can move.
  abbrev pub Stuck : Progress → Type 0
  Stuck p = (q : Progress) → ¬ Moves size p q

  module _ (p : Progress) (s : Sound size p) (stuck : Stuck p) (pair : 2 ≤ size) where
    -- Next to a rank that waits in its connect, or has connected, nobody is about to accept.
    refuses :
        (r : ℕ)
        → r < size
        → connect_call r ≤ p r
        → p (next_rank r size) ≢ accept_call (next_rank r size)
    refuses r h le listens = elim (dec_lt (connect_call r) (p r)) [
      | yes connected ↦ stuck _ (accept p r h connected listens)
      | no waits ↦ stuck _ (connect p r h (omega (arith, le, waits)) listens)
    ]

    -- What this says of a rank and the next one, in numbers.
    edge :
        (r n : ℕ)
        → r < size
        → next_rank r size ≡ n
        → (r % 2 ≤ p r → p n ≢ 1 - n % 2) × (1 - n % 2 < p n → r % 2 < p r)
    edge r n h e =
        subst (λ t. (r % 2 ≤ p r → p t ≢ 1 - t % 2) × (1 - t % 2 < p t → r % 2 < p r)) e
          (
            λ le bad.
                refuses r h (omega (arith, le, calls r))
                  (omega (arith, bad, calls (next_rank r size))),
            λ lt.
                omega (arith, s.before r h (omega (arith, lt, calls (next_rank r size))), calls r),
          )

    -- The rank after `r` in numbers.
    edge_within :
        (r : ℕ)
        → r + 1 < size
        → (r % 2 ≤ p r → p (r + 1) ≢ 1 - (r + 1) % 2) × (1 - (r + 1) % 2 < p (r + 1) → r % 2 < p r)
    edge_within r h =
        edge r (r + 1) (omega (arith, h)) (omega (arith, wrap (r + 1) size (omega (arith, h))))

    edge_last : (r : ℕ) → r + 1 ≡ size → (r % 2 ≤ p r → p 0 ≢ 1) × (1 < p 0 → r % 2 < p r)
    edge_last r h =
        edge r 0 (omega (arith, h)) (omega (arith, wrap (r + 1) size (omega (arith, h, pair))))

    -- An odd rank has accepted: the rank before it waits for nothing else.
    odd_started : (r : ℕ) → r + 1 < size → r % 2 ≡ 0 → (1 ≤ p r) × (1 ≤ p (r + 1))
    odd_started r h even =
        let (refused, sound) = edge_within r h in
        let now : p (r + 1) ≢ 0 = λ e. refused (omega (arith, even)) (omega (arith, e, even)) in
        let later : 1 ≤ p (r + 1) = omega (arith, now) in
        (omega (arith, sound (omega (arith, later, even)), even), later)

    parity : (n : ℕ) → (n % 2 ≡ 0) ⊎ (n % 2 ≡ 1)
    parity n = ground arith

    started : (r : ℕ) → r < size → 1 ≤ p r
    started zero h = (odd_started 0 (omega arith) refl).0
    started (suc q) h = elim (parity q) [
      | inl even ↦ subst (λ t. 1 ≤ p t) (add-one q) ((odd_started q (omega arith) even).1)
      | inr odd ↦ elim (dec_lt (suc q + 1) size) [
        | yes within ↦ (odd_started (suc q) within (omega (arith, odd))).0
        | no around ↦
            let (refused, sound) = edge_last (suc q) (omega arith) in
            let first : 1 ≤ p 0 = (odd_started 0 (omega arith) refl).0 in
            let not_one : p 0 ≢ 1 = refused (omega (arith, odd)) in
            omega (arith, sound (omega (arith, first, not_one)))
      ]
    ]

    -- An even rank that has begun cannot be about to accept.
    even_finished : (r : ℕ) → r < size → r % 2 ≡ 0 → p r ≡ 2
    even_finished zero h even =
        let last : size - 1 < size = omega arith in
        let begun_last : 1 ≤ p (size - 1) = started (size - 1) last in
        let not_one : p 0 ≢ 1 =
          (edge_last (size - 1) (omega arith)).0 (omega (arith, begun_last)) in
        omega (arith, not_one, started 0 h, s.two 0 h)
    even_finished (suc q) h even =
        let begun_before : 1 ≤ p q = started q (omega arith) in
        let not_one : p (q + 1) ≢ 1 - (q + 1) % 2 =
          (edge_within q (omega arith)).0 (omega (arith, begun_before)) in
        let same : p (q + 1) ≡ p (suc q) = ap p (add-one q) in
        omega (arith, not_one, same, started (suc q) h, s.two (suc q) h, even)

    finished : (r : ℕ) → r < size → p r ≡ 2
    finished r h = elim (parity r) [
      | inl even ↦ even_finished r h even
      | inr odd ↦ elim (dec_lt (r + 1) size) [
        | yes within ↦
            let next_done : p (r + 1) ≡ 2 = even_finished (r + 1) within (omega (arith, odd)) in
            let more : r % 2 < p r = (edge_within r within).1 (omega (arith, next_done)) in
            omega (arith, more, odd, s.two r h)
        | no around ↦
            let next_done : p 0 ≡ 2 = even_finished 0 (omega arith) refl in
            let more : r % 2 < p r = (edge_last r (omega arith)).1 (omega (arith, next_done)) in
            omega (arith, more, odd, s.two r h)
      ]
    ]

-- In a ring of at least two ranks, where each rank connects to the next one and accepts the previous
-- one in the order that the code gives it, waiting until the next one listens, a state that can be reached and in which no rank can move
-- is one in which every rank has done both calls: connecting and accepting never deadlocks.
pub Reachable-finished :
    (size : ℕ) (p : Progress)
    → 2 ≤ size
    → Reachable size p
    → Stuck size p
    → (r : ℕ) → r < size
    → p r ≡ 2
Reachable-finished size p pair reached stuck r h =
    finished size p (Reachable-Sound size p reached) stuck pair r h
