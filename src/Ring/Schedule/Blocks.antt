-- ===== src/Ring/Schedule/Blocks.antt =====
-- The schedule in closed form, and how the steps of neighbours fit together.
use native.Mathlib.Nat.{add-mod_right, mod-eq_of_lt, mod-eq-sub-mod, mod_self, zero-mod, mod-lt}
use comm_workshop_final.Prelude.{
  ℕ, ◌+◌, ◌-◌, ◌%◌, ◌≤◌, ◌<◌, ◌≡◌, ◌≢◌, ap, ◌∙◌, dec_lt, ◌*◌, ◌⊎◌, inl, inr, arith,
}
use comm_workshop_final.Prelude.Int.{pos, sub_ℕ}
use comm_workshop_final.Ring.Schedule.{
  positive_mod, scatter_send_block, scatter_recv_block, gather_send_block, gather_recv_block,
  owned_block_of,
}

-- `next` and `previous` in the ring.
abbrev pub next_rank : ℕ → ℕ → ℕ
next_rank rank size = (rank + 1) % size

-- The block `d` places before `rank`.
abbrev pub back : ℕ → ℕ → ℕ → ℕ
back rank size d = (rank + size - d) % size

-- For a dividend that is at most one modulus below zero, `positive_mod` is the remainder of
-- mathematics.
positive_mod-mod :
    (a b m : ℕ) → 0 < m → b ≤ a + m → positive_mod (sub_ℕ a b) m ≡ pos ((a + m - b) % m)
unfolding positive_mod
positive_mod-mod a b m h k = elim (dec_lt a b) [
  | no above ↦
      let shift : (a + m - b) % m ≡ (a - b) % m =
        ap (λ (t : ℕ). t % m) (omega arith) ∙ add-mod_right (a - b) m in
      ground (arith, shift)
  | yes below ↦ elim (dec_lt (b - a) m) [
    | yes inside ↦
        let small : (b - a - 1 + 1) % m ≡ b - a =
          ap (λ (t : ℕ). t % m) (omega arith) ∙ mod-eq_of_lt inside in
        let rest : (a + m - b) % m ≡ a + m - b = mod-eq_of_lt (omega arith) in
        ground (arith, small, rest)
    | no whole ↦
        let full : (b - a - 1 + 1) % m ≡ 0 = ap (λ (t : ℕ). t % m) (omega arith) ∙ mod_self m in
        let none_left : (a + m - b) % m ≡ 0 = ap (λ (t : ℕ). t % m) (omega arith) ∙ zero-mod m in
        ground (arith, full, none_left)
  ]
]

-- A remainder of a number below twice the modulus.
pub wrap : (n m : ℕ) → n < 2 * m → ((n < m) × (n % m ≡ n)) ⊎ ((m ≤ n) × (n % m ≡ n - m))
wrap n m h = elim (dec_lt n m) [
  | yes lt ↦ inl (lt, mod-eq_of_lt lt)
  | no ge ↦ inr (
    omega arith,
    mod-eq-sub-mod {n = n} {m = m} (omega arith) ∙ mod-eq_of_lt {n = n - m} {m = m} (omega arith),
  )
]

module _ (rank size : ℕ) (h : rank < size) where
  pub scatter_send-back : (d : ℕ) → d ≤ size → scatter_send_block rank size d ≡ back rank size d
  unfolding scatter_send_block
  scatter_send-back d k = rw (positive_mod-mod rank d size (omega arith) (omega arith))

  pub scatter_recv-back :
      (d : ℕ) → d < size → scatter_recv_block rank size d ≡ back rank size (d + 1)
  unfolding scatter_recv_block
  scatter_recv-back d k = rw (positive_mod-mod rank (d + 1) size (omega arith) (omega arith))

  pub gather_send-back : (d : ℕ) → d ≤ size → gather_send_block rank size d ≡ back (rank + 1) size d
  unfolding gather_send_block
  gather_send-back d k = rw (positive_mod-mod (rank + 1) d size (omega arith) (omega arith))

  pub gather_recv-back : (d : ℕ) → d ≤ size → gather_recv_block rank size d ≡ back rank size d
  unfolding gather_recv_block
  gather_recv-back d k = rw (positive_mod-mod rank d size (omega arith) (omega arith))

  pub owned_block-next : owned_block_of rank size ≡ next_rank rank size
  unfolding owned_block_of
  owned_block-next =
      rw (positive_mod-mod (rank + 1) 0 size (omega arith) (omega arith))
        (ap (λ (t : ℕ). t % size) (omega arith) ∙ add-mod_right (rank + 1) size)

  pub next_rank-lt : next_rank rank size < size
  next_rank-lt = mod-lt (rank + 1) (omega arith)

  pub back-lt : (d : ℕ) → back rank size d < size
  back-lt d = mod-lt (rank + size - d) (omega arith)

  -- Different distances below `size` lead to different blocks.
  pub back-injective : (d e : ℕ) → d < size → e < size → back rank size d ≡ back rank size e → d ≡ e
  back-injective d e hd he same =
      ground (arith, wrap (rank + size - d) size, wrap (rank + size - e) size)

  pub back-zero : back rank size 0 ≡ rank
  back-zero = ground (arith, wrap (rank + size) size)

  -- One place further on, one place further back.
  pub back-next : (d : ℕ) → d < size → back (next_rank rank size) size (d + 1) ≡ back rank size d
  back-next d k = ground (
    arith,
    wrap (rank + 1) size,
    wrap (rank + size - d) size,
    wrap (next_rank rank size + size - (d + 1)) size,
  )

  pub back-suc_rank : (d : ℕ) → d < size → back (rank + 1) size (d + 1) ≡ back rank size d
  back-suc_rank d k = ap (λ (t : ℕ). t % size) (omega arith)

  back_whole : back rank size size ≡ rank
  back_whole = ground (arith, wrap (rank + size - size) size)

  -- The same step back from `rank` and from the next rank leads to different blocks.
  pub back-suc_ne : (d : ℕ) → d + 1 < size → back (rank + 1) size d ≢ back rank size d
  back-suc_ne d k e = elim (dec_lt (rank + 1 + size - d) (2 * size)) [
    | yes lt ↦ absurd (
        ground
          (arith, e, wrap (rank + size - d) size (omega arith), wrap (rank + 1 + size - d) size lt))
    | no round ↦
        let none_left : (rank + 1 + size - d) % size ≡ 0 =
          ap (λ (t : ℕ). t % size) (omega arith) ∙ add-mod_right size size ∙ mod_self size in
        absurd (ground (arith, e, none_left, wrap (rank + size - d) size (omega arith)))
  ]
