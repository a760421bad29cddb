-- ===== src/Ring/Phase/Tags.antt =====
-- The tags of the messages and of the receives of a phase ascend.
use comm_workshop_final.Prelude.{
  ℕ, zero, suc, ◌+◌, ◌*◌, ◌%◌, ◌^◌, ◌≤◌, ◌<◌, ◌≡◌, refl, List, [], ◌∷◌, ◌++◌, map, map-append,
  arith,
}
use comm_workshop_final.Types.{Datatype, Operation}
use comm_workshop_final.Memory.{Buffer, Scalars}
use comm_workshop_final.Pieces.{piece_count_for}
use comm_workshop_final.Transport.Reliable.{Message, Descriptor}
use comm_workshop_final.Ring.Context.{Context}
use comm_workshop_final.Ring.Step.Posting.{descriptor, message}
use comm_workshop_final.Ring.Step.Batch.{first}
use comm_workshop_final.Ring.Collectives.{scatter_step, gather_step}
use comm_workshop_final.Ring.Phase.Ready.{Ready}
use comm_workshop_final.Ring.Phase.ScatterRun as ScatterRun
use comm_workshop_final.Ring.Phase.ScatterRun.{scatter_work, scatter_sent, scatter_expected}
use comm_workshop_final.Ring.Phase.GatherRun as GatherRun
use comm_workshop_final.Ring.Phase.GatherRun.{gather_work, gather_sent, gather_expected}

-- Each number is greater than the one before it, and all lie from `low` up to, but not at, `high`.
abbrev pub Ascending : ℕ → ℕ → List ℕ → Type 0
Ascending low high [] = low ≤ high
Ascending low high (x ∷ xs) = (low ≤ x) × Ascending (x + 1) high xs

Ascending-widen :
    (low mid high top : ℕ) (xs : List ℕ)
    → low ≤ mid
    → high ≤ top
    → Ascending mid high xs
    → Ascending low top xs
Ascending-widen low mid high top [] h g a = omega arith
Ascending-widen low mid high top (x ∷ xs) h g (b, a) =
    (omega arith, Ascending-widen (x + 1) (x + 1) high top xs (omega arith) g a)

pub Ascending-append :
    (low mid high : ℕ) (xs ys : List ℕ)
    → Ascending low mid xs
    → Ascending mid high ys
    → Ascending low high (xs ++ ys)
Ascending-append low mid high [] ys h a = Ascending-widen low mid high high ys h (omega arith) a
Ascending-append low mid high (x ∷ xs) ys (b, h) a =
    (b, Ascending-append (x + 1) mid high xs ys h a)

-- `base`, `base + 1`, …
Ascending-first :
    {A : Type 0} (f : A → ℕ) (g : ℕ → A) (base n high : ℕ)
    → ((k : ℕ) → f (g k) ≡ base + k)
    → base + n ≤ high
    → Ascending base high (map f (first g n))
Ascending-first f g base zero high e h = omega arith
Ascending-first f g base (suc n) high e h = rw (map-append f (first g n) (g n ∷ [])) (
    Ascending-append base (base + n) high (map f (first g n)) (f (g n) ∷ [])
      (Ascending-first f g base n (base + n) e (omega arith))
      (omega (arith, e n), omega (arith, e n)))

-- `pieces k` items in step `k`, of at most 4096, under the tags from `base + k * 2 ^ 12`.
steps-Ascending :
    {A : Type 0} (f : A → ℕ) (items : ℕ → List A) (item : ℕ → ℕ → A) (pieces : ℕ → ℕ) (base n : ℕ)
    → items 0 ≡ []
    → ((k : ℕ) → items (suc k) ≡ items k ++ first (item k) (pieces k))
    → ((k : ℕ) → k < n → pieces k ≤ 4096)
    → ((k j : ℕ) → f (item k j) ≡ base + k * 2 ^ 12 + j)
    → Ascending base (base + n * 2 ^ 12) (map f (items n))
steps-Ascending f items item pieces base zero none_yet grow few tagged = rw none_yet (omega arith)
steps-Ascending f items item pieces base (suc n) none_yet grow few tagged =
    rw (grow n, map-append f (items n) (first (item n) (pieces n)))
      (Ascending-append base (base + n * 2 ^ 12) (base + suc n * 2 ^ 12) (map f (items n))
        (map f (first (item n) (pieces n)))
        (steps-Ascending f items item pieces base n none_yet grow (λ k h. few k (omega arith))
          tagged)
        (Ascending-first f (item n) (base + n * 2 ^ 12) (pieces n) (base + suc n * 2 ^ 12)
          (tagged n) (omega (arith, few n (omega arith)))))

-- The first of the tags with this sequence number.
abbrev pub first_tag : ℕ → ℕ
first_tag sequence = sequence % 2 ^ 12 * 2 ^ 20

module _ (s : Scalars) {T : Type 0} (datatype : Datatype) (operation : Operation)
    (c : Context T s.Elem) (count element_size : ℕ) (y : Ready c count element_size)
    (inbox : ℕ → ℕ → s.Elem) (work : Buffer s.Elem) where
  pub scatter_sent-Ascending :
      (n : ℕ)
      → n < c.world_size
      → Ascending
          (first_tag c.sequence)
          (first_tag c.sequence + n * 2 ^ 12)
          (map (λ m. m.tag) (scatter_sent s datatype operation c element_size inbox work n))
  unfolding scatter_sent
  scatter_sent-Ascending n h =
      steps-Ascending (λ (m : Message s.Elem). m.tag)
        (scatter_sent s datatype operation c element_size inbox work)
        (λ k.
          message s
            (λ j.
              (scatter_work s datatype operation c element_size inbox work k).at
                ((scatter_step c element_size k).send_start + j))
            (scatter_step c element_size k))
        (λ k.
          piece_count_for (scatter_step c element_size k).send_count
            (scatter_step c element_size k).piece_elements)
        (first_tag c.sequence) n refl (λ k. refl)
        (λ k lt. y.pieces _ (ScatterRun.sent-lt c count element_size y k (omega arith)))
        (λ k j. omega arith)

  pub scatter_expected-Ascending :
      (n : ℕ)
      → n < c.world_size
      → Ascending
          (first_tag c.sequence)
          (first_tag c.sequence + n * 2 ^ 12)
          (map (λ d. d.tag) (scatter_expected s datatype operation c element_size inbox work n))
  unfolding scatter_expected
  scatter_expected-Ascending n h =
      steps-Ascending (λ (d : Descriptor). d.tag)
        (scatter_expected s datatype operation c element_size inbox work)
        (λ k. descriptor (scatter_step c element_size k))
        (λ k.
          piece_count_for (scatter_step c element_size k).recv_count
            (scatter_step c element_size k).piece_elements)
        (first_tag c.sequence) n refl (λ k. refl)
        (λ k lt. y.pieces _ (ScatterRun.received-lt c count element_size y k (omega arith)))
        (λ k j. omega arith)

  pub gather_sent-Ascending :
      (n : ℕ)
      → n < c.world_size
      → Ascending
          (first_tag c.sequence + 2 ^ 19)
          (first_tag c.sequence + 2 ^ 19 + n * 2 ^ 12)
          (map (λ m. m.tag) (gather_sent s c element_size inbox work n))
  unfolding gather_sent
  gather_sent-Ascending n h =
      steps-Ascending (λ (m : Message s.Elem). m.tag) (gather_sent s c element_size inbox work)
        (λ k.
          message s
            (λ j.
              (gather_work s c element_size inbox work k).at
                ((gather_step c element_size k).send_start + j))
            (gather_step c element_size k))
        (λ k.
          piece_count_for (gather_step c element_size k).send_count
            (gather_step c element_size k).piece_elements)
        (first_tag c.sequence + 2 ^ 19) n refl (λ k. refl)
        (λ k lt. y.pieces _ (GatherRun.sent-lt c count element_size y k (omega arith)))
        (λ k j. omega arith)

  pub gather_expected-Ascending :
      (n : ℕ)
      → n < c.world_size
      → Ascending
          (first_tag c.sequence + 2 ^ 19)
          (first_tag c.sequence + 2 ^ 19 + n * 2 ^ 12)
          (map (λ d. d.tag) (gather_expected s c element_size inbox work n))
  unfolding gather_expected
  gather_expected-Ascending n h =
      steps-Ascending (λ (d : Descriptor). d.tag) (gather_expected s c element_size inbox work)
        (λ k. descriptor (gather_step c element_size k))
        (λ k.
          piece_count_for (gather_step c element_size k).recv_count
            (gather_step c element_size k).piece_elements)
        (first_tag c.sequence + 2 ^ 19) n refl (λ k. refl)
        (λ k lt. y.pieces _ (GatherRun.received-lt c count element_size y k (omega arith)))
        (λ k j. omega arith)

-- The two phases of a call: at most 127 steps each, so the first stays below the second's tags.
pub call-Ascending :
    {A : Type 0} (f : A → ℕ) (sequence n : ℕ) (scattered gathered : List A)
    → n < 128
    → Ascending (first_tag sequence) (first_tag sequence + n * 2 ^ 12) (map f scattered)
    → Ascending
        (first_tag sequence + 2 ^ 19)
        (first_tag sequence + 2 ^ 19 + n * 2 ^ 12)
        (map f gathered)
    → Ascending (first_tag sequence) (first_tag sequence + 2 ^ 20) (map f (scattered ++ gathered))
call-Ascending f sequence n scattered gathered h a b = rw (map-append f scattered gathered) (
    Ascending-append (first_tag sequence) (first_tag sequence + n * 2 ^ 12)
      (first_tag sequence + 2 ^ 20) (map f scattered) (map f gathered) a
      (Ascending-widen (first_tag sequence + n * 2 ^ 12) (first_tag sequence + 2 ^ 19)
        (first_tag sequence + 2 ^ 19 + n * 2 ^ 12) (first_tag sequence + 2 ^ 20) (map f gathered)
        (omega arith) (omega arith) b))
