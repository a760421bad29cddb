-- ===== src/Verbs/Requests.antt =====
-- Finding a request after a write or an erasure.
use comm_workshop_final.Prelude.{
  ℕ, [], ◌∷◌, true, false, some, ◌==◌, ◌≡◌, ◌≢◌, refl, Bool-cases, inl, inr, arith, ==_iff,
}
use comm_workshop_final.Verbs.{RequestState, Requests, find, update, erase}

pub ==-same : (k : ℕ) → (k == k) ≡ true
==-same k = (==_iff k k).1 refl

pub ==-differ : (k l : ℕ) → k ≢ l → (k == l) ≡ false
==-differ k l h = ground arith

-- A write under one key changes what is found there, if anything was,
pub find-update_same :
    (key : ℕ) (state old : RequestState) (requests : Requests)
    → find key requests ≡ some old
    → find key (update key state requests) ≡ some state
find-update_same key state old [] h = absurd (cc h)
find-update_same key state old ((k, first) ∷ rest) h = elim (Bool-cases (k == key)) [
  | inl here ↦ rw (here, here)
  | inr away ↦ rw (away, away) (find-update_same key state old rest (rw away at h))
]

-- and nothing elsewhere.
pub find-update_other :
    (key other : ℕ) (state : RequestState) (requests : Requests)
    → other ≢ key
    → find other (update key state requests) ≡ find other requests
find-update_other key other state [] ne = refl
find-update_other key other state ((k, old) ∷ rest) ne = elim (Bool-cases (k == key)) [
  | inl here ↦ let e : (k == other) ≡ false = ground arith in rw (here, e)
  | inr away ↦ elim (Bool-cases (k == other)) [
    | inl found ↦ rw (away, found)
    | inr not_yet ↦ rw (away, not_yet) (find-update_other key other state rest ne)
  ]
]

pub find-erase_other :
    (key other : ℕ) (requests : Requests)
    → other ≢ key
    → find other (erase key requests) ≡ find other requests
find-erase_other key other [] ne = refl
find-erase_other key other ((k, old) ∷ rest) ne = elim (Bool-cases (k == key)) [
  | inl here ↦ let e : (k == other) ≡ false = ground arith in rw (here, e)
  | inr away ↦ elim (Bool-cases (k == other)) [
    | inl found ↦ rw (away, found)
    | inr not_yet ↦ rw (away, not_yet) (find-erase_other key other rest ne)
  ]
]
