-- ===== src/ProcessGroup/Calls.antt =====
-- The byte streams of the process group.
use comm_workshop_final.Prelude.{
  ℕ, ◌+◌, ◌-◌, ◌<◌, ◌≡◌, refl, List, [], ◌∷◌, Bool, true, false, some, if◌then◌else◌, ◌==◌, arith,
}
use comm_workshop_final.ProcessGroup.{IoResult, interrupted, io_error, moved_bytes, transfer_all}

-- Every result is an interruption or a positive number of bytes.
abbrev Progresses : List IoResult → Type 0
Progresses [] = Unit {0}
Progresses (interrupted ∷ rest) = Progresses rest
Progresses (io_error ∷ rest) = ⊥
Progresses (moved_bytes n ∷ rest) = (0 < n) × Progresses rest

abbrev pub total : List IoResult → ℕ
total [] = 0
total (moved_bytes n ∷ rest) = n + total rest
total (result ∷ rest) = total rest

ite-same : (b : Bool) → (if b then some true else some true) ≡ some true
ite-same true = refl
ite-same false = refl

-- If every system call is interrupted or moves at least one byte, and they move `bytes` bytes in all,
-- `write_all` and `read_all` end with success.
pub transfer_all-whole :
    (bytes : ℕ) (results : List IoResult)
    → Progresses results
    → total results ≡ bytes
    → transfer_all bytes results ≡ some true
unfolding transfer_all
transfer_all-whole bytes [] good e = let z : (bytes == 0) ≡ true = ground arith in rw z
transfer_all-whole bytes (interrupted ∷ rest) good e =
    rw (transfer_all-whole bytes rest good e) (ite-same (bytes == 0))
transfer_all-whole bytes (io_error ∷ rest) good e = absurd good
transfer_all-whole bytes (moved_bytes n ∷ rest) (p, good) e =
    let nonzero : (n == 0) ≡ false = ground arith in
    rw (transfer_all-whole (bytes - n) rest good (omega arith), nonzero) (ite-same (bytes == 0))
