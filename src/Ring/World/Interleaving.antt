-- ===== src/Ring/World/Interleaving.antt =====
-- The ranks of a ring side by side, each going through the calls that it makes of its transport. A
-- call waits for the neighbour that include/pg_transport.h makes it depend on.
pub mod Progress
use comm_workshop_final.Prelude.{
  ℕ, zero, suc, ◌≤◌, ◌<◌, ◌≡◌, refl, sym, ap, subst, ◌∙◌, ◌⊎◌, inl, inr, List, [], ◌∷◌, ◌++◌,
  append_assoc, All, All-append_right, Option, none, some, Bool-cases, if◌then◌else◌, ◌==◌, ==_iff,
  dec_lt, arith,
}
use mathlib.Core.List.{Memᴰ}
use mathlib.Core.List.Memᴰ
use mathlib.Core.List.Memᴰ.{head, tail}
use comm_workshop_final.Transport.Recorded.{
  Action, asks_receive, asks_send, awaits_receive, awaits_send,
}
use comm_workshop_final.Ring.Schedule.Blocks.{next_rank}
use comm_workshop_final.Ring.World.{previous_rank}

-- The calls that a rank has behind it, and those ahead of it.
pub record Position : Type 0 where
  pub behind : List Action
  pub ahead : List Action

abbrev pub Group : Type 0
Group = ℕ → Position

-- What must have happened before rank `r` can finish a call: the post of a send reads the control
-- message that the next rank writes when it posts the receive; a receive is there once the previous
-- rank has posted the send; and a send is over, at the latest, once the next rank has the data.
abbrev pub needs : ℕ → ℕ → Action → Option (ℕ × Action)
needs size r (asks_receive tag) = none
needs size r (asks_send tag) = some (next_rank r size, asks_receive tag)
needs size r (awaits_receive tag) = some (previous_rank r size, asks_send tag)
needs size r (awaits_send tag) = some (next_rank r size, awaits_receive tag)

abbrev pub Happened : Group → Option (ℕ × Action) → Type 0
Happened g none = Unit {0}
Happened g (some (q, d)) = Memᴰ d (g q).behind

abbrev pub advance : Group → ℕ → Action → List Action → Group
advance g r a rest =
    λ q. if q == r then record { behind = (g r).behind ++ a ∷ []; ahead = rest } else g q

-- A rank finishes its next call.
pub data Moves (size : ℕ) : Group → Group → Type 0 where
  move :
      (g : Group) (r : ℕ) (a : Action) (rest : List Action)
      → r < size
      → (g r).ahead ≡ a ∷ rest
      → Happened g (needs size r a)
      → Moves size g (advance g r a rest)

-- What can come about from ranks that have all their programs ahead of them.
pub data Reachable (size : ℕ) (programs : ℕ → List Action) : Group → Type 0 where
  begun : Reachable size programs (λ r. record { behind = []; ahead = programs r })
  further : (g h : Group) → Reachable size programs g → Moves size g h → Reachable size programs h

abbrev pub Stuck : ℕ → Group → Type 0
Stuck size g = (h : Group) → ¬ Moves size g h

abbrev Sound : (ℕ → List Action) → Group → Type 0
Sound programs g = (r : ℕ) → (g r).behind ++ (g r).ahead ≡ programs r

Reachable-Sound :
    (size : ℕ) (programs : ℕ → List Action) (g : Group)
    → Reachable size programs g
    → Sound programs g
Reachable-Sound size programs g begun = λ r. refl
Reachable-Sound size programs g (further o _ reached (move _ r a rest h e ready)) = λ q.
    let before = Reachable-Sound size programs o reached in
    elim (Bool-cases (q == r)) [
      | inl here ↦
          let same : q ≡ r = (==_iff q r).0 here in
          rw here (
            append_assoc (o r).behind (a ∷ []) rest
            ∙ ap (λ l. (o r).behind ++ l) (sym e)
            ∙ before r
            ∙ ap programs (sym same))
      | inr away ↦ rw away (before q)
    ]
