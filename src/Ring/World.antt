-- ===== src/Ring/World.antt =====
-- All the ranks of a group, each with its buffer, and the messages between neighbours. The contract
-- of include/pg_transport.h says that a rank receives what the previous one sends, matched by tag.
pub mod Wiring
pub mod Scatter
pub mod Gather
pub mod Fold
pub mod Descriptors
pub mod Pairing
pub mod AllReduce
pub mod Interleaving
pub mod Times
pub mod Needs
pub mod Deadlock
use comm_workshop_final.Prelude.{ℕ, zero, suc, ◌-◌, ◌<◌, ◌≡◌, List, ◌++◌, All}
use comm_workshop_final.Types.{Datatype, Operation}
use comm_workshop_final.Memory.{Buffer, Scalars}
use comm_workshop_final.Reduction.Elementwise.{combine}
use comm_workshop_final.Transport.Reliable.{Message}
use comm_workshop_final.Ring.Schedule.Blocks.{back}
use comm_workshop_final.Ring.Context.{Context}
use comm_workshop_final.Ring.Phase.ScatterRun.{scatter_work, scatter_sent}
use comm_workshop_final.Ring.Phase.GatherRun.{gather_work, gather_sent}

-- `previous` in the ring.
abbrev pub previous_rank : ℕ → ℕ → ℕ
previous_rank rank size = back rank size 1

-- The context of rank `r`, in a group whose members share everything but the rank.
abbrev pub member : {T E : Type 0} → Context T E → ℕ → Context T E
member c r = record c { rank = r }

-- `inbox` gives the payload of the message under its tag.
abbrev pub Delivered : {E : Type 0} → (ℕ → ℕ → E) → Message E → Type 0
Delivered inbox m = (j : ℕ) → j < m.payload.size → inbox m.tag j ≡ m.payload.at j

module _ (s : Scalars) {T : Type 0} (datatype : Datatype) (operation : Operation)
    (c : Context T s.Elem) (element_size : ℕ) (inbox : ℕ → ℕ → ℕ → s.Elem)
    (work : ℕ → Buffer s.Elem) where
  -- The buffer of rank `r` after `n` steps of Reduce-Scatter, and after `n` steps of All-Gather.
  abbrev pub scattered : ℕ → ℕ → Buffer s.Elem
  scattered r = scatter_work s datatype operation (member c r) element_size (inbox r) (work r)

  abbrev pub gathered : ℕ → ℕ → Buffer s.Elem
  gathered r = gather_work s (member c r) element_size (inbox r) (scattered r (c.world_size - 1))

  -- All that rank `r` sends in a call.
  abbrev pub all_sent : ℕ → List (Message s.Elem)
  all_sent r =
      scatter_sent s datatype operation (member c r) element_size (inbox r) (work r)
        (c.world_size - 1)
      ++ gather_sent s (member c r) element_size (inbox r) (scattered r (c.world_size - 1))
          (c.world_size - 1)

  -- Each rank receives what the previous one sends.
  abbrev pub Wired : Type 0
  Wired =
      (r : ℕ)
      → r < c.world_size
      → All (Delivered (inbox r)) (all_sent (previous_rank r c.world_size))

-- The elements of ranks `r`, `r - 1`, …, `r - n` at index `i`, combined in that order, the first one
-- outermost.
pub chain : (s : Scalars) → Datatype → Operation → ℕ → (ℕ → Buffer s.Elem) → ℕ → ℕ → ℕ → s.Elem
chain s datatype operation size work r zero i = (work r).at i
chain s datatype operation size work r (suc n) i =
    combine s datatype operation ((work r).at i)
      (chain s datatype operation size work (previous_rank r size) n i)
