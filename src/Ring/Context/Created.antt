-- ===== src/Ring/Context/Created.antt =====
-- The context that `ring_collective_create` gives.
use comm_workshop_final.Prelude.{
  ℕ, ◌≤◌, ◌<◌, ◌≡◌, refl, Option, none, some, true, false, ◌==◌, leb, arith,
}
use comm_workshop_final.Prelude.Int.{pos}
use comm_workshop_final.Types.{success}
use comm_workshop_final.Memory.{Scalars}
use comm_workshop_final.Pieces.{Config}
use comm_workshop_final.Transport.{TransportOps}
use comm_workshop_final.Ring.Context.{
  Context, effective_config, new_context, create_checked, ring_collective_create,
}

-- A usable configuration: 1 to 1024 requests in flight, pieces that are not empty.
abbrev pub IsUsable : Config → Type 0
IsUsable config =
    (0 < config.max_inflight) × (config.max_inflight ≤ 1024) × (0 < config.pipeline_piece_bytes)

pub effective_config-IsUsable : (config : Option Config) → IsUsable (effective_config config)
unfolding effective_config
effective_config-IsUsable none = (omega arith, omega arith, omega arith)
effective_config-IsUsable (some config) = (ground arith, ground arith, ground arith)

module _ (s : Scalars) {T : Type 0} (ops : TransportOps T s.Elem) where
  -- Over a transport that reports a rank below its size, the call succeeds with any configuration.
  -- The context has that rank and size, 1 to 1024 requests in flight, pieces that are not
  -- empty, and sequence number 0.
  pub ring_collective_create-IsUsable :
      (t : T) (config : Option Config) (rank size : ℕ)
      → ops.rank t ≡ pos rank
      → ops.size t ≡ pos size
      → rank < size
      → (c : Context T s.Elem) × (ring_collective_create s ops (some t) config true
          ≡ (success, some c))
        × (c.transport ≡ t)
        × (c.rank ≡ rank)
        × (c.world_size ≡ size)
        × (c.sequence ≡ 0)
        × IsUsable c.config
  unfolding ring_collective_create new_context create_checked
  ring_collective_create-IsUsable t config rank size r n h =
      let filled : (size == 0) ≡ false = ground arith in
      let below : leb size rank ≡ false = ground arith in
      (
        new_context s ops t config rank size,
        rw (r, n, filled, below),
        refl,
        refl,
        refl,
        refl,
        effective_config-IsUsable config,
      )
