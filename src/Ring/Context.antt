-- ===== src/Ring/Context.antt =====
-- `ring_collective_context` and `ring_collective_create`.
pub mod Created
use comm_workshop_final.Prelude.{
  ℕ, ◌≤◌, min, Bool, true, false, ◌||◌, Option, none, some, if◌then◌else◌, ◌==◌, leb, [],
}
use comm_workshop_final.Prelude.Int.{ℤ, pos, negsuc}
use comm_workshop_final.Types.{Status, success, err_invalid_argument, err_transport, auto}
use comm_workshop_final.Memory.{Buffer, Scalars}
use comm_workshop_final.Pieces.{
  Config, default_piece_bytes, default_max_inflight, max_inflight_limit,
}
use comm_workshop_final.BlockLayout.{BlockLayout}
use comm_workshop_final.Transport.{TransportOps, pg_transport_rank, pg_transport_size}

-- `rank` and `world_size` are set only to values that are not negative.
pub record Context (T E : Type 0) : Type 0 where
  pub transport : T
  pub config : Config
  pub rank : ℕ
  pub world_size : ℕ
  pub layout : BlockLayout
  pub temporary_buffer : Buffer E
  pub sequence : ℕ

-- The stored configuration; `none` is a null pointer.
unfoldable pub effective_config : Option Config → Config
effective_config none = record {
  pipeline_piece_bytes = default_piece_bytes;
  max_inflight = default_max_inflight;
  transfer_mode = auto;
}
effective_config (some config) = record {
  pipeline_piece_bytes =
      if config.pipeline_piece_bytes == 0 then default_piece_bytes else config.pipeline_piece_bytes;
  max_inflight =
      if config.max_inflight == 0
      then default_max_inflight
      else min config.max_inflight max_inflight_limit;
  transfer_mode = config.transfer_mode;
}

module _ (s : Scalars) {T : Type 0} (ops : TransportOps T s.Elem) where
  unfoldable pub new_context : T → Option Config → ℕ → ℕ → Context T s.Elem
  unfolding effective_config
  new_context transport config rank size = record {
    transport = transport;
    config = effective_config config;
    rank = rank;
    world_size = size;
    layout = record { counts = []; offsets = [] };
    temporary_buffer = record { size = 0; at = λ i. s.zeroed };
    sequence = 0;
  }

  -- The guard on what the transport reports: `rank < 0 || size <= 0 || rank >= size`.
  unfoldable pub create_checked : T → Option Config → ℤ → ℤ → Status × Option (Context T s.Elem)
  unfolding new_context
  create_checked transport config (pos rank) (pos size) =
      if size == 0 || leb size rank
      then (err_transport, none)
      else (success, some (new_context transport config rank size))
  create_checked transport config rank size = (err_transport, none)

  -- A null transport or operation table is `none`; `out` says whether `context` is set. The context
  -- is what the call stores through it. That memory runs out is not modelled.
  unfoldable pub ring_collective_create :
      Option T → Option Config → Bool → Status × Option (Context T s.Elem)
  unfolding create_checked
  ring_collective_create none config out = (err_invalid_argument, none)
  ring_collective_create (some transport) config false = (err_invalid_argument, none)
  ring_collective_create (some transport) config true =
      create_checked transport config (pg_transport_rank ops transport)
        (pg_transport_size ops transport)
