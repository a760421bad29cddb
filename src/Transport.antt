-- ===== src/Transport.antt =====
-- include/pg_transport.h: the operation table through which the collectives reach a transport.
-- The table's users see a transport as a state `T`; an operation returns its C result and the new
-- state. A posted receive names no buffer here: `wait` hands over the bytes that have arrived in
-- the posted buffer, which nobody may read before.
pub mod Reliable
pub mod Recorded
use comm_workshop_final.Prelude.{ℕ, Option, none, some}
use comm_workshop_final.Prelude.Int.{ℤ}
use comm_workshop_final.Types.{TransferMode}
use comm_workshop_final.Memory.{Buffer}

-- `Request` is the type of the filled `pg_request_t`. The arguments of `post_send_next` are the
-- data, its bytes, the tag and the mode; those of `post_recv_prev` the bytes, the tag and the mode.
pub record TransportOps (T E : Type 0) : Type 1 where
  pub Request : Type 0
  pub rank : T → ℤ
  pub size : T → ℤ
  pub post_send_next : T → Buffer E → ℕ → ℕ → TransferMode → ℤ × Request × T
  pub post_recv_prev : T → ℕ → ℕ → TransferMode → ℤ × Request × T
  pub wait : T → Request → ℤ × (ℕ → E) × T
  pub destroy : T → T

-- The functions of the header that call through the table.
module _ {T E : Type 0} (ops : TransportOps T E) where
  abbrev pub pg_transport_rank : T → ℤ
  pg_transport_rank transport = ops.rank transport

  abbrev pub pg_transport_size : T → ℤ
  pg_transport_size transport = ops.size transport

  abbrev pub pg_transport_post_send_next : T → Buffer E → ℕ → ℕ → TransferMode → ℤ × ops.Request × T
  pg_transport_post_send_next transport buffer bytes tag mode =
      ops.post_send_next transport buffer bytes tag mode

  abbrev pub pg_transport_post_recv_prev : T → ℕ → ℕ → TransferMode → ℤ × ops.Request × T
  pg_transport_post_recv_prev transport bytes tag mode = ops.post_recv_prev transport bytes tag mode

  abbrev pub pg_transport_wait : T → ops.Request → ℤ × (ℕ → E) × T
  pg_transport_wait transport request = ops.wait transport request

  -- A null transport is `none`; the table and its `destroy` are there.
  abbrev pub pg_transport_destroy : Option T → Option T
  pg_transport_destroy none = none
  pg_transport_destroy (some transport) = some (ops.destroy transport)
