-- ===== src/Types.antt =====
-- The public enumerations of include/ring_collectives.h and include/pg_transport.h.
use comm_workshop_final.Prelude.{ℕ}
use comm_workshop_final.Prelude.Int.{ℤ}

-- `unknown` is a value of the C enumeration's type outside its three enumerators.
pub data Datatype : Type 0 where
  int32 float32 float64 : Datatype
  unknown_datatype : ℤ → Datatype

pub data Operation : Type 0 where
  sum minimum maximum : Operation
  unknown_operation : ℤ → Operation

pub data Status : Type 0 where
  success : Status
  err_invalid_argument : Status
  err_no_memory : Status
  err_transport : Status
  err_unsupported_datatype : Status
  err_unsupported_operation : Status
  err_tag_range : Status

pub data TransferMode : Type 0 where
  auto eager rendezvous : TransferMode
  unknown_mode : ℕ → TransferMode
