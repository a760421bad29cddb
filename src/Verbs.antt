-- ===== src/Verbs.antt =====
-- src/verbs_transport.cpp and include/verbs_transport.h: the requests of the RDMA transport and
-- their completions. The device is not modelled. A thrown exception is `none`.
pub mod Requests
pub mod Polling
pub mod Waiting
pub mod Posting
pub mod Device
pub mod Wrappers
use comm_workshop_final.Prelude.{
  ℕ, ◌+◌, ◌*◌, ◌||◌, List, [], ◌∷◌, Bool, true, false, not, ◌&&◌, ◌||◌, Option, none, some,
  if◌then◌else◌, ◌==◌, leb,
}
use comm_workshop_final.Prelude.Int.{ℤ, pos, negsuc}
use comm_workshop_final.Types.{TransferMode, auto, eager, rendezvous, unknown_mode}

-- `kEagerThresholdBytes`
abbrev eager_threshold_bytes : ℕ
eager_threshold_bytes = 4 * 1024

unfoldable pub choose_mode : TransferMode → ℕ → Option TransferMode
choose_mode eager bytes = some eager
choose_mode rendezvous bytes = some rendezvous
choose_mode auto bytes = some (if leb bytes eager_threshold_bytes then eager else rendezvous)
choose_mode (unknown_mode n) bytes = none

pub data RequestKind : Type 0 where
  send receive : RequestKind

pub record RequestState : Type 0 where
  pub kind : RequestKind
  pub id : ℕ
  pub tag : ℕ
  pub mode : TransferMode
  pub registered : Bool
  pub completed : Bool
  pub status : ℤ

-- The `opcode` of a work completion.
pub data Opcode : Type 0 where
  wc_send wc_rdma_write wc_recv wc_recv_rdma_with_imm : Opcode
  other_opcode : ℕ → Opcode

-- `struct ibv_wc`, as far as it is read. `success` says that `status` is IBV_WC_SUCCESS, and
-- `with_imm` that IBV_WC_WITH_IMM is set.
pub record Completion : Type 0 where
  pub wr_id : ℕ
  pub success : Bool
  pub opcode : Opcode
  pub with_imm : Bool
  pub imm_data : ℕ

-- `pending_requests_`, with the states its pointers lead to; the key is the pointer.
abbrev pub Requests : Type 0
Requests = List (ℕ × RequestState)

abbrev pub find : ℕ → Requests → Option RequestState
find key [] = none
find key ((k, state) ∷ rest) = if k == key then some state else find key rest

abbrev pub update : ℕ → RequestState → Requests → Requests
update key state [] = []
update key state ((k, old) ∷ rest) =
    if k == key then (k, state) ∷ rest else (k, old) ∷ update key state rest

abbrev pub erase : ℕ → Requests → Requests
erase key [] = []
erase key ((k, old) ∷ rest) = if k == key then rest else (k, old) ∷ erase key rest

-- `valid_opcode`
valid_opcode : RequestKind → TransferMode → Opcode → Bool
valid_opcode send eager wc_send = true
valid_opcode send rendezvous wc_rdma_write = true
valid_opcode receive eager wc_recv = true
valid_opcode receive rendezvous wc_recv_rdma_with_imm = true
valid_opcode kind mode opcode = false

-- What a completion does to the state of its request. `ntohl` reads a number in network order.
module _ (ntohl : ℕ → ℕ) where
  pub accepts : RequestState → Completion → Bool
  unfolding valid_opcode
  accepts state c =
      valid_opcode state.kind state.mode c.opcode
      && elim state.kind [ send ↦ true | receive ↦ c.with_imm && ntohl c.imm_data == state.tag ]

  pub complete_request : RequestState → Completion → RequestState
  unfolding accepts
  complete_request state c =
      if not c.success
      then record state { status = negsuc 0; completed = true }
      else if accepts state c
      then record state { completed = true }
      else record state { status = negsuc 0; completed = true }

  -- A null or unknown `wr_id` throws.
  pub handle_completion : Completion → Requests → Option Requests
  unfolding complete_request
  handle_completion c requests = if c.wr_id == 0 then none else elim (find c.wr_id requests) [
    | none ↦ none
    | some state ↦ some (update c.wr_id (complete_request state c) requests)
  ]
