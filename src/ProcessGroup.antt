-- ===== src/ProcessGroup.antt =====
-- src/process_group_api.cpp: the process group around a collective context, the loops on its sockets
-- and the environment it reads; the child modules connect it.
pub mod Calls
pub mod Group
pub mod Sockets
pub mod QueuePairs
pub mod Settings
pub mod Bootstrap
pub mod Connect
use comm_workshop_final.Prelude.{
  ℕ, ◌≤◌, List, [], ◌∷◌, Bool, true, false, Option, none, some, if◌then◌else◌, ◌==◌, ◌-◌, replicate,
  not,
}
use comm_workshop_final.Prelude.Int.{ℤ, pos, negsuc}
use comm_workshop_final.Types.{
  Datatype, Operation, Status, success, err_invalid_argument, TransferMode, auto, eager, rendezvous,
}
use comm_workshop_final.Memory.{Buffer, Scalars}
use comm_workshop_final.Pieces.{Config}
use comm_workshop_final.Transport.{TransportOps, pg_transport_destroy}
use comm_workshop_final.Ring.Machine.{Outcome, done, returned, fault}
use comm_workshop_final.Ring.Context.{Context, ring_collective_create}
use comm_workshop_final.Ring.Collectives.{SendBuffer, null, ring_all_reduce}

-- What `write` or `read` returns: -1 with EINTR, -1 with another error, or a number of bytes.
pub data IoResult : Type 0 where
  interrupted io_error : IoResult
  moved_bytes : ℕ → IoResult

-- `write_all` and `read_all`, over what the system calls return, in order; each call moves at most
-- the bytes that are left. `none`: the loop is still running when these results are used up.
pub transfer_all : ℕ → List IoResult → Option Bool
transfer_all bytes [] = if bytes == 0 then some true else none
transfer_all bytes (interrupted ∷ rest) =
    let later = transfer_all bytes rest in if bytes == 0 then some true else later
transfer_all bytes (io_error ∷ rest) = if bytes == 0 then some true else some false
transfer_all bytes (moved_bytes n ∷ rest) =
    let later = transfer_all (bytes - n) rest in
    if bytes == 0 then some true else if n == 0 then some false else later

-- `PG_TRANSFER_MODE`: `unset` also stands for an empty value. Other values throw: `none`.
pub data ModeText : Type 0 where
  unset auto_text eager_text rendezvous_text other_text : ModeText

unfoldable pub parse_transfer_mode_environment : ModeText → Option TransferMode
parse_transfer_mode_environment unset = some auto
parse_transfer_mode_environment auto_text = some auto
parse_transfer_mode_environment eager_text = some eager
parse_transfer_mode_environment rendezvous_text = some rendezvous
parse_transfer_mode_environment other_text = none

-- `HOST_LIST` without its empty fields, or one name for every rank. `fallback` is `servername`, or
-- "localhost" where that is null or empty.
unfoldable pub get_host_list :
    {Text : Type 0} → (Text → Bool) → Option (List Text) → Text → ℕ → List Text
get_host_list {Text} empty fields fallback world_size = elim (kept fields) [
  | [] ↦ replicate world_size fallback
  | h ∷ hs ↦ h ∷ hs
]
  where
    without : List Text → List Text
    without [] = []
    without (x ∷ xs) = if empty x then without xs else x ∷ without xs

    kept : Option (List Text) → List Text
    kept none = []
    kept (some xs) = without xs

module _ (s : Scalars) {T : Type 0} (ops : TransportOps T s.Elem) where
  -- `ProcessGroupHandle`; the transport that it points to is the one of its collectives.
  pub record ProcessGroupHandle : Type 0 where
    pub collectives : Context T s.Elem
    pub owns_transport : Bool

  -- A null transport is `none`; `out` says whether `pg_handle` is set. That memory runs out is not
  -- modelled.
  unfoldable pub handle_for :
      Bool → Status × Option (Context T s.Elem) → Status × Option ProcessGroupHandle
  handle_for owns (success, some c) =
      (success, some (record { collectives = c; owns_transport = owns }))
  handle_for owns (status, c) = (status, none)

  unfoldable pub pg_create_from_transport :
      Option T → Bool → Option Config → Bool → Status × Option ProcessGroupHandle
  unfolding handle_for
  pg_create_from_transport none owns config out = (err_invalid_argument, none)
  pg_create_from_transport (some t) owns config false = (err_invalid_argument, none)
  pg_create_from_transport (some t) owns config true =
      handle_for owns (ring_collective_create s ops (some t) config true)

  unfoldable pub with_context :
      ProcessGroupHandle
      → Outcome (Unit {0}) × Option (Context T s.Elem) × Option (Buffer s.Elem)
      → Outcome (Unit {0}) × Option ProcessGroupHandle × Option (Buffer s.Elem)
  with_context handle (outcome, some c, recv) =
      (outcome, some (record handle { collectives = c }), recv)
  with_context handle (outcome, none, recv) = (outcome, none, recv)

  -- `static_cast<std::size_t>(count)` of a positive `count`
  pub pg_all_reduce :
      SendBuffer s.Elem
      → Option (Buffer s.Elem)
      → ℤ
      → Datatype
      → Operation
      → Option ProcessGroupHandle
      → Outcome (Unit {0}) × Option ProcessGroupHandle × Option (Buffer s.Elem)
  unfolding with_context
  pg_all_reduce send recv count datatype operation none =
      (returned err_invalid_argument, none, recv)
  pg_all_reduce null recv count datatype operation (some handle) =
      (returned err_invalid_argument, some handle, recv)
  pg_all_reduce send none count datatype operation (some handle) =
      (returned err_invalid_argument, some handle, none)
  pg_all_reduce send (some recv) (negsuc n) datatype operation (some handle) =
      (returned err_invalid_argument, some handle, some recv)
  pg_all_reduce send (some recv) (pos n) datatype operation (some handle) =
      if n == 0
      then (returned err_invalid_argument, some handle, some recv)
      else with_context handle
          (ring_all_reduce s ops (some handle.collectives) send (some recv) n datatype operation)

  -- The transport that remains, if there is a handle.
  unfoldable pub pg_close : Option ProcessGroupHandle → Status × Option T
  pg_close none = (err_invalid_argument, none)
  pg_close (some handle) = (
    success,
    if handle.owns_transport
        then pg_transport_destroy ops (some handle.collectives.transport)
        else some handle.collectives.transport,
  )
