-- ===== src/Verbs/Posting.antt =====
-- src/verbs_transport.cpp: `register_memory`, `post_receive_previous` and `post_send_next`. A receiver
-- tells the sender where its buffer is by a control message on their socket.
pub mod Handshake
pub mod Effects
pub mod Received
use comm_workshop_final.Prelude.{
  ℕ, ◌+◌, ◌-◌, ◌^◌, ◌%◌, List, [], ◌∷◌, Bool, true, false, not, ◌&&◌, ◌||◌, Option, none, some,
  if◌then◌else◌, ◌==◌, leb,
}
use comm_workshop_final.Prelude.Int.{ℤ, pos, negsuc}
use comm_workshop_final.Types.{TransferMode, auto, eager, rendezvous, unknown_mode}
use comm_workshop_final.Resources.{region, Event, acquired, released}
use comm_workshop_final.Verbs.{
  choose_mode, RequestKind, send, receive, RequestState, Requests, erase,
}

-- `kControlMagic`
abbrev control_magic : ℕ
control_magic = 0x52444d41

-- The numbers of the C enumeration.
abbrev pub mode_value : TransferMode → ℕ
mode_value auto = 0
mode_value eager = 1
mode_value rendezvous = 2
mode_value (unknown_mode n) = n

pub record ControlMessage : Type 0 where
  pub magic : ℕ
  pub tag : ℕ
  pub remote_address : ℕ
  pub remote_key : ℕ
  pub bytes : ℕ
  pub mode : ℕ
  pub reserved : ℕ

-- The transport as one direction sees it: whether its queue pair is set and its socket valid, the next
-- request id and the pending requests.
pub record Endpoint : Type 0 where
  pub connected : Bool
  pub next_request_id : ℕ
  pub requests : Requests

-- What the surroundings answer in one call: the address of the new RequestState, the local and
-- remote key of the registered memory (`none`: ibv_reg_mr fails), the status of the posted work
-- request, whether the control message could be written, and the control message that was read.
pub record Surroundings : Type 0 where
  pub address : ℕ
  pub keys : Option (ℕ × ℕ)
  pub post_status : ℤ
  pub written : Bool
  pub control : Option ControlMessage

-- The `opcode` of a send work request.
pub data SendOpcode : Type 0 where
  send_with_imm rdma_write_with_imm : SendOpcode

-- `ibv_recv_wr`; `segment` is the address, the length and the local key of its only entry.
pub record ReceiveWork : Type 0 where
  pub wr_id : ℕ
  pub segment : Option (ℕ × ℕ × ℕ)

-- `ibv_send_wr`; `remote` is the address and the key of a remote write, `signaled` the only flag.
pub record SendWork : Type 0 where
  pub wr_id : ℕ
  pub segment : Option (ℕ × ℕ × ℕ)
  pub signaled : Bool
  pub imm_data : ℕ
  pub opcode : SendOpcode
  pub remote : Option (ℕ × ℕ)

-- A work request, given to the queue pair to the previous or to the next rank.
pub data WorkRequest : Type 0 where
  posted_receive : ReceiveWork → WorkRequest
  posted_send : SendWork → WorkRequest

-- What a call leaves: whether it threw, the endpoint, `request->internal` and what it has stored as
-- `request->id`, the memory regions that it registered and deregistered, the work request that the
-- device accepted and the control message that was written.
pub record Posted : Type 0 where
  pub threw : Bool
  pub endpoint : Endpoint
  pub internal : ℕ
  pub stored_id : Option ℕ
  pub events : List Event
  pub work : Option WorkRequest
  pub message : Option ControlMessage

-- A null request is `none`; otherwise its `internal` pointer.
abbrev pub internal_of : Option ℕ → ℕ
internal_of none = 0
internal_of (some internal) = internal

abbrev pub throws : Endpoint → Option ℕ → Posted
throws e request = record {
  threw = true;
  endpoint = e;
  internal = internal_of request;
  stored_id = none;
  events = [];
  work = none;
  message = none;
}

-- The guards that both calls begin with: the connection, the buffer's address, the bytes and the
-- request.
abbrev pub invalid : Endpoint → ℕ → ℕ → Option ℕ → Bool
invalid e buffer bytes none = true
invalid e buffer bytes (some internal) =
    not e.connected
    || buffer == 0
    || bytes == 0
    || not (internal == 0)
    || not (leb bytes (2 ^ 32 - 1))

abbrev pub new_state : RequestKind → Endpoint → ℕ → TransferMode → RequestState
new_state kind e tag mode = record {
  kind = kind;
  id = e.next_request_id;
  tag = tag;
  mode = mode;
  registered = true;
  completed = false;
  status = pos 0;
}

-- `next_request_id_++` on `std::uint64_t`
abbrev pub counted : Endpoint → Endpoint
counted e = record e { next_request_id = (e.next_request_id + 1) % 2 ^ 64 }

abbrev pub accepted : ℤ → Bool
accepted (pos n) = n == 0
accepted (negsuc n) = false

-- The state is inserted before the work request is posted, and erased if that fails.
abbrev inserted : Surroundings → RequestState → Endpoint → Endpoint
inserted w state e = record (counted e) { requests = (w.address, state) ∷ e.requests }

-- What an accepted work request leaves, before the control message of a receiver.
abbrev sent_out : Surroundings → RequestState → Endpoint → WorkRequest → Posted
sent_out w state e work = record {
  threw = false;
  endpoint = inserted w state e;
  internal = w.address;
  stored_id = some state.id;
  events = acquired (region w.address) ∷ [];
  work = some work;
  message = none;
}

-- The error path of a work request that is not accepted: the memory is deregistered too.
abbrev withdrawn : Surroundings → RequestState → Endpoint → Option ℕ → Posted
withdrawn w state e request =
    record (throws (record (counted e) { requests = erase w.address (inserted w state e).requests })
      request) { events = acquired (region w.address) ∷ released (region w.address) ∷ [] }

abbrev pub control_for : ℕ → ℕ → ℕ → ℕ → TransferMode → ControlMessage
control_for buffer bytes tag remote_key mode = record {
  magic = control_magic;
  tag = tag;
  remote_address = buffer;
  remote_key = remote_key;
  bytes = bytes % 2 ^ 32;
  mode = mode_value mode;
  reserved = 0;
}

abbrev pub receive_work : Surroundings → ℕ → ℕ → ℕ → TransferMode → ReceiveWork
receive_work w buffer bytes local_key eager = record {
  wr_id = w.address;
  segment = some (buffer, bytes, local_key);
}
receive_work w buffer bytes local_key mode = record { wr_id = w.address; segment = none }

-- The keys of the registered memory; a thrown exception is `none`.
abbrev pub register_memory : Surroundings → ℕ → ℕ → Option (ℕ × ℕ)
register_memory w address length = if address == 0 || length == 0 then none else w.keys

-- From the registration on, in the chosen mode.
unfoldable pub receive_in_mode :
    Surroundings → Endpoint → ℕ → ℕ → ℕ → Option ℕ → Option TransferMode → Posted
receive_in_mode w e buffer bytes tag request none = throws e request
receive_in_mode w e buffer bytes tag request (some mode) = elim (register_memory w buffer bytes) [
  | none ↦ throws e request
  | some keys ↦
      let state = new_state receive e tag mode in
      let work = posted_receive (receive_work w buffer bytes (keys.0) mode) in
      if not (accepted w.post_status)
      then withdrawn w state e request
      else record (sent_out w state e work) {
        threw = not w.written;
        message = if w.written then some (control_for buffer bytes tag (keys.1) mode) else none;
      }
]

unfoldable pub post_receive_previous :
    Surroundings → Endpoint → ℕ → ℕ → ℕ → TransferMode → Option ℕ → Posted
unfolding receive_in_mode
post_receive_previous w e buffer bytes tag requested_mode request =
    if invalid e buffer bytes request
    then throws e request
    else receive_in_mode w e buffer bytes tag request (choose_mode requested_mode bytes)

-- The control message must name this transfer.
abbrev pub matches : ControlMessage → ℕ → ℕ → TransferMode → Bool
matches control bytes tag mode =
    control.magic == control_magic
    && control.tag == tag
    && control.bytes == bytes
    && control.mode == mode_value mode

module _ (htonl : ℕ → ℕ) where
  abbrev pub send_work : Surroundings → ControlMessage → ℕ → ℕ → ℕ → ℕ → TransferMode → SendWork
  send_work w control buffer bytes tag local_key mode = record {
    wr_id = w.address;
    segment = some (buffer, bytes, local_key);
    signaled = true;
    imm_data = htonl tag;
    opcode = elim mode [ eager ↦ send_with_imm | _ ↦ rdma_write_with_imm ];
    remote = elim mode [ eager ↦ none | _ ↦ some (control.remote_address, control.remote_key) ];
  }

  -- From the registration on, with a control message that matches.
  pub send_registered :
      Surroundings → Endpoint → ControlMessage → ℕ → ℕ → ℕ → Option ℕ → TransferMode → Posted
  send_registered w e control buffer bytes tag request mode =
      elim (register_memory w buffer bytes) [
        | none ↦ throws e request
        | some keys ↦
            let state = new_state send e tag mode in
            let work = posted_send (send_work w control buffer bytes tag (keys.0) mode) in
            if not (accepted w.post_status)
            then withdrawn w state e request
            else sent_out w state e work
      ]

  pub send_in_mode : Surroundings → Endpoint → ℕ → ℕ → ℕ → Option ℕ → Option TransferMode → Posted
  unfolding send_registered
  send_in_mode w e buffer bytes tag request none = throws e request
  send_in_mode w e buffer bytes tag request (some mode) = elim w.control [
    | none ↦ throws e request
    | some control ↦
        if matches control bytes tag mode
        then send_registered w e control buffer bytes tag request mode
        else throws e request
  ]

  unfoldable pub post_send_next :
      Surroundings → Endpoint → ℕ → ℕ → ℕ → TransferMode → Option ℕ → Posted
  unfolding send_in_mode
  post_send_next w e buffer bytes tag requested_mode request =
      if invalid e buffer bytes request
      then throws e request
      else send_in_mode w e buffer bytes tag request (choose_mode requested_mode bytes)
