-- ===== src/Resources.antt =====
-- What the process group and the RDMA transport acquire from libibverbs and the sockets, and the
-- order in which they use it and give it back.
pub mod Replay
use comm_workshop_final.Prelude.{ℕ, List, [], ◌∷◌, Bool, if◌then◌else◌}

-- `region k` is the memory region of the request with key `k`; `transport_object` is the
-- VerbsTransport on the heap.
pub data Resource : Type 0 where
  device_list device domain transport_object completion_queue : Resource
  queue_next queue_previous next_socket previous_socket listener address_list : Resource
  region : ℕ → Resource

-- The states of a queue pair; `ready_to_receive` has the number of the peer's queue pair and its lid.
pub data QueueState : Type 0 where
  initialised ready_to_send : QueueState
  ready_to_receive : ℕ → ℕ → QueueState

-- One call: a resource is acquired, read from, moved to a state, or released, or words are written
-- to it. A call that acquires is the use of what it is called on, then, if it succeeds, the
-- acquisition; a call that is made on nothing and fails is no event. A call that moves a queue pair
-- is an event whether it succeeds or not.
pub data Event : Type 0 where
  acquired used released : Resource → Event
  sent : Resource → List ℕ → Event
  modified : Resource → QueueState → Event

-- `if (held) release(held);`
abbrev pub released_if : Bool → Resource → List Event
released_if set r = if set then released r ∷ [] else []
