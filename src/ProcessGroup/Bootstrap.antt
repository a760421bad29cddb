-- ===== src/ProcessGroup/Bootstrap.antt =====
-- src/process_group_api.cpp: what `connect_process_group` asks of the system, and its steps on the
-- sockets of the ring.

pub mod Order
use comm_workshop_final.Prelude.{
  ℕ, ◌%◌, List, [], ◌∷◌, ◌++◌, Bool, true, false, Option, none, some, if◌then◌else◌, ◌==◌,
}
use comm_workshop_final.Prelude.Int.{ℤ}
use comm_workshop_final.Resources.{
  transport_object, next_socket, previous_socket, Event, used, sent, released,
}
use comm_workshop_final.Verbs.Device.{VerbsTransport, destroy_transport}
use comm_workshop_final.ProcessGroup.{IoResult, transfer_all, ModeText}
use comm_workshop_final.ProcessGroup.Sockets.{Listening, Dialling}
use comm_workshop_final.ProcessGroup.QueuePairs.{QueueCapacity, Transition}
use comm_workshop_final.ProcessGroup.Settings.{Parsed}

pub record ExchangeData : Type 0 where
  pub qpn : ℕ
  pub lid : ℕ
  pub reserved : ℕ

-- What the system calls return when one datum is written to both neighbours and one read from both.
pub record Exchange : Type 0 where
  pub write_next : List IoResult
  pub write_previous : List IoResult
  pub read_next : List IoResult
  pub read_previous : List IoResult

-- What the surroundings answer: the environment variables (RANK and WORLD_SIZE as `atoi` reads them),
-- libibverbs and the sockets.
pub record Surroundings (Text : Type 0) : Type 0 where
  pub rank : Option ℤ
  pub world_size : Option ℤ
  pub host_list : Option (List Text)
  pub fallback : Text
  pub devices : Option ℕ
  pub opens_device : Bool
  pub allocates_domain : Bool
  pub port_active : Bool
  pub creates_queue : Bool
  pub creates_next : QueueCapacity → Bool
  pub creates_previous : QueueCapacity → Bool
  pub next_qpn : ℕ
  pub previous_qpn : ℕ
  pub lid : ℕ
  pub dial : Text → ℕ → Dialling
  pub listen : ℕ → Listening
  pub metadata : Exchange
  pub remote_next : ExchangeData
  pub remote_previous : ExchangeData
  pub move_next : Transition
  pub move_previous : Transition
  pub barrier : Exchange
  pub next_ready : ℕ
  pub previous_ready : ℕ
  pub piece_bytes : Option Parsed
  pub inflight : Option Parsed
  pub mode : ModeText

-- Calls of `write_all` and `read_all` in turn, with their results, until one fails. `none`: one of
-- them is still waiting.
unfoldable pub in_turn : List (Event × Option Bool) → Option Bool × List Event
in_turn [] = (some true, [])
in_turn ((call, none) ∷ rest) = (none, call ∷ [])
in_turn ((call, some false) ∷ rest) = (some false, call ∷ [])
in_turn ((call, some true) ∷ rest) = let (went, events) = in_turn rest in (went, call ∷ events)

-- So many bytes each way, with the words for the two neighbours; both writes come before both reads.
unfoldable pub exchange : ℕ → List ℕ → List ℕ → Exchange → Option Bool × List Event
unfolding in_turn
exchange bytes to_next to_previous x = in_turn (
    (sent next_socket to_next, transfer_all bytes x.write_next)
    ∷ (sent previous_socket to_previous, transfer_all bytes x.write_previous)
    ∷ (used next_socket, transfer_all bytes x.read_next)
    ∷ (used previous_socket, transfer_all bytes x.read_previous)
    ∷ [])

-- The words of `ExchangeData`.
abbrev pub words : ExchangeData → List ℕ
words d = d.qpn ∷ d.lid ∷ d.reserved ∷ []

-- Even ranks connect first, odd ranks accept first.
unfoldable pub connects_first : ℕ → Bool
connects_first rank = rank % 2 == 0

unfoldable pub ring_sockets : ℕ → Bool × List Event → Bool × List Event → Bool × Bool × List Event
ring_sockets rank (next, dialled) (previous, listened) =
    (next, previous, if connects_first rank then dialled ++ listened else listened ++ dialled)

-- `delete verbs_transport;`
abbrev pub delete_transport : VerbsTransport → List Event
delete_transport v = destroy_transport v ++ released transport_object ∷ []
