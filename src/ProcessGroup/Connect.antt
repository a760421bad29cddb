-- ===== src/ProcessGroup/Connect.antt =====
-- src/process_group_api.cpp: `connect_process_group`, from its end to its beginning.
pub mod Settled
pub mod Bootstrapped
pub mod Released
use comm_workshop_final.Prelude.{
  ℕ, ◌+◌, ◌-◌, ◌%◌, ◌^◌, List, [], ◌∷◌, ◌++◌, Bool, true, false, not, ◌||◌, Option, none, some,
  if◌then◌else◌, ◌==◌, ltb, leb, length, get_or,
}
use comm_workshop_final.Prelude.Int.{ℤ, pos, negsuc}
use comm_workshop_final.Types.{Status, success, err_invalid_argument, err_transport}
use comm_workshop_final.Memory.{Scalars}
use comm_workshop_final.Pieces.{Config}
use comm_workshop_final.Transport.{TransportOps}
use comm_workshop_final.Resources.{
  released_if, Resource, device_list, device, domain, transport_object, queue_next, queue_previous,
  next_socket, previous_socket, Event, acquired, used, released,
}
use comm_workshop_final.Verbs.Device.{
  VerbsTransport, new_transport, set_ring_qps, set_control_sockets, destroy_transport,
}
use comm_workshop_final.ProcessGroup.{get_host_list, ProcessGroupHandle, pg_create_from_transport}
use comm_workshop_final.ProcessGroup.Sockets.{listen_and_accept, connect_to_host}
use comm_workshop_final.ProcessGroup.QueuePairs.{create_qp, transition_qp_to_rts}
use comm_workshop_final.ProcessGroup.Settings.{collective_config}
use comm_workshop_final.ProcessGroup.Bootstrap.{
  ExchangeData, words, Surroundings, exchange, ring_sockets, delete_transport,
}

-- A variable of the environment that may be unset.
abbrev pub or_default : Option ℤ → ℤ → ℤ
or_default none default_value = default_value
or_default (some value) default_value = value

module _ (s : Scalars) {T : Type 0} (ops : TransportOps T s.Elem)
    (c_transport : VerbsTransport → T) where
  abbrev Handle : Type 0
  Handle = ProcessGroupHandle s ops

  -- The status, `*pg_handle`, and the calls made. `none` as the status: the call still waits, or an
  -- exception left it.
  abbrev pub Result : Type 0
  Result = Option Status × Option Handle × List Event

  abbrev pub after : List Event → Result → Result
  after before (status, handle, events) = (status, handle, before ++ events)

  abbrev pub fails : Status → List Event → Result
  fails status events = (some status, none, events)

  -- With the status of `pg_create_from_transport`.
  unfoldable pub created : VerbsTransport → Status × Option Handle → Result
  created v (success, handle) = (some success, handle, [])
  created v (status, handle) = fails status (delete_transport v)

  unfoldable pub configured : VerbsTransport → Option Config → Result
  unfolding created
  configured v none = fails err_invalid_argument (delete_transport v)
  configured v (some config) =
      created v (pg_create_from_transport s ops (some (c_transport v)) true (some config) true)

  module _ {Text : Type 0} (w : Surroundings Text) where
    -- `none` is an exception of `set_control_sockets`.
    unfoldable pub controlled : Option VerbsTransport → Result
    unfolding configured
    controlled none = (none, none, [])
    controlled (some v) = configured v (collective_config w.piece_bytes w.inflight w.mode)

    -- The two sockets are not in the transport yet.
    abbrev pub hang_up : VerbsTransport → Result
    hang_up v =
        fails err_transport (released next_socket ∷ released previous_socket ∷ delete_transport v)

    -- After the neighbour barrier.
    unfoldable pub at_barrier : VerbsTransport → Option Bool → Result
    unfolding controlled
    at_barrier v none = (none, none, [])
    at_barrier v (some false) = hang_up v
    at_barrier v (some true) =
        if not (w.next_ready == 1) || not (w.previous_ready == 1)
        then hang_up v
        else controlled (set_control_sockets true true v)

    -- After the transitions of the two queue pairs.
    unfoldable pub moved_queues : VerbsTransport → Bool → Bool → Result
    unfolding at_barrier
    moved_queues v true true =
        let (went, events) = exchange 1 (1 ∷ []) (1 ∷ []) w.barrier in
        after events (at_barrier v went)
    moved_queues v next previous = hang_up v

    -- The second queue pair is only moved if the first one could be.
    unfoldable pub move_both : VerbsTransport → Bool × List Event → Bool × List Event → Result
    unfolding moved_queues
    move_both v (false, events) second = after events (hang_up v)
    move_both v (true, events) (previous, more) =
        after (events ++ more) (moved_queues v true previous)

    -- After the exchange of the queue pairs' numbers, 8 bytes each way.
    unfoldable pub met : VerbsTransport → Option Bool → Result
    unfolding move_both
    met v none = (none, none, [])
    met v (some false) = hang_up v
    met v (some true) =
        move_both v
          (transition_qp_to_rts queue_next w.remote_next.qpn w.remote_next.lid w.move_next)
          (transition_qp_to_rts queue_previous w.remote_previous.qpn w.remote_previous.lid
            w.move_previous)

    abbrev pub local_next : ExchangeData
    local_next = record { qpn = w.next_qpn; lid = w.lid; reserved = 0 }

    abbrev pub local_previous : ExchangeData
    local_previous = record { qpn = w.previous_qpn; lid = w.lid; reserved = 0 }

    -- Whether there are both sockets.
    unfoldable pub connected : VerbsTransport → Bool → Bool → Result
    unfolding met
    connected v true true =
        let (went, events) = exchange 8 (words local_next) (words local_previous) w.metadata in
        after events (met v went)
    connected v next previous = fails err_transport (
        released_if next next_socket
        ++ (released_if previous previous_socket ++ delete_transport v))

    module _ (rank size : ℕ) (hosts : List Text) where
      -- `base_port` is 18000, and a port has 16 bits where it is bound.
      unfoldable pub with_queues : Option VerbsTransport → Result
      unfolding connected
      with_queues none = (none, none, [])
      with_queues (some v) =
          let next_rank = (rank + 1) % size in
          let previous_rank = (rank + size - 1) % size in
          let (next, previous, events) =
            ring_sockets rank
              (connect_to_host (w.dial (get_or hosts next_rank w.fallback) (18000 + rank)))
              (listen_and_accept (w.listen ((18000 + previous_rank) % 2 ^ 16))) in
          after events (connected v next previous)

      unfoldable pub queues_made : VerbsTransport → Bool → Bool → Result
      unfolding with_queues
      queues_made v true true = with_queues (set_ring_qps true true v)
      queues_made v next previous = fails err_transport (
          released_if next queue_next
          ++ (released_if previous queue_previous ++ delete_transport v))

      -- `none` is an exception of the constructor.
      unfoldable pub constructed : Option VerbsTransport × List Event → Result
      unfolding queues_made
      constructed (none, events) =
          fails err_transport
            (events ++ released transport_object ∷ released domain ∷ released device ∷ [])
      constructed (some v, events) =
          let (next, made) = create_qp queue_next w.creates_next in
          let (previous, more) = create_qp queue_previous w.creates_previous in
          after (events ++ (made ++ more)) (queues_made v next previous)

      -- Whether port 1 is active.
      unfoldable pub port_queried : Bool → Result
      unfolding constructed
      port_queried false =
          fails err_transport (used device ∷ released domain ∷ released device ∷ [])
      port_queried true =
          after (used device ∷ acquired transport_object ∷ [])
            (constructed (new_transport (pos rank) (pos size) true true w.creates_queue))

      unfoldable pub domain_allocated : Bool → Result
      unfolding port_queried
      domain_allocated false = fails err_transport (used device ∷ released device ∷ [])
      domain_allocated true =
          after (used device ∷ acquired domain ∷ []) (port_queried w.port_active)

      -- The list is freed whether the device could be opened or not.
      unfoldable pub device_opened : Bool → Result
      unfolding domain_allocated
      device_opened false = fails err_transport (used device_list ∷ released device_list ∷ [])
      device_opened true =
          after (used device_list ∷ acquired device ∷ released device_list ∷ [])
            (domain_allocated w.allocates_domain)

      -- How many devices the list has; `none` is a null pointer.
      unfoldable pub devices_listed : Option ℕ → Result
      unfolding device_opened
      devices_listed none = fails err_transport []
      devices_listed (some n) =
          after (acquired device_list ∷ [])
            (if n == 0 then fails err_transport [] else device_opened w.opens_device)

    unfoldable pub hosts_listed : ℕ → ℕ → List Text → Result
    unfolding devices_listed
    hosts_listed rank size hosts =
        if length hosts == size
        then devices_listed rank size hosts w.devices
        else fails err_invalid_argument []

    -- `rank < 0 || world_size < 2 || rank >= world_size`
    unfoldable pub ranked : (Text → Bool) → ℤ → ℤ → Result
    unfolding hosts_listed
    ranked empty (pos rank) (pos size) =
        if ltb size 2 || leb size rank
        then fails err_invalid_argument []
        else hosts_listed rank size (get_host_list empty w.host_list w.fallback size)
    ranked empty rank size = fails err_invalid_argument []

    -- `out` says whether `pg_handle` is set, `empty` whether a host's name is empty.
    unfoldable pub connect_process_group : (Text → Bool) → Bool → Result
    unfolding ranked
    connect_process_group empty false = fails err_invalid_argument []
    connect_process_group empty true =
        ranked empty (or_default w.rank (pos 0)) (or_default w.world_size (pos 1))
