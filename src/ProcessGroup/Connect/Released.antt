-- ===== src/ProcessGroup/Connect/Released.antt =====
-- `connect_process_group` as a whole: what it has acquired it gives back, or hands over.
use comm_workshop_final.Prelude.{
  ℕ, zero, suc, arith, ◌+◌, ◌-◌, ◌%◌, ◌^◌, ◌≡◌, ◌≢◌, refl, List, [], ◌∷◌, ◌++◌, Bool, true, false,
  not, ◌||◌, Option, none, some, if◌then◌else◌, ◌==◌, ltb, leb, Bool-cases, inl, inr, ◌⊎◌, length,
  get_or,
}
use comm_workshop_final.Prelude.Int.{ℤ, pos, negsuc, is_neg}
use comm_workshop_final.Memory.{Scalars}
use comm_workshop_final.Transport.{TransportOps}
use comm_workshop_final.Resources.{
  Resource, device_list, device, domain, completion_queue, transport_object, queue_next,
  queue_previous, Event, acquired, used, released,
}
use comm_workshop_final.Resources.Replay.{replay}
use comm_workshop_final.Verbs.Device.{
  VerbsTransport, new_transport, at_least, not_positive, set_ring_qps, destroy_transport,
  release_requests,
}
use comm_workshop_final.ProcessGroup.Sockets.{listen_and_accept, connect_to_host}
use comm_workshop_final.ProcessGroup.QueuePairs.{create_qp, queue_capacity}
use comm_workshop_final.ProcessGroup.Bootstrap.{Surroundings, connects_first, ring_sockets}
use comm_workshop_final.ProcessGroup.Connect.{
  Result, with_queues, queues_made, constructed, port_queried, domain_allocated, device_opened,
  devices_listed, hosts_listed, ranked, connect_process_group, or_default,
}
use comm_workshop_final.ProcessGroup.Connect.Settled.{Settled, after-Settled, parts, ringed, blank}
use comm_workshop_final.ProcessGroup.Connect.Bootstrapped.{
  sockets_held, ring_sockets-replay, connected-Settled,
}

module _ (s : Scalars) {T : Type 0} (ops : TransportOps T s.Elem) (c_transport : VerbsTransport → T)
    {Text : Type 0} (w : Surroundings Text) where
  abbrev Well : List Resource → Result s ops c_transport → Type 0
  Well = Settled s ops c_transport

  module _ (rank size : ℕ) (hosts : List Text) where
    with_queues-Settled :
        Well parts
          (with_queues s ops c_transport w rank size hosts (some (ringed (pos rank) (pos size))))
    unfolding with_queues
    with_queues-Settled =
        let dialled =
          connect_to_host (w.dial (get_or hosts ((rank + 1) % size) w.fallback) (18000 + rank)) in
        let listened = listen_and_accept (w.listen ((18000 + (rank + size - 1) % size) % 2 ^ 16)) in
        let sockets = ring_sockets rank dialled listened in
        after-Settled s ops c_transport parts
          (sockets_held (connects_first rank) sockets.0 sockets.1) _ _
          (ring_sockets-replay rank
            (w.dial (get_or hosts ((rank + 1) % size) w.fallback) (18000 + rank))
            (w.listen ((18000 + (rank + size - 1) % size) % 2 ^ 16)))
          (connected-Settled s ops c_transport w (pos rank) (pos size) (connects_first rank)
            sockets.0 sockets.1)

    -- What is held once the queue pairs are there, or not.
    abbrev queues_held : Bool → Bool → List Resource
    queues_held next previous =
        let base = completion_queue ∷ transport_object ∷ domain ∷ device ∷ [] in
        let with_next = if next then queue_next ∷ base else base in
        if previous then queue_previous ∷ with_next else with_next

    queues_made-Settled :
        (next previous : Bool)
        → Well (queues_held next previous) (
            queues_made s ops c_transport w rank size hosts
              (blank (pos rank) (pos size))
              next
              previous)
    unfolding queues_made set_ring_qps replay destroy_transport release_requests
    queues_made-Settled true true = with_queues-Settled
    queues_made-Settled true false = (refl, refl)
    queues_made-Settled false true = (refl, refl)
    queues_made-Settled false false = (refl, refl)

    -- The constructor acquires a completion queue, or throws.
    new_transport-cases :
        (creates : Bool)
        → ((new_transport (pos rank) (pos size) true true creates ≡ (none, []))
            ⊎ (new_transport (pos rank) (pos size) true true creates ≡ (none, used device ∷ [])))
          ⊎ (new_transport (pos rank) (pos size) true true creates
              ≡ (some (blank (pos rank) (pos size)), used device ∷ acquired completion_queue ∷ []))
    unfolding new_transport
    new_transport-cases creates =
        elim (Bool-cases (
          is_neg (pos rank)
          || not_positive (pos size)
          || at_least (pos rank) (pos size)
          || not true
          || not true)) [
            | inl bad ↦ inl (inl (rw bad refl))
            | inr fine ↦ elim (Bool-cases creates) [
              | inl made ↦ inr (rw (fine, made) refl)
              | inr failed_to ↦ inl (inr (rw (fine, failed_to) refl))
            ]
          ]

    -- The resources from the device on, before the constructor.
    abbrev made_object : List Resource
    made_object = transport_object ∷ domain ∷ device ∷ []

    create_qp-replay :
        replay (some made_object) (
          used device
          ∷ acquired completion_queue
          ∷ ((create_qp queue_next w.creates_next).1
              ++ (create_qp queue_previous w.creates_previous).1))
        ≡ some (
            queues_held
              ((create_qp queue_next w.creates_next).0)
              ((create_qp queue_previous w.creates_previous).0))
    unfolding create_qp replay
    create_qp-replay = elim (Bool-cases (w.creates_next queue_capacity)) [
      | inl next ↦ elim (Bool-cases (w.creates_previous queue_capacity)) [
        | inl previous ↦ rw (next, previous) refl
        | inr previous ↦ rw (next, previous) refl
      ]
      | inr next ↦ elim (Bool-cases (w.creates_previous queue_capacity)) [
        | inl previous ↦ rw (next, previous) refl
        | inr previous ↦ rw (next, previous) refl
      ]
    ]

    constructed-Settled :
        (r : Option VerbsTransport × List Event)
        → ((r ≡ (none, [])) ⊎ (r ≡ (none, used device ∷ [])))
          ⊎ (r ≡ (some (blank (pos rank) (pos size)), used device ∷ acquired completion_queue ∷ []))
        → Well made_object (constructed s ops c_transport w rank size hosts r)
    unfolding constructed replay
    constructed-Settled r (inl (inl e)) = rw e (refl, refl)
    constructed-Settled r (inl (inr e)) = rw e (refl, refl)
    constructed-Settled r (inr e) = rw e (
        after-Settled s ops c_transport made_object
          (queues_held ((create_qp queue_next w.creates_next).0)
            ((create_qp queue_previous w.creates_previous).0))
          (used device
            ∷ acquired completion_queue
            ∷ ((create_qp queue_next w.creates_next).1
                ++ (create_qp queue_previous w.creates_previous).1))
          _ create_qp-replay (queues_made-Settled _ _))

    port_queried-Settled :
        (active : Bool)
        → Well (domain ∷ device ∷ []) (port_queried s ops c_transport w rank size hosts active)
    unfolding port_queried replay
    port_queried-Settled false = (refl, refl)
    port_queried-Settled true =
        after-Settled s ops c_transport (domain ∷ device ∷ []) made_object
          (used device ∷ acquired transport_object ∷ []) _ refl
          (constructed-Settled (new_transport (pos rank) (pos size) true true w.creates_queue)
            (new_transport-cases w.creates_queue))

    domain_allocated-Settled :
        (allocates : Bool)
        → Well (device ∷ []) (domain_allocated s ops c_transport w rank size hosts allocates)
    unfolding domain_allocated replay
    domain_allocated-Settled false = (refl, refl)
    domain_allocated-Settled true =
        after-Settled s ops c_transport (device ∷ []) (domain ∷ device ∷ [])
          (used device ∷ acquired domain ∷ []) _ refl (port_queried-Settled w.port_active)

    device_opened-Settled :
        (opens : Bool)
        → Well (device_list ∷ []) (device_opened s ops c_transport w rank size hosts opens)
    unfolding device_opened replay
    device_opened-Settled false = (refl, refl)
    device_opened-Settled true =
        after-Settled s ops c_transport (device_list ∷ []) (device ∷ [])
          (used device_list ∷ acquired device ∷ released device_list ∷ []) _ refl
          (domain_allocated-Settled w.allocates_domain)

    devices_listed-Settled :
        (devices : Option ℕ)
        → devices ≢ some 0
        → Well [] (devices_listed s ops c_transport w rank size hosts devices)
    unfolding devices_listed replay
    devices_listed-Settled none some_devices = (refl, refl)
    devices_listed-Settled (some zero) some_devices = absurd (some_devices refl)
    devices_listed-Settled (some (suc n)) some_devices =
        let more : (suc n == 0) ≡ false = ground arith in
        rw more (
          after-Settled s ops c_transport [] (device_list ∷ []) (acquired device_list ∷ []) _ refl
            (device_opened-Settled w.opens_device))

  hosts_listed-Settled :
      (rank size : ℕ) (hosts : List Text)
      → w.devices ≢ some 0
      → Well [] (hosts_listed s ops c_transport w rank size hosts)
  unfolding hosts_listed replay
  hosts_listed-Settled rank size hosts some_devices = elim (Bool-cases (length hosts == size)) [
    | inl all ↦ rw all (devices_listed-Settled rank size hosts w.devices some_devices)
    | inr others ↦ rw others (refl, refl)
  ]

  ranked-Settled :
      (empty : Text → Bool) (rank size : ℤ)
      → w.devices ≢ some 0
      → Well [] (ranked s ops c_transport w empty rank size)
  unfolding ranked replay
  ranked-Settled empty (pos rank) (pos size) some_devices =
      elim (Bool-cases (ltb size 2 || leb size rank)) [
        | inl bad ↦ rw bad (refl, refl)
        | inr fine ↦ rw fine (hosts_listed-Settled rank size _ some_devices)
      ]
  ranked-Settled empty (pos rank) (negsuc size) some_devices = (refl, refl)
  ranked-Settled empty (negsuc rank) size some_devices = (refl, refl)

  -- Whatever libibverbs, the sockets and the environment answer, except for an empty list of devices
  -- that is not null: `connect_process_group` never releases what it does not hold, what another held
  -- resource depends on, or one thing twice. Each call of libibverbs and each of a socket is made while
  -- what it is called on is held, and each resource is acquired while what it is acquired from is
  -- held, the device from the list of devices among them. When it returns an error, it has released
  -- all that it acquired and `*pg_handle` is null. When it returns PG_SUCCESS, the handle owns the
  -- transport of a VerbsTransport whose destruction releases all that is held.
  pub connect_process_group-Settled :
      (empty : Text → Bool) (out : Bool)
      → w.devices ≢ some 0
      → Well [] (connect_process_group s ops c_transport w empty out)
  unfolding connect_process_group replay
  connect_process_group-Settled empty false some_devices = (refl, refl)
  connect_process_group-Settled empty true some_devices =
      ranked-Settled empty (or_default w.rank (pos 0)) (or_default w.world_size (pos 1))
        some_devices
