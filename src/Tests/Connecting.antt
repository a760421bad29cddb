-- ===== src/Tests/Connecting.antt =====
-- Calls of `connect_process_group` and of the destructor.
use comm_workshop_final.Prelude.{
  ℕ, zero, suc, ◌≡◌, ◌≢◌, ◌⊎◌, ◌<◌, Option, refl, [], ◌∷◌, true, false, none, some, arith, ◌==◌,
}
use comm_workshop_final.Prelude.Int.{pos, negsuc}
use comm_workshop_final.Types.{TransferMode, eager, rendezvous, auto}
use comm_workshop_final.Resources.{region, acquired, released}
use comm_workshop_final.Resources.Replay.{replay}
use comm_workshop_final.Verbs.{send, choose_mode}
use comm_workshop_final.Verbs.Posting.{Surroundings, control_for}
use comm_workshop_final.Verbs.Wrappers.{verbs_post_send_next, verbs_post_recv_prev}
use comm_workshop_final.Verbs.Wrappers.Effects.{pending_after, verbs_post_send_next-pending_after}
use comm_workshop_final.Verbs.Wrappers.Received.{Declines, Awaits, verbs_post_recv_prev-Awaits}
use comm_workshop_final.Verbs.Device.{VerbsTransport, destroy_transport}
use comm_workshop_final.Verbs.Device.Destroyed.{holdings, destroy_transport-replay}
use comm_workshop_final.ProcessGroup.{moved_bytes, interrupted, unset}
use comm_workshop_final.ProcessGroup.Sockets.{refused, established}
use comm_workshop_final.ProcessGroup.Bootstrap.{Surroundings as SystemAnswers}
use comm_workshop_final.ProcessGroup.Settings.{Parsed}
use comm_workshop_final.ProcessGroup.Bootstrap.{connects_first}
use comm_workshop_final.ProcessGroup.Bootstrap.Order.{
  Progress, advance, accept_call, connect, accept, Reachable, begun, further, Stuck,
  Reachable-finished,
}
use comm_workshop_final.Ring.Schedule.Blocks.{next_rank}
use comm_workshop_final.ProcessGroup.Connect.{connect_process_group}
use comm_workshop_final.ProcessGroup.Connect.Settled.{Settled}
use comm_workshop_final.ProcessGroup.Connect.Released.{connect_process_group-Settled}
use comm_workshop_final.Tests.Loopback.{numbers, loopback_with, at_rest}

-- A transport with its queue pairs and sockets, and one pending request.
abbrev connected_transport : VerbsTransport
connected_transport = record {
  rank = pos 1;
  world_size = pos 2;
  context_set = true;
  pd_set = true;
  cq_set = true;
  qp_next_set = true;
  qp_prev_set = true;
  next_socket_open = true;
  previous_socket_open = true;
  next_request_id = 2;
  pending_requests =
      (
        7,
        record {
          kind = send;
          id = 1;
          tag = 0;
          mode = eager;
          registered = true;
          completed = false;
          status = pos 0;
        },
      )
      ∷ [];
}

destroy_transport-replay_example :
    replay (some (holdings connected_transport)) (destroy_transport connected_transport) ≡ some []
destroy_transport-replay_example = destroy_transport-replay connected_transport

-- Rank 1 of 2. The first attempt to connect is refused, and a peer breaks the barrier off.
abbrev surroundings : SystemAnswers ℕ
surroundings = record {
  rank = some (pos 1);
  world_size = some (pos 2);
  host_list = some (5 ∷ 6 ∷ []);
  fallback = 0;
  devices = some 1;
  opens_device = true;
  allocates_domain = true;
  port_active = true;
  creates_queue = true;
  creates_next = λ capacity. true;
  creates_previous = λ capacity. true;
  next_qpn = 21;
  previous_qpn = 22;
  lid = 1;
  dial = λ host port. record {
    addresses = some 1;
    trial = λ attempt entry. elim attempt [ zero ↦ refused | suc n ↦ established ];
  };
  listen = λ port. record { creates = true; binds = true; listens = true; accepts = true };
  metadata = record {
    write_next = moved_bytes 8 ∷ [];
    write_previous = interrupted ∷ moved_bytes 8 ∷ [];
    read_next = moved_bytes 8 ∷ [];
    read_previous = moved_bytes 5 ∷ moved_bytes 3 ∷ [];
  };
  remote_next = record { qpn = 31; lid = 2; reserved = 0 };
  remote_previous = record { qpn = 32; lid = 2; reserved = 0 };
  move_next = record { to_init = true; to_rtr = true; to_rts = true };
  move_previous = record { to_init = true; to_rtr = true; to_rts = true };
  barrier = record {
    write_next = moved_bytes 1 ∷ [];
    write_previous = moved_bytes 1 ∷ [];
    read_next = moved_bytes 0 ∷ [];
    read_previous = [];
  };
  next_ready = 0;
  previous_ready = 0;
  piece_bytes = none;
  inflight = none;
  mode = unset;
}

connect_process_group-Settled_example :
    Settled numbers
      (loopback_with 1 (λ tag j. 0))
      (λ v. at_rest)
      []
      (connect_process_group numbers
        (loopback_with 1 (λ tag j. 0))
        (λ v. at_rest)
        surroundings
        (λ host. host == 0)
        true)
connect_process_group-Settled_example =
    connect_process_group-Settled numbers (loopback_with 1 (λ tag j. 0)) (λ v. at_rest) surroundings
      (λ host. host == 0) true one_device
  where
    one_device : surroundings.devices ≢ some 0
    one_device e = absurd (cc e)

-- "4096"
abbrev digits_read : Option Parsed
digits_read =
    some (record { sets_errno = false; reads_some = true; reads_all = true; value = pos 4096 })

-- Two ranks: rank 0 connects, rank 1 accepts and connects, rank 0 accepts.
abbrev both_done : Progress
both_done = advance (advance (advance (advance (λ r. 0) 0) 1) 1) 0

both_done-Reachable : Reachable 2 both_done
unfolding connects_first
both_done-Reachable =
    further _ _
      (further _ _
        (further _ _ (further _ _ begun (connect (λ r. 0) 0 (omega arith) refl refl))
          (accept (advance (λ r. 0) 0) 0 (omega arith) (omega arith) refl))
        (connect (advance (advance (λ r. 0) 0) 1) 1 (omega arith) refl refl))
      (accept (advance (advance (advance (λ r. 0) 0) 1) 1) 1 (omega arith) (omega arith) refl)

nobody_listens : (r : ℕ) → r < 2 → both_done (next_rank r 2) ≢ accept_call (next_rank r 2)
unfolding connects_first
nobody_listens zero h e = absurd (omega (arith, e))
nobody_listens (suc zero) h e = absurd (omega (arith, e))
nobody_listens (suc (suc r)) h e = absurd (omega (arith, h))

both_done-Stuck : Stuck 2 both_done
both_done-Stuck q (connect _ r h now listens) = nobody_listens r h listens
both_done-Stuck q (accept _ r h connected listens) = nobody_listens r h listens

Reachable-finished_example : both_done 1 ≡ 2
Reachable-finished_example =
    Reachable-finished 2 both_done (omega arith) both_done-Reachable both_done-Stuck 1 (omega arith)

-- What is answered to a send that meets the control message of the next rank.
abbrev answers : Surroundings
answers = record {
  address = 600;
  keys = some (5, 6);
  post_status = pos 0;
  written = true;
  control = some (control_for 1000 8192 7 4 rendezvous);
}

verbs_post_send_next-pending_after_example :
    let a =
      verbs_post_send_next
        (λ n. n)
        answers
        (some (some connected_transport))
        2000
        8192
        7
        auto
        (some 0) in
    ((a.status ≡ negsuc 0)
      × (pending_after a ≡ some connected_transport.pending_requests)
      × (a.internal ≡ 0)
      × (a.stored_id ≡ none)
      × (a.work ≡ none)
      × ((a.events ≡ []) ⊎ (a.events ≡ acquired (region 600) ∷ released (region 600) ∷ [])))
    ⊎ ((a.status ≡ pos 0)
        × (a.internal ≡ 600)
        × (a.stored_id ≡ some 2)
        × (a.events ≡ acquired (region 600) ∷ [])
        × ((mode : TransferMode) × (choose_mode auto 8192 ≡ some mode)
            × (pending_after a
                ≡ some (
                    (
                      600,
                      record {
                        kind = send;
                        id = 2;
                        tag = 7;
                        mode = mode;
                        registered = true;
                        completed = false;
                        status = pos 0;
                      },
                    )
                    ∷ connected_transport.pending_requests))))
verbs_post_send_next-pending_after_example =
    verbs_post_send_next-pending_after (λ n. n) answers connected_transport 2000 8192 7 auto
      (some 0)

-- The control message of a receive cannot be written.
abbrev unheard : Surroundings
unheard = record answers { written = false }

verbs_post_recv_prev-Awaits_example :
    let a =
      verbs_post_recv_prev unheard (some (some connected_transport)) 1000 8192 7 auto (some 0) in
    Declines unheard connected_transport 1000 8192 7 auto (some 0) a
    ⊎ Awaits unheard connected_transport 1000 8192 7 auto (some 0) a
verbs_post_recv_prev-Awaits_example =
    verbs_post_recv_prev-Awaits unheard connected_transport 1000 8192 7 auto (some 0)
