-- ===== src/Verbs/Device.antt =====
-- src/verbs_transport.cpp: the constructor and the destructor of `VerbsTransport`, `set_ring_qps` and
-- `set_control_sockets`.
pub mod Destroyed
use comm_workshop_final.Prelude.{
  ℕ, ◌≡◌, List, [], ◌∷◌, ◌++◌, Bool, true, false, not, ◌||◌, Option, none, some, if◌then◌else◌,
  ◌==◌, leb,
}
use comm_workshop_final.Prelude.Int.{ℤ, pos, negsuc, is_neg}
use comm_workshop_final.Verbs.{RequestState, Requests}
use comm_workshop_final.Resources.{
  released_if, Resource, device, domain, completion_queue, queue_next, queue_previous, next_socket,
  previous_socket, region, Event, acquired, used, released,
}

-- The members of the class; a pointer is given by whether it is set, a socket by whether it is valid.
pub record VerbsTransport : Type 0 where
  pub rank : ℤ
  pub world_size : ℤ
  pub context_set : Bool
  pub pd_set : Bool
  pub cq_set : Bool
  pub qp_next_set : Bool
  pub qp_prev_set : Bool
  pub next_socket_open : Bool
  pub previous_socket_open : Bool
  pub next_request_id : ℕ
  pub pending_requests : Requests

-- `rank >= size` on `int`
abbrev pub at_least : ℤ → ℤ → Bool
at_least (pos a) (pos b) = leb b a
at_least (pos a) (negsuc b) = true
at_least (negsuc a) (pos b) = false
at_least (negsuc a) (negsuc b) = leb a b

-- `size <= 0`
abbrev pub not_positive : ℤ → Bool
not_positive (pos n) = n == 0
not_positive (negsuc n) = true

-- The guards, then `ibv_create_cq`, which `creates` answers. A thrown exception is `none`.
unfoldable pub new_transport : ℤ → ℤ → Bool → Bool → Bool → Option VerbsTransport × List Event
new_transport rank world_size context_set pd_set creates =
    if is_neg rank
      || not_positive world_size
      || at_least rank world_size
      || not context_set
      || not pd_set
    then (none, [])
    else if not creates
    then (none, used device ∷ [])
    else (
      some (record {
        rank = rank;
        world_size = world_size;
        context_set = context_set;
        pd_set = pd_set;
        cq_set = true;
        qp_next_set = false;
        qp_prev_set = false;
        next_socket_open = false;
        previous_socket_open = false;
        next_request_id = 1;
        pending_requests = [];
      }),
      used device ∷ acquired completion_queue ∷ [],
    )

-- Whether the queue pairs are not null, and the sockets not negative. A thrown exception is `none`.
unfoldable pub set_ring_qps : Bool → Bool → VerbsTransport → Option VerbsTransport
set_ring_qps qp_next qp_prev v =
    if not qp_next || not qp_prev
    then none
    else some (record v { qp_next_set = qp_next; qp_prev_set = qp_prev })

unfoldable pub set_control_sockets : Bool → Bool → VerbsTransport → Option VerbsTransport
set_control_sockets next previous v =
    if not next || not previous
    then none
    else some (record v { next_socket_open = next; previous_socket_open = previous })

-- The loop over `pending_requests_`.
unfoldable pub release_requests : Requests → List Event
release_requests [] = []
release_requests ((key, state) ∷ rest) =
    let later = release_requests rest in
    if state.registered then released (region key) ∷ later else later

unfoldable pub destroy_transport : VerbsTransport → List Event
unfolding release_requests
destroy_transport v =
    released_if v.next_socket_open next_socket
    ++ (released_if v.previous_socket_open previous_socket
        ++ (released_if v.qp_next_set queue_next
            ++ (released_if v.qp_prev_set queue_previous
                ++ (release_requests v.pending_requests
                    ++ (released_if v.cq_set completion_queue
                        ++ (released_if v.pd_set domain ++ released_if v.context_set device))))))
