-- ===== src/Verbs/Device/Destroyed.antt =====
-- What the destructor gives back.
use comm_workshop_final.Prelude.{
  ℕ, ◌≡◌, refl, ◌∙◌, List, [], ◌∷◌, ◌++◌, Bool, true, false, some, if◌then◌else◌, Bool-cases, inl,
  inr,
}
use comm_workshop_final.Verbs.{Requests}
use comm_workshop_final.Resources.{
  released_if, Resource, device, domain, completion_queue, queue_next, queue_previous, next_socket,
  previous_socket, region, Event,
}
use comm_workshop_final.Resources.Replay.{
  replay, needed, released-first, needed-next_socket, needed-previous_socket, needed-queue_next,
  needed-queue_previous,
}
use comm_workshop_final.Verbs.Device.{VerbsTransport, destroy_transport, release_requests}

abbrev held_if : Bool → Resource → List Resource
held_if set r = if set then r ∷ [] else []

-- The memory regions of the pending requests.
abbrev pub regions : Requests → List Resource
regions [] = []
regions ((key, state) ∷ rest) =
    let later = regions rest in if state.registered then region key ∷ later else later

-- What the transport holds by its members.
abbrev pub holdings : VerbsTransport → List Resource
holdings v =
    held_if v.next_socket_open next_socket
    ++ (held_if v.previous_socket_open previous_socket
        ++ (held_if v.qp_next_set queue_next
            ++ (held_if v.qp_prev_set queue_previous
                ++ (regions v.pending_requests
                    ++ (held_if v.cq_set completion_queue
                        ++ (held_if v.pd_set domain ++ held_if v.context_set device))))))

released_if-replay :
    (set : Bool) (r : Resource) (rest : List Resource) (es : List Event)
    → ((held : List Resource) → needed r held ≡ false)
    → replay (some (held_if set r ++ rest)) (released_if set r ++ es) ≡ replay (some rest) es
released_if-replay true r rest es free = released-first r rest es (free (r ∷ rest))
released_if-replay false r rest es free = refl

-- The members that are released after the requests.
abbrev base : Bool → Bool → Bool → List Resource
base cq pd context = held_if cq completion_queue ++ (held_if pd domain ++ held_if context device)

needed-region :
    (k : ℕ) (requests : Requests) (cq pd context : Bool)
    → needed (region k) (regions requests ++ base cq pd context) ≡ false
needed-region k [] true true true = refl
needed-region k [] true true false = refl
needed-region k [] true false true = refl
needed-region k [] true false false = refl
needed-region k [] false true true = refl
needed-region k [] false true false = refl
needed-region k [] false false true = refl
needed-region k [] false false false = refl
needed-region k ((key, state) ∷ rest) cq pd context = elim (Bool-cases state.registered) [
  | inl on ↦ rw on (needed-region k rest cq pd context)
  | inr off ↦ rw off (needed-region k rest cq pd context)
]

release_requests-replay :
    (requests : Requests) (cq pd context : Bool) (es : List Event)
    → replay (some (regions requests ++ base cq pd context)) (release_requests requests ++ es)
      ≡ replay (some (base cq pd context)) es
unfolding release_requests
release_requests-replay [] cq pd context es = refl
release_requests-replay ((key, state) ∷ rest) cq pd context es =
    elim (Bool-cases state.registered) [
      | inl on ↦ rw on (
          released-first (region key) (regions rest ++ base cq pd context)
            (release_requests rest ++ es) (needed-region key rest cq pd context)
          ∙ release_requests-replay rest cq pd context es)
      | inr off ↦ rw off (release_requests-replay rest cq pd context es)
    ]

base-replay :
    (cq pd context : Bool)
    → replay
        (some (base cq pd context))
        (released_if cq completion_queue ++ (released_if pd domain ++ released_if context device))
      ≡ some []
unfolding replay
base-replay true true true = refl
base-replay true true false = refl
base-replay true false true = refl
base-replay true false false = refl
base-replay false true true = refl
base-replay false true false = refl
base-replay false false true = refl
base-replay false false false = refl

-- Whatever members are set and whatever requests are pending, in whatever order the destructor meets
-- them: it releases each of the resources that the transport holds once, none before another
-- that depends on it (a queue pair before the memory regions and its completion queue, those and the
-- protection domain before the device), and nothing else, and leaves nothing held.
pub destroy_transport-replay :
    (v : VerbsTransport) → replay (some (holdings v)) (destroy_transport v) ≡ some []
unfolding destroy_transport
destroy_transport-replay v =
    released_if-replay v.next_socket_open next_socket _ _ needed-next_socket
    ∙ released_if-replay v.previous_socket_open previous_socket _ _ needed-previous_socket
    ∙ released_if-replay v.qp_next_set queue_next _ _ needed-queue_next
    ∙ released_if-replay v.qp_prev_set queue_previous _ _ needed-queue_previous
    ∙ release_requests-replay v.pending_requests v.cq_set v.pd_set v.context_set _
    ∙ base-replay v.cq_set v.pd_set v.context_set
