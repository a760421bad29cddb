-- ===== src/Resources/Replay.antt =====
-- Whether a sequence of calls is in order, and what is held after it.
use comm_workshop_final.Prelude.{
  ℕ, ◌+◌, ◌≡◌, refl, List, [], ◌∷◌, ◌++◌, Bool, true, false, not, ◌&&◌, ◌||◌, Option, none, some,
  if◌then◌else◌, ◌==◌, ==_iff, ap, ◌∙◌, All,
}
use comm_workshop_final.Resources.{
  Resource, device_list, device, domain, transport_object, completion_queue, queue_next,
  queue_previous, next_socket, previous_socket, listener, address_list, region, Event, acquired,
  used, sent, released, modified,
}

abbrev index : Resource → ℕ
index device_list = 0
index device = 1
index domain = 2
index transport_object = 3
index completion_queue = 4
index queue_next = 5
index queue_previous = 6
index next_socket = 7
index previous_socket = 8
index listener = 9
index address_list = 10
index (region k) = 11 + k

abbrev pub same_resource : Resource → Resource → Bool
same_resource a b = index a == index b

abbrev pub holds : Resource → List Resource → Bool
holds r [] = false
holds r (x ∷ xs) = same_resource r x || holds r xs

abbrev pub without : Resource → List Resource → List Resource
without r [] = []
without r (x ∷ xs) = let rest = without r xs in if same_resource r x then xs else x ∷ rest

-- Whether `x` can only exist while `r` does: a domain and a completion queue belong to a
-- device; queue pairs and memory regions to a domain; queue pairs to a completion queue. The work
-- requests of a queue pair may still touch a memory region.
abbrev pub depends : Resource → Resource → Bool
depends device domain = true
depends device completion_queue = true
depends domain queue_next = true
depends domain queue_previous = true
depends domain (region k) = true
depends completion_queue queue_next = true
depends completion_queue queue_previous = true
depends (region k) queue_next = true
depends (region k) queue_previous = true
depends r x = false

abbrev pub needed : Resource → List Resource → Bool
needed r [] = false
needed r (x ∷ xs) = depends r x || needed r xs

-- What a resource is acquired from: a device is opened from the list of devices, a connection is made
-- to an entry of a list of addresses or accepted by a listener.
abbrev pub acquired_from : Resource → List Resource
acquired_from device = device_list ∷ []
acquired_from domain = device ∷ []
acquired_from completion_queue = device ∷ []
acquired_from queue_next = domain ∷ completion_queue ∷ []
acquired_from queue_previous = domain ∷ completion_queue ∷ []
acquired_from next_socket = address_list ∷ []
acquired_from previous_socket = listener ∷ []
acquired_from (region k) = domain ∷ []
acquired_from r = []

abbrev pub all_held : List Resource → List Resource → Bool
all_held [] held = true
all_held (r ∷ rs) held = holds r held && all_held rs held

-- One call, on what is held. `none` is misuse: a resource is acquired twice or while what it is
-- acquired from is not held, used or released without being held, or released while another one
-- depends on it.
abbrev pub happen : List Resource → Event → Option (List Resource)
happen held (acquired r) =
    if not (holds r held) && all_held (acquired_from r) held then some (r ∷ held) else none
happen held (used r) = if holds r held then some held else none
happen held (sent r words) = if holds r held then some held else none
happen held (modified r state) = if holds r held then some held else none
happen held (released r) =
    if holds r held && not (needed r held) then some (without r held) else none

-- The calls one after the other.
unfoldable pub replay : Option (List Resource) → List Event → Option (List Resource)
replay none es = none
replay (some held) [] = some held
replay (some held) (e ∷ es) = replay (happen held e) es

pub replay-append :
    (held : Option (List Resource)) (a b : List Event)
    → replay held (a ++ b) ≡ replay (replay held a) b
unfolding replay
replay-append none [] b = refl
replay-append none (e ∷ a) b = refl
replay-append (some held) [] b = refl
replay-append (some held) (e ∷ a) b = replay-append (happen held e) a b

-- Calls that change nothing.
pub replay-unchanged :
    (held : List Resource) (es : List Event)
    → All (λ e. happen held e ≡ some held) es
    → replay (some held) es ≡ some held
unfolding replay
replay-unchanged held [] h = refl
replay-unchanged held (e ∷ es) h = ap (λ x. replay x es) h.0 ∙ replay-unchanged held es h.1

pub happen-acquired :
    (r : Resource) (held : List Resource)
    → holds r held ≡ false
    → all_held (acquired_from r) held ≡ true
    → happen held (acquired r) ≡ some (r ∷ held)
happen-acquired r held free from = rw (free, from)

same_resource_refl : (r : Resource) → same_resource r r ≡ true
same_resource_refl r = (==_iff _ _).1 refl

pub happen-first :
    (r : Resource) (rest : List Resource)
    → needed r (r ∷ rest) ≡ false
    → happen (r ∷ rest) (released r) ≡ some rest
happen-first r rest free = rw (same_resource_refl r, free)

-- What stands first can be released if nothing depends on it.
pub released-first :
    (r : Resource) (rest : List Resource) (es : List Event)
    → needed r (r ∷ rest) ≡ false
    → replay (some (r ∷ rest)) (released r ∷ es) ≡ replay (some rest) es
unfolding replay
released-first r rest es free = ap (λ held. replay held es) (happen-first r rest free)

-- Nothing depends on a socket, an address list or a queue pair.
pub needed-next_socket : (held : List Resource) → needed next_socket held ≡ false
needed-next_socket [] = refl
needed-next_socket (x ∷ xs) = needed-next_socket xs

pub needed-previous_socket : (held : List Resource) → needed previous_socket held ≡ false
needed-previous_socket [] = refl
needed-previous_socket (x ∷ xs) = needed-previous_socket xs

pub needed-queue_next : (held : List Resource) → needed queue_next held ≡ false
needed-queue_next [] = refl
needed-queue_next (x ∷ xs) = needed-queue_next xs

pub needed-queue_previous : (held : List Resource) → needed queue_previous held ≡ false
needed-queue_previous [] = refl
needed-queue_previous (x ∷ xs) = needed-queue_previous xs

pub needed-address_list : (held : List Resource) → needed address_list held ≡ false
needed-address_list [] = refl
needed-address_list (x ∷ xs) = needed-address_list xs
