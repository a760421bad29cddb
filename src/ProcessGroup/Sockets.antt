-- ===== src/ProcessGroup/Sockets.antt =====
-- src/process_group_api.cpp: `listen_and_accept` and `connect_to_host`.
pub mod Attempts
use comm_workshop_final.Prelude.{
  ℕ, zero, suc, ◌+◌, List, [], ◌∷◌, ◌++◌, Bool, true, false, not, ◌||◌, Option, none, some,
  if◌then◌else◌,
}
use comm_workshop_final.Resources.{
  Event, acquired, used, released, next_socket, previous_socket, listener, address_list,
}

-- What the system answers to `listen_and_accept`: whether there is a socket, whether `bind` and
-- `listen` succeed, and whether `accept` does.
pub record Listening : Type 0 where
  pub creates : Bool
  pub binds : Bool
  pub listens : Bool
  pub accepts : Bool

-- Whether there is a connection, the socket to the previous rank. The first use of the listener is
-- its setting up; `accept` uses it too.
unfoldable pub listen_and_accept : Listening → Bool × List Event
listen_and_accept l =
    if not l.creates
    then (false, [])
    else if not l.binds || not l.listens
    then (false, acquired listener ∷ used listener ∷ released listener ∷ [])
    else if l.accepts
    then (
      true,
      acquired listener
          ∷ used listener
          ∷ used listener
          ∷ acquired previous_socket
          ∷ released listener
          ∷ [],
    )
    else (false, acquired listener ∷ used listener ∷ used listener ∷ released listener ∷ [])

-- What becomes of one address: no socket, a socket that cannot connect, or a connection. `connect` is
-- the use of the socket.
pub data Trial : Type 0 where
  no_socket refused established : Trial

-- What the system answers to `connect_to_host`: how many addresses `getaddrinfo` finds (`none`: it
-- fails), and what becomes of each address in each attempt.
pub record Dialling : Type 0 where
  pub addresses : Option ℕ
  pub trial : ℕ → ℕ → Trial

-- One entry, with the result of the entries after it.
unfoldable pub after_trial : Trial → Bool × List Event → Bool × List Event
after_trial no_socket (connected, events) = (connected, used address_list ∷ events)
after_trial refused (connected, events) = (
  connected,
  used address_list ∷ acquired next_socket ∷ used next_socket ∷ released next_socket ∷ events,
)
after_trial established rest =
    (true, used address_list ∷ acquired next_socket ∷ used next_socket ∷ [])

-- The inner loop, with the entries left and the number of the entry.
unfoldable pub try_entries : (ℕ → Trial) → ℕ → ℕ → Bool × List Event
unfolding after_trial
try_entries trial zero entry = (false, [])
try_entries trial (suc n) entry = after_trial (trial entry) (try_entries trial n (entry + 1))

-- One attempt, with the result of the attempts after it.
unfoldable pub after_attempt : Bool × List Event → Bool × List Event → Bool × List Event
after_attempt (true, events) rest = (true, events)
after_attempt (false, events) (connected, more) = (connected, events ++ more)

-- The outer loop, with the attempts left and the number of the attempt.
unfoldable pub try_attempts : (ℕ → ℕ → Trial) → ℕ → ℕ → ℕ → Bool × List Event
unfolding try_entries after_attempt
try_attempts trial entries zero attempt = (false, [])
try_attempts trial entries (suc n) attempt =
    after_attempt (try_entries (trial attempt) entries 0)
      (try_attempts trial entries n (attempt + 1))

-- Whether there is a connection, the socket to the next rank.
unfoldable pub connect_to_host : Dialling → Bool × List Event
unfolding try_attempts
connect_to_host d = elim d.addresses [
  | none ↦ (false, [])
  | some n ↦ (
    (try_attempts d.trial n 100 0).0,
    acquired address_list ∷ ((try_attempts d.trial n 100 0).1 ++ released address_list ∷ []),
  )
]
