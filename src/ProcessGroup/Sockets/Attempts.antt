-- ===== src/ProcessGroup/Sockets/Attempts.antt =====
-- The sockets that the two ways to a connection leave.
use comm_workshop_final.Prelude.{
  ℕ, zero, suc, ◌+◌, ◌≡◌, refl, ap, ◌∙◌, List, [], ◌∷◌, ◌++◌, Bool, true, false, none, some,
  if◌then◌else◌,
}
use comm_workshop_final.Resources.{
  Resource, Event, acquired, used, released, next_socket, address_list,
}
use comm_workshop_final.Resources.Replay.{
  replay, replay-append, happen, holds, happen-acquired, released-first, needed-next_socket,
  needed-address_list,
}
use comm_workshop_final.ProcessGroup.Sockets.{
  Trial, no_socket, refused, established, Dialling, after_trial, try_entries, after_attempt,
  try_attempts, connect_to_host,
}

-- What is held once the socket is there, or not.
abbrev pub with_socket : Bool → List Resource → List Resource
with_socket connected held = if connected then next_socket ∷ held else held

module _ (held : List Resource) (free : holds next_socket held ≡ false)
    (listed : holds address_list held ≡ true) where
  -- A run leaves what it held before, and the socket if there is a connection.
  abbrev Leaves : Bool × List Event → Type 0
  Leaves (connected, events) = replay (some held) events ≡ some (with_socket connected held)

  reads_list : happen held (used address_list) ≡ some held
  reads_list = rw listed

  opens : happen held (acquired next_socket) ≡ some (next_socket ∷ held)
  opens = happen-acquired next_socket held free (rw listed)

  after_trial-Leaves :
      (t : Trial) (rest : Bool × List Event) → Leaves rest → Leaves (after_trial t rest)
  unfolding after_trial replay
  after_trial-Leaves no_socket (connected, events) h = ap (λ x. replay x events) reads_list ∙ h
  after_trial-Leaves refused (connected, events) h =
      ap (λ x. replay x (acquired next_socket ∷ used next_socket ∷ released next_socket ∷ events))
        reads_list
      ∙ ap (λ x. replay x (used next_socket ∷ released next_socket ∷ events)) opens
      ∙ released-first next_socket held events (needed-next_socket held)
      ∙ h
  after_trial-Leaves established rest h =
      ap (λ x. replay x (acquired next_socket ∷ used next_socket ∷ [])) reads_list
      ∙ ap (λ x. replay x (used next_socket ∷ [])) opens

  try_entries-Leaves : (trial : ℕ → Trial) (n entry : ℕ) → Leaves (try_entries trial n entry)
  unfolding try_entries replay
  try_entries-Leaves trial zero entry = refl
  try_entries-Leaves trial (suc n) entry =
      after_trial-Leaves (trial entry) (try_entries trial n (entry + 1))
        (try_entries-Leaves trial n (entry + 1))

  after_attempt-Leaves :
      (now later : Bool × List Event) → Leaves now → Leaves later → Leaves (after_attempt now later)
  unfolding after_attempt replay
  after_attempt-Leaves (true, events) later h k = h
  after_attempt-Leaves (false, events) (connected, more) h k =
      replay-append (some held) events more ∙ ap (λ x. replay x more) h ∙ k

  try_attempts-Leaves :
      (trial : ℕ → ℕ → Trial) (entries n attempt : ℕ)
      → Leaves (try_attempts trial entries n attempt)
  unfolding try_attempts replay
  try_attempts-Leaves trial entries zero attempt = refl
  try_attempts-Leaves trial entries (suc n) attempt =
      after_attempt-Leaves (try_entries (trial attempt) entries 0)
        (try_attempts trial entries n (attempt + 1)) (try_entries-Leaves (trial attempt) entries 0)
        (try_attempts-Leaves trial entries n (attempt + 1))

-- The address list is given back, whatever the attempts come to.
pub connect_to_host-replay :
    (held : List Resource) (d : Dialling)
    → holds next_socket held ≡ false
    → holds address_list held ≡ false
    → replay (some held) ((connect_to_host d).1) ≡ some (with_socket ((connect_to_host d).0) held)
unfolding connect_to_host replay
connect_to_host-replay held d free fresh =
    elim d.addresses
      as (λ a.
        replay (some held) ((connect_to_host (record d { addresses = a })).1)
        ≡ some (with_socket ((connect_to_host (record d { addresses = a })).0) held)) [
          | none ↦ refl
          | some n ↦
              let (connected, events) = try_attempts d.trial n 100 0 in
              ap (λ x. replay x (events ++ released address_list ∷ []))
                (happen-acquired address_list held fresh refl)
              ∙ replay-append (some (address_list ∷ held)) events (released address_list ∷ [])
              ∙ ap (λ x. replay x (released address_list ∷ []))
                  (try_attempts-Leaves (address_list ∷ held) free refl d.trial n 100 0)
              ∙ list_released connected
        ]
  where
    list_released :
        (connected : Bool)
        → replay (some (with_socket connected (address_list ∷ held))) (released address_list ∷ [])
          ≡ some (with_socket connected held)
    list_released true = rw (needed-address_list held)
    list_released false = rw (needed-address_list held)
