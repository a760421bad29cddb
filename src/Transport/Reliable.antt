-- ===== src/Transport/Reliable.antt =====
-- The contract of include/pg_transport.h, as the collectives rely on it: posts are accepted, data is
-- matched by tag, and a wait ends by consuming its request.
use comm_workshop_final.Prelude.{ℕ, ◌^◌, ◌<◌, ◌≡◌, List, [], ◌∷◌, ◌++◌, ap, ◌∙◌, append_assoc}
use comm_workshop_final.Prelude.Int.{pos}
use comm_workshop_final.Types.{TransferMode}
use comm_workshop_final.Memory.{Buffer}
use comm_workshop_final.Transport.{TransportOps}

pub record Message (E : Type 0) : Type 0 where
  pub tag : ℕ
  pub bytes : ℕ
  pub payload : Buffer E

-- The tag and the bytes of a receive that was posted.
pub record Descriptor : Type 0 where
  pub tag : ℕ
  pub bytes : ℕ

pub data Pending (R : Type 0) : Type 0 where
  receiving : R → ℕ → Pending R
  sending : R → Pending R

-- What one endpoint has been asked to do: all sends and all receives so far, in order, and the
-- requests that are not consumed yet, the oldest first.
pub record Link (R E : Type 0) : Type 0 where
  pub sent : List (Message E)
  pub expected : List Descriptor
  pub pending : List (Pending R)

module _ {T E : Type 0} (ops : TransportOps T E) where
  -- `inbox tag` is what the previous rank sends under `tag`. Requests of 1 to 2 ^ 32 - 1 bytes in
  -- mode `mode` are accepted; only the oldest open request is ever waited for.
  pub record Reliable (mode : TransferMode) (inbox : ℕ → ℕ → E) : Type 0 where
    pub view : T → Link ops.Request E
    pub receives :
        (t : T) (bytes tag : ℕ)
        → 0 < bytes
        → bytes < 2 ^ 32
        → let (status, request, t') = ops.post_recv_prev t bytes tag mode in
          (status ≡ pos 0)
          × (view t' ≡ record (view t) {
            expected = (view t).expected ++ (record { tag = tag; bytes = bytes }) ∷ [];
            pending = (view t).pending ++ receiving request tag ∷ [];
          })
    pub sends :
        (t : T) (payload : Buffer E) (bytes tag : ℕ)
        → 0 < bytes
        → bytes < 2 ^ 32
        → let (status, request, t') = ops.post_send_next t payload bytes tag mode in
          (status ≡ pos 0)
          × (view t' ≡ record (view t) {
            sent = (view t).sent ++ (record { tag = tag; bytes = bytes; payload = payload }) ∷ [];
            pending = (view t).pending ++ sending request ∷ [];
          })
    pub completes_receive :
        (t : T) (request : ops.Request) (tag : ℕ) (rest : List (Pending ops.Request))
        → (view t).pending ≡ receiving request tag ∷ rest
        → let (status, contents, t') = ops.wait t request in
          (status ≡ pos 0)
          × (view t' ≡ record (view t) { pending = rest })
          × ((j : ℕ) → contents j ≡ inbox tag j)
    pub completes_send :
        (t : T) (request : ops.Request) (rest : List (Pending ops.Request))
        → (view t).pending ≡ sending request ∷ rest
        → let (status, contents, t') = ops.wait t request in
          (status ≡ pos 0) × (view t' ≡ record (view t) { pending = rest })

-- The record `l` after the sends and receives of some more steps, all of them completed.
abbrev pub extend : {R E : Type 0} → Link R E → List (Message E) → List Descriptor → Link R E
extend l messages descriptors = record {
  sent = l.sent ++ messages;
  expected = l.expected ++ descriptors;
  pending = [];
}

pub extend-extend :
    {R E : Type 0} (k l : Link R E) (messages more : List (Message E))
    (descriptors others : List Descriptor)
    → k ≡ extend l messages descriptors
    → extend k more others ≡ extend l (messages ++ more) (descriptors ++ others)
extend-extend k l messages more descriptors others e = λ i. record {
  sent = (ap (λ (j : Link _ _). j.sent ++ more) e ∙ append_assoc l.sent messages more) i;
  expected =
      (ap (λ (j : Link _ _). j.expected ++ others) e ∙ append_assoc l.expected descriptors others)
        i;
  pending = [];
}
