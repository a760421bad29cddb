-- ===== src/Ring/Step/Program.antt =====
-- What a step asks of its transport, in which order.
use comm_workshop_final.Prelude.{ℕ, zero, suc, ◌+◌, ◌-◌, ◌*◌, min, List, [], ◌++◌, map}
use comm_workshop_final.Pieces.{piece_count_for, batches_for}
use comm_workshop_final.Transport.Recorded.{
  Action, asks_receive, asks_send, awaits_receive, awaits_send,
}
use comm_workshop_final.Ring.Step.{Step}
use comm_workshop_final.Ring.Step.Setup.{tag_of}
use comm_workshop_final.Ring.Step.Batch.{first}

-- `f 0`, `f 1`, … up to `f (n - 1)`, one after the other.
abbrev pub joined : {A : Type 0} → (ℕ → List A) → ℕ → List A
joined f zero = []
joined f (suc n) = joined f n ++ f n

-- `from`, `from + 1`, … below `to`.
abbrev pub span : ℕ → ℕ → List ℕ
span from to = first (λ j. from + j) (to - from)

-- The pieces of one batch, of `pieces` in all.
abbrev pub batch_pieces : Step → ℕ → ℕ → List ℕ
batch_pieces st pieces batch =
    span (batch * st.capacity) (min (batch * st.capacity + st.capacity) pieces)

abbrev pub recv_pieces : Step → ℕ
recv_pieces st = piece_count_for st.recv_count st.piece_elements

abbrev pub send_pieces : Step → ℕ
send_pieces st = piece_count_for st.send_count st.piece_elements

abbrev pub act : Step → (ℕ → Action) → List ℕ → List Action
act st f = map (λ k. f (tag_of st k))

-- The receives of a batch are posted, then the sends; then the receives are awaited, and the sends.
abbrev pub batch_program : Step → ℕ → List Action
batch_program st batch =
    act st asks_receive (batch_pieces st (recv_pieces st) batch)
    ++ act st asks_send (batch_pieces st (send_pieces st) batch)
    ++ act st awaits_receive (batch_pieces st (recv_pieces st) batch)
    ++ act st awaits_send (batch_pieces st (send_pieces st) batch)

abbrev pub step_program : Step → List Action
step_program st =
    joined (batch_program st) (batches_for (send_pieces st) (recv_pieces st) st.capacity)
