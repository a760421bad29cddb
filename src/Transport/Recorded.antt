-- ===== src/Transport/Recorded.antt =====
-- A transport of include/pg_transport.h that also records which of its operations are called.
use comm_workshop_final.Prelude.{ℕ, List, [], ◌∷◌, ◌++◌}
use comm_workshop_final.Transport.{TransportOps}

-- A call of the table: a post of a receive or a send under a tag, or the wait for one.
pub data Action : Type 0 where
  asks_receive asks_send awaits_receive awaits_send : ℕ → Action

-- `ops`, with the calls so far. A request knows the wait that is for it.
abbrev pub recorded : {T E : Type 0} → TransportOps T E → TransportOps (T × List Action) E
recorded ops = record {
  Request = ops.Request × Action;
  rank = λ t. ops.rank t.0;
  size = λ t. ops.size t.0;
  post_send_next = λ t payload bytes tag mode.
      let (status, request, u) = ops.post_send_next t.0 payload bytes tag mode in
      (status, (request, awaits_send tag), (u, t.1 ++ asks_send tag ∷ []));
  post_recv_prev = λ t bytes tag mode.
      let (status, request, u) = ops.post_recv_prev t.0 bytes tag mode in
      (status, (request, awaits_receive tag), (u, t.1 ++ asks_receive tag ∷ []));
  wait = λ t r.
      let (status, contents, u) = ops.wait t.0 r.0 in (status, contents, (u, t.1 ++ r.1 ∷ []));
  destroy = λ t. (ops.destroy t.0, t.1);
}
