-- ===== src/ProcessGroup/QueuePairs.antt =====
-- src/process_group_api.cpp: `create_qp` and `transition_qp_to_rts`.
use comm_workshop_final.Prelude.{ℕ, List, [], ◌∷◌, Bool, true, false, not, if◌then◌else◌}
use comm_workshop_final.Resources.{
  Resource, domain, completion_queue, Event, acquired, used, modified, initialised,
  ready_to_receive, ready_to_send,
}

-- `ibv_qp_init_attr`, as it is filled in.
pub record QueueCapacity : Type 0 where
  pub max_send_wr : ℕ
  pub max_recv_wr : ℕ
  pub max_send_sge : ℕ
  pub max_recv_sge : ℕ

abbrev pub queue_capacity : QueueCapacity
queue_capacity = record { max_send_wr = 256; max_recv_wr = 256; max_send_sge = 1; max_recv_sge = 1 }

-- `queue` is the queue pair that the result is kept as; the answer is that of `ibv_create_qp`, given
-- its capacity. The protection domain and the completion queue are used in any case.
unfoldable pub create_qp : Resource → (QueueCapacity → Bool) → Bool × List Event
create_qp queue creates =
    if creates queue_capacity
    then (true, used domain ∷ used completion_queue ∷ acquired queue ∷ [])
    else (false, used domain ∷ used completion_queue ∷ [])

-- What `ibv_modify_qp` answers to the three calls: whether each succeeds.
pub record Transition : Type 0 where
  pub to_init : Bool
  pub to_rtr : Bool
  pub to_rts : Bool

-- Whether the queue pair is ready to send at the end.
unfoldable pub transition_qp_to_rts : Resource → ℕ → ℕ → Transition → Bool × List Event
transition_qp_to_rts queue remote_qpn remote_lid t =
    if not t.to_init
    then (false, modified queue initialised ∷ [])
    else if not t.to_rtr
    then (
      false,
      modified queue initialised ∷ modified queue (ready_to_receive remote_qpn remote_lid) ∷ [],
    )
    else (
      t.to_rts,
      modified queue initialised
          ∷ modified queue (ready_to_receive remote_qpn remote_lid)
          ∷ modified queue ready_to_send
          ∷ [],
    )
