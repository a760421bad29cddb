-- ===== src/Tests/Transfers.antt =====
-- A transfer between two endpoints.
use comm_workshop_final.Prelude.{◌≡◌, refl, [], ◌∷◌, true, false, none, some}
use comm_workshop_final.Prelude.Int.{pos}
use comm_workshop_final.Types.{auto, rendezvous}
use comm_workshop_final.Resources.{region, acquired}
use comm_workshop_final.Verbs.{choose_mode, find, send, receive}
use comm_workshop_final.Verbs.Posting.{
  Endpoint, Surroundings, control_for, posted_receive, posted_send, rdma_write_with_imm,
  post_receive_previous, post_send_next, receive_in_mode,
}
use comm_workshop_final.Verbs.Posting.Handshake.{Serves, post_send_next-post_receive_previous}

abbrev fresh : Endpoint
fresh = record { connected = true; next_request_id = 1; requests = [] }

abbrev receiver : Surroundings
receiver = record {
  address = 500;
  keys = some (3, 4);
  post_status = pos 0;
  written = true;
  control = none;
}

-- 8192 bytes under tag 7, from address 2000 to address 1000.
abbrev sender : Surroundings
sender = record {
  address = 600;
  keys = some (5, 6);
  post_status = pos 0;
  written = true;
  control = some (control_for 1000 8192 7 4 rendezvous);
}

receiver-Serves : Serves receiver (3, 4)
receiver-Serves = record { registers = refl; posts = refl; writes = refl }

sender-Serves : Serves sender (5, 6)
sender-Serves = record { registers = refl; posts = refl; writes = refl }

chosen_mode : choose_mode auto 8192 ≡ some rendezvous
unfolding choose_mode
chosen_mode = refl

written : sender.control ≡ (post_receive_previous receiver fresh 1000 8192 7 auto (some 0)).message
unfolding post_receive_previous choose_mode receive_in_mode
written = refl

post_send_next-post_receive_previous_example :
    let received = post_receive_previous receiver fresh 1000 8192 7 auto (some 0) in
    let sent = post_send_next (λ n. n) sender fresh 2000 8192 7 auto (some 0) in
    (received.threw ≡ false)
    × (sent.threw ≡ false)
    × (received.events ≡ acquired (region 500) ∷ [])
    × (sent.events ≡ acquired (region 600) ∷ [])
    × (find 500 received.endpoint.requests
        ≡ some (record {
          kind = receive;
          id = 1;
          tag = 7;
          mode = rendezvous;
          registered = true;
          completed = false;
          status = pos 0;
        }))
    × (find 600 sent.endpoint.requests
        ≡ some (record {
          kind = send;
          id = 1;
          tag = 7;
          mode = rendezvous;
          registered = true;
          completed = false;
          status = pos 0;
        }))
    × (received.work ≡ some (posted_receive (record { wr_id = 500; segment = none })))
    × (sent.work
        ≡ some (
            posted_send (record {
              wr_id = 600;
              segment = some (2000, 8192, 5);
              signaled = true;
              imm_data = 7;
              opcode = rdma_write_with_imm;
              remote = some (1000, 4);
            })))
post_send_next-post_receive_previous_example =
    post_send_next-post_receive_previous (λ n. n) receiver sender fresh fresh 1000 2000 8192 7 auto
      rendezvous (some 0) (some 0) (3, 4) (5, 6) chosen_mode refl refl receiver-Serves sender-Serves
      written
