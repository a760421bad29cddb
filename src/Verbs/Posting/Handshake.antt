-- ===== src/Verbs/Posting/Handshake.antt =====
-- The two ends of a transfer: what `post_receive_previous` writes, `post_send_next` accepts.
use native.Mathlib.Nat.{mod-eq_of_lt}
use comm_workshop_final.Prelude.{
  ℕ, ◌^◌, ◌%◌, ◌<◌, ◌≡◌, refl, [], ◌∷◌, true, false, Option, none, some, ◌==◌, ◌||◌, arith, ==_iff,
}
use comm_workshop_final.Prelude.Int.{pos}
use comm_workshop_final.Types.{TransferMode, auto, eager, rendezvous, unknown_mode}
use comm_workshop_final.Resources.{region, acquired}
use comm_workshop_final.Verbs.{choose_mode, find, send, receive}
use comm_workshop_final.Verbs.Posting.{
  Endpoint, Surroundings, WorkRequest, posted_receive, posted_send, send_with_imm,
  rdma_write_with_imm, register_memory, invalid, accepted, matches, mode_value, control_for,
  receive_work, send_work, post_receive_previous, post_send_next, receive_in_mode, send_in_mode,
  send_registered,
}

pub invalid-bytes :
    (e : Endpoint) (buffer bytes : ℕ) (request : Option ℕ)
    → invalid e buffer bytes request ≡ false
    → bytes % 2 ^ 32 ≡ bytes
invalid-bytes e buffer bytes none h = absurd (cc h)
invalid-bytes e buffer bytes (some internal) h = mod-eq_of_lt below
  where
    below : bytes < 2 ^ 32
    below = ground (arith, h)

-- The guards leave a buffer that is not empty, which can be registered.
pub invalid-register_memory :
    (w : Surroundings) (e : Endpoint) (buffer bytes : ℕ) (request : Option ℕ)
    → invalid e buffer bytes request ≡ false
    → register_memory w buffer bytes ≡ w.keys
invalid-register_memory w e buffer bytes none h = absurd (cc h)
invalid-register_memory w e buffer bytes (some internal) h =
    let real : (buffer == 0 || bytes == 0) ≡ false = ground (arith, h) in rw real refl

==-self : (n : ℕ) → (n == n) ≡ true
==-self n = (==_iff n n).1 refl

control_for-matches :
    (buffer bytes tag key : ℕ) (mode : TransferMode)
    → bytes % 2 ^ 32 ≡ bytes
    → matches (control_for buffer bytes tag key mode) bytes tag mode ≡ true
control_for-matches buffer bytes tag key mode h =
    rw (h, ==-self tag, ==-self bytes, ==-self (mode_value mode))

-- The surroundings serve a call: the memory is registered under `keys`, the device takes the work
-- request and the control message is written.
pub record Serves (w : Surroundings) (keys : ℕ × ℕ) : Type 0 where
  pub registers : w.keys ≡ some keys
  pub posts : accepted w.post_status ≡ true
  pub writes : w.written ≡ true

-- The receiver's work request has the buffer in eager mode only.
abbrev pub AwaitsIn : TransferMode → Option WorkRequest → ℕ → ℕ × ℕ × ℕ → Type 0
AwaitsIn eager work address buffer =
    work ≡ some (posted_receive (record { wr_id = address; segment = some buffer }))
AwaitsIn mode work address buffer =
    work ≡ some (posted_receive (record { wr_id = address; segment = none }))

-- The sender's work request is a send in eager mode, otherwise a write to `remote`, in either case
-- signaled and with immediate data.
abbrev pub CarriesIn : TransferMode → Option WorkRequest → ℕ → ℕ × ℕ × ℕ → ℕ → ℕ × ℕ → Type 0
CarriesIn eager work address buffer imm remote =
    work
    ≡ some (
        posted_send (record {
          wr_id = address;
          segment = some buffer;
          signaled = true;
          imm_data = imm;
          opcode = send_with_imm;
          remote = none;
        }))
CarriesIn mode work address buffer imm remote =
    work
    ≡ some (
        posted_send (record {
          wr_id = address;
          segment = some buffer;
          signaled = true;
          imm_data = imm;
          opcode = rdma_write_with_imm;
          remote = some remote;
        }))

pub receive_work-AwaitsIn :
    (w : Surroundings) (buffer bytes key : ℕ) (mode : TransferMode)
    → AwaitsIn mode
        (some (posted_receive (receive_work w buffer bytes key mode)))
        w.address
        (buffer, bytes, key)
receive_work-AwaitsIn w buffer bytes key auto = refl
receive_work-AwaitsIn w buffer bytes key eager = refl
receive_work-AwaitsIn w buffer bytes key rendezvous = refl
receive_work-AwaitsIn w buffer bytes key (unknown_mode n) = refl

send_work-CarriesIn :
    (htonl : ℕ → ℕ) (w : Surroundings) (remote buffer bytes tag key local_key : ℕ)
    (mode : TransferMode)
    → let control = control_for remote bytes tag key mode in
      CarriesIn mode
        (some (posted_send (send_work htonl w control buffer bytes tag local_key mode)))
        w.address
        (buffer, bytes, local_key)
        (htonl tag)
        (remote, key)
send_work-CarriesIn htonl w remote buffer bytes tag key local_key auto = refl
send_work-CarriesIn htonl w remote buffer bytes tag key local_key eager = refl
send_work-CarriesIn htonl w remote buffer bytes tag key local_key rendezvous = refl
send_work-CarriesIn htonl w remote buffer bytes tag key local_key (unknown_mode n) = refl

module _ (htonl : ℕ → ℕ) where
  -- Both ends post a transfer of the same bytes, tag and mode, with valid arguments and surroundings
  -- that serve them, and the sender reads the control message that the receiver writes. Then neither
  -- call throws, each registers one memory region and keeps it, and both ends have a pending request,
  -- not completed, with their next id, the tag and one and the same chosen mode. The receiver's work
  -- request has its buffer in eager mode and none in rendezvous. The sender's has the sender's buffer
  -- and local key and the tag as immediate data; it is a send in eager mode, and in rendezvous a
  -- write to the receiver's buffer with the receiver's remote key.
  pub post_send_next-post_receive_previous :
      (wr ws : Surroundings) (er es : Endpoint) (br bs bytes tag : ℕ) (mode chosen : TransferMode)
      (rr rs : Option ℕ) (kr ks : ℕ × ℕ)
      → choose_mode mode bytes ≡ some chosen
      → invalid er br bytes rr ≡ false
      → invalid es bs bytes rs ≡ false
      → Serves wr kr
      → Serves ws ks
      → ws.control ≡ (post_receive_previous wr er br bytes tag mode rr).message
      → let received = post_receive_previous wr er br bytes tag mode rr in
        let sent = post_send_next htonl ws es bs bytes tag mode rs in
        (received.threw ≡ false)
        × (sent.threw ≡ false)
        × (received.events ≡ acquired (region wr.address) ∷ [])
        × (sent.events ≡ acquired (region ws.address) ∷ [])
        × (find wr.address received.endpoint.requests
            ≡ some (record {
              kind = receive;
              id = er.next_request_id;
              tag = tag;
              mode = chosen;
              registered = true;
              completed = false;
              status = pos 0;
            }))
        × (find ws.address sent.endpoint.requests
            ≡ some (record {
              kind = send;
              id = es.next_request_id;
              tag = tag;
              mode = chosen;
              registered = true;
              completed = false;
              status = pos 0;
            }))
        × AwaitsIn chosen received.work wr.address (br, bytes, kr.0)
        × CarriesIn chosen sent.work ws.address (bs, bytes, ks.0) (htonl tag) (br, kr.1)
  unfolding post_receive_previous post_send_next receive_in_mode send_in_mode send_registered
  post_send_next-post_receive_previous wr ws er es br bs bytes tag mode chosen rr rs kr ks c vr vs
        serve_r serve_s read =
      let good = control_for-matches br bytes tag (kr.1) chosen (invalid-bytes er br bytes rr vr) in
      let written : ws.control ≡ some (control_for br bytes tag (kr.1) chosen) =
        rw
          (
            vr,
            c,
            receive_in_mode,
            invalid-register_memory wr er br bytes rr vr,
            serve_r.registers,
            serve_r.posts,
            serve_r.writes,
          )
          at read in
      rw
        (
          vr,
          vs,
          c,
          receive_in_mode,
          invalid-register_memory wr er br bytes rr vr,
          serve_r.registers,
          serve_r.posts,
          serve_r.writes,
          ==-self wr.address,
          written,
          good,
          send_registered,
          invalid-register_memory ws es bs bytes rs vs,
          serve_s.registers,
          serve_s.posts,
          ==-self ws.address,
        )
        (
          refl,
          refl,
          refl,
          refl,
          refl,
          refl,
          receive_work-AwaitsIn wr br bytes kr.0 chosen,
          send_work-CarriesIn htonl ws br bs bytes tag kr.1 ks.0 chosen,
        )
