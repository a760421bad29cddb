-- ===== src/Ring/Step.antt =====
-- One ring step on one rank: the batches of posts and waits that the two phases share.
pub mod Setup
pub mod Posting
pub mod Batch
pub mod Run
pub mod Failing
pub mod Program
pub mod Trace
use comm_workshop_final.Prelude.{
  ℕ, suc, ◌+◌, ◌-◌, min, List, [], ◌∷◌, ◌++◌, Bool, true, false, ◌&&◌, Option, none, some,
  if◌then◌else◌, ◌==◌,
}
use comm_workshop_final.Prelude.Int.{ℤ, pos, negsuc}
use comm_workshop_final.Prelude.Size.{add_size, mul_size}
use comm_workshop_final.Types.{Datatype, Operation, Status, success, err_transport, TransferMode}
use comm_workshop_final.Memory.{Buffer, Scalars, slice, splice, fits}
use comm_workshop_final.Reduction.{reduce_in_place}
use comm_workshop_final.Tag.{CollectivePhase, make_tag}
use comm_workshop_final.Pieces.{piece_count_for, batches_for, piece_offset, piece_size, element_at}
use comm_workshop_final.Transport.{
  TransportOps, pg_transport_post_recv_prev, pg_transport_post_send_next, pg_transport_wait,
}
use comm_workshop_final.Ring.Machine.{
  Machine, Outcome, done, returned, fault, M, pure, return_status, and_then, ◌>>=◌, ◌>>◌, check,
  for_range, for_each,
}

-- `struct PostedRequest`, with the transport's request type.
pub record PostedRequest (R : Type 0) : Type 0 where
  pub request : R
  pub piece_index : ℕ
  pub element_offset : ℕ
  pub element_count : ℕ

-- Where a step's data arrives: the temporary buffer in Reduce-Scatter, the user's in All-Gather.
pub data Region : Type 0 where
  temporary_region work_region : Region

-- The values that are fixed while a step runs. `send_start` is the first element of the block that
-- is sent, `recv_start` where the received block goes in its region.
pub record Step : Type 0 where
  pub sequence : ℕ
  pub phase : CollectivePhase
  pub number : ℕ
  pub mode : TransferMode
  pub element_size : ℕ
  pub piece_elements : ℕ
  pub capacity : ℕ
  pub send_start : ℕ
  pub send_count : ℕ
  pub recv_region : Region
  pub recv_start : ℕ
  pub recv_count : ℕ

-- An `int` result is tested against 0.
abbrev pub is_zero : ℤ → Bool
is_zero (pos n) = n == 0
is_zero (negsuc n) = false

module _ (s : Scalars) {T : Type 0} (ops : TransportOps T s.Elem) where
  abbrev pub Mem : Type 0
  Mem = Machine T s.Elem

  abbrev pub buffer_of : Region → Mem → Buffer s.Elem
  buffer_of temporary_region m = m.temporary
  buffer_of work_region m = m.work

  abbrev pub with_buffer : Region → Buffer s.Elem → Mem → Mem
  with_buffer temporary_region b m = record m { temporary = b }
  with_buffer work_region b m = record m { work = b }

  -- The test of a transport call's status.
  abbrev pub transport_result : {A : Type 0} → ℤ → A → Mem → Outcome A × Mem
  transport_result status a m = if is_zero status then (done a, m) else (returned err_transport, m)

  abbrev tag_result : Status × ℕ → M Mem ℕ
  tag_result (success, tag) m = (done tag, m)
  tag_result (status, tag) m = (returned status, m)

  unfoldable pub tag_for : Step → ℕ → M Mem ℕ
  tag_for st piece = tag_result (make_tag st.sequence st.phase (pos st.number) piece 0)

  unfoldable pub post_recv_prev : Step → ℕ → ℕ → M Mem ops.Request
  post_recv_prev st bytes tag m =
      let (status, request, t) = pg_transport_post_recv_prev ops m.transport bytes tag st.mode in
      transport_result status request (record m { transport = t })

  unfoldable pub post_send_next : Step → Buffer s.Elem → ℕ → ℕ → M Mem ops.Request
  post_send_next st payload bytes tag m =
      let (status, request, t) =
        pg_transport_post_send_next ops m.transport payload bytes tag st.mode in
      transport_result status request (record m { transport = t })

  unfoldable pub wait : ops.Request → M Mem (ℕ → s.Elem)
  wait request m =
      let (status, contents, t) = pg_transport_wait ops m.transport request in
      transport_result status contents (record m { transport = t })

  -- The index in its buffer of a piece that begins `offset` elements into a block.
  abbrev pub place : Step → ℕ → ℕ → ℕ
  place st start offset = element_at (add_size start offset) st.element_size

  abbrev pub posted : ops.Request → ℕ → ℕ → ℕ → PostedRequest ops.Request
  posted request piece offset elements = record {
    request = request;
    piece_index = piece;
    element_offset = offset;
    element_count = elements;
  }

  -- The body of the loop that posts receives.
  unfoldable pub post_receive : Step → ℕ → M Mem (PostedRequest ops.Request)
  post_receive st piece = do
    let offset = piece_offset piece st.piece_elements
    let elements = piece_size st.recv_count piece st.piece_elements
    tag ← tag_for st piece
    (λ m. check (fits (buffer_of st.recv_region m) (place st st.recv_start offset) elements) m)
    request ← post_recv_prev st (mul_size elements st.element_size) tag
    pure (posted request piece offset elements)

  -- The body of the loop that posts sends.
  unfoldable pub post_send : Step → ℕ → M Mem (PostedRequest ops.Request)
  post_send st piece = do
    let offset = piece_offset piece st.piece_elements
    let elements = piece_size st.send_count piece st.piece_elements
    tag ← tag_for st piece
    (λ m. check (fits m.work (place st st.send_start offset) elements) m)
    request ← λ m.
        post_send_next st (slice s.zeroed m.work (place st st.send_start offset) elements)
          (mul_size elements st.element_size) tag m
    pure (posted request piece offset elements)

  -- The bytes of a completed receive are in the buffer that was posted for them.
  abbrev pub arrive : Step → PostedRequest ops.Request → (ℕ → s.Elem) → M Mem (Unit {0})
  arrive st p contents m = (
    done tt,
    with_buffer st.recv_region
        (splice (buffer_of st.recv_region m) (place st st.recv_start p.element_offset)
          p.element_count contents)
        m,
  )

  -- Waits for a receive; `after` is what Reduce-Scatter then does with the piece.
  unfoldable pub finish_receive :
      Step
      → (PostedRequest ops.Request → M Mem (Unit {0}))
      → PostedRequest ops.Request
      → M Mem (Unit {0})
  finish_receive st after p = do contents ← wait p.request; arrive st p contents; after p

  unfoldable pub finish_send : PostedRequest ops.Request → M Mem (Unit {0})
  finish_send p = wait p.request >>= λ contents. pure tt

  -- `for (piece = from; piece < std::min(upto, pieces); ++piece)`, with `push_back` of each result
  unfoldable pub post_pieces :
      (ℕ → M Mem (PostedRequest ops.Request)) → ℕ → ℕ → M Mem (List (PostedRequest ops.Request))
  post_pieces post from upto =
      for_range (upto - from) from (λ piece ps. post piece >>= λ p. pure (ps ++ p ∷ [])) []

  unfoldable pub run_batch :
      Step → (PostedRequest ops.Request → M Mem (Unit {0})) → ℕ → M Mem (Unit {0})
  run_batch st after batch = do
    let from = mul_size batch st.capacity
    let upto = add_size from st.capacity
    receives ←
        post_pieces (post_receive st) from
          (min upto (piece_count_for st.recv_count st.piece_elements))
    sends ←
        post_pieces (post_send st) from (min upto (piece_count_for st.send_count st.piece_elements))
    for_each receives (finish_receive st after)
    for_each sends finish_send

  unfoldable pub run_step : Step → (PostedRequest ops.Request → M Mem (Unit {0})) → M Mem (Unit {0})
  run_step st after =
      for_range
        (batches_for (piece_count_for st.send_count st.piece_elements)
          (piece_count_for st.recv_count st.piece_elements) st.capacity)
        0 (λ batch u. run_batch st after batch) tt

  -- The result of a reduction goes back to the user's buffer.
  abbrev reduce_result : Status × Option (Buffer s.Elem) → M Mem (Unit {0})
  reduce_result (success, some b) m = (done tt, record m { work = b })
  reduce_result (status, b) m = (returned status, m)

  -- Reduce-Scatter's use of a received piece; `start` is the first element of the received block in
  -- the user's buffer.
  unfoldable pub reduce_piece :
      Step → Datatype → Operation → ℕ → PostedRequest ops.Request → M Mem (Unit {0})
  reduce_piece st datatype operation start p m =
      let to = place st start p.element_offset in
      let from = element_at p.element_offset st.element_size in
      if fits m.work to p.element_count && fits m.temporary from p.element_count
      then reduce_result
          (reduce_in_place s (some (m.work, to)) (some (m.temporary, from)) p.element_count datatype
            operation)
          m
      else (fault, m)
