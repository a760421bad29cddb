-- ===== src/Ring/Collectives.antt =====
-- `ring_reduce_scatter_inplace`, `ring_all_gather_inplace` and `ring_all_reduce`.
use comm_workshop_final.Prelude.{
  ℕ, ◌+◌, ◌-◌, ◌%◌, ◌^◌, max, List, [], ◌∷◌, Bool, true, not, ◌&&◌, Option, none, some,
  if◌then◌else◌, ◌==◌, ltb, leb, get_or,
}
use comm_workshop_final.Prelude.Int.{ℤ, pos}
use comm_workshop_final.Types.{
  Datatype, Operation, Status, success, err_invalid_argument, err_unsupported_datatype,
}
use comm_workshop_final.BlockLayout.{BlockLayout, compute_block_layout}
use comm_workshop_final.Memory.{Buffer, Scalars, splice, fits}
use comm_workshop_final.Reduction.{datatype_size}
use comm_workshop_final.Tag.{reduce_scatter, all_gather}
use comm_workshop_final.Pieces.{piece_elements_for, element_at}
use comm_workshop_final.Transport.{TransportOps}
use comm_workshop_final.Ring.Schedule.{
  scatter_send_block, scatter_recv_block, gather_send_block, gather_recv_block, owned_block_of,
}
use comm_workshop_final.Ring.Machine.{
  Machine, Outcome, done, returned, fault, M, pure, ◌>>◌, for_range,
}
use comm_workshop_final.Ring.Context.{Context}
use comm_workshop_final.Ring.Step.{Step, temporary_region, work_region, run_step, reduce_piece}

-- `*std::max_element(counts.begin(), counts.end())`
abbrev pub max_element : List ℕ → ℕ
max_element [] = 0
max_element (x ∷ xs) = max x (max_element xs)

-- `sendbuf`, as seen next to `recvbuf`: null, the same buffer, or another one.
pub data SendBuffer (E : Type 0) : Type 0 where
  null same : SendBuffer E
  separate : Buffer E → SendBuffer E

module _ {T E : Type 0} where
  -- `counts[block]` and `offsets[block]`
  abbrev pub count_of : Context T E → ℕ → ℕ
  count_of c block = get_or c.layout.counts block 0

  abbrev pub offset_of : Context T E → ℕ → ℕ
  offset_of c block = get_or c.layout.offsets block 0

  -- The fixed values of step `number` of each phase.
  abbrev pub scatter_step : Context T E → ℕ → ℕ → Step
  scatter_step c element_size number =
      let send_block = scatter_send_block c.rank c.world_size number in
      let recv_block = scatter_recv_block c.rank c.world_size number in
      record {
        sequence = c.sequence;
        phase = reduce_scatter;
        number = number;
        mode = c.config.transfer_mode;
        element_size = element_size;
        piece_elements = piece_elements_for c.config element_size;
        capacity = c.config.max_inflight;
        send_start = offset_of c send_block;
        send_count = count_of c send_block;
        recv_region = temporary_region;
        recv_start = 0;
        recv_count = count_of c recv_block;
      }

  abbrev pub gather_step : Context T E → ℕ → ℕ → Step
  gather_step c element_size number =
      let send_block = gather_send_block c.rank c.world_size number in
      let recv_block = gather_recv_block c.rank c.world_size number in
      record {
        sequence = c.sequence;
        phase = all_gather;
        number = number;
        mode = c.config.transfer_mode;
        element_size = element_size;
        piece_elements = piece_elements_for c.config element_size;
        capacity = c.config.max_inflight;
        send_start = offset_of c send_block;
        send_count = count_of c send_block;
        recv_region = work_region;
        recv_start = offset_of c recv_block;
        recv_count = count_of c recv_block;
      }

  -- Runs the steps on the context's transport and temporary buffer.
  abbrev run_on :
      {A : Type 0} → Context T E → Buffer E → M (Machine T E) A → Outcome A × Context T E × Buffer E
  run_on c work x =
      let (outcome, m) =
        x (record { transport = c.transport; temporary = c.temporary_buffer; work = work }) in
      (outcome, record c { transport = m.transport; temporary_buffer = m.temporary }, m.work)

module _ (s : Scalars) {T : Type 0} (ops : TransportOps T s.Elem) where
  abbrev Ctx : Type 0
  Ctx = Context T s.Elem

  -- What a call leaves: its outcome, the context and the user's buffer.
  abbrev pub Call : Type 0 → Type 0
  Call A = Outcome A × Context T s.Elem × Buffer s.Elem

  -- `temporary_buffer.resize(bytes)`: new elements are zero.
  abbrev pub resize : Buffer s.Elem → ℕ → Buffer s.Elem
  resize b n = record { size = n; at = λ j. if ltb j b.size then b.at j else s.zeroed }

  unfoldable pub scatter_steps : Ctx → Datatype → Operation → ℕ → M (Machine T s.Elem) ℕ
  scatter_steps c datatype operation element_size = do
    for_range (c.world_size - 1) 0
        (λ number u.
          let st = scatter_step c element_size number in
          run_step s ops st (
            reduce_piece s ops st datatype operation
              (offset_of c (scatter_recv_block c.rank c.world_size number))))
        tt
    pure (owned_block_of c.rank c.world_size)

  -- After the layout: the buffer is resized and the steps run.
  unfoldable pub scatter_laid_out :
      Ctx → Buffer s.Elem → Datatype → Operation → ℕ → Status × BlockLayout → Call ℕ
  unfolding scatter_steps
  scatter_laid_out c work datatype operation element_size (success, layout) =
      let c' = record c {
        layout = layout;
        temporary_buffer =
            resize c.temporary_buffer (element_at (max_element layout.counts) element_size);
      } in
      run_on c' work (scatter_steps c' datatype operation element_size)
  scatter_laid_out c work datatype operation element_size (status, layout) =
      (returned status, record c { layout = layout }, work)

  unfoldable pub scatter_body : Ctx → Buffer s.Elem → ℕ → Datatype → Operation → Call ℕ
  unfolding scatter_laid_out
  scatter_body c work count datatype operation =
      if datatype_size datatype == 0
      then (returned err_unsupported_datatype, c, work)
      else scatter_laid_out c work datatype operation (datatype_size datatype)
          (compute_block_layout count (pos c.world_size) c.layout)

  -- Null pointers are `none`; `out` says whether `owned_block` is set. The value of a `done` call
  -- is what it stores there, beside PG_SUCCESS.
  unfoldable pub ring_reduce_scatter_inplace :
      Option Ctx
      → Option (Buffer s.Elem)
      → ℕ
      → Datatype
      → Operation
      → Bool
      → Outcome ℕ × Option Ctx × Option (Buffer s.Elem)
  unfolding scatter_body
  ring_reduce_scatter_inplace (some c) (some work) count datatype operation true =
      let (outcome, c', work') = scatter_body c work count datatype operation in
      (outcome, some c', some work')
  ring_reduce_scatter_inplace c work count datatype operation out =
      (returned err_invalid_argument, c, work)

  unfoldable pub gather_steps : Ctx → ℕ → M (Machine T s.Elem) (Unit {0})
  gather_steps c element_size =
      for_range (c.world_size - 1) 0
        (λ number u. run_step s ops (gather_step c element_size number) (λ p. pure tt)) tt

  unfoldable pub gather_laid_out : Ctx → Buffer s.Elem → ℕ → Status × BlockLayout → Call (Unit {0})
  unfolding gather_steps
  gather_laid_out c work element_size (success, layout) =
      let c' = record c { layout = layout } in run_on c' work (gather_steps c' element_size)
  gather_laid_out c work element_size (status, layout) =
      (returned status, record c { layout = layout }, work)

  -- `owned_block` is known not to be negative.
  unfoldable pub gather_body : Ctx → Buffer s.Elem → ℕ → Datatype → ℕ → Call (Unit {0})
  unfolding gather_laid_out
  gather_body c work count datatype owned_block =
      if leb c.world_size owned_block
      then (returned err_invalid_argument, c, work)
      else if not (owned_block == owned_block_of c.rank c.world_size)
      then (returned err_invalid_argument, c, work)
      else if datatype_size datatype == 0
      then (returned err_unsupported_datatype, c, work)
      else gather_laid_out c work (datatype_size datatype)
          (compute_block_layout count (pos c.world_size) c.layout)

  unfoldable pub ring_all_gather_inplace :
      Option Ctx
      → Option (Buffer s.Elem)
      → ℕ
      → Datatype
      → ℤ
      → Outcome (Unit {0}) × Option Ctx × Option (Buffer s.Elem)
  unfolding gather_body
  ring_all_gather_inplace (some c) (some work) count datatype (pos owned_block) =
      let (outcome, c', work') = gather_body c work count datatype owned_block in
      (outcome, some c', some work')
  ring_all_gather_inplace c work count datatype owned_block =
      (returned err_invalid_argument, c, work)

  -- `++context->sequence` on `std::uint32_t`, only when the All-Gather succeeded
  abbrev pub count_call : Call (Unit {0}) → Call (Unit {0})
  count_call (done u, c, work) = (done u, record c { sequence = (c.sequence + 1) % 2 ^ 32 }, work)
  count_call (outcome, c, work) = (outcome, c, work)

  -- The second phase, on what the first one left.
  unfoldable pub gather_after : ℕ → Datatype → Call ℕ → Call (Unit {0})
  unfolding gather_body
  gather_after count datatype (done owned_block, c, work) =
      count_call (gather_body c work count datatype owned_block)
  gather_after count datatype (returned status, c, work) = (returned status, c, work)
  gather_after count datatype (fault, c, work) = (fault, c, work)

  unfoldable pub all_reduce_body : Ctx → Buffer s.Elem → ℕ → Datatype → Operation → Call (Unit {0})
  unfolding scatter_body gather_after
  all_reduce_body c work count datatype operation =
      gather_after count datatype (scatter_body c work count datatype operation)

  -- `memcpy(recvbuf, sendbuf, count * element_size)` unless the two are one buffer; `none` is an
  -- access outside a buffer.
  unfoldable pub copy_input : SendBuffer s.Elem → Buffer s.Elem → ℕ → Option (Buffer s.Elem)
  copy_input null recv n = none
  copy_input same recv n = some recv
  copy_input (separate b) recv n =
      if fits b 0 n && fits recv 0 n then some (splice recv 0 n b.at) else none

  unfoldable pub all_reduce_from :
      Ctx → Buffer s.Elem → ℕ → Datatype → Operation → Option (Buffer s.Elem) → Call (Unit {0})
  unfolding all_reduce_body
  all_reduce_from c recv count datatype operation none = (fault, c, recv)
  all_reduce_from c recv count datatype operation (some work) =
      all_reduce_body c work count datatype operation

  -- The checks behind the null tests.
  unfoldable pub all_reduce_checked :
      Ctx → SendBuffer s.Elem → Buffer s.Elem → ℕ → Datatype → Operation → Call (Unit {0})
  unfolding all_reduce_from copy_input
  all_reduce_checked c send recv count datatype operation =
      if count == 0
      then (returned err_invalid_argument, c, recv)
      else if datatype_size datatype == 0
      then (returned err_unsupported_datatype, c, recv)
      else all_reduce_from c recv count datatype operation
          (copy_input send recv (element_at count (datatype_size datatype)))

  unfoldable pub ring_all_reduce :
      Option Ctx
      → SendBuffer s.Elem
      → Option (Buffer s.Elem)
      → ℕ
      → Datatype
      → Operation
      → Outcome (Unit {0}) × Option Ctx × Option (Buffer s.Elem)
  unfolding all_reduce_checked
  ring_all_reduce none send recv count datatype operation =
      (returned err_invalid_argument, none, recv)
  ring_all_reduce (some c) null recv count datatype operation =
      (returned err_invalid_argument, some c, recv)
  ring_all_reduce (some c) send none count datatype operation =
      (returned err_invalid_argument, some c, none)
  ring_all_reduce (some c) send (some recv) count datatype operation =
      let (outcome, c', work) = all_reduce_checked c send recv count datatype operation in
      (outcome, some c', some work)
