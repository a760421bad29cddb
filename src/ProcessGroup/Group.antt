-- ===== src/ProcessGroup/Group.antt =====
-- A process group from its creation to a call of `pg_all_reduce`.
use comm_workshop_final.Prelude.{
  ℕ, ◌+◌, ◌*◌, ◌/◌, ◌^◌, ◌≤◌, ◌<◌, ◌≡◌, refl, ap, ◌∙◌, ◌%◌, leb, arith, true, false, Bool, Option,
  some, ◌==◌,
}
use comm_workshop_final.Prelude.Int.{pos}
use comm_workshop_final.Types.{
  Datatype, int32, float32, float64, unknown_datatype, Operation, success, err_transport,
}
use comm_workshop_final.Memory.{Buffer, Scalars}
use comm_workshop_final.Reduction.{datatype_size}
use comm_workshop_final.Reduction.Elementwise.{KnownDatatype, KnownOperation}
use comm_workshop_final.Pieces.{Config, element_at, piece_elements_for}
use comm_workshop_final.Transport.{TransportOps}
use comm_workshop_final.Ring.Machine.{Outcome, done, returned}
use comm_workshop_final.Ring.Context.{
  Context, effective_config, ring_collective_create, new_context, create_checked,
}
use comm_workshop_final.Ring.Context.Created.{effective_config-IsUsable}
use comm_workshop_final.Ring.Collectives.{
  SendBuffer, null, same, separate, copy_input, ring_all_reduce,
}
use comm_workshop_final.Ring.Call.{Callable, laid_out}
use comm_workshop_final.Ring.Call.Failing.{Ends, ring_all_reduce-any_transport}
use comm_workshop_final.ProcessGroup.{
  ProcessGroupHandle, handle_for, pg_create_from_transport, with_context, pg_all_reduce,
}

KnownDatatype-size : (datatype : Datatype) → KnownDatatype datatype → 0 < datatype_size datatype
unfolding datatype_size
KnownDatatype-size int32 kd = omega arith
KnownDatatype-size float32 kd = omega arith
KnownDatatype-size float64 kd = omega arith
KnownDatatype-size (unknown_datatype n) kd = absurd kd

module _ (s : Scalars) {T : Type 0} (ops : TransportOps T s.Elem) where
  -- The handle that a call leaves.
  abbrev pub Keeps : Bool → ℕ → ℕ → ℕ → ℕ → ProcessGroupHandle s ops → Buffer s.Elem → Type 0
  Keeps owns rank size sequence elements handle work =
      (handle.owns_transport ≡ owns)
      × (handle.collectives.rank ≡ rank)
      × (handle.collectives.world_size ≡ size)
      × (handle.collectives.sequence ≡ sequence)
      × (work.size ≡ elements)

  -- How the first call may end: with success, the sequence number then being 1, or with
  -- PG_ERR_TRANSPORT, the sequence number then being 0.
  abbrev pub Serves :
      Bool
      → ℕ
      → ℕ
      → ℕ
      → Outcome (Unit {0}) × Option (ProcessGroupHandle s ops) × Option (Buffer s.Elem)
      → Type 0
  Serves owns rank size elements (done u, some handle, some work) =
      Keeps owns rank size 1 elements handle work
  Serves owns rank size elements (returned status, some handle, some work) =
      (status ≡ err_transport) × Keeps owns rank size 0 elements handle work
  Serves owns rank size elements other = ⊥

  with_context-Serves :
      (handle : ProcessGroupHandle s ops) (c : Context T s.Elem) (elements : ℕ)
      (x : Outcome (Unit {0}) × Option (Context T s.Elem) × Option (Buffer s.Elem))
      → c.sequence ≡ 0
      → Ends s ops c elements x
      → Serves handle.owns_transport c.rank c.world_size elements (with_context s ops handle x)
  unfolding with_context
  with_context-Serves handle c elements (done u, some c', some work) first (same_context, sized) = (
    refl,
    ap (λ (k : Context T s.Elem). k.rank) same_context,
    ap (λ (k : Context T s.Elem). k.world_size) same_context,
    ap (λ (k : Context T s.Elem). k.sequence) same_context ∙ ap (λ n. (n + 1) % 2 ^ 32) first,
    sized,
  )
  with_context-Serves handle c elements (returned status, some c', some work) first (fails, kept) =
      (
        fails,
        (
          refl,
          ap (λ (k : Context T s.Elem). k.rank) kept.0,
          ap (λ (k : Context T s.Elem). k.world_size) kept.0,
          ap (λ (k : Context T s.Elem). k.sequence) kept.0 ∙ first,
          kept.1,
        ),
      )
  with_context-Serves handle c elements x first h = absurd h

  pg_all_reduce-with_context :
      (send : SendBuffer s.Elem) (recv work : Buffer s.Elem) (count bytes : ℕ) (datatype : Datatype)
      (operation : Operation) (handle : ProcessGroupHandle s ops)
      → 0 < count
      → copy_input s ops send recv bytes ≡ some work
      → pg_all_reduce s ops send (some recv) (pos count) datatype operation (some handle)
        ≡ with_context s ops handle (
            ring_all_reduce s ops
              (some handle.collectives)
              send
              (some recv)
              count
              datatype
              operation)
  unfolding pg_all_reduce copy_input
  pg_all_reduce-with_context null recv work count bytes datatype operation handle p copied =
      absurd (cc copied)
  pg_all_reduce-with_context same recv work count bytes datatype operation handle p copied =
      let some_elements : (count == 0) ≡ false = ground arith in rw some_elements
  pg_all_reduce-with_context (separate b) recv work count bytes datatype operation handle p copied =
      let some_elements : (count == 0) ≡ false = ground arith in rw some_elements

  -- A group is created over a transport that reports a rank below its size of at most 128, with any
  -- configuration at all, also none. Its first `pg_all_reduce`, with a known datatype and operation,
  -- `count` > 0 elements that fit the buffer and are below 2 ^ 63 bytes, an input that can be copied,
  -- and a configuration that as completed gives pieces below 2 ^ 32 bytes and at most 4096 of them in
  -- a block: whatever the transport answers to its posts and waits, the creation succeeds, the call
  -- makes no access outside a buffer, and it returns PG_SUCCESS or PG_ERR_TRANSPORT. The handle
  -- stays, with its rank and size and owning its transport as it was asked to; the sequence number
  -- has become 1 on success and is 0 on an error; the buffer keeps its size.
  pub pg_all_reduce-Serves :
      (datatype : Datatype) (operation : Operation) (t : T) (config : Option Config) (owns : Bool)
      (rank size count : ℕ) (send : SendBuffer s.Elem) (recv work : Buffer s.Elem)
      → ops.rank t ≡ pos rank
      → ops.size t ≡ pos size
      → rank < size
      → size ≤ 128
      → KnownDatatype datatype
      → KnownOperation operation
      → 0 < count
      → count ≤ work.size
      → copy_input s ops send recv (element_at count (datatype_size datatype)) ≡ some work
      → count * datatype_size datatype < 2 ^ 63
      → piece_elements_for (effective_config config) (datatype_size datatype)
          * datatype_size datatype
        < 2 ^ 32
      → count / size + 1
        ≤ 4096 * piece_elements_for (effective_config config) (datatype_size datatype)
      → let (status, handle) = pg_create_from_transport s ops (some t) owns config true in
        (status ≡ success)
        × Serves owns rank size work.size
            (pg_all_reduce s ops send (some recv) (pos count) datatype operation handle)
  unfolding pg_create_from_transport ring_collective_create create_checked handle_for new_context
  pg_all_reduce-Serves datatype operation t config owns rank size count send recv work r n lt small
        kd ko p fits copied bytes piece_bytes pieces =
      let filled : (size == 0) ≡ false = ground arith in
      let below : leb size rank ≡ false = ground arith in
      let c = new_context s ops t config rank size in
      let handle : ProcessGroupHandle s ops = record { collectives = c; owns_transport = owns } in
      let usable = effective_config-IsUsable config in
      let y : Callable c count (datatype_size datatype) = record {
        size_pos = omega (arith, lt);
        size_small = small;
        rank_lt = lt;
        element_pos = KnownDatatype-size datatype kd;
        bytes = bytes;
        capacity_pos = usable.0;
        capacity_small = usable.1;
        piece_bytes = piece_bytes;
        pieces = pieces;
      } in
      rw
        (
          r,
          n,
          filled,
          below,
          pg_all_reduce-with_context send recv work count
              (element_at count (datatype_size datatype)) datatype operation handle p copied,
        )
        (
          refl,
          with_context-Serves handle (laid_out c count (datatype_size datatype)) work.size _ refl (
              ring_all_reduce-any_transport s ops datatype kd count c y operation work send recv
                copied ko p fits),
        )
