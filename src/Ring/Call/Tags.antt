-- ===== src/Ring/Call/Tags.antt =====
-- The tags of a whole call: no two messages of a rank share one, nor do two receives.
use comm_workshop_final.Prelude.{ℕ, ◌+◌, ◌-◌, ◌^◌, ◌≤◌, ◌<◌, ◌≡◌, List, [], map, some, arith}
use comm_workshop_final.Types.{Datatype, Operation}
use comm_workshop_final.Memory.{Buffer, Scalars}
use comm_workshop_final.Reduction.{datatype_size}
use comm_workshop_final.Reduction.Elementwise.{KnownDatatype, KnownOperation}
use comm_workshop_final.Pieces.{element_at}
use comm_workshop_final.Transport.{TransportOps}
use comm_workshop_final.Transport.Reliable.{Message, Descriptor, Reliable, extend}
use comm_workshop_final.Ring.Machine.{done}
use comm_workshop_final.Ring.Context.{Context}
use comm_workshop_final.Ring.Collectives.{SendBuffer, copy_input, ring_all_reduce}
use comm_workshop_final.Ring.Phase.Tags.{
  Ascending, first_tag, scatter_sent-Ascending, scatter_expected-Ascending, gather_sent-Ascending,
  gather_expected-Ascending, call-Ascending,
}
use comm_workshop_final.Ring.Call.{Callable, laid_out, laid_out-Ready}
use comm_workshop_final.Ring.Call.AllReduce.{ring_all_reduce-runs}
use comm_workshop_final.Ring.Phase.ScatterRun.{scatter_work}

module _ (s : Scalars) {T : Type 0} (ops : TransportOps T s.Elem) (c : Context T s.Elem)
    (datatype : Datatype) (operation : Operation) (count : ℕ) (inbox : ℕ → ℕ → s.Elem)
    (work : Buffer s.Elem) (send : SendBuffer s.Elem) (recv : Buffer s.Elem) where
  -- Under the conditions of a successful call (a known datatype and operation, `count` > 0 elements
  -- that fit the buffer, numbers in range, an input that can be copied, and a transport that keeps its
  -- contract and has no open request), `ring_all_reduce` succeeds, and the tags of the messages that it
  -- has sent ascend strictly, as do those of the receives that it has posted; all of them lie in the
  -- 2 ^ 20 tags of this sequence number modulo 2 ^ 12.
  pub ring_all_reduce-Ascending :
      copy_input s ops send recv (element_at count (datatype_size datatype)) ≡ some work
      → KnownDatatype datatype
      → KnownOperation operation
      → 0 < count
      → count ≤ work.size
      → Callable c count (datatype_size datatype)
      → (rel : Reliable ops c.config.transfer_mode inbox) → (rel.view c.transport).pending ≡ []
      → (c' : Context T s.Elem) × (out : Buffer s.Elem) × (messages : List (Message s.Elem))
        × (descriptors : List Descriptor) × (ring_all_reduce s ops
              (some c)
              send
              (some recv)
              count
              datatype
              operation
            ≡ (done tt, some c', some out))
        × (rel.view c'.transport ≡ extend (rel.view c.transport) messages descriptors)
        × Ascending
            (first_tag c.sequence)
            (first_tag c.sequence + 2 ^ 20)
            (map (λ m. m.tag) messages)
        × Ascending
            (first_tag c.sequence)
            (first_tag c.sequence + 2 ^ 20)
            (map (λ d. d.tag) descriptors)
  ring_all_reduce-Ascending copied kd ko p fits y rel closed =
      let (t, b, ran, seen) =
        ring_all_reduce-runs s ops c datatype operation count inbox work send recv copied kd ko p
          fits y rel closed in
      let size = datatype_size datatype in
      let n = c.world_size - 1 in
      let last : n < c.world_size = omega (arith, y.size_pos) in
      let few : n < 128 = omega (arith, y.size_pos, y.size_small) in
      let set = laid_out c count size in
      let ready = laid_out-Ready c count size y in
      let reduced = scatter_work s datatype operation set size inbox work n in
      (
        _,
        _,
        _,
        _,
        ran,
        seen,
        call-Ascending (λ (m : Message s.Elem). m.tag) c.sequence n _ _ few
            (scatter_sent-Ascending s datatype operation set count size ready inbox work n last)
            (gather_sent-Ascending s datatype operation set count size ready inbox reduced n last),
        call-Ascending (λ (d : Descriptor). d.tag) c.sequence n _ _ few
            (scatter_expected-Ascending s datatype operation set count size ready inbox work n last)
            (gather_expected-Ascending s datatype operation set count size ready inbox reduced n
              last),
      )
