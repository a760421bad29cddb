-- ===== src/Ring/Call/Alone.antt =====
-- `ring_all_reduce` in a group of one rank, which has nobody to exchange blocks with.
use comm_workshop_final.Prelude.{
  ℕ, ◌+◌, ◌%◌, ◌^◌, ◌<◌, ◌≡◌, refl, ap, ◌∙◌, false, some, arith, ◌==◌,
}
use comm_workshop_final.Prelude.Int.{pos, rem, add_ℕ}
use comm_workshop_final.Types.{Datatype, Operation}
use comm_workshop_final.Memory.{Buffer, Scalars}
use comm_workshop_final.BlockLayout.{BlockLayout, compute_block_layout}
use comm_workshop_final.BlockLayout.Partition.{layout_after}
use comm_workshop_final.Reduction.{datatype_size}
use comm_workshop_final.Pieces.{element_at}
use comm_workshop_final.Transport.{TransportOps}
use comm_workshop_final.Ring.Schedule.{positive_mod, owned_block_of}
use comm_workshop_final.Ring.Machine.{done, for_range}
use comm_workshop_final.Ring.Context.{Context}
use comm_workshop_final.Ring.Call.AllReduce.{all_reduce_checked-body}
use comm_workshop_final.Ring.Collectives.{
  SendBuffer, null, same, separate, copy_input, max_element, resize, scatter_body, gather_body,
  gather_after, count_call, all_reduce_body, ring_all_reduce,
}

module _ (s : Scalars) {T : Type 0} (ops : TransportOps T s.Elem) (c : Context T s.Elem) where
  abbrev pub alone : Context T s.Elem
  alone = record c { rank = 0; world_size = 1 }

  module _ (work : Buffer s.Elem) (count : ℕ) (datatype : Datatype) (operation : Operation)
      (sized : (datatype_size datatype == 0) ≡ false) where
    abbrev layout : BlockLayout
    layout = layout_after count (pos 1) c.layout

    abbrev temporary : Buffer s.Elem
    temporary =
        resize s ops c.temporary_buffer
          (element_at (max_element layout.counts) (datatype_size datatype))

    -- Neither phase has a step.
    scatter_body-alone :
        scatter_body s ops alone work count datatype operation
        ≡ (done 0, record alone { layout = layout; temporary_buffer = temporary }, work)
    unfolding scatter_body compute_block_layout for_range positive_mod owned_block_of rem add_ℕ
    scatter_body-alone = rw (scatter_body, sized) refl

    gather_body-alone :
        gather_body s ops
          (record alone { layout = layout; temporary_buffer = temporary })
          work
          count
          datatype
          0
        ≡ (done tt, record alone { layout = layout; temporary_buffer = temporary }, work)
    unfolding gather_body compute_block_layout for_range positive_mod owned_block_of rem add_ℕ
    gather_body-alone = rw (gather_body, sized) refl

    all_reduce_body-alone : all_reduce_body s ops alone work count datatype operation ≡ (
      done tt,
      record alone {
        layout = layout;
        temporary_buffer = temporary;
        sequence = (c.sequence + 1) % 2 ^ 32;
      },
      work,
    )
    unfolding all_reduce_body gather_after
    all_reduce_body-alone =
        ap (gather_after s ops count datatype) scatter_body-alone
        ∙ ap (count_call s ops) gather_body-alone

  -- In a group of one rank, `ring_all_reduce` with `count` > 0, a datatype that has a size, an input
  -- that can be copied and any operation, even one that does not exist, over any transport, succeeds
  -- without a call of the transport: it leaves the copied input, and raises the sequence number by one
  -- modulo 2 ^ 32.
  pub ring_all_reduce-alone :
      (send : SendBuffer s.Elem) (recv work : Buffer s.Elem) (count : ℕ) (datatype : Datatype)
      (operation : Operation)
      → copy_input s ops send recv (element_at count (datatype_size datatype)) ≡ some work
      → 0 < count
      → 0 < datatype_size datatype
      → (layout : BlockLayout) × (b : Buffer s.Elem) × (ring_all_reduce s ops
            (some alone)
            send
            (some recv)
            count
            datatype
            operation
          ≡ (
            done tt,
            some (record alone {
              layout = layout;
              temporary_buffer = b;
              sequence = (c.sequence + 1) % 2 ^ 32;
            }),
            some work,
          ))
  unfolding ring_all_reduce copy_input
  ring_all_reduce-alone null recv work count datatype operation copied p q = absurd (cc copied)
  ring_all_reduce-alone same recv work count datatype operation copied p q =
      let sized : (datatype_size datatype == 0) ≡ false = ground arith in
      (
        layout work count datatype operation sized,
        temporary work count datatype operation sized,
        rw (
          all_reduce_checked-body s ops alone datatype operation count (λ tag j. s.zeroed) work same
              recv p q copied,
          all_reduce_body-alone work count datatype operation sized,
        ),
      )
  ring_all_reduce-alone (separate input) recv work count datatype operation copied p q =
      let sized : (datatype_size datatype == 0) ≡ false = ground arith in
      (
        layout work count datatype operation sized,
        temporary work count datatype operation sized,
        rw (
          all_reduce_checked-body s ops alone datatype operation count (λ tag j. s.zeroed) work
              (separate input) recv p q copied,
          all_reduce_body-alone work count datatype operation sized,
        ),
      )
