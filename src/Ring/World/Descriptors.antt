-- ===== src/Ring/World/Descriptors.antt =====
-- Each rank posts receives for exactly the messages that the previous rank sends. The RDMA transport
-- relies on this: it compares the two in the order in which they are posted.
use comm_workshop_final.Prelude.{
  ℕ, zero, suc, ◌+◌, ◌-◌, ◌<◌, ◌≡◌, refl, sym, ap, ap₂, ◌∙◌, [], ◌∷◌, ◌++◌, map, map-append, arith,
}
use comm_workshop_final.Types.{Datatype, Operation}
use comm_workshop_final.Memory.{Buffer, Scalars}
use comm_workshop_final.Pieces.{piece_count_for, piece_elements_for}
use comm_workshop_final.Transport.Reliable.{Message, Descriptor}
use comm_workshop_final.Ring.Schedule.{
  scatter_send_block, scatter_recv_block, gather_send_block, gather_recv_block,
}
use comm_workshop_final.Ring.Schedule.Blocks.{back-lt, next_rank}
use comm_workshop_final.Ring.Schedule.Matching.{neighbours_agree}
use comm_workshop_final.Ring.Schedule.Around.{next_rank-previous}
use comm_workshop_final.Ring.Context.{Context}
use comm_workshop_final.Ring.Collectives.{count_of, scatter_step, gather_step}
use comm_workshop_final.Ring.Step.Posting.{descriptor, message}
use comm_workshop_final.Ring.Step.Batch.{first}
use comm_workshop_final.Ring.Phase.ScatterRun.{scatter_work, scatter_sent, scatter_expected}
use comm_workshop_final.Ring.Phase.GatherRun.{gather_work, gather_sent, gather_expected}
use comm_workshop_final.Ring.World.Wiring.{scatter_messages, gather_messages}
use comm_workshop_final.Ring.World.{member, previous_rank, scattered, all_sent}

-- The tag and the bytes of a message.
abbrev pub describe : {E : Type 0} → Message E → Descriptor
describe m = record { tag = m.tag; bytes = m.bytes }

map-first :
    {A B : Type 0} (f : A → B) (g : ℕ → A) (n : ℕ) → map f (first g n) ≡ first (λ k. f (g k)) n
map-first f g zero = refl
map-first f g (suc n) =
    map-append f (first g n) (g n ∷ []) ∙ ap (λ l. l ++ f (g n) ∷ []) (map-first f g n)

module _ (s : Scalars) {T : Type 0} (datatype : Datatype) (operation : Operation)
    (c : Context T s.Elem) (element_size : ℕ) (inbox : ℕ → ℕ → ℕ → s.Elem)
    (work : ℕ → Buffer s.Elem) where
  module _ (r : ℕ) (h : r < c.world_size) where
    abbrev q : ℕ
    q = previous_rank r c.world_size

    blocks :
        (n : ℕ)
        → n + 1 < c.world_size
        → (scatter_send_block q c.world_size n ≡ scatter_recv_block r c.world_size n)
          × (gather_send_block q c.world_size n ≡ gather_recv_block r c.world_size n)
    blocks n k =
        let same : next_rank q c.world_size ≡ r = next_rank-previous r c.world_size h in
        let both = neighbours_agree q c.world_size n (back-lt r c.world_size h 1) k in
        (
          sym (both.0) ∙ ap (λ t. scatter_recv_block t c.world_size n) same,
          sym (both.1) ∙ ap (λ t. gather_recv_block t c.world_size n) same,
        )

    -- In each phase, what rank `r` expects is what the previous rank sends, in order.
    scatter_sent-describe :
        (w : Buffer s.Elem) (n : ℕ)
        → n < c.world_size
        → map describe
            (scatter_sent s datatype operation (member c q) element_size (inbox q) (work q) n)
          ≡ scatter_expected s datatype operation (member c r) element_size (inbox r) w n
    unfolding scatter_sent scatter_expected
    scatter_sent-describe w zero k = refl
    scatter_sent-describe w (suc n) k =
        map-append describe
          (scatter_sent s datatype operation (member c q) element_size (inbox q) (work q) n)
          (scatter_messages s datatype operation (member c q) element_size (inbox q) (work q) n)
        ∙ ap₂ ◌++◌ (scatter_sent-describe w n (omega arith)) (
            map-first describe
              (message s
                (λ j.
                  (scatter_work s datatype operation (member c q) element_size (inbox q) (work q)
                      n).at
                    ((scatter_step (member c q) element_size n).send_start + j))
                (scatter_step (member c q) element_size n))
              (piece_count_for (count_of c (scatter_send_block q c.world_size n))
                (piece_elements_for c.config element_size))
            ∙ ap
                (λ b.
                  first
                    (descriptor (record (scatter_step (member c r) element_size n) {
                      recv_count = count_of c b;
                    }))
                    (piece_count_for (count_of c b) (piece_elements_for c.config element_size)))
                ((blocks n (omega arith)).0))

    gather_sent-describe :
        (v w : Buffer s.Elem) (n : ℕ)
        → n < c.world_size
        → map describe (gather_sent s (member c q) element_size (inbox q) v n)
          ≡ gather_expected s (member c r) element_size (inbox r) w n
    unfolding gather_sent gather_expected
    gather_sent-describe v w zero k = refl
    gather_sent-describe v w (suc n) k =
        map-append describe (gather_sent s (member c q) element_size (inbox q) v n)
          (gather_messages s datatype operation (member c q) element_size (inbox q) v n)
        ∙ ap₂ ◌++◌ (gather_sent-describe v w n (omega arith)) (
            map-first describe
              (message s
                (λ j.
                  (gather_work s (member c q) element_size (inbox q) v n).at
                    ((gather_step (member c q) element_size n).send_start + j))
                (gather_step (member c q) element_size n))
              (piece_count_for (count_of c (gather_send_block q c.world_size n))
                (piece_elements_for c.config element_size))
            ∙ ap
                (λ b.
                  first
                    (descriptor (record (gather_step (member c r) element_size n) {
                      recv_count = count_of c b;
                    }))
                    (piece_count_for (count_of c b) (piece_elements_for c.config element_size)))
                ((blocks n (omega arith)).1))

    -- For a rank `r` below the size, the tags and bytes of all that the previous rank sends in a call
    -- are those of all receives that `r` posts in it, in the same order.
    pub all_sent-describe :
        map describe (all_sent s datatype operation c element_size inbox work q)
        ≡ scatter_expected s datatype operation
            (member c r)
            element_size
            (inbox r)
            (work r)
            (c.world_size - 1)
          ++ gather_expected s
              (member c r)
              element_size
              (inbox r)
              (scattered s datatype operation c element_size inbox work r (c.world_size - 1))
              (c.world_size - 1)
    all_sent-describe =
        map-append describe
          (scatter_sent s datatype operation (member c q) element_size (inbox q) (work q)
            (c.world_size - 1))
          (gather_sent s (member c q) element_size (inbox q)
            (scattered s datatype operation c element_size inbox work q (c.world_size - 1))
            (c.world_size - 1))
        ∙ ap₂ ◌++◌ (scatter_sent-describe (work r) (c.world_size - 1) (omega arith)) (
            gather_sent-describe
              (scattered s datatype operation c element_size inbox work q (c.world_size - 1))
              (scattered s datatype operation c element_size inbox work r (c.world_size - 1))
              (c.world_size - 1) (omega arith))
