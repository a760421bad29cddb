-- ===== src/Ring/Step/Failing/Run.antt =====
-- The waits of a step over any transport, and the whole step.
use comm_workshop_final.Prelude.{ℕ, suc, ◌+◌, ◌≤◌, ◌<◌, sym, subst, min, List, [], ◌∷◌, arith}
use comm_workshop_final.Prelude.Size.{mul_size}
use comm_workshop_final.Memory.{Scalars}
use comm_workshop_final.Pieces.{piece_count_for, batches_for}
use comm_workshop_final.Transport.{TransportOps}
use comm_workshop_final.Ring.Machine.{Machine, M, pure, ◌>>◌, for_each}
use comm_workshop_final.Ring.Machine.Settles.{Settles, Settles-bind, Settles-for_range}
use comm_workshop_final.Ring.Step.{
  PostedRequest, Step, buffer_of, temporary_region, work_region, wait, arrive, post_receive,
  post_send, post_pieces, finish_receive, finish_send, run_batch, run_step,
}
use comm_workshop_final.Ring.Step.Setup.{Sized, Addressed}
use comm_workshop_final.Ring.Step.Posting.{posted_as}
use comm_workshop_final.Ring.Step.Batch.{Pieces}
use comm_workshop_final.Prelude.Size.{add_size}
use comm_workshop_final.Ring.Step.Failing.{
  Sizes, wait-Settles, post_receive-Settles, post_send-Settles, post_pieces-Settles,
}

module _ (s : Scalars) {T : Type 0} (ops : TransportOps T s.Elem) (room work_size : ℕ) (st : Step)
    (z : Sized st) (ra : Addressed st st.recv_start st.recv_count)
    (sa : Addressed st st.send_start st.send_count)
    (recv_room : (m : Machine T s.Elem)
      → Sizes s ops room work_size m
      → st.recv_start + st.recv_count ≤ (buffer_of s ops st.recv_region m).size)
    (send_room : st.send_start + st.send_count ≤ work_size) where
  abbrev recv_pieces : ℕ
  recv_pieces = piece_count_for st.recv_count st.piece_elements

  abbrev send_pieces : ℕ
  send_pieces = piece_count_for st.send_count st.piece_elements

  abbrev Kept : Machine T s.Elem → Type 0
  Kept = Sizes s ops room work_size

  module _ (after : PostedRequest ops.Request → M (Machine T s.Elem) (Unit {0}))
      (absorbs : (k : ℕ) (request : ops.Request) (m : Machine T s.Elem)
        → k < recv_pieces
        → Kept m
        → Settles Kept (λ u. Kept) (after (posted_as st st.recv_count request k) m)) where
    -- What arrives does not change the size of its buffer.
    arrive-Kept :
        (p : PostedRequest ops.Request) (contents : ℕ → s.Elem) (m : Machine T s.Elem)
        → Kept m
        → Kept (arrive s ops st p contents m).1
    arrive-Kept p contents m i =
        elim st.recv_region
          as (λ region. Kept (arrive s ops (record st { recv_region = region }) p contents m).1) [
            | temporary_region ↦ i
            | work_region ↦ i
          ]

    finish_receive-Settles :
        (k : ℕ) (request : ops.Request) (m : Machine T s.Elem)
        → k < recv_pieces
        → Kept m
        → Settles Kept
            (λ u. Kept)
            (finish_receive s ops st after (posted_as st st.recv_count request k) m)
    unfolding finish_receive
    finish_receive-Settles k request m lt i =
        let p = posted_as st st.recv_count request k in
        Settles-bind Kept (wait s ops request) (λ contents. arrive s ops st p contents >> after p) m
          (λ r. Kept) (λ u. Kept)
          (wait-Settles s ops room work_size st z ra sa recv_room send_room request m i)
          (λ contents n j.
            absorbs k request (arrive s ops st p contents n).1 lt (arrive-Kept p contents n j))

    finish_send-Settles :
        (p : PostedRequest ops.Request) (m : Machine T s.Elem)
        → Kept m
        → Settles Kept (λ u. Kept) (finish_send s ops p m)
    unfolding finish_send
    finish_send-Settles p m i =
        Settles-bind Kept (wait s ops p.request) (λ contents. pure tt) m (λ r. Kept) (λ u. Kept)
          (wait-Settles s ops room work_size st z ra sa recv_room send_room p.request m i)
          (λ contents n j. j)

    receives-Settles :
        (from to : ℕ) (ps : List (PostedRequest ops.Request)) (m : Machine T s.Elem)
        → Pieces st st.recv_count from to ps
        → to ≤ recv_pieces
        → Kept m
        → Settles Kept (λ u. Kept) (for_each ps (finish_receive s ops st after) m)
    unfolding for_each
    receives-Settles from to [] m b le i = i
    receives-Settles from to (p ∷ ps) m b le i =
        Settles-bind Kept (finish_receive s ops st after p)
          (λ u. for_each ps (finish_receive s ops st after)) m (λ u. Kept) (λ u. Kept)
          (subst (λ q. Settles Kept (λ u. Kept) (finish_receive s ops st after q m)) (sym b.0)
            (finish_receive-Settles from p.request m (omega (arith, b.1, le)) i))
          (λ u n j. receives-Settles (suc from) to ps n b.2 le j)

    sends-Settles :
        (ps : List (PostedRequest ops.Request)) (m : Machine T s.Elem)
        → Kept m
        → Settles Kept (λ u. Kept) (for_each ps (finish_send s ops) m)
    unfolding for_each
    sends-Settles [] m i = i
    sends-Settles (p ∷ ps) m i =
        Settles-bind Kept (finish_send s ops p) (λ u. for_each ps (finish_send s ops)) m (λ u. Kept)
          (λ u. Kept) (finish_send-Settles p m i) (λ u n j. sends-Settles ps n j)

    run_batch-Settles :
        (batch : ℕ) (m : Machine T s.Elem)
        → Kept m
        → Settles Kept (λ u. Kept) (run_batch s ops st after batch m)
    unfolding run_batch
    run_batch-Settles batch m i =
        let from = mul_size batch st.capacity in
        let upto = add_size from st.capacity in
        Settles-bind Kept (post_pieces s ops (post_receive s ops st) from (min upto recv_pieces)) _
          m
          (λ ps n.
            Pieces st st.recv_count (min from (min upto recv_pieces)) (min upto recv_pieces) ps
            × Kept n)
          (λ u. Kept)
          (post_pieces-Settles s ops room work_size st z ra sa recv_room send_room st.recv_count
            (min upto recv_pieces) from (post_receive s ops st) m
            (λ k n lt j.
              post_receive-Settles s ops room work_size st z ra sa recv_room send_room k n
                (omega (arith, lt)) j)
            i)
          (λ receives n j.
            Settles-bind Kept (post_pieces s ops (post_send s ops st) from (min upto send_pieces))
              (λ sends.
                for_each receives (finish_receive s ops st after)
                >> for_each sends (finish_send s ops))
              n
              (λ ps o.
                Pieces st st.send_count (min from (min upto send_pieces)) (min upto send_pieces) ps
                × Kept o)
              (λ u. Kept)
              (post_pieces-Settles s ops room work_size st z ra sa recv_room send_room st.send_count
                (min upto send_pieces) from (post_send s ops st) n
                (λ k o lt l.
                  post_send-Settles s ops room work_size st z ra sa recv_room send_room k o
                    (omega (arith, lt)) l)
                j.1)
              (λ sends o l.
                Settles-bind Kept (for_each receives (finish_receive s ops st after))
                  (λ u. for_each sends (finish_send s ops)) o (λ u. Kept) (λ u. Kept)
                  (receives-Settles (min from (min upto recv_pieces)) (min upto recv_pieces)
                    receives o j.0 (omega arith) l.1)
                  (λ u p k. sends-Settles sends p k)))

    -- A step ends with success or with PG_ERR_TRANSPORT, and keeps the sizes of the buffers.
    pub run_step-Settles :
        (m : Machine T s.Elem) → Kept m → Settles Kept (λ u. Kept) (run_step s ops st after m)
    unfolding run_step
    run_step-Settles m i =
        Settles-for_range Kept (λ k u. Kept) (λ batch u. run_batch s ops st after batch)
          (batches_for send_pieces recv_pieces st.capacity) 0
          (batches_for send_pieces recv_pieces st.capacity) tt m (omega arith)
          (λ k u n lo hi q. run_batch-Settles k n q) i
