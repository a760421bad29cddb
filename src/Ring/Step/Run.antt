-- ===== src/Ring/Step/Run.antt =====
-- A whole step: it runs through, and sends and receives exactly its pieces, in order.
use comm_workshop_final.Prelude.{
  ℕ, suc, ◌+◌, ◌*◌, ◌≤◌, ◌<◌, ◌≡◌, refl, ap, sym, subst₂, ◌∙◌, min, max, ◌↔◌, List, [], ◌∷◌, ◌++◌,
  append_assoc, append-nil, map-append, dec_lt, arith,
}
use comm_workshop_final.Prelude.Size.{size_mod, mul_size_lem, add_size_lem}
use comm_workshop_final.Memory.{Scalars}
use comm_workshop_final.Pieces.{piece_count_for, batches_for}
use comm_workshop_final.Pieces.Bounds.{batches_for-lt}
use comm_workshop_final.Transport.{TransportOps}
use comm_workshop_final.Transport.Reliable.{Pending, receiving, sending, Link, Reliable}
use comm_workshop_final.Ring.Machine.{
  Machine, M, Yields, Yields-bind, Yields-for_range, for_each, ◌>>=◌, ◌>>◌,
}
use comm_workshop_final.Ring.Step.{
  PostedRequest, Step, post_receive, post_send, post_pieces, finish_receive, finish_send, run_batch,
  run_step,
}
use comm_workshop_final.Ring.Step.Setup.{Sized, Addressed, piece_facts, tag_of}
use comm_workshop_final.Ring.Step.Posting.{
  posted_as, descriptor, message, post_receive-Yields, post_send-Yields,
}
use comm_workshop_final.Ring.Step.Batch.{
  first, Pieces, Pieces-snoc, as_receives, as_sends, with_pending, post_pieces-Yields,
  finish_sends-Yields, Invariant, finish_receives-Yields,
}

module _ (s : Scalars) {T : Type 0} (ops : TransportOps T s.Elem) (st : Step) (z : Sized st)
    (ra : Addressed st st.recv_start st.recv_count) (sa : Addressed st st.send_start st.send_count)
    {inbox : ℕ → ℕ → s.Elem} (rel : Reliable ops st.mode inbox) {out : ℕ → s.Elem}
    {after : PostedRequest ops.Request → M (Machine T s.Elem) (Unit {0})}
    (v : Invariant s ops st rel out after) where
  abbrev recv_pieces : ℕ
  recv_pieces = piece_count_for st.recv_count st.piece_elements

  abbrev send_pieces : ℕ
  send_pieces = piece_count_for st.send_count st.piece_elements

  -- The pieces from `lo` up to `k` are posted as receives; nothing else has changed since `m`.
  abbrev Receiving :
      Link ops.Request s.Elem
      → ℕ
      → Machine T s.Elem
      → ℕ
      → List (PostedRequest ops.Request)
      → Machine T s.Elem
      → Type 0
  Receiving l lo m k ps n =
      Pieces st st.recv_count lo k ps
      × (n.temporary ≡ m.temporary)
      × (n.work ≡ m.work)
      × (rel.view n.transport ≡ record l {
        expected = l.expected ++ first (descriptor st) k;
        pending = as_receives st ps;
      })

  -- The record after one more receive, in the form that the invariant has.
  one_receive :
      (l : Link ops.Request s.Elem) (k : ℕ) (ps : List (PostedRequest ops.Request))
      (p : PostedRequest ops.Request)
      → p ≡ posted_as st st.recv_count p.request k
      → ◌≡◌ {A = Link ops.Request s.Elem}
          (record l {
            expected = (l.expected ++ first (descriptor st) k) ++ descriptor st k ∷ [];
            pending = as_receives st ps ++ receiving p.request (tag_of st k) ∷ [];
          })
          (record l {
            expected = l.expected ++ first (descriptor st) (suc k);
            pending = as_receives st (ps ++ p ∷ []);
          })
  one_receive l k ps p e = λ i. record l {
    expected = append_assoc l.expected (first (descriptor st) k) (descriptor st k ∷ []) i;
    pending = listed i;
  }
    where
      listed :
          as_receives st ps ++ receiving p.request (tag_of st k) ∷ []
          ≡ as_receives st (ps ++ p ∷ [])
      listed =
          ap
            (λ (q : PostedRequest ops.Request).
              as_receives st ps ++ receiving p.request (tag_of st q.piece_index) ∷ [])
            (sym e)
          ∙ sym (
              map-append
                (λ (q : PostedRequest ops.Request). receiving q.request (tag_of st q.piece_index))
                ps (p ∷ []))

  Holds-same :
      (k : ℕ) (m n : Machine T s.Elem)
      → n.temporary ≡ m.temporary
      → n.work ≡ m.work
      → v.Holds k m.temporary m.work
      → v.Holds k n.temporary n.work
  Holds-same k m n t w h = rw (t, w) h

  post_receives-Yields :
      (l : Link ops.Request s.Elem) (lo from to : ℕ) (m : Machine T s.Elem)
      → lo ≡ min from to
      → to ≤ recv_pieces
      → v.Holds lo m.temporary m.work
      → Receiving l lo m lo [] m
      → Yields (post_pieces s ops (post_receive s ops st) from to) m (Receiving l lo m to)
  post_receives-Yields l lo from to m e b h start =
      post_pieces-Yields s ops (Receiving l lo m) (post_receive s ops st) from to m
        (λ k ps n hi q.
          let (p, o, ran, same) =
            post_receive-Yields s ops st z rel k n
              (piece_facts st z st.recv_start st.recv_count ra k (omega arith))
              (v.room lo n (Holds-same lo m n q.1 q.2 h)).0 in
          (
            p,
            o,
            ran,
            (
              Pieces-snoc st st.recv_count lo k ps p q.0 same.0,
              same.1 ∙ q.1,
              same.2 ∙ q.2,
              same.3
                  ∙ ap
                      (λ (w : Link ops.Request s.Elem). record w {
                        expected = w.expected ++ descriptor st k ∷ [];
                        pending = w.pending ++ receiving p.request (tag_of st k) ∷ [];
                      })
                      q.3
                  ∙ one_receive l k ps p same.0,
            ),
          ))
        (rw (← e) start)

  -- The pieces from `lo` up to `k` are posted as sends, behind the requests `held`.
  abbrev Sending :
      Link ops.Request s.Elem
      → List (Pending ops.Request)
      → ℕ
      → Machine T s.Elem
      → ℕ
      → List (PostedRequest ops.Request)
      → Machine T s.Elem
      → Type 0
  Sending l held lo m k ps n =
      Pieces st st.send_count lo k ps
      × (n.temporary ≡ m.temporary)
      × (n.work ≡ m.work)
      × (rel.view n.transport
          ≡ record l { sent = l.sent ++ first (message s out st) k; pending = held ++ as_sends ps })

  one_send :
      (l : Link ops.Request s.Elem) (held : List (Pending ops.Request)) (k : ℕ)
      (ps : List (PostedRequest ops.Request)) (p : PostedRequest ops.Request)
      → ◌≡◌ {A = Link ops.Request s.Elem}
          (record l {
            sent = (l.sent ++ first (message s out st) k) ++ message s out st k ∷ [];
            pending = (held ++ as_sends ps) ++ sending p.request ∷ [];
          })
          (record l {
            sent = l.sent ++ first (message s out st) (suc k);
            pending = held ++ as_sends (ps ++ p ∷ []);
          })
  one_send l held k ps p = λ i. record l {
    sent = append_assoc l.sent (first (message s out st) k) (message s out st k ∷ []) i;
    pending = listed i;
  }
    where
      listed : (held ++ as_sends ps) ++ sending p.request ∷ [] ≡ held ++ as_sends (ps ++ p ∷ [])
      listed =
          append_assoc held (as_sends ps) (sending p.request ∷ [])
          ∙ ap (◌++◌ held)
              (sym (map-append (λ (q : PostedRequest ops.Request). sending q.request) ps (p ∷ [])))

  post_sends-Yields :
      (l : Link ops.Request s.Elem) (held : List (Pending ops.Request)) (h lo from to : ℕ)
      (m : Machine T s.Elem)
      → lo ≡ min from to
      → to ≤ send_pieces
      → v.Holds h m.temporary m.work
      → Sending l held lo m lo [] m
      → Yields (post_pieces s ops (post_send s ops st) from to) m (Sending l held lo m to)
  post_sends-Yields l held h lo from to m e b holds start =
      post_pieces-Yields s ops (Sending l held lo m) (post_send s ops st) from to m
        (λ k ps n hi q.
          let fits = v.room h n (Holds-same h m n q.1 q.2 holds) in
          let (p, o, ran, same) =
            post_send-Yields s ops st z rel out k n
              (piece_facts st z st.send_start st.send_count sa k (omega arith)) fits.1 fits.2 in
          (
            p,
            o,
            ran,
            (
              Pieces-snoc st st.send_count lo k ps p q.0 same.0,
              same.1 ∙ q.1,
              same.2 ∙ q.2,
              same.3
                  ∙ ap
                      (λ (w : Link ops.Request s.Elem). record w {
                        sent = w.sent ++ message s out st k ∷ [];
                        pending = w.pending ++ sending p.request ∷ [];
                      })
                      q.3
                  ∙ one_send l held k ps p,
            ),
          ))
        (rw (← e) start)

  -- The first `r` pieces are in, the first `w` pieces are out, and no request is open. `l` is the
  -- record at the start of the step.
  abbrev Between : Link ops.Request s.Elem → ℕ → ℕ → Machine T s.Elem → Type 0
  Between l r w m =
      v.Holds r m.temporary m.work
      × (rel.view m.transport ≡ record {
        sent = l.sent ++ first (message s out st) w;
        expected = l.expected ++ first (descriptor st) r;
        pending = [];
      })

  -- The waits of a batch, and the posts of its sends with the waits behind them.
  abbrev waits :
      List (PostedRequest ops.Request)
      → List (PostedRequest ops.Request)
      → M (Machine T s.Elem) (Unit {0})
  waits rs ss = for_each rs (finish_receive s ops st after) >> for_each ss (finish_send s ops)

  abbrev sends_and_waits :
      ℕ → ℕ → List (PostedRequest ops.Request) → M (Machine T s.Elem) (Unit {0})
  sends_and_waits from to rs = post_pieces s ops (post_send s ops st) from to >>= waits rs

  waits-Yields :
      (l : Link ops.Request s.Elem) (r r' w' : ℕ) (rs ss : List (PostedRequest ops.Request))
      (o : Machine T s.Elem)
      → Pieces st st.recv_count r r' rs
      → r' ≤ recv_pieces
      → v.Holds r o.temporary o.work
      → rel.view o.transport ≡ record {
        sent = l.sent ++ first (message s out st) w';
        expected = l.expected ++ first (descriptor st) r';
        pending = as_receives st rs ++ as_sends ss;
      }
      → Yields (waits rs ss) o (λ u n. Between l r' w' n)
  waits-Yields l r r' w' rs ss o pieces bound holds seen =
      Yields-bind (for_each rs (finish_receive s ops st after))
        (λ u. for_each ss (finish_send s ops)) o _ _
        (finish_receives-Yields s ops st rel v r r' rs (as_sends ss) o pieces bound
          (ap (λ k. k.pending) seen) holds)
        (λ u t f.
          let (x, y, ran, kept) = finish_sends-Yields s ops st rel ss t (ap (λ k. k.pending) f.1) in
          (
            x,
            y,
            ran,
            (
              Holds-same r' t y kept.0 kept.1 f.0,
              kept.2
                  ∙ ap (λ k. with_pending k []) (f.1 ∙ ap (λ k. with_pending k (as_sends ss)) seen),
            ),
          ))

  sends_and_waits-Yields :
      (l : Link ops.Request s.Elem) (batch_start r w r' w' : ℕ)
      (rs : List (PostedRequest ops.Request)) (n : Machine T s.Elem)
      → w ≡ min batch_start w'
      → w' ≤ send_pieces
      → Pieces st st.recv_count r r' rs
      → r' ≤ recv_pieces
      → v.Holds r n.temporary n.work
      → rel.view n.transport ≡ record {
        sent = l.sent ++ first (message s out st) w;
        expected = l.expected ++ first (descriptor st) r';
        pending = as_receives st rs;
      }
      → Yields (sends_and_waits batch_start w' rs) n (λ u o. Between l r' w' o)
  sends_and_waits-Yields l batch_start r w r' w' rs n ew bw pieces br holds seen =
      Yields-bind (post_pieces s ops (post_send s ops st) batch_start w') (waits rs) n
        (Sending base (as_receives st rs) w n w') (λ u o. Between l r' w' o)
        (post_sends-Yields base (as_receives st rs) r w batch_start w' n ew bw holds (
          refl,
          refl,
          refl,
          seen
              ∙ ap (with_pending (record base { sent = l.sent ++ first (message s out st) w }))
                  (sym (append-nil (as_receives st rs))),
        ))
        (λ ss o p. waits-Yields l r r' w' rs ss o pieces br (Holds-same r n o p.1 p.2 holds) p.3)
    where
      base : Link ops.Request s.Elem
      base = record {
        sent = l.sent;
        expected = l.expected ++ first (descriptor st) r';
        pending = [];
      }

  run_batch-Yields :
      (l : Link ops.Request s.Elem) (batch r w r' w' : ℕ) (m : Machine T s.Elem)
      → batch * st.capacity + st.capacity < size_mod
      → r ≡ min (batch * st.capacity) recv_pieces
      → w ≡ min (batch * st.capacity) send_pieces
      → r' ≡ min (batch * st.capacity + st.capacity) recv_pieces
      → w' ≡ min (batch * st.capacity + st.capacity) send_pieces
      → Between l r w m
      → Yields (run_batch s ops st after batch) m (λ u n. Between l r' w' n)
  unfolding run_batch
  run_batch-Yields l batch r w r' w' m small er ew er' ew' h =
      rw
        (
          mul_size_lem batch st.capacity (omega arith),
          add_size_lem (batch * st.capacity) st.capacity small,
          ← er',
          ← ew',
        )
        (Yields-bind (post_pieces s ops (post_receive s ops st) (batch * st.capacity) r')
          (sends_and_waits (batch * st.capacity) w') m (Receiving base r m r')
          (λ u n. Between l r' w' n)
          (post_receives-Yields base r (batch * st.capacity) r' m (omega arith) (omega arith) h.0
            (refl, refl, refl, h.1))
          (λ rs n q.
            sends_and_waits-Yields l (batch * st.capacity) r w r' w' rs n (omega arith)
              (omega arith) q.0 (omega arith) (Holds-same r m n q.1 q.2 h.0) q.3))
    where
      base : Link ops.Request s.Elem
      base = record {
        sent = l.sent ++ first (message s out st) w;
        expected = l.expected;
        pending = [];
      }

  abbrev AtBatch : Link ops.Request s.Elem → ℕ → Unit {0} → Machine T s.Elem → Type 0
  AtBatch l batch u =
      Between l (min (batch * st.capacity) recv_pieces) (min (batch * st.capacity) send_pieces)

  abbrev total_batches : ℕ
  total_batches = batches_for send_pieces recv_pieces st.capacity

  batch_begins : (k : ℕ) → (k < total_batches) ↔ (k * st.capacity < max send_pieces recv_pieces)
  batch_begins k =
      batches_for-lt send_pieces recv_pieces st.capacity k z.capacity_pos
        (omega (arith, z.capacity_small, ra.pieces, sa.pieces))

  -- After the last batch every piece of both blocks has been dealt with.
  all_pieces : max send_pieces recv_pieces ≤ total_batches * st.capacity
  all_pieces = elim (dec_lt (total_batches * st.capacity) (max send_pieces recv_pieces)) [
    | yes more ↦ absurd (omega (arith, (batch_begins total_batches).1 more))
    | no none_left ↦ omega arith
  ]

  next_batch :
      (l : Link ops.Request s.Elem) (k : ℕ) (n : Machine T s.Elem)
      → k < total_batches
      → AtBatch l k tt n
      → Yields (run_batch s ops st after k) n (AtBatch l (k + 1))
  next_batch l k n hi q =
      run_batch-Yields l k (min (k * st.capacity) recv_pieces) (min (k * st.capacity) send_pieces)
        (min ((k + 1) * st.capacity) recv_pieces) (min ((k + 1) * st.capacity) send_pieces) n
        (omega (arith, (batch_begins k).0 hi, z.capacity_small, ra.pieces, sa.pieces)) refl refl
        (omega arith) (omega arith) q

  -- From a state with no open request, the step runs to its end: all its pieces are in, and the
  -- transport has been asked for exactly its messages and its receives, in the order of the pieces.
  pub run_step-Yields :
      (m : Machine T s.Elem)
      → (rel.view m.transport).pending ≡ []
      → v.Holds 0 m.temporary m.work
      → Yields
          (run_step s ops st after)
          m
          (λ u n. Between (rel.view m.transport) recv_pieces send_pieces n)
  unfolding run_step
  run_step-Yields m closed h =
      let (u, n, ran, final) =
        Yields-for_range (AtBatch l) (λ batch u. run_batch s ops st after batch) total_batches 0
          total_batches tt m (omega arith) (λ k u n lo hi q. next_batch l k n hi q) begin in
      (u, n, ran, subst₂ (λ r w. Between l r w n) all_in all_out final)
    where
      l : Link ops.Request s.Elem
      l = rel.view m.transport

      all_in : min (total_batches * st.capacity) recv_pieces ≡ recv_pieces
      all_in = omega (arith, all_pieces)

      all_out : min (total_batches * st.capacity) send_pieces ≡ send_pieces
      all_out = omega (arith, all_pieces)

      no_piece : (n : ℕ) → 0 ≡ min (0 * st.capacity) n
      no_piece n = omega arith

      begin : AtBatch l 0 tt m
      begin =
          subst₂ (λ r w. Between l r w m) (no_piece recv_pieces) (no_piece send_pieces)
            (
              h,
              λ i. record {
                sent = sym (append-nil l.sent) i;
                expected = sym (append-nil l.expected) i;
                pending = closed i;
              },
            )
