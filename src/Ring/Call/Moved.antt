-- ===== src/Ring/Call/Moved.antt =====
-- What a phase's steps do not look at: the context's transport, temporary buffer and old layout.
use comm_workshop_final.Prelude.{ℕ, zero, suc, ◌<◌, ◌≡◌, refl, arith}
use comm_workshop_final.Prelude.Int.{pos}
use comm_workshop_final.Types.{Datatype, Operation, success}
use comm_workshop_final.Memory.{Buffer, Scalars}
use comm_workshop_final.BlockLayout.{BlockLayout, compute_block_layout}
use comm_workshop_final.BlockLayout.Partition.{layout_after}
use comm_workshop_final.Ring.Context.{Context}
use comm_workshop_final.Ring.Phase.ScatterRun.{scatter_work, scatter_sent, scatter_expected}
use comm_workshop_final.Ring.Phase.GatherRun.{gather_work, gather_sent, gather_expected}
use comm_workshop_final.Ring.Call.{Callable, laid_out}

module _ (s : Scalars) {T : Type 0} where
  -- The steps look at neither the transport nor the temporary buffer of the context.
  abbrev pub moved : Context T s.Elem → T → Buffer s.Elem → Context T s.Elem
  moved c t b = record c { transport = t; temporary_buffer = b }

  module _ (datatype : Datatype) (operation : Operation) (c : Context T s.Elem) (element_size : ℕ)
      (inbox : ℕ → ℕ → s.Elem) (work : Buffer s.Elem) (t : T) (b : Buffer s.Elem) where
    pub scatter_work-moved :
        (n : ℕ)
        → scatter_work s datatype operation (moved c t b) element_size inbox work n
          ≡ scatter_work s datatype operation c element_size inbox work n
    unfolding scatter_work
    scatter_work-moved zero = refl
    scatter_work-moved (suc n) = rw (scatter_work-moved n)

    pub scatter_sent-moved :
        (n : ℕ)
        → scatter_sent s datatype operation (moved c t b) element_size inbox work n
          ≡ scatter_sent s datatype operation c element_size inbox work n
    unfolding scatter_sent
    scatter_sent-moved zero = refl
    scatter_sent-moved (suc n) = rw (scatter_sent-moved n, scatter_work-moved n)

    pub scatter_expected-moved :
        (n : ℕ)
        → scatter_expected s datatype operation (moved c t b) element_size inbox work n
          ≡ scatter_expected s datatype operation c element_size inbox work n
    unfolding scatter_expected
    scatter_expected-moved zero = refl
    scatter_expected-moved (suc n) = rw (scatter_expected-moved n)

    pub gather_work-moved :
        (n : ℕ)
        → gather_work s (moved c t b) element_size inbox work n
          ≡ gather_work s c element_size inbox work n
    unfolding gather_work
    gather_work-moved zero = refl
    gather_work-moved (suc n) = rw (gather_work-moved n)

    pub gather_sent-moved :
        (n : ℕ)
        → gather_sent s (moved c t b) element_size inbox work n
          ≡ gather_sent s c element_size inbox work n
    unfolding gather_sent
    gather_sent-moved zero = refl
    gather_sent-moved (suc n) = rw (gather_sent-moved n, gather_work-moved n)

    pub gather_expected-moved :
        (n : ℕ)
        → gather_expected s (moved c t b) element_size inbox work n
          ≡ gather_expected s c element_size inbox work n
    unfolding gather_expected
    gather_expected-moved zero = refl
    gather_expected-moved (suc n) = rw (gather_expected-moved n)

pub compute_block_layout-success :
    (count size : ℕ) (layout : BlockLayout)
    → 0 < size
    → compute_block_layout count (pos size) layout ≡ (success, layout_after count (pos size) layout)
unfolding compute_block_layout
compute_block_layout-success count zero layout h = absurd (omega arith)
compute_block_layout-success count (suc n) layout h = refl

pub Callable-moved :
    (s : Scalars) {T : Type 0} (c : Context T s.Elem) (count : ℕ) {element_size : ℕ}
    → Callable c count element_size
    → (t : T) (b : Buffer s.Elem) → Callable (moved s c t b) count element_size
Callable-moved s c count y t b = record {
  size_pos = y.size_pos;
  size_small = y.size_small;
  rank_lt = y.rank_lt;
  element_pos = y.element_pos;
  bytes = y.bytes;
  capacity_pos = y.capacity_pos;
  capacity_small = y.capacity_small;
  piece_bytes = y.piece_bytes;
  pieces = y.pieces;
}

-- A layout that is computed again is the same.
pub layout_after-again :
    (count size : ℕ) (layout : BlockLayout)
    → 0 < size
    → layout_after count (pos size) (layout_after count (pos size) layout)
      ≡ layout_after count (pos size) layout
unfolding compute_block_layout
layout_after-again count zero layout h = absurd (omega arith)
layout_after-again count (suc n) layout h = refl

pub Callable-laid_out :
    (s : Scalars) {T : Type 0} (c : Context T s.Elem) (count : ℕ) {element_size : ℕ}
    → Callable c count element_size
    → Callable (laid_out c count element_size) count element_size
Callable-laid_out s c count y = record {
  size_pos = y.size_pos;
  size_small = y.size_small;
  rank_lt = y.rank_lt;
  element_pos = y.element_pos;
  bytes = y.bytes;
  capacity_pos = y.capacity_pos;
  capacity_small = y.capacity_small;
  piece_bytes = y.piece_bytes;
  pieces = y.pieces;
}
