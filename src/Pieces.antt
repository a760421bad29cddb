-- ===== src/Pieces.antt =====
-- How src/ring_collectives.cpp cuts a block into pipeline pieces, and pieces into batches.
pub mod Bounds
use comm_workshop_final.Prelude.{ℕ, ◌+◌, ◌/◌, ◌*◌, max, min, if◌then◌else◌, ◌==◌}
use comm_workshop_final.Prelude.Size.{add_size, sub_size, mul_size}
use comm_workshop_final.Types.{TransferMode}

pub record Config : Type 0 where
  pub pipeline_piece_bytes : ℕ
  pub max_inflight : ℕ
  pub transfer_mode : TransferMode

abbrev pub default_piece_bytes : ℕ
default_piece_bytes = 65536

abbrev pub default_max_inflight : ℕ
default_max_inflight = 4

abbrev pub max_inflight_limit : ℕ
max_inflight_limit = 1024

unfoldable pub piece_elements_for : Config → ℕ → ℕ
piece_elements_for config element_size = max 1 (
    (if config.pipeline_piece_bytes == 0 then default_piece_bytes else config.pipeline_piece_bytes)
    / element_size)

unfoldable pub piece_count_for : ℕ → ℕ → ℕ
piece_count_for element_count piece_elements =
    if element_count == 0
    then 0
    else sub_size (add_size element_count piece_elements) 1 / piece_elements

-- `total_batches` of a step that sends and receives so many pieces
unfoldable pub batches_for : ℕ → ℕ → ℕ → ℕ
batches_for send_pieces recv_pieces batch_capacity =
    sub_size (add_size (max send_pieces recv_pieces) batch_capacity) 1 / batch_capacity

-- `element_offset` and `elements` of a piece of a block of `block_count` elements
unfoldable pub piece_offset : ℕ → ℕ → ℕ
piece_offset piece piece_elements = mul_size piece piece_elements

unfoldable pub piece_size : ℕ → ℕ → ℕ → ℕ
unfolding piece_offset
piece_size block_count piece piece_elements =
    min piece_elements (sub_size block_count (piece_offset piece piece_elements))

-- The element that stands at byte `index * element_size` of a block (`byte_offset`).
unfoldable pub element_at : ℕ → ℕ → ℕ
element_at index element_size = mul_size index element_size / element_size
