-- ===== src/Layout.antt =====
-- src/layout.rs and src/shared.rs: the shared segment, its reset and the offsets of its parts.
pub mod Parts
use xshm.Prelude.{ℕ, ◌+◌, ◌*◌, List, map, replicate}
use xshm.Constants.{shared_magic, shared_version, handshake_idle, ring_capacity}

-- `RingHeader`. Every field is one 32-bit word of shared memory.
pub record RingHeader : Type 0 where
  pub write_pos : ℕ
  pub read_pos : ℕ
  pub message_count : ℕ
  pub drop_count : ℕ
  pub sequence : ℕ
  pub connection_gen : ℕ
  pub handshake_state : ℕ
  pub reserved : List ℕ

-- `ControlBlock`
pub record ControlBlock : Type 0 where
  pub magic : ℕ
  pub version : ℕ
  pub generation : ℕ
  pub server_state : ℕ
  pub client_state : ℕ
  pub reserved : List ℕ

-- `RingHeader::reset` leaves the reserved words alone.
unfoldable pub reset_header : RingHeader → ℕ → RingHeader
reset_header h generation = record h {
  write_pos = 0;
  read_pos = 0;
  message_count = 0;
  drop_count = 0;
  sequence = 0;
  connection_gen = generation;
  handshake_state = handshake_idle;
}

-- `ControlBlock::reset`
unfoldable pub reset_control : ControlBlock → ControlBlock
reset_control c = record c {
  magic = shared_magic;
  version = shared_version;
  generation = 1;
  server_state = handshake_idle;
  client_state = handshake_idle;
  reserved = map (λ _. 0) c.reserved;
}

-- `ControlBlock::default`
unfoldable pub default_control : ControlBlock
default_control = record {
  magic = shared_magic;
  version = shared_version;
  generation = 1;
  server_state = handshake_idle;
  client_state = handshake_idle;
  reserved = replicate 11 0;
}

-- `size_of` of the two headers: fifteen or sixteen words of four bytes, aligned to 64.
abbrev pub size_of_control_block : ℕ
size_of_control_block = 64

abbrev pub size_of_ring_header : ℕ
size_of_ring_header = 64

-- `shared_mapping_size`
unfoldable pub shared_mapping_size : ℕ
shared_mapping_size = size_of_control_block + size_of_ring_header * 2 + ring_capacity * 2

-- The pointers of `SharedView`, as offsets from `base`.
unfoldable pub ring_header_a : ℕ → ℕ
ring_header_a base = base + size_of_control_block

unfoldable pub ring_buffer_a : ℕ → ℕ
unfolding ring_header_a
ring_buffer_a base = ring_header_a base + size_of_ring_header

unfoldable pub ring_header_b : ℕ → ℕ
unfolding ring_buffer_a
ring_header_b base = ring_buffer_a base + ring_capacity

unfoldable pub ring_buffer_b : ℕ → ℕ
unfolding ring_header_b
ring_buffer_b base = ring_header_b base + size_of_ring_header
