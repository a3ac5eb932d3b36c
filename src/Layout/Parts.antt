-- ===== src/Layout/Parts.antt =====
-- Where the parts of a segment lie (src/shared.rs, src/layout.rs).
use xshm.Prelude.{ℕ, ◌+◌, ◌%◌, ◌≤◌, ◌≡◌, arith}
use xshm.Constants.{ring_capacity}
use xshm.Layout.{
  size_of_control_block, size_of_ring_header, shared_mapping_size, ring_header_a, ring_buffer_a,
  ring_header_b, ring_buffer_b,
}

-- The parts follow each other without overlap, each at least as large as what is put there, in the
-- order control block, header A, buffer A, header B, buffer B, and fill the mapping.
pub record Tiles (base : ℕ) : Type 0 where
  pub header_a : base + size_of_control_block ≤ ring_header_a base
  pub buffer_a : ring_header_a base + size_of_ring_header ≤ ring_buffer_a base
  pub header_b : ring_buffer_a base + ring_capacity ≤ ring_header_b base
  pub buffer_b : ring_header_b base + size_of_ring_header ≤ ring_buffer_b base
  pub fills : ring_buffer_b base + ring_capacity ≡ base + shared_mapping_size
  pub aligned_a : ring_header_a base % 64 ≡ 0
  pub aligned_b : ring_header_b base % 64 ≡ 0

-- In a mapping that begins at a multiple of 64, the control block, both ring headers and both ring
-- buffers lie one after the other and end where the mapping of `shared_mapping_size` bytes ends, and
-- the headers are aligned to 64 bytes.
pub pointers-Tiles : (base : ℕ) → base % 64 ≡ 0 → Tiles base
unfolding ring_header_a ring_buffer_a ring_header_b ring_buffer_b shared_mapping_size
pointers-Tiles base h = record {
  header_a = omega arith;
  buffer_a = omega arith;
  header_b = omega arith;
  buffer_b = omega arith;
  fills = omega arith;
  aligned_a = omega arith;
  aligned_b = omega arith;
}
