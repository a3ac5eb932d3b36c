-- ===== src/Segment.antt =====
-- The memory that a server and its client share (`SharedView` of src/shared.rs), the state words of
-- the handshake, and the events of src/events.rs.
use xshm.Prelude.{ℕ}
use xshm.Layout.{ControlBlock}
use xshm.Ring.{RingBuffer}

-- `ControlBlock`, `RingHeader_A` with `RingBuffer_A` (server to client), and the same for B.
pub record Segment : Type 0 where
  pub control : ControlBlock
  pub ring_a : RingBuffer
  pub ring_b : RingBuffer

-- The events of `SharedEvents`.
pub data Event : Type 0 where
  s2c_data : Event
  s2c_space : Event
  c2s_data : Event
  c2s_space : Event
  connect_ack : Event
  connect_req : Event
  disconnect : Event

-- `header.handshake_state.store(state)`
unfoldable pub store_state : RingBuffer → ℕ → RingBuffer
store_state r state = record r { header = record (r.header) { handshake_state = state } }

-- The store of one state word to the headers of both rings.
unfoldable pub store_states : Segment → ℕ → Segment
unfolding store_state
store_states v state = record v {
  ring_a = store_state v.ring_a state;
  ring_b = store_state v.ring_b state;
}

unfoldable pub store_client_state : Segment → ℕ → Segment
store_client_state v state = record v { control = record (v.control) { client_state = state } }

unfoldable pub store_server_state : Segment → ℕ → Segment
store_server_state v state = record v { control = record (v.control) { server_state = state } }
