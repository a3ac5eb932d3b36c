-- ===== src/Constants.antt =====
-- src/constants.rs: sizes, limits and the values of the state words.
use xshm.Prelude.{ℕ, ◌*◌, ◌-◌}

abbrev pub shared_magic : ℕ
shared_magic = 0x5853_484d

abbrev pub shared_version : ℕ
shared_version = 0x0001_0000

abbrev pub ring_capacity : ℕ
ring_capacity = 2 * 1024 * 1024

abbrev pub ring_mask : ℕ
ring_mask = ring_capacity - 1

abbrev pub max_messages : ℕ
max_messages = 500

abbrev pub max_message_size : ℕ
max_message_size = 65_535

abbrev pub min_message_size : ℕ
min_message_size = 2

-- u16 length + u16 flags
abbrev pub message_header_size : ℕ
message_header_size = 4

abbrev pub handshake_idle : ℕ
handshake_idle = 0

abbrev pub handshake_client_hello : ℕ
handshake_client_hello = 1

abbrev pub handshake_server_ready : ℕ
handshake_server_ready = 2

abbrev pub slot_id_no_slot : ℕ
slot_id_no_slot = 0xFFFF_FFFF

abbrev pub reserved_claim_index : ℕ
reserved_claim_index = 0

abbrev pub claim_free : ℕ
claim_free = 0

abbrev pub reserved_owner_pid_index : ℕ
reserved_owner_pid_index = 1
