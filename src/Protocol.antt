-- ===== src/Protocol.antt =====
-- src/dispatch/protocol.rs: the registration messages of the dispatch lobby. A `String` is its UTF-8
-- bytes.
pub mod Roundtrip
pub mod Refusals
use xshm.Prelude.{
  ℕ, ◌+◌, ◌≡◌, leb, ◌==◌, if◌then◌else◌, List, [], ◌∷◌, ◌++◌, length, get_or, take, drop, min,
}
use xshm.Word.{u16_to_le_bytes, u32_to_le_bytes, u16_from_le_bytes, u32_from_le_bytes}
use xshm.Error.{
  Result, ok, err, ◌>>=◌, ◌>>◌, require, message_too_small, corrupted, handshake_failed,
}
use xshm.Utf8.{from_utf8_lossy}

abbrev pub dispatch_magic : ℕ
dispatch_magic = 0x4449_5350

abbrev pub dispatch_version : ℕ
dispatch_version = 2

abbrev pub msg_type_request : ℕ
msg_type_request = 1

abbrev pub msg_type_response : ℕ
msg_type_response = 2

abbrev pub max_name_len : ℕ
max_name_len = 64

abbrev pub max_channel_name_len : ℕ
max_channel_name_len = 64

abbrev pub status_ok : ℕ
status_ok = 0

abbrev pub status_rejected : ℕ
status_rejected = 1

pub record RegistrationRequest : Type 0 where
  pub pid : ℕ
  pub revision : ℕ
  pub name : List ℕ

pub record RegistrationResponse : Type 0 where
  pub status : ℕ
  pub client_id : ℕ
  pub channel_name : List ℕ

unfoldable pub encode_request : RegistrationRequest → List ℕ
encode_request req =
    u32_to_le_bytes dispatch_magic
    ++ (dispatch_version
        ∷ msg_type_request
        ∷ (u32_to_le_bytes req.pid
            ++ (u16_to_le_bytes req.revision ++ (name_len ∷ take name_len req.name))))
  where
    name_len : ℕ
    name_len = min (length req.name) max_name_len

-- `bytes[i]`, and a little-endian word from `bytes[i]` on, where the length has been tested.
abbrev pub byte_at : List ℕ → ℕ → ℕ
byte_at bytes i = get_or bytes i 0

abbrev pub u16_at : List ℕ → ℕ → ℕ
u16_at bytes i = u16_from_le_bytes (byte_at bytes i) (byte_at bytes (i + 1))

abbrev pub u32_at : List ℕ → ℕ → ℕ
u32_at bytes i =
    u32_from_le_bytes (byte_at bytes i) (byte_at bytes (i + 1)) (byte_at bytes (i + 2))
      (byte_at bytes (i + 3))

unfoldable pub decode_request : List ℕ → Result RegistrationRequest
decode_request bytes = do
  require (leb 13 (length bytes)) message_too_small
  require (u32_at bytes 0 == dispatch_magic) corrupted
  require (byte_at bytes 4 == dispatch_version) handshake_failed
  require (byte_at bytes 5 == msg_type_request) handshake_failed
  let name_len = byte_at bytes 12
  require (leb (13 + name_len) (length bytes)) message_too_small
  ok (record {
    pid = u32_at bytes 6;
    revision = u16_at bytes 10;
    name = from_utf8_lossy (take name_len (drop 13 bytes));
  })

unfoldable pub encode_response : RegistrationResponse → List ℕ
encode_response resp =
    u32_to_le_bytes dispatch_magic
    ++ (dispatch_version
        ∷ msg_type_response
        ∷ resp.status
        ∷ (u32_to_le_bytes resp.client_id ++ (name_len ∷ take name_len resp.channel_name)))
  where
    name_len : ℕ
    name_len = min (length resp.channel_name) max_channel_name_len

unfoldable pub decode_response : List ℕ → Result RegistrationResponse
decode_response bytes = do
  require (leb 12 (length bytes)) message_too_small
  require (u32_at bytes 0 == dispatch_magic) corrupted
  require (byte_at bytes 4 == dispatch_version) handshake_failed
  require (byte_at bytes 5 == msg_type_response) handshake_failed
  let name_len = byte_at bytes 11
  require (leb (12 + name_len) (length bytes)) message_too_small
  ok (record {
    status = byte_at bytes 6;
    client_id = u32_at bytes 7;
    channel_name = from_utf8_lossy (take name_len (drop 12 bytes));
  })
