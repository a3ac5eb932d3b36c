-- ===== src/Protocol/Roundtrip.antt =====
-- Encoding and decoding the registration messages of src/dispatch/protocol.rs.
use xshm.Prelude.{
  ℕ, ◌+◌, ◌≤◌, ◌<◌, le→leb, ◌^◌, ◌≡◌, refl, sym, ap, ◌∙◌, arith, List, ◌++◌, length, take, min,
  length-take, length-append, take-append, take-of_length_le,
}
use native.Mathlib.Decide.{dec_le}
use xshm.Word.{u16_le_roundtrip, u32_le_roundtrip}
use xshm.Error.{ok}
use xshm.Utf8.{from_utf8_lossy, IsUtf8, from_utf8_lossy-IsUtf8}
use xshm.Protocol.{
  RegistrationRequest, RegistrationResponse, encode_request, decode_request, encode_response,
  decode_response, max_name_len, max_channel_name_len,
}

-- The name that arrives: its first 64 bytes, with a sequence cut at the end replaced by U+FFFD.
abbrev pub sent_name : List ℕ → List ℕ
sent_name name = from_utf8_lossy (take max_name_len name)

pub take-min : (n : ℕ) (xs : List ℕ) → take (min (length xs) n) xs ≡ take n xs
take-min n xs = elim (dec_le (length xs) n) [
  | yes short ↦
      let e : min (length xs) n ≡ length xs = omega arith in
      rw e (take-of_length_le (length xs) xs (omega arith) ∙ sym (take-of_length_le n xs short))
  | no long ↦ let e : min (length xs) n ≡ n = omega arith in rw e
]

-- Behind the length byte `n` stand `n` bytes of the name and then the tail.
name_in_frame :
    (limit : ℕ) (name tail : List ℕ)
    → take (min (length name) limit) (take (min (length name) limit) name ++ tail) ≡ take limit name
name_in_frame limit name tail =
    ap (λ k. take k (cut ++ tail)) (omega (arith, length-take (min (length name) limit) name))
    ∙ take-append cut tail
    ∙ take-min limit name
  where
    cut : List ℕ
    cut = take (min (length name) limit) name

length-frame :
    (limit : ℕ) (name tail : List ℕ)
    → min (length name) limit ≤ length (take (min (length name) limit) name ++ tail)
length-frame limit name tail = omega (
  arith,
  length-append (take (min (length name) limit) name) tail,
  length-take (min (length name) limit) name,
)

-- A request with a pid of 32 bits and a revision of 16 bits, with any bytes after it, decodes to its
-- fields, the name as sent.
pub decode-encode_request :
    (req : RegistrationRequest) (tail : List ℕ)
    → req.pid < 2 ^ 32
    → req.revision < 2 ^ 16
    → decode_request (encode_request req ++ tail) ≡ ok (record req { name = sent_name req.name })
unfolding encode_request decode_request
decode-encode_request req tail p v =
    let n = min (length req.name) max_name_len in
    let fits = length-frame max_name_len req.name tail in
    rw
      (
        le→leb 13 (length (encode_request req ++ tail)) (omega arith),
        le→leb (13 + n) (length (encode_request req ++ tail)) (omega arith),
        u32_le_roundtrip req.pid p,
        u16_le_roundtrip req.revision v,
        name_in_frame max_name_len req.name tail,
      )
      refl

-- A response with a client id of 32 bits and with any bytes after it decodes to its fields, the channel
-- name as sent.
pub decode-encode_response :
    (resp : RegistrationResponse) (tail : List ℕ)
    → resp.client_id < 2 ^ 32
    → decode_response (encode_response resp ++ tail)
      ≡ ok (record resp { channel_name = sent_name resp.channel_name })
unfolding encode_response decode_response
decode-encode_response resp tail p =
    let n = min (length resp.channel_name) max_channel_name_len in
    let fits = length-frame max_channel_name_len resp.channel_name tail in
    rw
      (
        le→leb 12 (length (encode_response resp ++ tail)) (omega arith),
        le→leb (12 + n) (length (encode_response resp ++ tail)) (omega arith),
        u32_le_roundtrip resp.client_id p,
        name_in_frame max_channel_name_len resp.channel_name tail,
      )
      refl

-- A name of at most 64 bytes of UTF-8 arrives as it was sent.
pub sent_name-short :
    {name : List ℕ} → IsUtf8 name → length name ≤ max_name_len → sent_name name ≡ name
sent_name-short {name} valid short =
    ap from_utf8_lossy (take-of_length_le max_name_len name short) ∙ from_utf8_lossy-IsUtf8 valid

-- A request whose fields are in range and whose name is at most 64 bytes of UTF-8 comes back as it was,
-- whatever bytes follow it.
pub decode-encode_request-IsUtf8 :
    (req : RegistrationRequest) (tail : List ℕ)
    → req.pid < 2 ^ 32
    → req.revision < 2 ^ 16
    → IsUtf8 req.name
    → length req.name ≤ max_name_len
    → decode_request (encode_request req ++ tail) ≡ ok req
decode-encode_request-IsUtf8 req tail p v valid short =
    decode-encode_request req tail p v
    ∙ ap (λ n. ok (record req { name = n })) (sent_name-short valid short)
