-- ===== src/Protocol/Refusals.antt =====
-- What the decoders of src/dispatch/protocol.rs refuse.
use xshm.Prelude.{
  ℕ, suc, ◌+◌, ◌-◌, ◌<◌, ◌≡◌, refl, subst, arith, inl, inr, Bool-cases, ◌≢◌, ==_iff, ◌==◌,
  if◌then◌else◌, leb-false, le→leb, List, length, take, min, length-take,
}
use native.Mathlib.Decide.{dec_lt}
use xshm.Error.{err, message_too_small, handshake_failed}
use xshm.Protocol.{
  RegistrationRequest, RegistrationResponse, encode_request, decode_request, encode_response,
  decode_response, max_name_len, max_channel_name_len,
}

decode_request_short :
    (bytes : List ℕ) → length bytes < 13 → decode_request bytes ≡ err message_too_small
unfolding decode_request
decode_request_short bytes h = rw (leb-false 13 (length bytes) h)

decode_response_short :
    (bytes : List ℕ) → length bytes < 12 → decode_response bytes ≡ err message_too_small
unfolding decode_response
decode_response_short bytes h = rw (leb-false 12 (length bytes) h)

cut_name :
    (limit j : ℕ) (name : List ℕ)
    → j < length (take (min (length name) limit) name)
    → length (take j (take (min (length name) limit) name)) < min (length name) limit
cut_name limit j name h = omega (
  arith,
  length-take j (take (min (length name) limit) name),
  length-take (min (length name) limit) name,
)

request_in_name :
    (req : RegistrationRequest) (j : ℕ)
    → 13 + j < length (encode_request req)
    → decode_request (
        take
          (suc (suc (suc (suc (suc (suc (suc (suc (suc (suc (suc (suc (suc j)))))))))))))
          (encode_request req))
      ≡ err message_too_small
unfolding encode_request decode_request
request_in_name req j h =
    let cut =
      take (suc (suc (suc (suc (suc (suc (suc (suc (suc (suc (suc (suc (suc j)))))))))))))
        (encode_request req) in
    let n = min (length req.name) max_name_len in
    let short = cut_name max_name_len j req.name (omega arith) in
    rw (le→leb 13 (length cut) (omega arith), leb-false (13 + n) (length cut) (omega arith)) refl

-- A request cut short anywhere is refused as too small.
decode_request-take :
    (req : RegistrationRequest) (k : ℕ)
    → k < length (encode_request req)
    → decode_request (take k (encode_request req)) ≡ err message_too_small
decode_request-take req k h = elim (dec_lt k 13) [
  | yes lt ↦
      decode_request_short (take k (encode_request req))
        (omega (arith, length-take k (encode_request req)))
  | no ge ↦
      let e : suc (suc (suc (suc (suc (suc (suc (suc (suc (suc (suc (suc (suc (k - 13)))))))))))))
          ≡ k =
        omega arith in
      subst (λ i. decode_request (take i (encode_request req)) ≡ err message_too_small) e
        (request_in_name req (k - 13) (omega arith))
]

response_in_name :
    (resp : RegistrationResponse) (j : ℕ)
    → 12 + j < length (encode_response resp)
    → decode_response (
        take
          (suc (suc (suc (suc (suc (suc (suc (suc (suc (suc (suc (suc j))))))))))))
          (encode_response resp))
      ≡ err message_too_small
unfolding encode_response decode_response
response_in_name resp j h =
    let cut =
      take (suc (suc (suc (suc (suc (suc (suc (suc (suc (suc (suc (suc j))))))))))))
        (encode_response resp) in
    let n = min (length resp.channel_name) max_channel_name_len in
    let short = cut_name max_channel_name_len j resp.channel_name (omega arith) in
    rw (le→leb 12 (length cut) (omega arith), leb-false (12 + n) (length cut) (omega arith)) refl

-- A response cut short anywhere is refused as too small.
decode_response-take :
    (resp : RegistrationResponse) (k : ℕ)
    → k < length (encode_response resp)
    → decode_response (take k (encode_response resp)) ≡ err message_too_small
decode_response-take resp k h = elim (dec_lt k 12) [
  | yes lt ↦
      decode_response_short (take k (encode_response resp))
        (omega (arith, length-take k (encode_response resp)))
  | no ge ↦
      let e : suc (suc (suc (suc (suc (suc (suc (suc (suc (suc (suc (suc (k - 12)))))))))))) ≡ k =
        omega arith in
      subst (λ i. decode_response (take i (encode_response resp)) ≡ err message_too_small) e
        (response_in_name resp (k - 12) (omega arith))
]

decode_request-encode_response :
    (resp : RegistrationResponse)
    → decode_request (encode_response resp)
      ≡ err (if length resp.channel_name == 0 then message_too_small else handshake_failed)
unfolding encode_response decode_request
decode_request-encode_response resp =
    let n = min (length resp.channel_name) max_channel_name_len in
    let size = length-take n resp.channel_name in
    elim (Bool-cases (length resp.channel_name == 0)) [
      | inl none ↦
          let zero_length = (==_iff (length resp.channel_name) 0).0 none in
          rw (leb-false 13 (length (encode_response resp)) (omega arith), none) refl
      | inr some ↦
          let nonzero : length resp.channel_name ≢ 0 = ground arith in
          rw (le→leb 13 (length (encode_response resp)) (omega arith), some) refl
    ]

decode_response-encode_request :
    (req : RegistrationRequest) → decode_response (encode_request req) ≡ err handshake_failed
unfolding encode_request decode_response
decode_response-encode_request req = rw (le→leb 12 (length (encode_request req)) (omega arith)) refl

-- Neither decoder takes the other's messages: a response read as a request is too small when it names
-- no channel and a failed handshake when it does, and a request read as a response is a failed
-- handshake.
pub decoders_apart :
    (req : RegistrationRequest) (resp : RegistrationResponse)
    → (decode_request (encode_response resp)
        ≡ err (if length resp.channel_name == 0 then message_too_small else handshake_failed))
      × (decode_response (encode_request req) ≡ err handshake_failed)
decoders_apart req resp = (decode_request-encode_response resp, decode_response-encode_request req)

-- A request cut short anywhere, and a response cut short anywhere, is refused as too small.
pub truncated_refused :
    (req : RegistrationRequest) (resp : RegistrationResponse) (k j : ℕ)
    → k < length (encode_request req)
    → j < length (encode_response resp)
    → (decode_request (take k (encode_request req)) ≡ err message_too_small)
      × (decode_response (take j (encode_response resp)) ≡ err message_too_small)
truncated_refused req resp k j h l = (decode_request-take req k h, decode_response-take resp j l)
