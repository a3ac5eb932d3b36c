-- ===== src/Dispatch/Register.antt =====
-- src/dispatch/mod.rs: the client of a `DispatchServer`, which registers in the lobby and then talks on
-- the channel that it is given.
use xshm.Prelude.{ℕ, Bool, true, false, ◌==◌, if◌then◌else◌, Option, none, some, List, [], ◌∷◌}
use xshm.Error.{
  ShmError, Result, ok, err, ◌>>=◌, ◌>>◌, require, timeout, queue_empty, handshake_failed,
  not_connected, not_ready,
}
use xshm.Ring.{WriteOutcome}
use xshm.Segment.{Segment, Event}
use xshm.Client.{SharedClient, connect, send_to_server, receive_from_server, drop_client}
use xshm.Protocol.{RegistrationRequest, encode_request, decode_response, status_ok}
use xshm.Auto.{Effect}
use xshm.Auto.Handle.{Handle, auto_send}
use xshm.Dispatch.{ClientRegistration}

-- The rounds of the loop that waits for the response, up to the one in which the time is over: what the
-- server does to the segment before the read.
pub data Rounds : Type 0 where
  round : (meanwhile : Segment → Segment) → Rounds → Rounds
  times_out : Rounds

-- a response that has come
unfoldable pub accept_response : List ℕ → Result (ℕ × List ℕ)
unfolding decode_response
accept_response bytes = do
  response ← decode_response bytes
  require (response.status == status_ok) handshake_failed
  ok (response.client_id, response.channel_name)

-- the arms of the match on `receive_from_server`
abbrev pub received :
    Result (List ℕ) → Segment → Result (ℕ × List ℕ) × Segment → Result (ℕ × List ℕ) × Segment
received (ok bytes) v later = (accept_response bytes, v)
received (err queue_empty) v later = later
received (err e) v later = (err e, v)

unfoldable pub read_response : SharedClient → Rounds → Segment → Result (ℕ × List ℕ) × Segment
unfolding accept_response
read_response c times_out v = (err timeout, v)
read_response c (round meanwhile rounds) v =
    let (res, v', _) = receive_from_server c (meanwhile v) in
    let later = read_response c rounds v' in received res v' later

abbrev pub await_response :
    SharedClient
    → Rounds
    → Result WriteOutcome × Segment × List Event
    → Result (ℕ × List ℕ) × Segment
await_response c rounds (err e, v, _) = (err e, v)
await_response c rounds (ok _, v, _) = read_response c rounds v

abbrev pub request_of : ClientRegistration → RegistrationRequest
request_of registration = record {
  pid = registration.pid;
  revision = registration.revision;
  name = registration.name;
}

-- `lobby_register` with a client that is connected; the client is dropped in the end, come what may.
unfoldable pub register_on :
    SharedClient → ClientRegistration → Rounds → Segment → Result (ℕ × List ℕ) × Segment
unfolding read_response
register_on c registration rounds v =
    let request = encode_request (request_of registration) in
    let (res, last) = await_response c rounds (send_to_server c request v) in
    (res, (drop_client c last).0)

unfoldable pub lobby_register :
    Result (Unit {0})
    → Result (Unit {0})
    → (Segment → Segment)
    → Result Bool
    → ClientRegistration
    → Rounds
    → Segment
    → Result (ℕ × List ℕ) × Segment
unfolding register_on
lobby_register opened requested during acked registration rounds v =
    let (res, v') = connect opened requested during acked v in
    elim res [ err e ↦ (err e, v') | ok c ↦ register_on c registration rounds v' ]

-- The calls of `DispatchClientHandler`.
pub data ClientCall : Type 0 where
  on_connect : (client_id : ℕ) (channel_name : List ℕ) → ClientCall
  on_disconnect : ClientCall
  on_message : (bytes : List ℕ) → ClientCall
  on_error : (e : ShmError) → ClientCall

pub record DispatchClient : Type 0 where
  pub auto_client : Option Handle
  pub running : Bool
  pub client_id : ℕ
  pub channel_name : List ℕ

-- `DispatchClient::connect` from the end of `lobby_register` on; the argument is `AutoClient::connect`.
unfoldable pub connect_channel :
    (List ℕ → Result Handle) → Result (ℕ × List ℕ) → Result DispatchClient × List ClientCall
connect_channel call (err e) = (err e, [])
connect_channel call (ok (id, name)) = elim (call name) [
  | err e ↦ (err e, [])
  | ok h ↦ (
    ok (record { auto_client = some h; running = true; client_id = id; channel_name = name }),
    on_connect id name ∷ [],
  )
]

unfoldable pub send : List ℕ → DispatchClient → Result (Unit {0}) × DispatchClient
unfolding auto_send
send bytes c =
    if c.running
    then (elim c.auto_client [
      | none ↦ (err not_connected, c)
      | some h ↦ let (res, h') = auto_send h bytes in (res, record c { auto_client = some h' })
    ])
    else (err not_ready, c)

abbrev pub is_some : Option Handle → Bool
is_some none = false
is_some (some h) = true

unfoldable pub is_connected : DispatchClient → Bool
is_connected c = if c.running then is_some c.auto_client else false

-- The `AutoClient` is dropped when it has been stopped.
unfoldable pub stop : DispatchClient → DispatchClient
stop c = record c { running = false; auto_client = none }

-- `DispatchClientProxy`: what the worker of the channel tells, passed on; the other calls of
-- `AutoHandler` do nothing.
unfoldable pub forward : Effect → List ClientCall
forward Effect.on_disconnect = on_disconnect ∷ []
forward (Effect.on_message direction payload) = on_message payload ∷ []
forward (Effect.on_error e) = on_error e ∷ []
forward _ = []
