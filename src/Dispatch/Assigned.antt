-- ===== src/Dispatch/Assigned.antt =====
-- src/dispatch/mod.rs: a client and a server of the lobby on one segment.
use xshm.Prelude.{
  ℕ, zero, suc, ◌+◌, ◌%◌, ◌/◌, ◌^◌, ◌≤◌, ◌<◌, ◌≡◌, sym, ap, ◌∙◌, arith, true, false, some, List, [],
  ◌∷◌, length, append-nil, length-take, min,
}
use xshm.Error.{ok}
use xshm.Utf8.{IsUtf8}
use xshm.Ring.{RingBuffer, WriteOutcome, write_message, read_message}
use xshm.Ring.Queue.{Message, IsMessage, make_room}
use xshm.Ring.Runs.{Good, push, pop, put_refines, get_refines}
use xshm.Segment.{Segment}
use xshm.Server.{SharedServer, send_to_client, receive_from_client}
use xshm.Client.{SharedClient, send_to_server, receive_from_server}
use xshm.Protocol.{
  RegistrationRequest, RegistrationResponse, encode_request, encode_response, decode_request,
  max_name_len, status_ok,
}
use xshm.Protocol.Roundtrip.{decode-encode_request-IsUtf8, decode-encode_response, sent_name-short}
use xshm.Auto.Handle.{Handle}
use xshm.Dispatch.{ClientRegistration, DispatchedClient}
use xshm.Dispatch.Lobby.{
  hex_digit, hex, generate_channel_name, Rounds, round, times_out, requested, read_request, assign,
  new_client, answer, handle_lobby_client, Handled,
}
use xshm.Dispatch.Register.{request_of, register_on, read_response, accept_response}
use xshm.Dispatch.Register as Register

-- A channel's name is 16 digits, each below 0x80.
hex-IsUtf8 : (digits n : ℕ) {tail : List ℕ} → IsUtf8 tail → IsUtf8 (hex digits n tail)
unfolding hex
hex-IsUtf8 zero n t = t
hex-IsUtf8 (suc digits) n t = hex-IsUtf8 digits (n / 16) (IsUtf8.one (ground arith) t)

length-hex : (digits n : ℕ) (tail : List ℕ) → length (hex digits n tail) ≡ digits + length tail
unfolding hex
length-hex zero n tail = omega arith
length-hex (suc digits) n tail =
    omega (arith, length-hex digits (n / 16) (hex_digit (n % 16) ∷ tail))

length-generate_channel_name : (hash : ℕ) → length (generate_channel_name hash) ≡ 16
unfolding generate_channel_name
length-generate_channel_name hash = omega (arith, length-hex 16 (hash % 2 ^ 64) [])

generate_channel_name-IsUtf8 : (hash : ℕ) → IsUtf8 (generate_channel_name hash)
unfolding generate_channel_name
generate_channel_name-IsUtf8 hash = hex-IsUtf8 16 (hash % 2 ^ 64) IsUtf8.empty

-- Requests and responses are messages that the ring takes.
encode_request-IsMessage : (req : RegistrationRequest) → IsMessage (encode_request req)
unfolding encode_request
encode_request-IsMessage req =
    (omega arith, omega (arith, length-take (min (length req.name) max_name_len) req.name))

encode_response-IsMessage : (resp : RegistrationResponse) → IsMessage (encode_response resp)
unfolding encode_response
encode_response-IsMessage resp = (
  omega arith,
  omega (arith, length-take (min (length resp.channel_name) max_name_len) resp.channel_name),
)

-- A message written to an empty ring is the next that is read.
record Carried (r : RingBuffer) (m : Message) : Type 0 where
  accepted : (write_message r m).0 ≡ ok (record { overwritten = 0; was_empty = true })
  carried : (read_message (write_message r m).1).0 ≡ ok m

push-one :
    (m : Message)
    → IsMessage m
    → push [] m ≡ (ok (record { overwritten = 0; was_empty = true }), m ∷ [])
unfolding push make_room
push-one m v = ground arith

write_message-Carried : {r : RingBuffer} (m : Message) → Good r [] → IsMessage m → Carried r m
unfolding pop
write_message-Carried m g v =
    let (res, g') = put_refines [] m g in
    let e = push-one m v in
    record {
      accepted = res ∙ ap (λ p. p.0) e;
      carried = (get_refines (m ∷ []) (rw (ap (λ p. p.1) e) at g')).0;
    }

-- The lobby finds a request in its ring, and leaves the other ring alone.
read_request-first :
    (s : SharedServer) (rounds : Rounds) (req : RegistrationRequest) (bytes : List ℕ)
    → s.connected ≡ true
    → (read_message s.view.ring_b).0 ≡ ok bytes
    → decode_request bytes ≡ ok req
    → ((read_request (round true (λ v. v) rounds) s).0 ≡ requested req)
      × ((read_request (round true (λ v. v) rounds) s).1
          ≡ record s { view = record (s.view) { ring_b = (read_message s.view.ring_b).1 } })
unfolding read_request receive_from_client
read_request-first s rounds req bytes on found decoded = ground arith

assign_ok :
    (id next : ℕ) (s : SharedServer) (req : RegistrationRequest) (name : List ℕ) (h : Handle)
    → s.connected ≡ true
    → let m =
        encode_response (record { status = status_ok; client_id = id; channel_name = name }) in
      (write_message s.view.ring_a m).0 ≡ ok (record { overwritten = 0; was_empty = true })
      → ((assign id next s req name h).registered ≡ some (id, new_client req name h))
        × ((assign id next s req name h).lobby
            ≡ record s { view = record (s.view) { ring_a = (write_message s.view.ring_a m).1 } })
unfolding assign send_to_client
assign_ok id next s req name h on accepted = ground arith

handle_lobby_client_ok :
    (s : SharedServer) (rounds : Rounds) (hash id : ℕ) (h : Handle) (req : RegistrationRequest)
    (lobby : SharedServer)
    → s.has_events ≡ true
    → (read_request rounds s).0 ≡ requested req
    → (read_request rounds s).1 ≡ lobby
    → let handled = handle_lobby_client rounds hash (ok h) id s in
      let assigned = assign id ((id + 1) % 2 ^ 32) lobby req (generate_channel_name hash) h in
      (handled.registered ≡ assigned.registered) × (handled.lobby ≡ assigned.lobby)
unfolding handle_lobby_client answer
handle_lobby_client_ok s rounds hash id h req lobby events found left = rw (sym left) (ground arith)

send_to_server_ok :
    (c : SharedClient) (m : List ℕ) (v : Segment) {w : WriteOutcome}
    → c.connected ≡ true
    → (write_message v.ring_b m).0 ≡ ok w
    → ((send_to_server c m v).0 ≡ ok w)
      × ((send_to_server c m v).1 ≡ record v { ring_b = (write_message v.ring_b m).1 })
unfolding send_to_server
send_to_server_ok c m v on accepted = ground arith

register_on_ok :
    (c : SharedClient) (registration : ClientRegistration) (meanwhile : Segment → Segment)
    (v : Segment) {w : WriteOutcome} (bytes : List ℕ) {assigned : ℕ × List ℕ}
    → c.connected ≡ true
    → let (res, sent, _) = send_to_server c (encode_request (request_of registration)) v in
      res ≡ ok w
      → (read_message (meanwhile sent).ring_a).0 ≡ ok bytes
      → accept_response bytes ≡ ok assigned
      → (register_on c registration (Register.Rounds.round meanwhile Register.Rounds.times_out) v).0
        ≡ ok assigned
unfolding register_on read_response receive_from_server
register_on_ok c registration meanwhile v bytes on sent found accepted = ground arith

accept_response_ok :
    (id : ℕ) (name : List ℕ)
    → id < 2 ^ 32
    → IsUtf8 name
    → length name ≤ 64
    → accept_response
        (encode_response (record { status = status_ok; client_id = id; channel_name = name }))
      ≡ ok (id, name)
unfolding accept_response
accept_response_ok id name small valid short =
    let resp : RegistrationResponse = record {
      status = status_ok;
      client_id = id;
      channel_name = name;
    } in
    let decoded = decode-encode_response resp [] small in
    let whole = append-nil (encode_response resp) in
    let same = sent_name-short valid short in rw (sym whole) (rw decoded (ground (arith, same)))

-- What the lobby does with the one request that is in its ring.
abbrev pub served : SharedServer → ℕ → ℕ → Handle → Segment → Handled
served s hash id h v =
    handle_lobby_client (round true (λ w. w) times_out) hash (ok h) id (record s { view = v })

-- On a connected lobby whose rings are empty, a client with a name of at most 64 bytes of UTF-8 and the
-- server come to the same: the server, which could start the channel, waits for a client with the
-- client's own registration, under the next id and the generated name, and the client is given this id
-- and this name, no byte of it lost.
pub lobby_assigns :
    (registration : ClientRegistration) (s : SharedServer) (c : SharedClient) (hash id : ℕ)
    (h : Handle)
    → s.connected ≡ true
    → s.has_events ≡ true
    → c.connected ≡ true
    → Good s.view.ring_a []
    → Good s.view.ring_b []
    → registration.pid < 2 ^ 32
    → registration.revision < 2 ^ 16
    → IsUtf8 registration.name
    → length registration.name ≤ max_name_len
    → id < 2 ^ 32
    → let (_, sent, _) = send_to_server c (encode_request (request_of registration)) s.view in
      let waiting : DispatchedClient = record {
        server = h;
        info = registration;
        channel_name = generate_channel_name hash;
        disconnected = false;
      } in
      let rounds =
        Register.Rounds.round (λ v. (served s hash id h v).lobby.view) Register.Rounds.times_out in
      ((served s hash id h sent).registered ≡ some (id, waiting))
      × ((register_on c registration rounds s.view).0 ≡ ok (id, generate_channel_name hash))
lobby_assigns registration s c hash id h on events c_on good_a good_b p v valid short small =
    let req = request_of registration in
    let name = generate_channel_name hash in
    let m = encode_request req in
    let answer : List ℕ =
      encode_response (record { status = status_ok; client_id = id; channel_name = name }) in
    let up = write_message-Carried m good_b (encode_request-IsMessage req) in
    let down = write_message-Carried answer good_a (encode_response-IsMessage _) in
    let (sent, view) = send_to_server_ok c m s.view c_on up.accepted in
    let v1 : Segment = record (s.view) { ring_b = (write_message s.view.ring_b m).1 } in
    let decoded : decode_request m ≡ ok req =
      ap decode_request (sym (append-nil m))
      ∙ decode-encode_request-IsUtf8 req [] p v valid short in
    let (found, left) =
      read_request-first (record s { view = v1 }) times_out req m on up.carried decoded in
    let lobby : SharedServer = record s {
      view = record v1 { ring_b = (read_message v1.ring_b).1 };
    } in
    let (assigned, after) = assign_ok id ((id + 1) % 2 ^ 32) lobby req name h on down.accepted in
    let (registered, last) =
      handle_lobby_client_ok (record s { view = v1 }) (round true (λ w. w) times_out) hash id h req
        lobby events found left in
    let accepted =
      accept_response_ok id name small (generate_channel_name-IsUtf8 hash)
        (omega (arith, length-generate_channel_name hash)) in
    (
      rw view (registered ∙ assigned),
      register_on_ok c registration _ s.view answer c_on sent
          (rw view (ap (λ l. (read_message l.view.ring_a).0) (last ∙ after) ∙ down.carried))
          accepted,
    )
