-- ===== src/Naming.antt =====
-- src/naming.rs and the names in src/events.rs: the kernel objects of one connection. A `str` is its
-- bytes.
pub mod Distinct
use xshm.Prelude.{ℕ, List, [], ◌∷◌, ◌++◌}
use xshm.Error.{Result, ok, err, ◌>>=◌}
use xshm.Segment.{
  Event, s2c_data, s2c_space, c2s_data, c2s_space, connect_ack, connect_req, disconnect,
}

pub data Direction : Type 0 where
  server_to_client : Direction
  client_to_server : Direction

abbrev pub underscore : List ℕ
underscore = 95 ∷ []

-- "S2C" and "C2S"
unfoldable pub as_str : Direction → List ℕ
as_str server_to_client = 83 ∷ 50 ∷ 67 ∷ []
as_str client_to_server = 67 ∷ 50 ∷ 83 ∷ []

-- "DATA"
abbrev pub event_data_suffix : List ℕ
event_data_suffix = 68 ∷ 65 ∷ 84 ∷ 65 ∷ []

-- "SPACE"
abbrev pub event_space_suffix : List ℕ
event_space_suffix = 83 ∷ 80 ∷ 65 ∷ 67 ∷ 69 ∷ []

-- "CONNECT"
abbrev pub event_connect_suffix : List ℕ
event_connect_suffix = 67 ∷ 79 ∷ 78 ∷ 78 ∷ 69 ∷ 67 ∷ 84 ∷ []

-- "CONNECT_REQ"
abbrev pub event_connect_req_suffix : List ℕ
event_connect_req_suffix = event_connect_suffix ++ underscore ++ 82 ∷ 69 ∷ 81 ∷ []

-- "DISCONNECT"
abbrev pub event_disconnect_suffix : List ℕ
event_disconnect_suffix = 68 ∷ 73 ∷ 83 ∷ event_connect_suffix

-- "Local\"
abbrev pub local : List ℕ
local = 76 ∷ 111 ∷ 99 ∷ 97 ∷ 108 ∷ 92 ∷ []

unfoldable pub event_prefix : List ℕ → List ℕ
event_prefix base = local ++ (base ++ underscore)

unfoldable pub mapping_name : List ℕ → List ℕ
mapping_name base = local ++ base

unfoldable pub event_name : List ℕ → Direction → List ℕ → List ℕ
unfolding event_prefix as_str
event_name base direction suffix = event_prefix base ++ (as_str direction ++ (underscore ++ suffix))

-- The name that `SharedEvents::create` gives an event, and `SharedEvents::open` looks for.
unfoldable pub name_of : List ℕ → Event → List ℕ
unfolding event_name
name_of base s2c_data = event_name base server_to_client event_data_suffix
name_of base s2c_space = event_name base server_to_client event_space_suffix
name_of base c2s_data = event_name base client_to_server event_data_suffix
name_of base c2s_space = event_name base client_to_server event_space_suffix
name_of base connect_ack = event_name base server_to_client event_connect_suffix
name_of base connect_req = event_name base client_to_server event_connect_req_suffix
name_of base disconnect = event_name base server_to_client event_disconnect_suffix

-- The order in which `create` and `open` make the handles.
abbrev pub all_events : List Event
all_events =
    s2c_data ∷ s2c_space ∷ c2s_data ∷ c2s_space ∷ connect_ack ∷ connect_req ∷ disconnect ∷ []

-- `SharedEvents::create` and `SharedEvents::open`: one call of the operating system for each name, up
-- to the first that fails. The argument is that call; the result is the names that have handles.
unfoldable pub make_events :
    (List ℕ → Result (Unit {0})) → List ℕ → List Event → Result (List (List ℕ))
unfolding name_of
make_events call base [] = ok []
make_events call base (e ∷ events) =
    let rest = make_events call base events in
    call (name_of base e) >>= λ _. rest >>= λ names. ok (name_of base e ∷ names)
