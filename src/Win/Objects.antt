-- ===== src/Win/Objects.antt =====
-- src/win.rs and src/ntapi/helpers.rs: the names of kernel objects, and what is made of the answers of
-- the kernel when objects are made, opened, set and waited for.
use xshm.Prelude.{
  ℕ, zero, suc, ◌+◌, ◌-◌, ◌*◌, ◌/◌, ◌%◌, Bool, true, false, ltb, ◌==◌, if◌then◌else◌, Option, none,
  some, List, [], ◌∷◌, ◌++◌, length,
}
use xshm.Word.{ℤ, pos, negsuc, as_u16}
use xshm.Error.{Result, ok, err, windows_error, invalid_config}
use xshm.Naming.{local}
use xshm.Win.{status_bits}

-- "{sid}": a 32-bit number in decimal digits, of which there are at most 10
unfoldable pub decimal : ℕ → ℕ → List ℕ → List ℕ
decimal zero n tail = tail
decimal (suc digits) n tail =
    let rest = decimal digits (n / 10) ((48 + n % 10) ∷ tail) in
    if ltb n 10 then (48 + n) ∷ tail else rest

-- "\BaseNamedObjects\"
abbrev pub base_named_objects : List ℕ
base_named_objects =
    92 ∷ 66 ∷ 97 ∷ 115 ∷ 101 ∷ 78 ∷ 97 ∷ 109 ∷ 101 ∷ 100 ∷ 79 ∷ 98 ∷ 106 ∷ 101 ∷ 99 ∷ 116 ∷ 115 ∷ 92
    ∷ []

-- "\Sessions\"
abbrev pub sessions : List ℕ
sessions = 92 ∷ 83 ∷ 101 ∷ 115 ∷ 115 ∷ 105 ∷ 111 ∷ 110 ∷ 115 ∷ 92 ∷ []

-- "Global\"
abbrev pub global : List ℕ
global = 71 ∷ 108 ∷ 111 ∷ 98 ∷ 97 ∷ 108 ∷ 92 ∷ []

-- `current_session_id`, for the status of the query and the answer
unfoldable pub current_session_id : ℤ → ℕ → ℕ
current_session_id (pos zero) id = id
current_session_id (pos (suc n)) id = 0
current_session_id (negsuc n) id = 0

-- The first argument is the session of the process.
unfoldable pub session_local_path : ℕ → List ℕ → List ℕ
unfolding decimal
session_local_path sid name =
    if sid == 0
    then base_named_objects ++ name
    else sessions ++ (decimal 10 sid [] ++ (base_named_objects ++ name))

unfoldable pub strip_prefix : List ℕ → List ℕ → Option (List ℕ)
strip_prefix [] name = some name
strip_prefix (p ∷ prefix) [] = none
strip_prefix (p ∷ prefix) (c ∷ name) =
    let rest = strip_prefix prefix name in if p == c then rest else none

-- `starts_with('\\')`
abbrev pub is_nt_path : List ℕ → Bool
is_nt_path [] = false
is_nt_path (c ∷ name) = c == 92

unfoldable pub to_nt_path : ℕ → List ℕ → List ℕ
unfolding strip_prefix session_local_path
to_nt_path sid name = elim (strip_prefix global name) [
  | some stripped ↦ base_named_objects ++ stripped
  | none ↦ elim (strip_prefix local name) [
    | some stripped ↦ session_local_path sid stripped
    | none ↦ if is_nt_path name then name else session_local_path sid name
  ]
]

-- `NtName`, with its `UNICODE_STRING`
pub record NtName : Type 0 where
  pub wide : List ℕ
  pub byte_length : ℕ
  pub maximum_length : ℕ

abbrev pub max_nt_name_units : ℕ
max_nt_name_units = (65_535 - 2) / 2

-- `NtName::new`; `encode_wide` is the encoding of a string in UTF-16.
unfoldable pub nt_name : (encode_wide : List ℕ → List ℕ) → ℕ → List ℕ → Result NtName
unfolding to_nt_path
nt_name encode_wide sid name =
    let wide = encode_wide (to_nt_path sid name) ++ 0 ∷ [] in
    let units = length wide - 1 in
    if ltb max_nt_name_units units
    then err invalid_config
    else ok (record {
      wide = wide;
      byte_length = as_u16 (units * 2);
      maximum_length = as_u16 (as_u16 (units * 2) + 2);
    })

-- `EventHandle::create`, `open` and `set`, for the status of the call
unfoldable pub event_call : ℤ → Result (Unit {0})
event_call (pos zero) = ok tt
event_call (pos (suc n)) = err (windows_error (status_bits (pos (suc n))))
event_call (negsuc n) = err (windows_error (status_bits (negsuc n)))

-- `EventHandle::wait`, for the status of the wait
unfoldable pub event_wait : ℤ → Result Bool
event_wait (pos zero) = ok true
event_wait (pos (suc n)) =
    if suc n == 0x102 then ok false else err (windows_error (status_bits (pos (suc n))))
event_wait (negsuc n) = err (windows_error (status_bits (negsuc n)))

-- What happens to the handle of a section.
pub data HandleCall : Type 0 where
  opened : HandleCall
  closed : HandleCall

-- `create_internal` from the status of `NtCreateSection` on: whether the handle is null, and the status
-- of `NtMapViewOfSection`. The handle is closed when it is dropped.
unfoldable pub create_internal : ℤ → Bool → ℤ → Result (Unit {0}) × List HandleCall
unfolding event_call
create_internal created is_null mapped = elim (event_call created) [
  | err e ↦ (err e, [])
  | ok _ ↦ if is_null then (err (windows_error 0xC000_0008), []) else (elim (event_call mapped) [
    | err e ↦ (err e, opened ∷ closed ∷ [])
    | ok _ ↦ (ok tt, opened ∷ [])
  ])
]

-- `Mapping::open`, in the same way
unfoldable pub open_mapping : ℤ → ℤ → Result (Unit {0}) × List HandleCall
unfolding event_call
open_mapping found mapped = elim (event_call found) [
  | err e ↦ (err e, [])
  | ok _ ↦ elim (event_call mapped) [
    | err e ↦ (err e, opened ∷ closed ∷ [])
    | ok _ ↦ (ok tt, opened ∷ [])
  ]
]
