-- ===== src/Ffi/Strings.antt =====
-- The C strings of src/ffi.rs, src/multi/ffi.rs and src/dispatch/ffi.rs. Behind a pointer stand bytes
-- with a NUL among them; what follows it is not part of the string.
use xshm.Prelude.{
  ℕ, zero, suc, ◌-◌, ◌≤◌, ◌≡◌, refl, ap, arith, Bool, true, false, ◌==◌, ◌&&◌, ltb, min,
  if◌then◌else◌, Option, none, some, List, [], ◌∷◌, ◌++◌, length, take, length-take, length-append,
  append_assoc, Option-cases, inl, inr, lt→ltb, ◌∙◌,
}
use xshm.Protocol.Roundtrip.{take-min}
use xshm.Error.{Result, ok, err, not_ready}
use xshm.Utf8.{from_utf8_lossy, IsUtf8, from_utf8_lossy-IsUtf8}

-- `CStr::from_ptr`
unfoldable pub c_str : List ℕ → List ℕ
c_str [] = []
c_str (b ∷ bytes) = let rest = c_str bytes in if b == 0 then [] else b ∷ rest

-- `to_rust_str` of the two other interfaces, and that of src/ffi.rs
unfoldable pub to_rust_str : Option (List ℕ) → Option (List ℕ)
unfolding c_str
to_rust_str none = none
to_rust_str (some memory) = some (from_utf8_lossy (c_str memory))

unfoldable pub to_rust_str_or_not_ready : Option (List ℕ) → Result (List ℕ)
unfolding c_str
to_rust_str_or_not_ready none = err not_ready
to_rust_str_or_not_ready (some memory) = ok (from_utf8_lossy (c_str memory))

-- `NulError::nul_position`, with `none` where `CString::new` succeeds
unfoldable pub nul_position : List ℕ → Option ℕ
nul_position [] = none
nul_position (b ∷ bytes) =
    let rest = nul_position bytes in
    if b == 0 then some 0 else (elim rest [ none ↦ none | some i ↦ some (suc i) ])

-- The bytes that the C side is given, with the NUL behind them.
unfoldable pub to_c_string_lossy : List ℕ → List ℕ
unfolding nul_position
to_c_string_lossy s = elim (nul_position s) [ none ↦ s ++ 0 ∷ [] | some pos ↦ take pos s ++ 0 ∷ [] ]

-- The copy of a name into the buffer of a caller: what is written there. `buffer` says whether the
-- pointer is not null.
unfoldable pub copy_name : List ℕ → (buffer : Bool) → (buffer_size : ℕ) → List ℕ
copy_name name buffer buffer_size =
    if buffer && ltb 0 buffer_size
    then take (min (length name) (buffer_size - 1)) name ++ 0 ∷ []
    else []

c_str-terminated : (s tail : List ℕ) → c_str (s ++ 0 ∷ tail) ≡ c_str s
unfolding c_str
c_str-terminated [] tail = refl
c_str-terminated (b ∷ s) tail = ground (arith, c_str-terminated s tail)

c_str-cut :
    (s : List ℕ) (pos : ℕ) (tail : List ℕ)
    → nul_position s ≡ some pos
    → c_str (take pos s ++ 0 ∷ tail) ≡ c_str s
unfolding c_str nul_position
c_str-cut [] pos tail e = cc
c_str-cut (b ∷ s) zero tail e = ground arith
c_str-cut (b ∷ s) (suc pos) tail e = ground (arith, c_str-cut s pos tail)

terminated : (s tail : List ℕ) → (s ++ 0 ∷ []) ++ tail ≡ s ++ 0 ∷ tail
terminated s tail = append_assoc s (0 ∷ []) tail

c_str-to_c_string_lossy : (s tail : List ℕ) → c_str (to_c_string_lossy s ++ tail) ≡ c_str s
unfolding to_c_string_lossy
c_str-to_c_string_lossy s tail = elim (Option-cases (nul_position s)) [
  | inl e ↦ rw (e, to_c_string_lossy) (rw (terminated s tail) (c_str-terminated s tail))
  | inr (pos, e) ↦
      rw (e, to_c_string_lossy) (rw (terminated (take pos s) tail) (c_str-cut s pos tail e))
]

c_str-whole : (s : List ℕ) → nul_position s ≡ none → c_str s ≡ s
unfolding c_str nul_position
c_str-whole [] e = refl
c_str-whole (b ∷ s) e = ground (arith, c_str-whole s)

-- A string that is handed to C and read back is cut at its first NUL; without one it comes back as it
-- was, whatever stands behind it in memory.
pub to_rust_str-to_c_string_lossy :
    (s tail : List ℕ)
    → IsUtf8 s
    → nul_position s ≡ none
    → to_rust_str (some (to_c_string_lossy s ++ tail)) ≡ some s
unfolding to_rust_str
to_rust_str-to_c_string_lossy s tail valid clean =
    rw (c_str-to_c_string_lossy s tail, c_str-whole s clean)
      (ap some (from_utf8_lossy-IsUtf8 valid))

length-terminated : (s : List ℕ) → length (s ++ 0 ∷ []) ≡ suc (length s)
length-terminated s = omega (arith, length-append s (0 ∷ []))

copy_fits : (name : List ℕ) (buffer : Bool) (size : ℕ) → length (copy_name name buffer size) ≤ size
unfolding copy_name
copy_fits name buffer size =
    let k = min (length name) (size - 1) in
    ground (arith, length-take k name, length-terminated (take k name))

copied :
    (name memory : List ℕ) (size : ℕ)
    → c_str (copy_name name true (suc size) ++ memory) ≡ c_str (take size name)
unfolding copy_name
copied name memory size =
    let k : suc size - 1 ≡ size = omega arith in
    rw (lt→ltb 0 (suc size) (omega arith), k)
      (rw (terminated (take (min (length name) size) name) memory) (
        c_str-terminated (take (min (length name) size) name) memory
        ∙ ap c_str (take-min size name)))

-- A name is copied within the buffer of the caller, whatever its size: nothing is written if the
-- pointer is null or the size is zero; otherwise a C string that is the beginning of the name, as long
-- as the buffer allows.
pub copy_name_fits :
    (name memory : List ℕ) (buffer : Bool) (size : ℕ)
    → (length (copy_name name buffer size) ≤ size)
      × (c_str (copy_name name true (suc size) ++ memory) ≡ c_str (take size name))
      × (copy_name name false size ≡ [])
unfolding copy_name
copy_name_fits name memory buffer size = (copy_fits name buffer size, copied name memory size, refl)
