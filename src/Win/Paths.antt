-- ===== src/Win/Paths.antt =====
-- The paths of src/ntapi/helpers.rs, for the names of src/naming.rs and src/events.rs.
use xshm.Prelude.{
  ℕ, ◌+◌, ◌-◌, ◌*◌, ◌^◌, ◌<◌, ◌≡◌, refl, arith, Bool-cases, inl, inr, ltb, ltb→lt, List, [], ◌∷◌,
  ◌++◌, length, length-append, ◌⊎◌,
}
use xshm.Error.{ok, err, invalid_config}
use xshm.Word.{as_u16}
use xshm.Win.Objects.{to_nt_path, NtName, max_nt_name_units, nt_name}

-- A name is taken exactly if its path has at most 32766 units of UTF-16; then the lengths in bytes, of the
-- units alone and with the NUL, fit into 16 bits and are those of the buffer.
pub nt_name_fits :
    (encode_wide : List ℕ → List ℕ) (sid : ℕ) (name : List ℕ)
    → let units = length (encode_wide (to_nt_path sid name)) in
      (nt_name encode_wide sid name ≡ err invalid_config × (32766 < units))
      ⊎ ((n : NtName) × (nt_name encode_wide sid name ≡ ok n)
          × (n.byte_length ≡ 2 * units)
          × (n.maximum_length ≡ 2 * length n.wide)
          × (n.maximum_length < 2 ^ 16))
unfolding nt_name
nt_name_fits encode_wide sid name =
    let path = encode_wide (to_nt_path sid name) in
    let whole = length-append path (0 ∷ []) in
    elim (Bool-cases (ltb max_nt_name_units (length (path ++ 0 ∷ []) - 1))) [
      | inl long ↦ inl (rw long refl, omega (arith, whole, ltb→lt _ _ long))
      | inr short ↦ inr (
        record {
          wide = path ++ 0 ∷ [];
          byte_length = as_u16 ((length (path ++ 0 ∷ []) - 1) * 2);
          maximum_length = as_u16 (as_u16 ((length (path ++ 0 ∷ []) - 1) * 2) + 2);
        },
        rw short refl,
        ground (arith, whole, short),
        ground (arith, whole, short),
        ground (arith, whole, short),
      )
    ]
