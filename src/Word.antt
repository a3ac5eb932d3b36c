-- ===== src/Word.antt =====
-- Fixed-width integers of the Rust sources: wrapping arithmetic, little-endian bytes, and `i64` as
-- a signed number.
use xshm.Prelude.{
  ℕ, ◌+◌, ◌-◌, ◌*◌, ◌/◌, ◌%◌, ◌^◌, ◌<◌, ◌≡◌, arith, Bool, true, ltb, leb, if◌then◌else◌, List, [],
  ◌∷◌,
}

-- `u32::wrapping_add`, and `fetch_add` on an `AtomicU32`
abbrev pub wrapping_add : ℕ → ℕ → ℕ
wrapping_add a b = (a + b) % 2 ^ 32

-- `u32::wrapping_sub`, and `fetch_sub` on an `AtomicU32`
abbrev pub wrapping_sub : ℕ → ℕ → ℕ
wrapping_sub a b = (a + 2 ^ 32 - b) % 2 ^ 32

-- `as u16`, `as u32`
abbrev pub as_u16 : ℕ → ℕ
as_u16 n = n % 2 ^ 16

abbrev pub as_u32 : ℕ → ℕ
as_u32 n = n % 2 ^ 32

-- `u16::to_le_bytes` and `u32::to_le_bytes`
abbrev pub u16_to_le_bytes : ℕ → List ℕ
u16_to_le_bytes n = n % 256 ∷ (n / 256 % 256) ∷ []

abbrev pub u32_to_le_bytes : ℕ → List ℕ
u32_to_le_bytes n = n % 256 ∷ (n / 256 % 256) ∷ (n / 65536 % 256) ∷ (n / 16777216 % 256) ∷ []

abbrev pub u16_from_le_bytes : ℕ → ℕ → ℕ
u16_from_le_bytes a b = a + 256 * b

abbrev pub u32_from_le_bytes : ℕ → ℕ → ℕ → ℕ → ℕ
u32_from_le_bytes a b c d = a + 256 * b + 65536 * c + 16777216 * d

pub u16_le_roundtrip : (n : ℕ) → n < 2 ^ 16 → u16_from_le_bytes (n % 256) (n / 256 % 256) ≡ n
u16_le_roundtrip n h = omega arith

pub u32_le_roundtrip :
    (n : ℕ)
    → n < 2 ^ 32
    → u32_from_le_bytes (n % 256) (n / 256 % 256) (n / 65536 % 256) (n / 16777216 % 256) ≡ n
u32_le_roundtrip n h = omega arith

-- `negsuc n` is -(n + 1).
pub data ℤ : Type 0 where
  pos : ℕ → ℤ
  negsuc : ℕ → ℤ

-- `a as i64 - b as i64`
abbrev pub sub_ℕ : ℕ → ℕ → ℤ
sub_ℕ a b = if leb b a then pos (a - b) else negsuc (b - a - 1)

-- `a < b as i64` for an unsigned `b`
abbrev pub ltℤ : ℤ → ℕ → Bool
ltℤ (pos a) b = ltb a b
ltℤ (negsuc a) b = true

pub ltℤ-sub_ℕ : (a b c : ℕ) → ltℤ (sub_ℕ a b) c ≡ ltb a (b + c)
ltℤ-sub_ℕ a b c = ground arith
