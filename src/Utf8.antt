-- ===== src/Utf8.antt =====
-- `String` as its UTF-8 bytes, and `String::from_utf8_lossy`, which src/dispatch/protocol.rs uses on
-- names that come from another process.
use xshm.Prelude.{
  ℕ, zero, suc, ◌≤◌, ◌<◌, ◌≡◌, refl, arith, ◌⊎◌, Bool, ltb, leb, ◌==◌, ◌&&◌, if◌then◌else◌, List,
  [], ◌∷◌, ◌++◌,
}

-- The bytes of a sequence that has begun, the range of the next byte, and how many follow it.
pub data Decoder : Type 0 where
  start : Decoder
  within : (seen : List ℕ) (lo hi more : ℕ) → Decoder

-- U+FFFD
abbrev pub replacement : List ℕ
replacement = 0xEF ∷ 0xBF ∷ 0xBD ∷ []

abbrev in_range : ℕ → ℕ → ℕ → Bool
in_range lo hi b = leb lo b && leb b hi

-- A byte where a sequence may begin: what it gives at once, and the decoder after it.
lead : ℕ → List ℕ × Decoder
lead b =
    if ltb b 0x80
    then (b ∷ [], start)
    else if in_range 0xC2 0xDF b
    then ([], within (b ∷ []) 0x80 0xBF 0)
    else if b == 0xE0
    then ([], within (b ∷ []) 0xA0 0xBF 1)
    else if b == 0xED
    then ([], within (b ∷ []) 0x80 0x9F 1)
    else if in_range 0xE1 0xEF b
    then ([], within (b ∷ []) 0x80 0xBF 1)
    else if b == 0xF0
    then ([], within (b ∷ []) 0x90 0xBF 2)
    else if in_range 0xF1 0xF3 b
    then ([], within (b ∷ []) 0x80 0xBF 2)
    else if b == 0xF4
    then ([], within (b ∷ []) 0x80 0x8F 2)
    else (replacement, start)

-- A byte that does not continue the sequence ends it as one U+FFFD, and may begin another.
feed : Decoder → ℕ → List ℕ × Decoder
unfolding lead
feed start b = lead b
feed (within seen lo hi zero) b =
    if in_range lo hi b then (seen ++ b ∷ [], start) else (replacement ++ (lead b).0, (lead b).1)
feed (within seen lo hi (suc more)) b =
    if in_range lo hi b
    then ([], within (seen ++ b ∷ []) 0x80 0xBF more)
    else (replacement ++ (lead b).0, (lead b).1)

decode : Decoder → List ℕ → List ℕ
unfolding feed
decode start [] = []
decode (within seen lo hi more) [] = replacement
decode d (b ∷ bytes) = (feed d b).0 ++ decode (feed d b).1 bytes

unfoldable pub from_utf8_lossy : List ℕ → List ℕ
unfolding decode
from_utf8_lossy bytes = decode start bytes

abbrev Continues : ℕ → Type 0
Continues b = (0x80 ≤ b) × (b ≤ 0xBF)

-- The second byte after a given first byte, in a sequence of three and in one of four.
abbrev Second3 : ℕ → ℕ → Type 0
Second3 a b =
    (a ≡ 0xE0) × (0xA0 ≤ b) × (b ≤ 0xBF)
    ⊎ ((0xE1 ≤ a) × (a ≤ 0xEF) × (a ≡ 0xED → b ≤ 0x9F) × (0x80 ≤ b) × (b ≤ 0xBF))

abbrev Second4 : ℕ → ℕ → Type 0
Second4 a b =
    (a ≡ 0xF0) × (0x90 ≤ b) × (b ≤ 0xBF)
    ⊎ ((0xF1 ≤ a) × (a ≤ 0xF4) × (a ≡ 0xF4 → b ≤ 0x8F) × (0x80 ≤ b) × (b ≤ 0xBF))

-- Well-formed UTF-8, by the table of the Unicode standard: the bytes that a `String` can have.
pub data IsUtf8 : List ℕ → Type 0 where
  empty : IsUtf8 []
  one : {a : ℕ} {rest : List ℕ} → a < 0x80 → IsUtf8 rest → IsUtf8 (a ∷ rest)
  two :
      {a b : ℕ} {rest : List ℕ}
      → 0xC2 ≤ a
      → a ≤ 0xDF
      → Continues b
      → IsUtf8 rest
      → IsUtf8 (a ∷ b ∷ rest)
  three :
      {a b c : ℕ} {rest : List ℕ}
      → Second3 a b
      → Continues c
      → IsUtf8 rest
      → IsUtf8 (a ∷ b ∷ c ∷ rest)
  four :
      {a b c d : ℕ} {rest : List ℕ}
      → Second4 a b
      → Continues c
      → Continues d
      → IsUtf8 rest
      → IsUtf8 (a ∷ b ∷ c ∷ d ∷ rest)

-- Decoding leaves well-formed bytes as they are.
pub from_utf8_lossy-IsUtf8 : {bytes : List ℕ} → IsUtf8 bytes → from_utf8_lossy bytes ≡ bytes
unfolding from_utf8_lossy
from_utf8_lossy-IsUtf8 empty = refl
from_utf8_lossy-IsUtf8 (one h r) = ground (arith, from_utf8_lossy-IsUtf8 r)
from_utf8_lossy-IsUtf8 (two lo hi b r) = ground (arith, from_utf8_lossy-IsUtf8 r)
from_utf8_lossy-IsUtf8 (three s c r) = ground (arith, from_utf8_lossy-IsUtf8 r)
from_utf8_lossy-IsUtf8 (four s c d r) = ground (arith, from_utf8_lossy-IsUtf8 r)
