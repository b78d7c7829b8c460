-- ===== src/Protocol/Utf8.antt =====
-- `core::str::from_utf8`: well-formed UTF-8, as the Unicode standard's table of byte ranges has it.
use atlas_io.Base.{
  ℕ, Option, none, some, Bool, true, false, List, [], ◌∷◌, leb, ltb, ◌==◌, ◌&&◌, if◌then◌else◌,
}

-- The range of a byte that must follow.
pub record Span : Type 0 where
  pub lo : ℕ
  pub hi : ℕ

abbrev span : ℕ → ℕ → Span
span lo hi = record { lo = lo; hi = hi }

abbrev tail : Span
tail = span 0x80 0xBF

-- What must follow a first byte.
after_lead : ℕ → Option (List Span)
after_lead b =
    if ltb b 0x80
    then some []
    else if leb 0xC2 b && leb b 0xDF
    then some (tail ∷ [])
    else if b == 0xE0
    then some (span 0xA0 0xBF ∷ tail ∷ [])
    else if b == 0xED
    then some (span 0x80 0x9F ∷ tail ∷ [])
    else if leb 0xE1 b && leb b 0xEF
    then some (tail ∷ tail ∷ [])
    else if b == 0xF0
    then some (span 0x90 0xBF ∷ tail ∷ tail ∷ [])
    else if leb 0xF1 b && leb b 0xF3
    then some (tail ∷ tail ∷ tail ∷ [])
    else if b == 0xF4
    then some (span 0x80 0x8F ∷ tail ∷ tail ∷ [])
    else none

next_byte : List Span → ℕ → Option (List Span)
unfolding after_lead
next_byte [] b = after_lead b
next_byte (s ∷ ss) b = if leb s.lo b && leb b s.hi then some ss else none

valid_from : List Span → List ℕ → Bool
valid_from [] [] = true
valid_from (_ ∷ _) [] = false
valid_from expected (b ∷ bs) = elim (next_byte expected b) [
  | none ↦ false
  | some expected' ↦ valid_from expected' bs
]

unfoldable pub is_utf8 : List ℕ → Bool
unfolding valid_from next_byte
is_utf8 bytes = valid_from [] bytes

unfoldable pub from_utf8 : List ℕ → Option (List ℕ)
from_utf8 bytes = if is_utf8 bytes then some bytes else none
