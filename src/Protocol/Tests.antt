-- ===== src/Protocol/Tests.antt =====
-- Runs of atlas-protocol/src/lib.rs, and each theorem at a concrete input.
use atlas_io.Base.{
  ℕ, ◌≤◌, ◌≡◌, ◌↔◌, refl, List, [], ◌∷◌, ◌++◌, some, none, true, arith, replicate, take,
  if◌then◌else◌,
}
use atlas_io.Protocol.{
  IoRequest, «open», write, high, critical, op_from_u8, priority_from_u8, new_request, io_op,
  io_priority, set_path, path_str, zeros,
}
use atlas_io.Protocol.Utf8.{is_utf8, from_utf8}
use atlas_io.Protocol.Codes.{op_from_u8_iff, priority_from_u8_iff, io_op-new_request, from_u8_none}
use atlas_io.Protocol.Paths.{until_nul, path_str-set_path}
use atlas_io.Protocol.Names.{contents, segment_name-injective}

abbrev request : IoRequest
unfolding new_request zeros
request = new_request 1 «open» high

-- The cut at 255 bytes splits the last character.
abbrev cut : List ℕ
cut = replicate 254 b'a' ++ 0xC3 ∷ 0xA9 ∷ []

utf8_ranges :
    (is_utf8 (0xE2 ∷ 0x82 ∷ 0xAC ∷ []) ≡ true)
    × (from_utf8 (0xED ∷ 0xA0 ∷ 0x80 ∷ []) ≡ none)
    × (from_utf8 (0xC0 ∷ 0x80 ∷ []) ≡ none)
    × (from_utf8 (0xC3 ∷ []) ≡ none)
unfolding is_utf8 from_utf8
utf8_ranges = (refl, refl, refl, refl)

cut_is_text : is_utf8 cut ≡ true
unfolding is_utf8
cut_is_text = refl

cut_is_lost : path_str (set_path request cut) ≡ []
unfolding new_request zeros set_path path_str from_utf8 is_utf8
cut_is_lost = refl

op_from_u8_iff_example : (op_from_u8 2 ≡ some write) ↔ ◌≡◌ {A = ℕ} 2 2
op_from_u8_iff_example = op_from_u8_iff 2 write

priority_from_u8_iff_example : (priority_from_u8 2 ≡ some critical) ↔ ◌≡◌ {A = ℕ} 2 2
priority_from_u8_iff_example = priority_from_u8_iff 2 critical

io_op-new_request_example :
    (io_op (new_request 1 write critical) ≡ some write)
    × (io_priority (new_request 1 write critical) ≡ some critical)
io_op-new_request_example = io_op-new_request 1 write critical

from_u8_none_example : ((op_from_u8 9 ≡ none) ↔ (5 ≤ 9)) × ((priority_from_u8 9 ≡ none) ↔ (3 ≤ 9))
from_u8_none_example = from_u8_none 9

path_str-set_path_example :
    path_str (set_path request cut)
    ≡ (let q = until_nul (take 255 cut) in if is_utf8 q then q else [])
unfolding new_request zeros
path_str-set_path_example = path_str-set_path request cut refl

segment_name-injective_example : (contents ≡ contents) × ◌≡◌ {A = ℕ} 12 12
segment_name-injective_example =
    segment_name-injective contents contents 12 12 (omega arith) (omega arith) refl
