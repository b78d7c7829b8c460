-- ===== src/Service/Descriptors.antt =====
-- The `HashMap` of atlas-service/src/service.rs, from the descriptors that clients hold to those of
-- the operating system, as an association list.
use atlas_io.Base.{
  ℕ, ℤ, false, Option, none, some, List, [], ◌∷◌, ◌==◌, if◌then◌else◌, ◌≡◌, ◌≢◌, refl, Bool-cases,
  inl, inr, ==_refl, ne→==, arith,
}

abbrev pub FdTable : Type 0
FdTable = List (ℕ × ℤ)

abbrev pub get : ℕ → FdTable → Option ℤ
get vfd [] = none
get vfd ((k, fd) ∷ t) = if vfd == k then some fd else get vfd t

-- `HashMap::remove`: the table that is left; `get` before it is what it returns.
abbrev pub remove : ℕ → FdTable → FdTable
remove vfd [] = []
remove vfd ((k, fd) ∷ t) = if vfd == k then remove vfd t else (k, fd) ∷ remove vfd t

abbrev pub insert : ℕ → ℤ → FdTable → FdTable
insert vfd fd t = (vfd, fd) ∷ remove vfd t

pub get-remove : (vfd : ℕ) (t : FdTable) → get vfd (remove vfd t) ≡ none
get-remove vfd [] = refl
get-remove vfd ((k, fd) ∷ t) = elim (Bool-cases (vfd == k)) [
  | inl h ↦ rw h (get-remove vfd t)
  | inr h ↦ rw (h, h) (get-remove vfd t)
]

pub get-remove_ne : (v vfd : ℕ) (t : FdTable) → v ≢ vfd → get v (remove vfd t) ≡ get v t
get-remove_ne v vfd [] n = refl
get-remove_ne v vfd ((k, fd) ∷ t) n = elim (Bool-cases (vfd == k)) [
  | inl h ↦ let other : (v == k) ≡ false = ground arith in rw (h, other) (get-remove_ne v vfd t n)
  | inr h ↦ elim (Bool-cases (v == k)) [
    | inl same ↦ rw (h, same) refl
    | inr other ↦ rw (h, other) (get-remove_ne v vfd t n)
  ]
]

pub get-insert : (vfd : ℕ) (fd : ℤ) (t : FdTable) → get vfd (insert vfd fd t) ≡ some fd
get-insert vfd fd t = rw (==_refl vfd) refl

pub get-insert_ne : (v vfd : ℕ) (fd : ℤ) (t : FdTable) → v ≢ vfd → get v (insert vfd fd t) ≡ get v t
get-insert_ne v vfd fd t n = rw (ne→== v vfd n) (get-remove_ne v vfd t n)
