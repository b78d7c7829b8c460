-- ===== src/Protocol/Paths.antt =====
-- `set_path` and `path_str`: the path of a request, as the service reads it.
use atlas_io.Base.{
  ℕ, zero, suc, ◌≤◌, ◌<◌, ◌≡◌, ◌≢◌, refl, sym, ap, ap₂, ◌∙◌, inl, inr, min, List, [], ◌∷◌, ◌++◌,
  true, arith, length, take, drop, set, All, ◌==◌, if◌then◌else◌, Bool-cases, length-take,
  take_of_length_le, none, some, ne→==,
}
use native.Mathlib.Decide.{dec_le}
use atlas_io.Protocol.{IoRequest, max_path_len, position_of_zero, unwrap_or, set_path, path_str}
use atlas_io.Protocol.Utf8.{is_utf8, from_utf8}

-- The bytes before the first NUL.
pub until_nul : List ℕ → List ℕ
until_nul [] = []
until_nul (b ∷ bs) = if b == 0 then [] else b ∷ until_nul bs

-- The first NUL of a buffer in which one follows `q`.
position-append :
    (q rest : List ℕ)
    → (i : ℕ) × (position_of_zero (q ++ 0 ∷ rest) ≡ some i) × (take i (q ++ 0 ∷ rest) ≡ until_nul q)
unfolding until_nul
position-append [] rest = (0, refl, refl)
position-append (b ∷ bs) rest = elim (Bool-cases (b == 0)) [
  | inl nul ↦ (0, rw nul, rw nul)
  | inr more ↦
      let (i, at, same) = position-append bs rest in
      (suc i, rw (more, at), rw more (ap (◌∷◌ b) same))
]

set-append : {A : Type 0} (q ys : List A) (y v : A) → set (q ++ y ∷ ys) (length q) v ≡ q ++ v ∷ ys
set-append [] ys y v = refl
set-append (x ∷ q) ys y v = ap (◌∷◌ x) (set-append q ys y v)

drop-cons :
    {A : Type 0} (n : ℕ) (xs : List A) → n < length xs → (y : A) × (drop n xs ≡ y ∷ drop (suc n) xs)
drop-cons n [] h = absurd (omega arith)
drop-cons zero (x ∷ xs) h = (x, refl)
drop-cons (suc n) (x ∷ xs) h = drop-cons n xs (omega arith)

take-min : {A : Type 0} (m : ℕ) (xs : List A) → take (min (length xs) m) xs ≡ take m xs
take-min m xs = elim (dec_le (length xs) m) [
  | yes le ↦
      let whole : min (length xs) m ≡ length xs = omega arith in
      ap (λ k. take k xs) whole
      ∙ take_of_length_le (length xs) xs (omega arith)
      ∙ sym (take_of_length_le m xs le)
  | no gt ↦ let short : min (length xs) m ≡ m = omega arith in ap (λ k. take k xs) short
]

-- What `set_path` leaves in the buffer: the bytes that fit, then a NUL, then what was there.
path-set_path :
    (r : IoRequest) (bytes : List ℕ)
    → length r.path ≡ max_path_len
    → (rest : List ℕ) × ((set_path r bytes).path ≡ take 255 bytes ++ 0 ∷ rest)
unfolding set_path
path-set_path r bytes full =
    let n = min (length bytes) 255 in
    let kept = take-min 255 bytes in
    let room : n < length r.path = omega (arith, full) in
    let (y, cut) = drop-cons n r.path room in
    let count : length (take 255 bytes) ≡ n = omega (arith, length-take 255 bytes) in
    (
      drop (suc n) r.path,
      ap (λ q. set (q ++ drop n r.path) n 0) kept
          ∙ ap₂ (λ ys k. set (take 255 bytes ++ ys) k 0) cut (sym count)
          ∙ set-append (take 255 bytes) (drop (suc n) r.path) y 0,
    )

-- What the service reads of any path that the client has set: its first 255 bytes, up to a NUL,
-- if that is well-formed UTF-8, and the empty path if it is not.
pub path_str-set_path :
    (r : IoRequest) (bytes : List ℕ)
    → length r.path ≡ max_path_len
    → path_str (set_path r bytes)
      ≡ (let q = until_nul (take 255 bytes) in if is_utf8 q then q else [])
unfolding path_str from_utf8
path_str-set_path r bytes full =
    let (rest, buffer) = path-set_path r bytes full in
    let (i, at, same) = position-append (take 255 bytes) rest in
    rw (buffer, at, same, text (until_nul (take 255 bytes)))
  where
    text :
        (q : List ℕ)
        → unwrap_or (if is_utf8 q then some q else none) [] ≡ (if is_utf8 q then q else [])
    text q = elim (Bool-cases (is_utf8 q)) [ inl e ↦ rw e | inr e ↦ rw e ]

until_nul-eq : (q : List ℕ) → All (λ b. b ≢ 0) q → until_nul q ≡ q
unfolding until_nul
until_nul-eq [] h = refl
until_nul-eq (b ∷ bs) h = rw (ne→== b 0 h.0) (ap (◌∷◌ b) (until_nul-eq bs h.1))

-- A path of at most 255 bytes with no NUL, which is text, arrives as it was sent.
pub path_str-set_path_short :
    (r : IoRequest) (bytes : List ℕ)
    → length r.path ≡ max_path_len
    → length bytes ≤ 255
    → All (λ b. b ≢ 0) bytes
    → is_utf8 bytes ≡ true
    → path_str (set_path r bytes) ≡ bytes
path_str-set_path_short r bytes full fits solid text =
    path_str-set_path r bytes full
    ∙ rw (take_of_length_le 255 bytes fits, until_nul-eq bytes solid, text)
