-- ===== src/Shm/Directory.antt =====
-- The names of shared-memory objects as an association list.
use atlas_io.Base.{
  ℕ, suc, ◌+◌, ◌<◌, ◌≡◌, ◌≢◌, refl, sym, ◌∙◌, Bool, true, false, Option, none, some, List, [], ◌∷◌,
  arith, ◌==◌, ◌&&◌, if◌then◌else◌, Bool-cases, inl, inr,
}

abbrev pub name_eq : List ℕ → List ℕ → Bool
name_eq [] [] = true
name_eq [] (b ∷ bs) = false
name_eq (a ∷ az) [] = false
name_eq (a ∷ az) (b ∷ bs) = (a == b) && name_eq az bs

pub name_eq_refl : (a : List ℕ) → name_eq a a ≡ true
name_eq_refl [] = refl
name_eq_refl (a ∷ az) = ground (arith, name_eq_refl az)

name_eq_sound : (a b : List ℕ) → name_eq a b ≡ true → a ≡ b
name_eq_sound [] [] h = refl
name_eq_sound [] (b ∷ bs) h = absurd (ground arith)
name_eq_sound (a ∷ az) [] h = absurd (ground arith)
name_eq_sound (a ∷ az) (b ∷ bs) h = ground (arith, name_eq_sound az bs)

pub name_eq-other : (a b : List ℕ) → a ≢ b → name_eq a b ≡ false
name_eq-other a b h = elim (Bool-cases (name_eq a b)) [
  | inl e ↦ absurd (h (name_eq_sound a b e))
  | inr e ↦ e
]

abbrev pub lookup : List ℕ → List (List ℕ × ℕ) → Option ℕ
lookup n [] = none
lookup n ((m, o) ∷ rest) = if name_eq n m then some o else lookup n rest

abbrev pub erase : List ℕ → List (List ℕ × ℕ) → List (List ℕ × ℕ)
erase n [] = []
erase n ((m, o) ∷ rest) = if name_eq n m then erase n rest else (m, o) ∷ erase n rest

-- A number that no name has.
abbrev pub unused : List (List ℕ × ℕ) → ℕ
unused [] = 0
unused ((m, o) ∷ rest) = suc (o + unused rest)

pub lookup-erase : (n : List ℕ) (l : List (List ℕ × ℕ)) → lookup n (erase n l) ≡ none
lookup-erase n [] = refl
lookup-erase n ((m, o) ∷ rest) = ground (arith, lookup-erase n rest)

pub lookup-erase_other :
    (n m : List ℕ) (l : List (List ℕ × ℕ)) → m ≢ n → lookup m (erase n l) ≡ lookup m l
lookup-erase_other n m [] h = refl
lookup-erase_other n m ((k, o) ∷ rest) h = elim (Bool-cases (name_eq n k)) [
  | inl e ↦
      let other : name_eq m k ≡ false =
        name_eq-other m k (λ same. h (same ∙ sym (name_eq_sound n k e))) in
      ground (arith, other, lookup-erase_other n m rest h)
  | inr e ↦ ground (arith, lookup-erase_other n m rest h)
]

pub lookup-lt : (n : List ℕ) (o : ℕ) (l : List (List ℕ × ℕ)) → lookup n l ≡ some o → o < unused l
lookup-lt n o [] h = absurd (cc)
lookup-lt n o ((m, p) ∷ rest) h = elim (Bool-cases (name_eq n m)) [
  | inl e ↦ ground arith
  | inr e ↦ let rec = lookup-lt n o rest (ground arith) in omega (arith, rec)
]
