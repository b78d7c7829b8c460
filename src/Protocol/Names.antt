-- ===== src/Protocol/Names.antt =====
-- The names of the shared-memory segments.
use Prim.Native.String.{String}
use Prim.Native.Char.{code}
use atlas_io.Base.{
  ℕ, zero, suc, ◌+◌, ◌-◌, ◌*◌, ◌/◌, ◌%◌, ◌<◌, ◌^◌, ◌≡◌, refl, sym, ap, ◌∙◌, List, [], ◌∷◌, ◌++◌,
  arith, ltb, if◌then◌else◌, Bool-cases, inl, inr, u32_mod,
}
use native.Mathlib.Nat.{pow-succ'}

-- The bytes of an ASCII literal.
abbrev pub codes : String → List ℕ
codes String.[] = []
codes (String.◌∷◌ c s) = code c ∷ codes s

-- `{instance_id}` of a `u32`: at most ten decimal digits. `digits` puts those of `n` before `rest`.
digits : ℕ → ℕ → List ℕ → List ℕ
digits zero n rest = rest
digits (suc fuel) n rest =
    let more = digits fuel (n / 10) ((b'0' + n % 10) ∷ rest) in
    if ltb n 10 then (b'0' + n) ∷ rest else more

pub decimal : ℕ → List ℕ
unfolding digits
decimal n = digits 10 n []

-- `SHM_PREFIX`
abbrev shm_prefix : String
shm_prefix = "atlas"

shm_name : String → ℕ → List ℕ
shm_name role instance_id = codes "/" ++ codes shm_prefix ++ codes role ++ decimal instance_id

pub shm_req_name : ℕ → List ℕ
unfolding shm_name
shm_req_name instance_id = shm_name "_req_" instance_id

pub shm_resp_name : ℕ → List ℕ
unfolding shm_name
shm_resp_name instance_id = shm_name "_resp_" instance_id

pub shm_data_name : ℕ → List ℕ
unfolding shm_name
shm_data_name instance_id = shm_name "_data_" instance_id

shm_data_name-twelve : shm_data_name 1207 ≡ codes "/atlas_data_1207"
unfolding shm_data_name decimal
shm_data_name-twelve = refl

-- The number that digits spell, read after `acc`.
value : ℕ → List ℕ → ℕ
value acc [] = acc
value acc (d ∷ ds) = value (acc * 10 + (d - b'0')) ds

-- Every digit is printed, and reading them gives the number back.
value-digits :
    (fuel n : ℕ) (rest : List ℕ) → n < 10 ^ fuel → value 0 (digits fuel n rest) ≡ value n rest
unfolding value digits
value-digits zero n rest h = ap (λ k. value k rest) (omega arith)
value-digits (suc fuel) n rest h = elim (Bool-cases (ltb n 10)) [
  | inl small ↦ rw small (ap (λ k. value k rest) (omega arith))
  | inr big ↦ rw big (
      value-digits fuel (n / 10) ((b'0' + n % 10) ∷ rest) (omega (arith, pow-succ' 10 fuel))
      ∙ ap (λ k. value k rest) (omega arith))
]

value-decimal : (n : ℕ) → n < u32_mod → value 0 (decimal n) ≡ n
unfolding decimal value
value-decimal n h = value-digits 10 n [] (omega arith)

same : (a b : ℕ) → a < u32_mod → b < u32_mod → decimal a ≡ decimal b → a ≡ b
same a b p q e = sym (value-decimal a p) ∙ ap (value 0) e ∙ value-decimal b q

-- The three segments of an instance.
pub data Segment : Type 0 where
  requests responses contents : Segment

abbrev pub segment_name : Segment → ℕ → List ℕ
segment_name requests = shm_req_name
segment_name responses = shm_resp_name
segment_name contents = shm_data_name

strip-req : (a b : ℕ) → shm_req_name a ≡ shm_req_name b → decimal a ≡ decimal b
unfolding shm_req_name
strip-req a b h = cc

strip-resp : (a b : ℕ) → shm_resp_name a ≡ shm_resp_name b → decimal a ≡ decimal b
unfolding shm_resp_name
strip-resp a b h = cc

strip-data : (a b : ℕ) → shm_data_name a ≡ shm_data_name b → decimal a ≡ decimal b
unfolding shm_data_name
strip-data a b h = cc

-- No two segments share a name: neither two segments of one instance, nor those of two instances.
pub segment_name-injective :
    (s t : Segment) (a b : ℕ)
    → a < u32_mod
    → b < u32_mod
    → segment_name s a ≡ segment_name t b
    → (s ≡ t) × (a ≡ b)
unfolding shm_req_name shm_resp_name shm_data_name
segment_name-injective requests requests a b p q h = (refl, same a b p q (strip-req a b h))
segment_name-injective responses responses a b p q h = (refl, same a b p q (strip-resp a b h))
segment_name-injective contents contents a b p q h = (refl, same a b p q (strip-data a b h))
segment_name-injective requests responses a b p q h = ground arith
segment_name-injective requests contents a b p q h = ground arith
segment_name-injective responses requests a b p q h = ground arith
segment_name-injective responses contents a b p q h = ground arith
segment_name-injective contents requests a b p q h = ground arith
segment_name-injective contents responses a b p q h = ground arith
