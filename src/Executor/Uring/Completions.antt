-- ===== src/Executor/Uring/Completions.antt =====
-- What `IoUringExecutor` makes of completions, whatever their order.
use atlas_io.Base.{
  ℕ, zero, suc, ◌+◌, ◌-◌, ◌<◌, ℤ, pos, ◌≡◌, ◌≢◌, refl, sym, ap, ap₂, ◌∙◌, subst, true, ◌&&◌, Option,
  some, List, [], ◌∷◌, length, get_elem?, All, ltb, leb, arith, Bool-cases, inl, inr, ◌==◌, ==→eq,
  ==_false→ne, lt_of_get_elem?, ◌⊎◌,
}
use atlas_io.Executor.{BatchKind, BatchOp}
use atlas_io.Executor.Uring.{Cqe, set_result, reap}
use atlas_io.Executor.Uring.Reap.{set_result-length, reap_one}

get-set_result :
    (ops : List BatchOp) (i : ℕ) (r : ℤ) {op : BatchOp}
    → get_elem? ops i ≡ some op
    → get_elem? (set_result ops i r) i ≡ some (record op { result = r })
get-set_result [] i r h = absurd (cc)
get-set_result (x ∷ ops) zero r h = ground arith
get-set_result (x ∷ ops) (suc i) r h = get-set_result ops i r h

get-set_result_ne :
    (ops : List BatchOp) (i j : ℕ) (r : ℤ)
    → i ≢ j
    → get_elem? (set_result ops j r) i ≡ get_elem? ops i
get-set_result_ne [] i j r h = refl
get-set_result_ne (x ∷ ops) zero zero r h = absurd (h refl)
get-set_result_ne (x ∷ ops) zero (suc j) r h = refl
get-set_result_ne (x ∷ ops) (suc i) zero r h = refl
get-set_result_ne (x ∷ ops) (suc i) (suc j) r h = get-set_result_ne ops i j r (λ e. h (ap suc e))

-- The completions of a chunk: each carries the outcome of the entry that has its tag, and each
-- entry has one.
pub record Answered (outcome : ℕ → ℤ) (base count : ℕ) (cqes : List Cqe) : Type 0 where
  pub faithful : All (λ c. c.result ≡ outcome c.user_data) cqes
  pub complete :
      (i : ℕ)
      → i < count
      → (j : ℕ) × (get_elem? cqes j
          ≡ some (record { user_data = base + i; result = outcome (base + i) }))

-- The chunk with its outcomes.
abbrev pub answered : (ℕ → ℤ) → ℕ → List BatchOp → List BatchOp
answered outcome base [] = []
answered outcome base (op ∷ ops) =
    record op { result = outcome base } ∷ answered outcome (suc base) ops

module _ (outcome : ℕ → ℤ) (base : ℕ) where
  -- The operation at an index has its outcome.
  abbrev Done : List BatchOp → ℕ → BatchKind → Type 0
  Done ops i k = get_elem? ops i ≡ some (record { kind = k; result = outcome (base + i) })

  -- The entry at an index, whatever its result is.
  abbrev There : List BatchOp → ℕ → BatchKind → Type 0
  There ops i k = (r : ℤ) × (get_elem? ops i ≡ some (record { kind = k; result = r }))

  reap_one-length : (ops : List BatchOp) (c : Cqe) → length (reap_one base ops c) ≡ length ops
  reap_one-length ops c =
      elim (Bool-cases (leb base c.user_data && ltb c.user_data (base + length ops))) [
        | inl h ↦ rw h (set_result-length ops (c.user_data - base) c.result)
        | inr h ↦ rw h refl
      ]

  -- A completion changes the operation of its tag and no other.
  reap_one-get :
      (ops : List BatchOp) (c : Cqe) (i : ℕ) {op : BatchOp}
      → get_elem? ops i ≡ some op
      → (get_elem? (reap_one base ops c) i ≡ some op)
        ⊎ ((c.user_data ≡ base + i)
            × (get_elem? (reap_one base ops c) i ≡ some (record op { result = c.result })))
  reap_one-get ops c i h =
      elim (Bool-cases (leb base c.user_data && ltb c.user_data (base + length ops))) [
        | inl test ↦ elim (Bool-cases (i == c.user_data - base)) [
          | inl same ↦
              let e = ==→eq i (c.user_data - base) same in
              inr (ground arith, rw (test, sym e) (get-set_result ops i c.result h))
          | inr other ↦ inl (
              rw test
                (get-set_result_ne ops i (c.user_data - base) c.result (==_false→ne i _ other) ∙ h))
        ]
        | inr test ↦ inl (rw test h)
      ]

  reap_one-Done :
      (ops : List BatchOp) (c : Cqe) (i : ℕ) (k : BatchKind)
      → c.result ≡ outcome c.user_data
      → Done ops i k
      → Done (reap_one base ops c) i k
  reap_one-Done ops c i k f d = elim (reap_one-get ops c i d) [
    | inl same ↦ same
    | inr (tag, set) ↦ set ∙ ap (λ r. some (record { kind = k; result = r })) (f ∙ ap outcome tag)
  ]

  reap_one-There :
      (ops : List BatchOp) (c : Cqe) (i : ℕ) (k : BatchKind)
      → There ops i k
      → There (reap_one base ops c) i k
  reap_one-There ops c i k (r, h) = elim (reap_one-get ops c i h) [
    | inl same ↦ (r, same)
    | inr (tag, set) ↦ (c.result, set)
  ]

  reap_one_hit :
      (ops : List BatchOp) (i : ℕ) (k : BatchKind)
      → There ops i k
      → Done (reap_one base ops (record { user_data = base + i; result = outcome (base + i) })) i k
  reap_one_hit ops i k (r, h) =
      let inside = lt_of_get_elem? ops i h in
      let test : leb base (base + i) && ltb (base + i) (base + length ops) ≡ true = ground arith in
      let back : base + i - base ≡ i = omega arith in
      rw (test, back) (get-set_result ops i (outcome (base + i)) h)

  reap-Done :
      (ops : List BatchOp) (cqes : List Cqe) (i : ℕ) (k : BatchKind)
      → All (λ c. c.result ≡ outcome c.user_data) cqes
      → Done ops i k
      → Done (reap base ops cqes) i k
  unfolding reap
  reap-Done ops [] i k f d = d
  reap-Done ops (c ∷ cqes) i k f d =
      reap-Done (reap_one base ops c) cqes i k f.1 (reap_one-Done ops c i k f.0 d)

  reap-There :
      (ops : List BatchOp) (cqes : List Cqe) (i j : ℕ) (k : BatchKind)
      → All (λ c. c.result ≡ outcome c.user_data) cqes
      → get_elem? cqes j ≡ some (record { user_data = base + i; result = outcome (base + i) })
      → There ops i k
      → Done (reap base ops cqes) i k
  unfolding reap
  reap-There ops [] i j k f h t = absurd (cc)
  reap-There ops (c ∷ cqes) i zero k f h t =
      let e : record { user_data = base + i; result = outcome (base + i) } ≡ c = cc in
      reap-Done (reap_one base ops c) cqes i k f.1
        (subst (λ c. Done (reap_one base ops c) i k) e (reap_one_hit ops i k t))
  reap-There ops (c ∷ cqes) i (suc j) k f h t =
      reap-There (reap_one base ops c) cqes i j k f.1 h (reap_one-There ops c i k t)

reap-length :
    (base : ℕ) (ops : List BatchOp) (cqes : List Cqe) → length (reap base ops cqes) ≡ length ops
unfolding reap
reap-length base ops [] = refl
reap-length base ops (c ∷ cqes) =
    reap-length base (reap_one base ops c) cqes ∙ reap_one-length (λ _. pos 0) base ops c

-- A list in which every operation has its outcome is `answered`.
eq-answered :
    (outcome : ℕ → ℤ) (base : ℕ) (zs ops : List BatchOp)
    → length zs ≡ length ops
    → ((i : ℕ) (op : BatchOp) → get_elem? ops i ≡ some op → Done outcome base zs i op.kind)
    → zs ≡ answered outcome base ops
eq-answered outcome base [] [] n h = refl
eq-answered outcome base [] (op ∷ ops) n h = absurd (omega arith)
eq-answered outcome base (z ∷ zs) [] n h = absurd (omega arith)
eq-answered outcome base (z ∷ zs) (op ∷ ops) n h =
    let e = h 0 op refl in
    let here : base + 0 ≡ base = omega arith in
    let first : z ≡ record op { result = outcome base } =
      let e' =
        e
        ∙ ap {B = Option BatchOp} (λ b. some (record { kind = op.kind; result = outcome b }))
            here in
      cc in
    ap₂ ◌∷◌ first (
      eq-answered outcome (suc base) zs ops (omega arith) (λ i op' g.
        let next : base + suc i ≡ suc base + i = omega arith in
        h (suc i) op' g
        ∙ ap {B = Option BatchOp} (λ b. some (record { kind = op'.kind; result = outcome b }))
            next))

-- If every completion carries the outcome of the entry with its tag and every entry of the chunk
-- has one, then each operation ends with its own outcome: the order of the completions, repeated
-- ones and those of other chunks make no difference.
pub reap-answered :
    (outcome : ℕ → ℤ) (base : ℕ) (ops : List BatchOp) (cqes : List Cqe)
    → Answered outcome base (length ops) cqes
    → reap base ops cqes ≡ answered outcome base ops
reap-answered outcome base ops cqes a =
    eq-answered outcome base (reap base ops cqes) ops (reap-length base ops cqes) (λ i op g.
      let (j, found) = a.complete i (lt_of_get_elem? ops i g) in
      reap-There outcome base ops cqes i j op.kind a.faithful found (op.result, g))
