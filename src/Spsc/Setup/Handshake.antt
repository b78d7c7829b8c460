-- ===== src/Spsc/Setup/Handshake.antt =====
-- `init_in_place` in one process and `attach` in another.
use atlas_io.Base.{
  ℕ, zero, suc, ◌+◌, ◌%◌, ◌≤◌, ◌<◌, ◌≡◌, refl, ap, true, ◌⊎◌, inl, inr, ◌∷◌, arith, get_or,
  Bool-cases, ◌==◌,
}
use native.Mathlib.Decide.{dec_lt}
use atlas_io.Base.Bits.{is_power_of_two, IsPower, IsPower-pos, is_power_of_two-IsPower}
use atlas_io.Spsc.{SpscRing}
use atlas_io.Spsc.Setup.{
  magic_word, returned, ok, err, uninitialized, init_stores, last_or, init_in_place, attach_rounds,
  attach_loop, attach,
}

module _ {A : Type 0} where
  -- The memory after `k` of the stores of `init_in_place`, or after all of them.
  abbrev pub stage : ℕ → SpscRing A → ℕ → SpscRing A
  stage n r k = get_or (r ∷ init_stores n r) k (last_or r (init_stores n r))

  -- What `init_in_place` accepts has a power of two for its capacity, and it leaves a ring with the
  -- right magic and capacity and its slots untouched: zeroed memory becomes an empty ring, and a
  -- ring that is there already stays as it is.
  pub init_in_place_lem :
      (n ptr : ℕ) (r : SpscRing A) {s : SpscRing A}
      → init_in_place n ptr r ≡ returned s
      → IsPower n
        × (s.magic ≡ magic_word)
        × (s.capacity ≡ n)
        × (s.slots ≡ r.slots)
        × (((r.magic ≡ 0) × (s.tail ≡ 0) × (s.head ≡ 0)) ⊎ ((r.magic ≡ magic_word) × (s ≡ r)))
  unfolding init_in_place init_stores
  init_in_place_lem n ptr r h = elim (Bool-cases (is_power_of_two n)) [
    | inl p ↦ (is_power_of_two-IsPower n p, ground arith, ground arith, ground arith, ground arith)
    | inr p ↦ absurd (ground arith)
  ]

  -- Zeroed memory becomes an empty ring.
  pub init_in_place_zeroed :
      (n ptr : ℕ) (r : SpscRing A) {s : SpscRing A}
      → r.magic ≡ 0
      → init_in_place n ptr r ≡ returned s
      → IsPower n × (s.tail ≡ 0) × (s.head ≡ 0)
  init_in_place_zeroed n ptr r z h = ground (arith, init_in_place_lem n ptr r h)

  -- The ring that `init_in_place` makes of zeroed memory.
  abbrev pub fresh : ℕ → SpscRing A → SpscRing A
  fresh n r = record r { magic = magic_word; capacity = n; tail = 0; head = 0 }

  pub init_in_place_fresh :
      (n ptr : ℕ) (r : SpscRing A)
      → is_power_of_two n ≡ true
      → ptr % 128 ≡ 0
      → r.magic ≡ 0
      → init_in_place n ptr r ≡ returned (fresh n r)
  unfolding init_in_place init_stores
  init_in_place_fresh n ptr r p a z = ground (arith, IsPower-pos (is_power_of_two-IsPower n p))

  -- Until the last store the magic is zero; from then on the ring is complete.
  magic-stage_before : (n k : ℕ) (r : SpscRing A) → r.magic ≡ 0 → k < 4 → (stage n r k).magic ≡ 0
  unfolding init_stores
  magic-stage_before n zero r z h = z
  magic-stage_before n (suc zero) r z h = z
  magic-stage_before n (suc (suc zero)) r z h = z
  magic-stage_before n (suc (suc (suc zero))) r z h = z
  magic-stage_before n (suc (suc (suc (suc k)))) r z h = absurd (omega arith)

  stage_after :
      (n k : ℕ) (r : SpscRing A)
      → 4 ≤ k
      → ((stage n r k).magic ≡ magic_word) × ((stage n r k).capacity ≡ n)
  unfolding init_stores
  stage_after n zero r h = absurd (omega arith)
  stage_after n (suc zero) r h = absurd (omega arith)
  stage_after n (suc (suc zero)) r h = absurd (omega arith)
  stage_after n (suc (suc (suc zero))) r h = absurd (omega arith)
  stage_after n (suc (suc (suc (suc zero)))) r h = (refl, refl)
  stage_after n (suc (suc (suc (suc (suc k))))) r h = (refl, refl)

  module _ (n : ℕ) (seen later : ℕ → SpscRing A) where
    -- What a round may find while the peer does nothing but `init_in_place`.
    abbrev Clean : ℕ → Type 0
    Clean j = ((seen j).magic ≡ 0) ⊎ (((seen j).magic ≡ magic_word) × ((later j).capacity ≡ n))

    attach_loop_waits :
        (rounds i k : ℕ)
        → ((j : ℕ) → Clean j)
        → i ≤ k
        → k < i + rounds
        → (seen k).magic ≡ magic_word
        → attach_loop n rounds i seen later ≡ ok
    unfolding attach_loop
    attach_loop_waits zero i k clean le lt done = absurd (omega arith)
    attach_loop_waits (suc rounds) i k clean le lt done = elim (dec_lt i k) [
      | yes more ↦ ground (
        arith,
        clean i,
        attach_loop_waits rounds (i + 1) k clean (omega arith) (omega arith) done,
      )
      | no here ↦
          let same : i ≡ k = omega arith in ground (arith, clean i, ap (λ j. (seen j).magic) same)
    ]

    attach_loop_gives_up :
        (rounds i : ℕ)
        → ((j : ℕ) → (seen j).magic ≡ 0)
        → attach_loop n rounds i seen later ≡ err uninitialized
    unfolding attach_loop
    attach_loop_gives_up zero i z = refl
    attach_loop_gives_up (suc rounds) i z =
        ground (arith, z i, attach_loop_gives_up rounds (i + 1) z)

    attach_loop_sound :
        (rounds i : ℕ)
        → attach_loop n rounds i seen later ≡ ok
        → (k : ℕ) × (i ≤ k)
          × (k < i + rounds)
          × ((seen k).magic ≡ magic_word)
          × ((later k).capacity ≡ n)
    unfolding attach_loop
    attach_loop_sound zero i h = absurd (cc)
    attach_loop_sound (suc rounds) i h = elim (Bool-cases ((seen i).magic == magic_word)) [
      | inl hit ↦ (i, omega arith, omega arith, ground arith, ground arith)
      | inr miss ↦
          let (k, le, lt, m, c) = attach_loop_sound rounds (i + 1) (ground arith) in
          (k, omega arith, omega arith, m, c)
    ]

    -- `attach` accepts a segment only if one of its million rounds found the ring magic, and after
    -- it the right capacity, at an aligned address and for a power of two.
    pub attach_sound :
        (ptr : ℕ)
        → attach n ptr seen later ≡ returned ok
        → IsPower n
          × (ptr % 128 ≡ 0)
          × (k : ℕ) × (k < attach_rounds)
          × ((seen k).magic ≡ magic_word)
          × ((later k).capacity ≡ n)
    unfolding attach
    attach_sound ptr h = elim (Bool-cases (is_power_of_two n)) [
      | inl p ↦
          let (k, _, lt, m, c) = attach_loop_sound attach_rounds 0 (ground arith) in
          (is_power_of_two-IsPower n p, ground arith, k, omega arith, m, c)
      | inr p ↦ absurd (ground arith)
    ]

  module _ (n ptr : ℕ) (r : SpscRing A) (zeroed : r.magic ≡ 0) (at later : ℕ → ℕ)
      (order : (j : ℕ) → at j ≤ later j) where
    stage-Clean : (j : ℕ) → Clean n (λ i. stage n r (at i)) (λ i. stage n r (later i)) j
    stage-Clean j = elim (dec_lt (at j) 4) [
      | yes before ↦ inl (magic-stage_before n (at j) r zeroed before)
      | no after ↦
          let done : 4 ≤ at j = omega arith in
          let done' : 4 ≤ later j = omega (arith, order j) in
          inr ((stage_after n (at j) r done).0, (stage_after n (later j) r done').1)
    ]

    -- The peer attaches while `init_in_place` works on zeroed memory, its loads falling between any
    -- of the stores (round `j` loads the magic after `at j` stores and the capacity after
    -- `later j`). If one of the million rounds comes after the last store, `attach` succeeds, and
    -- no earlier round stops it with an error.
    pub attach_during_init :
        (k : ℕ)
        → is_power_of_two n ≡ true
        → ptr % 128 ≡ 0
        → k < attach_rounds
        → 4 ≤ at k
        → attach n ptr (λ j. stage n r (at j)) (λ j. stage n r (later j)) ≡ returned ok
    unfolding attach
    attach_during_init k p a lt done = ground (
      arith,
      IsPower-pos (is_power_of_two-IsPower n p),
      attach_loop_waits n (λ j. stage n r (at j)) (λ j. stage n r (later j)) attach_rounds 0 k
          stage-Clean (omega arith) (omega arith) (stage_after n (at k) r done).0,
    )

    -- If `init_in_place` never gets to its last store, `attach` gives up after its rounds.
    pub attach_before_init :
        is_power_of_two n ≡ true
        → ptr % 128 ≡ 0
        → ((j : ℕ) → at j < 4)
        → attach n ptr (λ j. stage n r (at j)) (λ j. stage n r (later j))
          ≡ returned (err uninitialized)
    unfolding attach
    attach_before_init p a never = ground (
      arith,
      IsPower-pos (is_power_of_two-IsPower n p),
      attach_loop_gives_up n (λ j. stage n r (at j)) (λ j. stage n r (later j)) attach_rounds 0
          (λ j. magic-stage_before n (at j) r zeroed (never j)),
    )

module _ {A : Type 0} where
  -- A ring that is ready is accepted in the first round.
  pub attach_ready :
      (n ptr : ℕ) (r : SpscRing A)
      → is_power_of_two n ≡ true
      → ptr % 128 ≡ 0
      → r.magic ≡ magic_word
      → r.capacity ≡ n
      → attach n ptr (λ _. r) (λ _. r) ≡ returned ok
  unfolding attach
  attach_ready n ptr r p a m c = ground (
    arith,
    IsPower-pos (is_power_of_two-IsPower n p),
    attach_loop_waits n (λ _. r) (λ _. r) attach_rounds 0 0 (λ j. inr (m, c)) (omega arith)
        (omega arith) m,
  )
