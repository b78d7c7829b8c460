-- ===== src/Executor/Uring/Reap.antt =====
-- `IoUringExecutor` keeps the operations of a batch in their places.
use atlas_io.Base.{
  ℕ, zero, suc, ◌+◌, ◌-◌, ℤ, ◌≡◌, refl, sym, ap, ap₂, ◌∙◌, ◌&&◌, List, [], ◌∷◌, ◌++◌, take, drop,
  length, ltb, leb, if◌then◌else◌, Bool-cases, inl, inr, subst, Option, none, some,
  take-append-drop,
}
use atlas_io.Executor.{BatchOp}
use atlas_io.Executor.Kinds.{kinds, KeepsKinds}
use atlas_io.Executor.Uring.{
  Ring, Cqe, build_entries, set_result, reap, submit_chunk, run_chunks, execute_batch, uring, Runs,
  prepend, and_then, push_all, wait_and_reap,
}

pub set_result-length :
    (ops : List BatchOp) (i : ℕ) (r : ℤ) → length (set_result ops i r) ≡ length ops
set_result-length [] i r = refl
set_result-length (op ∷ ops) zero r = refl
set_result-length (op ∷ ops) (suc i) r = ap suc (set_result-length ops i r)

set_result-kinds : (ops : List BatchOp) (i : ℕ) (r : ℤ) → kinds (set_result ops i r) ≡ kinds ops
set_result-kinds [] i r = refl
set_result-kinds (op ∷ ops) zero r = refl
set_result-kinds (op ∷ ops) (suc i) r = ap (λ ks. op.kind ∷ ks) (set_result-kinds ops i r)

-- One round of the loop over the completions.
abbrev pub reap_one : ℕ → List BatchOp → Cqe → List BatchOp
reap_one base ops cqe =
    if leb base cqe.user_data && ltb cqe.user_data (base + length ops)
    then set_result ops (cqe.user_data - base) cqe.result
    else ops

reap_one-kinds :
    (base : ℕ) (ops : List BatchOp) (cqe : Cqe) → kinds (reap_one base ops cqe) ≡ kinds ops
reap_one-kinds base ops cqe =
    elim (Bool-cases (leb base cqe.user_data && ltb cqe.user_data (base + length ops))) [
      | inl h ↦ rw h (set_result-kinds ops (cqe.user_data - base) cqe.result)
      | inr h ↦ rw h refl
    ]

reap-kinds :
    (base : ℕ) (ops : List BatchOp) (cqes : List Cqe) → kinds (reap base ops cqes) ≡ kinds ops
unfolding reap
reap-kinds base ops [] = refl
reap-kinds base ops (cqe ∷ cqes) =
    reap-kinds base (reap_one base ops cqe) cqes ∙ reap_one-kinds base ops cqe

kinds-append : (xs ys : List BatchOp) → kinds (xs ++ ys) ≡ kinds xs ++ kinds ys
kinds-append [] ys = refl
kinds-append (x ∷ xs) ys = ap (λ ks. x.kind ∷ ks) (kinds-append xs ys)

-- The operations are those of `ops`, unless there was a panic.
abbrev Kept {ℓ} : {W : Type ℓ} → List BatchOp → Option (List BatchOp × W) → Type 0
Kept ops none = Unit
Kept ops (some r) = kinds r.0 ≡ kinds ops

Kept-prepend {ℓ} :
    {W : Type ℓ} (done chunk rest : List BatchOp) (o : Option (List BatchOp × W))
    → kinds done ≡ kinds chunk
    → Kept rest o
    → Kept (chunk ++ rest) (prepend done o)
Kept-prepend done chunk rest none same k = tt
Kept-prepend done chunk rest (some r) same k =
    kinds-append done r.0 ∙ ap₂ ◌++◌ same k ∙ sym (kinds-append chunk rest)

Kept-and_then {ℓ} :
    {W : Type ℓ} (chunk rest : List BatchOp) (o : Option (List BatchOp × W))
    (others : W → Option (List BatchOp × W))
    → Kept chunk o
    → ((w : W) → Kept rest (others w))
    → Kept (chunk ++ rest) (and_then o others)
Kept-and_then chunk rest none others k ks = tt
Kept-and_then chunk rest (some (done, w)) others k ks =
    Kept-prepend done chunk rest (others w) k (ks w)

module _ (ring : Ring) where
  submit_chunk-Kept :
      (w : ring.World) (ops : List BatchOp) (base : ℕ) → Kept ops (submit_chunk ring w ops base)
  unfolding submit_chunk
  submit_chunk-Kept w ops base = reaped (push_all ring (build_entries base ops) w)
    where
      reaped : (o : Option ring.World) → Kept ops (wait_and_reap ring ops base o)
      reaped none = tt
      reaped (some w') =
          reap-kinds base ops (ring.completions (ring.submit_and_wait w' (length ops))).0

  run_chunks-Kept :
      (capacity fuel : ℕ) (w : ring.World) (base : ℕ) (ops : List BatchOp)
      → Kept ops (run_chunks ring capacity fuel w base ops)
  unfolding run_chunks
  run_chunks-Kept capacity zero w base ops = refl
  run_chunks-Kept capacity (suc fuel) w base [] = refl
  run_chunks-Kept capacity (suc fuel) w base (op ∷ ops) =
      let chunk = take capacity (op ∷ ops) in
      let rest = drop capacity (op ∷ ops) in
      subst (λ os. Kept os (run_chunks ring capacity (suc fuel) w base (op ∷ ops)))
        (take-append-drop capacity (op ∷ ops))
        (Kept-and_then chunk rest (submit_chunk ring w chunk base) _
          (submit_chunk-Kept w chunk base)
          (λ w'. run_chunks-Kept capacity fuel w' (base + length chunk) rest))

  pub uring-KeepsKinds :
      (capacity : ℕ) (r : Runs ring capacity) → KeepsKinds (uring ring capacity r)
  unfolding execute_batch
  uring-KeepsKinds capacity r w ops =
      subst (Kept ops) (r.runs w ops).1 (run_chunks-Kept capacity (length ops) w 0 ops)
