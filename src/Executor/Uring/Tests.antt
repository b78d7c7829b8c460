-- ===== src/Executor/Uring/Tests.antt =====
-- A chunk whose completions come in the other order.
use atlas_io.Base.{
  ℕ, zero, suc, ◌+◌, ◌*◌, ◌<◌, ◌≡◌, refl, ℤ, pos, none, some, Bool, true, false, if◌then◌else◌, ltb,
  lt→ltb, length, ◌++◌, List, [], ◌∷◌, get_elem?, arith,
}
use atlas_io.Executor.{BatchKind, BatchOp, new_op}
use atlas_io.Executor.Uring.{Ring, Entry, Cqe, build_entries, reap, execute_batch}
use atlas_io.Executor.Uring.Laws.{IsRing}
use atlas_io.Executor.Uring.Submitted.{execute_batch_lem}
use atlas_io.Executor.Uring.Unsubmitted.{execute_batch-panics}
use atlas_io.Executor.Uring.Completions.{answered, reap-answered}

abbrev chunk : List BatchOp
chunk = new_op (BatchKind.fsync (pos 3)) ∷ new_op (BatchKind.fsync (pos 4)) ∷ []

-- The first of the chunk is the sixth of the batch.
abbrev completions : List Cqe
completions =
    record { user_data = 6; result = pos 60 } ∷ record { user_data = 5; result = pos 50 } ∷ []

abbrev tens : ℕ → ℤ
tens n = pos (n * 10)

complete :
    (i : ℕ)
    → i < 2
    → (j : ℕ) × (get_elem? completions j
        ≡ some (record { user_data = 5 + i; result = tens (5 + i) }))
complete zero h = (1, refl)
complete (suc zero) h = (0, refl)
complete (suc (suc i)) h = absurd (omega arith)

reap-answered_example : reap 5 chunk completions ≡ answered tens 5 chunk
reap-answered_example =
    reap-answered tens 5 chunk completions
      (record { faithful = (refl, (refl, tt)); complete = complete })

-- Three operations on a ring with two entries.
abbrev three : List BatchOp
three = new_op (BatchKind.fsync (pos 5)) ∷ chunk

-- A ring with two places. Its submissions all succeed, or all fail; nothing is ever completed.
record Kernel : Type 0 where
  queued : List Entry
  taken : List Entry

abbrev two_places : Bool → Ring
two_places goes = record {
  World = Kernel;
  push = λ w e.
      if ltb (length w.queued) 2
      then (true, record w { queued = w.queued ++ e ∷ [] })
      else (false, w);
  submit_and_wait = λ w n. if goes then record { queued = []; taken = w.taken ++ w.queued } else w;
  completions = λ w. ([], w);
  next = λ w. (none, w);
}

two_places-IsRing : (goes : Bool) → IsRing (two_places goes)
two_places-IsRing goes = record {
  size = 2;
  queued = λ w. w.queued;
  taken = λ w. w.taken;
  goes = λ w. goes;
  push-room = λ w e h. rw (lt→ltb _ _ h) (refl, refl, refl);
  push-full =
      λ w e h. let full : ltb (length w.queued) 2 ≡ false = ground (arith, h) in rw full refl;
  submits = λ w n h. rw h (refl, refl);
  fails = λ w n h. rw h (refl, refl);
  completions-keep = λ w. (refl, refl);
}

abbrev idle : Kernel
idle = record { queued = []; taken = [] }

execute_batch_lem_example :
    (ops' : List BatchOp) × (w' : Kernel) × (execute_batch (two_places true) 2 idle three
      ≡ some (ops', w'))
    × (w'.taken ≡ build_entries 0 three)
    × (w'.queued ≡ [])
unfolding two_places-IsRing
execute_batch_lem_example =
    execute_batch_lem (two_places true) (two_places-IsRing true) 2 idle three (omega arith)
      (omega arith) refl (λ v. refl)

execute_batch-panics_example : execute_batch (two_places false) 2 idle three ≡ none
unfolding two_places-IsRing
execute_batch-panics_example =
    execute_batch-panics (two_places false) (two_places-IsRing false) 2 idle three (omega arith)
      refl (λ v. refl) (omega arith)
