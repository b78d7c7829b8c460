-- ===== src/Executor/Uring.antt =====
-- atlas-service/src/executor.rs: `IoUringExecutor`, over the ring of the kernel.
pub mod Reap
pub mod Completions
pub mod Submitted
pub mod Laws
pub mod Unsubmitted
mod Tests
use atlas_io.Base.{
  ℕ, zero, suc, ◌+◌, ◌-◌, ℤ, pos, neg, ◌&&◌, ◌≡◌, Bool, Option, none, some, List, [], ◌∷◌, ◌++◌,
  take, drop, length, ltb, leb, if◌then◌else◌, as_u32,
}
use atlas_io.Executor.{IoResult, Buf, BatchKind, BatchOp, Backend, IoExecutor, einval, has_nul}

-- The operation codes that are used.
pub data Sqe : Type 0 where
  read : (fd : ℤ) → (buf : Buf) → (len : ℕ) → (offset : ℕ) → Sqe
  write : (fd : ℤ) → (buf : Buf) → (len : ℕ) → (offset : ℕ) → Sqe
  fsync : (fd : ℤ) → Sqe
  open_at : (path : List ℕ) → (flags : ℤ) → (mode : ℕ) → Sqe
  close : (fd : ℤ) → Sqe

pub record Entry : Type 0 where
  pub op : Sqe
  pub user_data : ℕ

pub record Cqe : Type 0 where
  pub user_data : ℕ
  pub result : ℤ

-- The calls of the io_uring crate: `SubmissionQueue::push`, which fails when the queue is full,
-- `submit_and_wait`, whose result the code drops, and `completion`, to its end and its first.
pub record Ring : Type 1 where
  pub World : Type 0
  pub push : World → Entry → Bool × World
  pub submit_and_wait : World → ℕ → World
  pub completions : World → List Cqe × World
  pub next : World → Option Cqe × World

abbrev pub eio : ℕ
eio = 5

-- `build_entry`
abbrev pub build_entry : BatchKind → ℕ → Entry
build_entry (BatchKind.pread fd buf len offset) tag = record {
  op = Sqe.read fd buf (as_u32 len) offset;
  user_data = tag;
}
build_entry (BatchKind.pwrite fd buf len offset) tag = record {
  op = Sqe.write fd buf (as_u32 len) offset;
  user_data = tag;
}
build_entry (BatchKind.fsync fd) tag = record { op = Sqe.fsync fd; user_data = tag }

abbrev pub build_entries : ℕ → List BatchOp → List Entry
build_entries tag [] = []
build_entries tag (op ∷ ops) = build_entry op.kind tag ∷ build_entries (suc tag) ops

-- `ops[i].result = r`
abbrev pub set_result : List BatchOp → ℕ → ℤ → List BatchOp
set_result [] i r = []
set_result (op ∷ ops) zero r = record op { result = r } ∷ ops
set_result (op ∷ ops) (suc i) r = op ∷ set_result ops i r

-- The loop over the completions.
pub reap : ℕ → List BatchOp → List Cqe → List BatchOp
reap base ops [] = ops
reap base ops (cqe ∷ cqes) =
    reap base
      (if leb base cqe.user_data && ltb cqe.user_data (base + length ops)
        then set_result ops (cqe.user_data - base) cqe.result
        else ops)
      cqes

-- The results of a chunk, and behind them those of the others; nothing after a panic.
abbrev pub prepend {ℓ} :
    {W : Type ℓ} → List BatchOp → Option (List BatchOp × W) → Option (List BatchOp × W)
prepend done none = none
prepend done (some (rest, w)) = some (done ++ rest, w)

abbrev pub and_then {ℓ} :
    {W : Type ℓ}
    → Option (List BatchOp × W)
    → (W → Option (List BatchOp × W))
    → Option (List BatchOp × W)
and_then none others = none
and_then (some (done, w)) others = prepend done (others w)

module _ (ring : Ring) where
  -- The loop over the operations of a chunk, with `expect` behind each `push`: nothing when it
  -- panics.
  unfoldable pub push_all : List Entry → ring.World → Option ring.World
  push_all [] w = some w
  push_all (e ∷ es) w =
      let (pushed, w') = ring.push w e in let rest = push_all es w' in if pushed then rest else none

  -- What comes after that loop.
  abbrev pub wait_and_reap :
      List BatchOp → ℕ → Option ring.World → Option (List BatchOp × ring.World)
  wait_and_reap ops base none = none
  wait_and_reap ops base (some w) =
      let (cqes, w') = ring.completions (ring.submit_and_wait w (length ops)) in
      some (reap base ops cqes, w')

  pub submit_chunk : ring.World → List BatchOp → ℕ → Option (List BatchOp × ring.World)
  submit_chunk w ops base = wait_and_reap ops base (push_all (build_entries base ops) w)

  -- The loop of `execute_batch`, which the fuel bounds: `ops` are those from `base` on.
  pub run_chunks :
      (capacity fuel : ℕ) → ring.World → ℕ → List BatchOp → Option (List BatchOp × ring.World)
  run_chunks capacity zero w base ops = some (ops, w)
  run_chunks capacity (suc fuel) w base [] = some ([], w)
  run_chunks capacity (suc fuel) w base (op ∷ ops) =
      let chunk = take capacity (op ∷ ops) in
      and_then (submit_chunk w chunk base)
        (λ w'. run_chunks capacity fuel w' (base + length chunk) (drop capacity (op ∷ ops)))

  pub execute_batch :
      (capacity : ℕ) → ring.World → List BatchOp → Option (List BatchOp × ring.World)
  execute_batch capacity w ops = run_chunks capacity (length ops) w 0 ops

  abbrev first_result : Option Cqe → IoResult
  first_result none = neg (pos eio)
  first_result (some cqe) = cqe.result

  -- A single entry and `submit_and_wait_one`. The result of `push` is dropped.
  pub run_one : ring.World → Sqe → IoResult × ring.World
  run_one w op =
      let w' = (ring.push w (record { op = op; user_data = 0 })).1 in
      let (cqe, w'') = ring.next (ring.submit_and_wait w' 1) in (first_result cqe, w'')

  abbrev uring_backend : Backend
  uring_backend = record {
    State = ring.World;
    «open» = λ w path flags mode.
        if has_nul path then (neg (pos einval), w) else run_one w (Sqe.open_at path flags mode);
    close = λ w fd. run_one w (Sqe.close fd);
    pread = λ w fd buf len offset. run_one w (Sqe.read fd buf (as_u32 len) offset);
    pwrite = λ w fd buf len offset. run_one w (Sqe.write fd buf (as_u32 len) offset);
    fsync = λ w fd. run_one w (Sqe.fsync fd);
  }

  -- No batch panics.
  pub record Runs (capacity : ℕ) : Type 0 where
    pub runs :
        (w : ring.World) (ops : List BatchOp)
        → (r : List BatchOp × ring.World) × (execute_batch capacity w ops ≡ some r)

  abbrev pub uring : (capacity : ℕ) → Runs capacity → IoExecutor
  uring capacity r = record { backend = uring_backend; execute_batch = λ w ops. (r.runs w ops).0 }
