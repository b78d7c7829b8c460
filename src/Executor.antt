-- ===== src/Executor.antt =====
-- atlas-service/src/executor.rs: the `IoExecutor` trait with its default `execute_batch`, and the
-- POSIX backend over the system calls it makes.
pub mod Uring
pub mod Kinds
use atlas_io.Base.{
  ℕ, ℤ, pos, neg, is_neg, as_i64, Bool, true, false, List, [], ◌∷◌, ◌==◌, if◌then◌else◌,
}

-- Bytes transferred, or a negative errno.
abbrev pub IoResult : Type 0
IoResult = ℤ

-- A pointer into the data region of a channel.
pub record Buf : Type 0 where
  pub channel_idx : ℕ
  pub data_offset : ℕ

pub data BatchKind : Type 0 where
  pread : (fd : ℤ) → (buf : Buf) → (len : ℕ) → (offset : ℕ) → BatchKind
  pwrite : (fd : ℤ) → (buf : Buf) → (len : ℕ) → (offset : ℕ) → BatchKind
  fsync : (fd : ℤ) → BatchKind

pub record BatchOp : Type 0 where
  pub kind : BatchKind
  pub result : IoResult

abbrev pub new_op : BatchKind → BatchOp
new_op kind = record { kind = kind; result = pos 0 }

-- The required methods of the trait. The state is the executor's and that of the files and the
-- memory that it acts on.
pub record Backend : Type 1 where
  pub State : Type 0
  pub «open» : State → List ℕ → ℤ → ℕ → IoResult × State
  pub close : State → ℤ → IoResult × State
  pub pread : State → ℤ → Buf → ℕ → ℕ → IoResult × State
  pub pwrite : State → ℤ → Buf → ℕ → ℕ → IoResult × State
  pub fsync : State → ℤ → IoResult × State

-- The trait.
pub record IoExecutor : Type 1 where
  pub backend : Backend
  pub execute_batch : backend.State → List BatchOp → List BatchOp × backend.State

-- The `match` in the loop of the default `execute_batch`.
abbrev pub run_kind : (b : Backend) → b.State → BatchKind → IoResult × b.State
run_kind b s (BatchKind.pread fd buf len offset) = b.pread s fd buf len offset
run_kind b s (BatchKind.pwrite fd buf len offset) = b.pwrite s fd buf len offset
run_kind b s (BatchKind.fsync fd) = b.fsync s fd

-- `IoExecutor::execute_batch`, the default
unfoldable pub execute_one_by_one : (b : Backend) → b.State → List BatchOp → List BatchOp × b.State
execute_one_by_one b s [] = ([], s)
execute_one_by_one b s (op ∷ ops) =
    let (result, s') = run_kind b s op.kind in
    let (ops', s'') = execute_one_by_one b s' ops in (record op { result = result } ∷ ops', s'')

-- The system calls, and `errno` after a failed one.
pub record Libc : Type 1 where
  pub World : Type 0
  pub «open» : World → List ℕ → ℤ → ℕ → ℤ × World
  pub close : World → ℤ → ℤ × World
  pub pread : World → ℤ → Buf → ℕ → ℤ → ℤ × World
  pub pwrite : World → ℤ → Buf → ℕ → ℤ → ℤ × World
  pub fsync : World → ℤ → ℤ × World
  pub errno : World → ℕ

abbrev pub einval : ℕ
einval = 22

-- `CString::new` refuses a string with a NUL inside.
abbrev pub has_nul : List ℕ → Bool
has_nul [] = false
has_nul (b ∷ bs) = if b == 0 then true else has_nul bs

module _ (libc : Libc) where
  -- `-(errno() as i64)`
  abbrev failed : libc.World → IoResult
  failed w = neg (pos (libc.errno w))

  -- `if n < 0 { -(errno() as i64) } else { n as i64 }`
  abbrev or_errno : ℤ × libc.World → IoResult × libc.World
  or_errno (n, w) = (if is_neg n then failed w else n, w)

  -- `if rc < 0 { -(errno() as i64) } else { 0 }`
  abbrev zero_or_errno : ℤ × libc.World → IoResult × libc.World
  zero_or_errno (rc, w) = (if is_neg rc then failed w else pos 0, w)

  -- `PosixExecutor`
  abbrev pub posix_backend : Backend
  posix_backend = record {
    State = libc.World;
    «open» = λ w path flags mode.
        if has_nul path then (neg (pos einval), w) else or_errno (libc.«open» w path flags mode);
    close = λ w fd. zero_or_errno (libc.close w fd);
    pread = λ w fd buf len offset. or_errno (libc.pread w fd buf len (as_i64 offset));
    pwrite = λ w fd buf len offset. or_errno (libc.pwrite w fd buf len (as_i64 offset));
    fsync = λ w fd. zero_or_errno (libc.fsync w fd);
  }

  abbrev pub posix : IoExecutor
  posix = record { backend = posix_backend; execute_batch = execute_one_by_one posix_backend }
