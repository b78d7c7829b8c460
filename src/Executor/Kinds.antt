-- ===== src/Executor/Kinds.antt =====
-- `execute_batch` fills in results and touches nothing else of a batch.
use atlas_io.Base.{◌≡◌, refl, ap, List, [], ◌∷◌}
use atlas_io.Executor.{
  BatchKind, BatchOp, Backend, IoExecutor, run_kind, execute_one_by_one, Libc, posix,
}

abbrev pub kinds : List BatchOp → List BatchKind
kinds [] = []
kinds (op ∷ ops) = op.kind ∷ kinds ops

-- What the service relies on: the operations come back in their places.
abbrev pub KeepsKinds : IoExecutor → Type 0
KeepsKinds ex =
    (s : ex.backend.State) (ops : List BatchOp) → kinds (ex.execute_batch s ops).0 ≡ kinds ops

execute_one_by_one-kinds :
    (b : Backend) (s : b.State) (ops : List BatchOp)
    → kinds (execute_one_by_one b s ops).0 ≡ kinds ops
unfolding execute_one_by_one
execute_one_by_one-kinds b s [] = refl
execute_one_by_one-kinds b s (op ∷ ops) =
    ap (λ ks. op.kind ∷ ks) (execute_one_by_one-kinds b (run_kind b s op.kind).1 ops)

pub posix-KeepsKinds : (libc : Libc) → KeepsKinds (posix libc)
posix-KeepsKinds libc s ops = execute_one_by_one-kinds _ s ops
