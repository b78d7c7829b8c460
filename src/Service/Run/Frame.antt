-- ===== src/Service/Run/Frame.antt =====
-- `execute_round` leaves the pipeline alone.
use atlas_io.Base.{
  ◌≡◌, refl, ◌∙◌, ℤ, pos, negsuc, Option, none, some, List, [], ◌∷◌, Bool-cases, inl, inr,
}
use atlas_io.Protocol.{IoOp, IoRequest, op_from_u8}
use atlas_io.Batch.{MergedOp, is_nil}
use atlas_io.Pipeline.{Pipeline}
use atlas_io.Executor.{BatchKind, IoExecutor}
use atlas_io.Service.{
  AtlasService, opened, close_with, prepare_with, fsync_with, handle_open, handle_close,
  prepare_read, prepare_write, prepare_fsync, dispatch, collect, execute_round,
}
use atlas_io.Service.Descriptors.{get}

module _ (p : Pipeline) (ex : IoExecutor) where
  -- `execute_round` does not touch the pipeline.
  opened-pipeline :
      (s : AtlasService p ex) (req : IoRequest) (rc : ℤ) (e : ex.backend.State)
      → (opened p ex s req rc e).1.pipeline ≡ s.pipeline
  opened-pipeline s req (negsuc n) e = refl
  opened-pipeline s req (pos n) e = refl

  close_with-pipeline :
      (s : AtlasService p ex) (req : IoRequest) (o : Option ℤ)
      → (close_with p ex s req o).1.pipeline ≡ s.pipeline
  close_with-pipeline s req none = refl
  close_with-pipeline s req (some fd) = refl

  prepare_with-pipeline :
      (kind : ℤ → BatchKind) (s : AtlasService p ex) (op : MergedOp) (o : Option ℤ)
      → (prepare_with p ex kind s op o).1.pipeline ≡ s.pipeline
  prepare_with-pipeline kind s op none = refl
  prepare_with-pipeline kind s op (some fd) = refl

  fsync_with-pipeline :
      (s : AtlasService p ex) (op : MergedOp) (o : Option ℤ)
      → (fsync_with p ex s op o).1.pipeline ≡ s.pipeline
  fsync_with-pipeline s op none = refl
  fsync_with-pipeline s op (some fd) = refl

  dispatch-pipeline :
      (o : Option IoOp) (s : AtlasService p ex) (op : MergedOp)
      → (dispatch p ex o s op).1.pipeline ≡ s.pipeline
  unfolding dispatch handle_open handle_close prepare_read prepare_write prepare_fsync
  dispatch-pipeline (some IoOp.«open») s op = opened-pipeline s op.req _ _
  dispatch-pipeline (some IoOp.close) s op = close_with-pipeline s op.req (get op.req.fd s.fd_table)
  dispatch-pipeline (some IoOp.read) s op = prepare_with-pipeline _ s op (get op.req.fd s.fd_table)
  dispatch-pipeline (some IoOp.write) s op = prepare_with-pipeline _ s op (get op.req.fd s.fd_table)
  dispatch-pipeline (some IoOp.sync) s op = fsync_with-pipeline s op (get op.req.fd s.fd_table)
  dispatch-pipeline none s op = refl

  collect-pipeline :
      (s : AtlasService p ex) (ops : List MergedOp) → (collect p ex s ops).1.pipeline ≡ s.pipeline
  unfolding collect
  collect-pipeline s [] = refl
  collect-pipeline s (op ∷ ops) =
      collect-pipeline (dispatch p ex (op_from_u8 op.req.op) s op).1 ops
      ∙ dispatch-pipeline (op_from_u8 op.req.op) s op

  pub execute_round-pipeline :
      (s : AtlasService p ex) (ops : List MergedOp)
      → (execute_round p ex s ops).pipeline ≡ s.pipeline
  unfolding execute_round
  execute_round-pipeline s ops = elim (Bool-cases (is_nil (collect p ex s ops).0.entries)) [
    | inl h ↦ rw h (collect-pipeline s ops)
    | inr h ↦ rw h (collect-pipeline s ops)
  ]
