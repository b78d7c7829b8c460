-- ===== src/Service/Hazard.antt =====
-- The order in which `execute_round` carries out the operations of a round.
use atlas_io.Base.{
  ◌≡◌, refl, sym, ap, ap₂, subst, ◌∙◌, ℤ, pos, negsuc, Bool, true, false, Bool-cases, inl, inr,
  if◌then◌else◌, Option, none, some, List, [], ◌∷◌, ◌++◌,
}
use atlas_io.Protocol.{IoOp, IoRequest, IoResponse, op_from_u8}
use atlas_io.Batch.{MergedOp, is_nil}
use atlas_io.Pipeline.{Pipeline}
use atlas_io.Channel.{ServiceChannel, send_at}
use atlas_io.Executor.{IoResult, BatchKind, BatchOp, new_op, IoExecutor}
use atlas_io.Service.{
  AtlasService, Batch, handle_open, handle_close, opened, close_with, prepare_with, fsync_with,
  prepare_read, prepare_write, prepare_fsync, dispatch, push_entry, collect, execute_round, buf_of,
}
use atlas_io.Service.Descriptors.{get}

-- The operations that become an entry of the batch.
abbrev pub is_transfer : Option IoOp → Bool
is_transfer (some IoOp.read) = true
is_transfer (some IoOp.write) = true
is_transfer (some IoOp.sync) = true
is_transfer _ = false

-- A round without them: its opens and closes.
abbrev pub structural : List MergedOp → List MergedOp
structural [] = []
structural (op ∷ ops) =
    let rest = structural ops in if is_transfer (op_from_u8 op.req.op) then rest else op ∷ rest

structural-transfer :
    (op : MergedOp) (ops : List MergedOp)
    → is_transfer (op_from_u8 op.req.op) ≡ true
    → structural (op ∷ ops) ≡ structural ops
structural-transfer op ops e = rw e refl

structural-other :
    (op : MergedOp) (ops : List MergedOp)
    → is_transfer (op_from_u8 op.req.op) ≡ false
    → structural (op ∷ ops) ≡ op ∷ structural ops
structural-other op ops e = rw e refl

module _ (p : Pipeline) (ex : IoExecutor) where
  -- The service with other channels.
  abbrev having : AtlasService p ex → List ServiceChannel → AtlasService p ex
  having s cs = record s { channels = cs }

  -- `t` is `s` but for what is in the channels.
  abbrev SameFiles : AtlasService p ex → AtlasService p ex → Type 0
  SameFiles t s = (cs : List ServiceChannel) × (t ≡ having s cs)

  prepare_with-SameFiles :
      (kind : ℤ → BatchKind) (s : AtlasService p ex) (op : MergedOp) (found : Option ℤ)
      → SameFiles (prepare_with p ex kind s op found).1 s
  prepare_with-SameFiles kind s op none = (_, refl)
  prepare_with-SameFiles kind s op (some fd) = (_, refl)

  fsync_with-SameFiles :
      (s : AtlasService p ex) (op : MergedOp) (found : Option ℤ)
      → SameFiles (fsync_with p ex s op found).1 s
  fsync_with-SameFiles s op none = (_, refl)
  fsync_with-SameFiles s op (some fd) = (_, refl)

  dispatch-transfer :
      (o : Option IoOp) (s : AtlasService p ex) (op : MergedOp)
      → is_transfer o ≡ true
      → SameFiles (dispatch p ex o s op).1 s
  unfolding dispatch prepare_read prepare_write prepare_fsync
  dispatch-transfer (some IoOp.read) s op h = prepare_with-SameFiles _ s op _
  dispatch-transfer (some IoOp.write) s op h = prepare_with-SameFiles _ s op _
  dispatch-transfer (some IoOp.sync) s op h = fsync_with-SameFiles s op _
  dispatch-transfer (some IoOp.«open») s op h = cc
  dispatch-transfer (some IoOp.close) s op h = cc
  dispatch-transfer none s op h = cc

  opened-having :
      (s : AtlasService p ex) (cs : List ServiceChannel) (req : IoRequest) (rc : IoResult)
      (e : ex.backend.State)
      → opened p ex (having s cs) req rc e
        ≡ ((opened p ex s req rc e).0, having (opened p ex s req rc e).1 cs)
  opened-having s cs req (pos n) e = refl
  opened-having s cs req (negsuc n) e = refl

  close_with-having :
      (s : AtlasService p ex) (cs : List ServiceChannel) (req : IoRequest) (found : Option ℤ)
      → close_with p ex (having s cs) req found
        ≡ ((close_with p ex s req found).0, having (close_with p ex s req found).1 cs)
  close_with-having s cs req none = refl
  close_with-having s cs req (some fd) = refl

  sent-having :
      (cs : List ServiceChannel) (op : MergedOp) (a b : IoResponse × AtlasService p ex)
      → a ≡ (b.0, having b.1 cs)
      → SameFiles
          (having a.1 (send_at a.1.channels op.channel_idx a.0))
          (having b.1 (send_at b.1.channels op.channel_idx b.0))
  sent-having cs op a b e = (
    send_at cs op.channel_idx b.0,
    ap (λ x. having x.1 (send_at x.1.channels op.channel_idx x.0)) e,
  )

  -- What else there is does not depend on the channels, and makes no entry.
  dispatch-structural :
      (o : Option IoOp) (s : AtlasService p ex) (cs : List ServiceChannel) (op : MergedOp)
      → is_transfer o ≡ false
      → SameFiles (dispatch p ex o (having s cs) op).1 (dispatch p ex o s op).1
        × ((dispatch p ex o (having s cs) op).0 ≡ none)
  unfolding dispatch handle_open handle_close
  dispatch-structural (some IoOp.read) s cs op h = cc
  dispatch-structural (some IoOp.write) s cs op h = cc
  dispatch-structural (some IoOp.sync) s cs op h = cc
  dispatch-structural (some IoOp.«open») s cs op h =
      (sent-having cs op _ (handle_open p ex s op.req) (opened-having s cs op.req _ _), refl)
  dispatch-structural (some IoOp.close) s cs op h =
      (sent-having cs op _ (handle_close p ex s op.req) (close_with-having s cs op.req _), refl)
  dispatch-structural none s cs op h = ((_, refl), refl)

  -- `b` is what `collect` gives of a round without transfers, where the whole round leaves `s`.
  abbrev Matching : Batch × AtlasService p ex → AtlasService p ex → Type 0
  Matching b s = SameFiles b.1 s × (b.0.entries ≡ [])

  collect-structural :
      (ops : List MergedOp) (s : AtlasService p ex) (cs : List ServiceChannel)
      → Matching (collect p ex (having s cs) (structural ops)) (collect p ex s ops).1
  unfolding collect
  collect-structural [] s cs = ((cs, refl), refl)
  collect-structural (op ∷ ops) s cs =
      let o = op_from_u8 op.req.op in
      let s' = (dispatch p ex o s op).1 in
      let last = (collect p ex s' ops).1 in
      elim (Bool-cases (is_transfer o)) [
        | inl e ↦
            let (_, same) = dispatch-transfer o s op e in
            subst (λ l. Matching (collect p ex (having s cs) l) last)
              (sym (structural-transfer op ops e))
              (subst (λ t. Matching (collect p ex t (structural ops)) last)
                (ap (λ t. having t cs) same) (collect-structural ops s' cs))
        | inr e ↦
            let ((cs', same), nothing) = dispatch-structural o s cs op e in
            subst (λ l. Matching (collect p ex (having s cs) l) last)
              (sym (structural-other op ops e))
              (subst
                (λ (d : Option BatchOp × AtlasService p ex).
                  SameFiles (collect p ex d.1 (structural ops)).1 last
                  × ((push_entry d.0 op (collect p ex d.1 (structural ops)).0).entries ≡ []))
                (sym (ap₂ (λ a b. (a, b)) nothing same)) (collect-structural ops s' cs'))
      ]

  entries-push_entry :
      (o : Option BatchOp) (op : MergedOp) (b b' : Batch) (es : List BatchOp)
      → b'.entries ≡ b.entries ++ es
      → (push_entry o op b').entries ≡ (push_entry o op b).entries ++ es
  entries-push_entry none op b b' es e = e
  entries-push_entry (some x) op b b' es e = ap (λ xs. x ∷ xs) e

  collect-append :
      (xs ys : List MergedOp) (s : AtlasService p ex)
      → ((collect p ex s (xs ++ ys)).0.entries
          ≡ (collect p ex s xs).0.entries ++ (collect p ex (collect p ex s xs).1 ys).0.entries)
        × ((collect p ex s (xs ++ ys)).1 ≡ (collect p ex (collect p ex s xs).1 ys).1)
  unfolding collect
  collect-append [] ys s = (refl, refl)
  collect-append (x ∷ xs) ys s =
      let (entries, state) = collect-append xs ys (dispatch p ex (op_from_u8 x.req.op) s x).1 in
      (entries-push_entry _ x _ _ _ entries, state)

  collect-read :
      (s : AtlasService p ex) (r : MergedOp) (ys : List MergedOp) (real_fd : ℤ)
      → op_from_u8 r.req.op ≡ some IoOp.read
      → get r.req.fd s.fd_table ≡ some real_fd
      → (collect p ex s (r ∷ ys)).0.entries
        ≡ new_op (BatchKind.pread real_fd (buf_of r) r.req.len r.req.offset)
          ∷ (collect p ex s ys).0.entries
  unfolding collect dispatch prepare_read
  collect-read s r ys real_fd is_read found = rw (is_read, found) refl

  execute_round-entries :
      (s : AtlasService p ex) (ops : List MergedOp)
      → is_nil (collect p ex s ops).0.entries ≡ false
      → (execute_round p ex s ops).executor
        ≡ (ex.execute_batch (collect p ex s ops).1.executor (collect p ex s ops).0.entries).1
  unfolding execute_round
  execute_round-entries s ops some_entry = rw some_entry refl

  execute_round-nothing :
      (s : AtlasService p ex) (ops : List MergedOp)
      → (collect p ex s ops).0.entries ≡ []
      → execute_round p ex s ops ≡ (collect p ex s ops).1
  unfolding execute_round
  execute_round-nothing s ops nothing = rw nothing refl

  is_nil-middle : (xs ys : List BatchOp) (y : BatchOp) → is_nil (xs ++ y ∷ ys) ≡ false
  is_nil-middle [] ys y = refl
  is_nil-middle (x ∷ xs) ys y = refl

  -- In whatever round a read stands, whose descriptor is open when its turn comes: the batch has it
  -- on that descriptor of the system, between the transfers before and behind it, and the executor
  -- is given the batch in the state that all opens and closes of the round have left, those behind
  -- the read too. So the read runs on a descriptor that a later close has closed.
  pub execute_round-structural_first :
      (s : AtlasService p ex) (xs : List MergedOp) (r : MergedOp) (ys : List MergedOp) (real_fd : ℤ)
      → op_from_u8 r.req.op ≡ some IoOp.read
      → get r.req.fd (collect p ex s xs).1.fd_table ≡ some real_fd
      → let before = (collect p ex s xs).0.entries in
        let behind = (collect p ex (collect p ex s xs).1 ys).0.entries in
        let read = new_op (BatchKind.pread real_fd (buf_of r) r.req.len r.req.offset) in
        (execute_round p ex s (xs ++ r ∷ ys)).executor
        ≡ (ex.execute_batch
            (execute_round p ex s (structural (xs ++ r ∷ ys))).executor
            (before ++ read ∷ behind)).1
  execute_round-structural_first s xs r ys real_fd is_read found =
      let read = new_op (BatchKind.pread real_fd (buf_of r) r.req.len r.req.offset) in
      let before = (collect p ex s xs).0.entries in
      let s' = (collect p ex s xs).1 in
      let behind = (collect p ex s' ys).0.entries in
      let ops = xs ++ r ∷ ys in
      let entries : (collect p ex s ops).0.entries ≡ before ++ read ∷ behind =
        (collect-append xs (r ∷ ys) s).0
        ∙ ap (λ es. before ++ es) (collect-read s' r ys real_fd is_read found) in
      let ((_, same), nothing) = collect-structural ops s s.channels in
      execute_round-entries s ops (ap is_nil entries ∙ is_nil-middle before behind read)
      ∙ ap₂ (λ e es. (ex.execute_batch e es).1)
          (sym (ap (λ t. t.executor) (execute_round-nothing s (structural ops) nothing ∙ same)))
          entries
