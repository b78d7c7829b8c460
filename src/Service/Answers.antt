-- ===== src/Service/Answers.antt =====
-- `execute_round` answers each request of its operations exactly once.
use mathlib.Core.List.Perm
use mathlib.Core.List.Permᴰ
use atlas_io.Base.{
  ◌<◌, ◌≡◌, sym, ap, subst, Option, none, some, List, [], ◌∷◌, ◌++◌, append-nil, append_assoc,
  length, Perm, All, if◌then◌else◌,
}
use atlas_io.Protocol.{op_from_u8}
use atlas_io.Batch.{MergedOp, is_nil}
use atlas_io.Batch.Tags.{Tag, tags}
use atlas_io.Pipeline.{Pipeline}
use atlas_io.Pipeline.Ready.{Ready}
use atlas_io.Channel.{ServiceChannel}
use atlas_io.Executor.{BatchOp, IoExecutor}
use atlas_io.Executor.Kinds.{kinds, KeepsKinds}
use atlas_io.Service.{
  AtlasService, Batch, push_entry, respond, respond_one, dispatch, collect, execute_round,
}
use atlas_io.Service.Sends.{Sends, Sends-perm, Sends-nil, Sends-trans, tags_of, respond_one-Sends}
use atlas_io.Service.Settled.{Settled, MatchesAll, dispatch-Settled}

put_first : (a b c : List Tag) → Perm (a ++ (b ++ c)) (b ++ (a ++ c))
put_first a b c =
    subst (λ q. Perm q (b ++ (a ++ c))) (append_assoc a b c)
      (subst (Perm ((a ++ b) ++ c)) (append_assoc b a c)
        (Perm.append_right c ∣ Permᴰ.append_comm a b ∣₁))

module _ (p : Pipeline) (ex : IoExecutor) where
  Ready-after :
      (s s' : AtlasService p ex) (ops : List MergedOp)
      → length s'.channels ≡ length s.channels
      → All (Ready (length s.channels)) ops
      → All (Ready (length s'.channels)) ops
  Ready-after s s' ops same all = subst (λ n. All (Ready n) ops) (sym same) all

  -- What `collect` has left open: the operations that have an entry.
  record Collected (cs : List ServiceChannel) (s : AtlasService p ex) (b : Batch) (ts : List Tag)
      : Type 0 where
    now : List Tag
    sends : Sends cs s.channels now
    later : Perm (now ++ tags b.origin) ts
    fits : MatchesAll (kinds b.entries) b.origin
    inside : All (λ op. op.channel_idx < length cs) b.origin

  -- One more operation in front.
  push-Collected :
      (cs : List ServiceChannel) (op : MergedOp) (entry : Option BatchOp) (s s' : AtlasService p ex)
      (b : Batch) (ts : List Tag)
      → Settled cs s.channels op entry
      → op.channel_idx < length cs
      → Collected s.channels s' b ts
      → Collected cs s' (push_entry entry op b) (tags_of op ++ ts)
  push-Collected cs op none s s' b ts sent h ih = record {
    now = tags_of op ++ ih.now;
    sends = Sends-trans cs s.channels s'.channels (tags_of op) ih.now sent ih.sends;
    later =
        subst (λ q. Perm q (tags_of op ++ ts))
          (sym (append_assoc (tags_of op) ih.now (tags b.origin)))
          (Perm.append_left (tags_of op) ih.later);
    fits = ih.fits;
    inside = subst (λ n. All (λ op. op.channel_idx < n) b.origin) sent.same ih.inside;
  }
  push-Collected cs op (some entry) s s' b ts (same, m) h ih = record {
    now = ih.now;
    sends = subst (λ c. Sends c s'.channels ih.now) same ih.sends;
    later =
        Perm.trans (put_first ih.now (tags_of op) (tags b.origin))
          (Perm.append_left (tags_of op) ih.later);
    fits = (m, ih.fits);
    inside = (h, subst (λ n. All (λ op. op.channel_idx < n) b.origin) (ap length same) ih.inside);
  }

  Settled-length :
      (cs cs' : List ServiceChannel) (op : MergedOp) (entry : Option BatchOp)
      → Settled cs cs' op entry
      → length cs' ≡ length cs
  Settled-length cs cs' op none sent = sent.same
  Settled-length cs cs' op (some entry) (same, m) = ap length same

  collect-Collected :
      (s : AtlasService p ex) (ops : List MergedOp)
      → All (Ready (length s.channels)) ops
      → Collected s.channels (collect p ex s ops).1 (collect p ex s ops).0 (tags ops)
  unfolding collect
  collect-Collected s [] all = record {
    now = [];
    sends = Sends-nil s.channels;
    later = Perm.rfl;
    fits = tt;
    inside = tt;
  }
  collect-Collected s (op ∷ ops) all =
      let entry = (dispatch p ex (op_from_u8 op.req.op) s op).0 in
      let s' = (dispatch p ex (op_from_u8 op.req.op) s op).1 in
      let settled = dispatch-Settled p ex (op_from_u8 op.req.op) s op all.0.1 all.0.0 in
      let same = Settled-length s.channels s'.channels op entry settled in
      push-Collected s.channels op entry s' _ _ (tags ops) settled all.0.0 (
        collect-Collected (dispatch p ex (op_from_u8 op.req.op) s op).1 ops
          (Ready-after s s' ops same all.1))

  respond-Sends :
      (cs : List ServiceChannel) (done : List BatchOp) (ops : List MergedOp)
      → MatchesAll (kinds done) ops
      → All (λ op. op.channel_idx < length cs) ops
      → Sends cs (respond cs done ops) (tags ops)
  unfolding respond
  respond-Sends cs [] [] m h = Sends-nil cs
  respond-Sends cs [] (op ∷ ops) m h = elim m [ ]
  respond-Sends cs (bop ∷ done) [] m h = elim m [ ]
  respond-Sends cs (bop ∷ done) (op ∷ ops) m h =
      let one = respond_one-Sends cs bop.kind bop.result op m.0 h.0 in
      Sends-trans cs (respond_one cs bop op) _ (tags_of op) (tags ops) one (
        respond-Sends (respond_one cs bop op) done ops m.1
          (subst (λ n. All (λ op. op.channel_idx < n) ops) (sym one.same) h.1))

  -- The second half of `execute_round`.
  abbrev finish : AtlasService p ex → List BatchOp → List MergedOp → AtlasService p ex
  finish s entries origin = if is_nil entries then s else record s {
    executor = (ex.execute_batch s.executor entries).1;
    channels = respond s.channels (ex.execute_batch s.executor entries).0 origin;
  }

  finish-Sends :
      (cs : List ServiceChannel) (s : AtlasService p ex) (entries : List BatchOp)
      (origin : List MergedOp) (ts : List Tag)
      → KeepsKinds ex
      → Collected cs s (record { entries = entries; origin = origin }) ts
      → Sends cs (finish s entries origin).channels ts
  finish-Sends cs s [] [] ts keeps c =
      Sends-perm cs s.channels c.now ts (subst (λ q. Perm q ts) (append-nil c.now) c.later) c.sends
  finish-Sends cs s [] (op ∷ ops) ts keeps c = elim c.fits [ ]
  finish-Sends cs s (entry ∷ entries) origin ts keeps c =
      let done = (ex.execute_batch s.executor (entry ∷ entries)).0 in
      let fits =
        subst (λ ks. MatchesAll ks origin) (sym (keeps s.executor (entry ∷ entries))) c.fits in
      let inside = subst (λ n. All (λ op. op.channel_idx < n) origin) (sym c.sends.same) c.inside in
      Sends-perm cs _ (c.now ++ tags origin) ts c.later (
        Sends-trans cs s.channels _ c.now (tags origin) c.sends
          (respond-Sends s.channels done origin fits inside))

  -- Whatever the pipeline drains and whatever the system calls give, `execute_round` sends for each
  -- request of its operations exactly one response, on the channel of the request and with its
  -- identifier, if the executor keeps the operations of a batch in their places, every channel
  -- exists, and an operation that is no read or write is for one request.
  pub execute_round-Sends :
      (s : AtlasService p ex) (ops : List MergedOp)
      → KeepsKinds ex
      → All (Ready (length s.channels)) ops
      → Sends s.channels (execute_round p ex s ops).channels (tags ops)
  unfolding execute_round
  execute_round-Sends s ops keeps all =
      finish-Sends s.channels (collect p ex s ops).1 (collect p ex s ops).0.entries
        (collect p ex s ops).0.origin (tags ops) keeps (collect-Collected s ops all)
