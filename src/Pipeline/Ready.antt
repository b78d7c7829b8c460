-- ===== src/Pipeline/Ready.antt =====
-- What the service asks of drained operations: each is of a channel that there is, and one that is
-- no read and no write stands for exactly one request, the one it carries.
use atlas_io.Base.{
  ℕ, ◌<◌, ◌≡◌, refl, sym, subst, Option, none, some, List, [], ◌∷◌, All, All-append, arith,
  Bool-cases, inl, inr, true, ◌&&◌,
}
use atlas_io.Protocol.{IoOp, IoPriority, op_from_u8, priority_from_u8}
use atlas_io.Batch.{
  TaggedRequest, Source, MergedOp, Group, new_engine, is_nil, single, singles, separate, sort_by,
  open_group, join, joins, close_group, merge_from, merge_sorted, merge_adjacent, drain_merged,
}
use atlas_io.Batch as Batch
use atlas_io.Batch.Order.{HasCode, All-sort_by, separate-Everywhere, separate-Kinds}
use atlas_io.Scheduler.{Scheduler, new_scheduler, enqueue_at, enqueue, enqueue_all, drain}
use atlas_io.Scheduler as Scheduler
use atlas_io.Scheduler.Drain.{in_order, drain_all}
use atlas_io.Pipeline.{Pipeline}
use atlas_io.Pipeline.PassThrough as PassThrough
use atlas_io.Pipeline.PassThrough.{PassThrough, pass_through, drain_loop_lem}
use atlas_io.Pipeline.Batched as Batched
use atlas_io.Pipeline.Batched.{Batched, batched, drain-tags}

-- The operation is for the request that it carries.
abbrev pub IsSingle : MergedOp → Type 0
IsSingle op = (src : Source) × (op.sources ≡ src ∷ []) × (src.request_id ≡ op.req.id)

abbrev pub Answerable : Option IoOp → MergedOp → Type 0
Answerable (some IoOp.read) op = Unit
Answerable (some IoOp.write) op = Unit
Answerable _ op = IsSingle op

abbrev pub Ready : ℕ → MergedOp → Type 0
Ready n op = (op.channel_idx < n) × Answerable (op_from_u8 op.req.op) op

abbrev pub InRange : ℕ → TaggedRequest → Type 0
InRange n x = x.channel_idx < n

-- A pipeline that is fed by `n` channels and drains only such operations.
pub record Delivers (p : Pipeline) : Type 1 where
  pub Valid : ℕ → p.State → Type 0
  pub Valid-new : (n : ℕ) → Valid n p.new
  pub Valid-add :
      (n : ℕ) (s : p.State) (x : TaggedRequest)
      → InRange n x
      → Valid n s
      → Valid n (p.add s x.req x.channel_idx)
  pub Valid-drain :
      (n : ℕ) (s : p.State) → Valid n s → All (Ready n) (p.drain s).0 × Valid n (p.drain s).1

single-Answerable : (o : Option IoOp) (x : TaggedRequest) → Answerable o (single x)
single-Answerable (some IoOp.read) x = tt
single-Answerable (some IoOp.write) x = tt
single-Answerable (some IoOp.«open») x = (_, refl, refl)
single-Answerable (some IoOp.sync) x = (_, refl, refl)
single-Answerable (some IoOp.close) x = (_, refl, refl)
single-Answerable none x = (_, refl, refl)

singles-Ready : (n : ℕ) (xs : List TaggedRequest) → All (InRange n) xs → All (Ready n) (singles xs)
singles-Ready n [] all = tt
singles-Ready n (x ∷ xs) all =
    ((all.0, single-Answerable (op_from_u8 x.req.op) x), singles-Ready n xs all.1)

pub pass_through-Delivers : Delivers pass_through
unfolding PassThrough.new PassThrough.add PassThrough.drain
pass_through-Delivers = record {
  Valid = λ n s. All (InRange n) s.pending;
  Valid-new = λ n. tt;
  Valid-add = λ n s x fits all. All-append (InRange n) s.pending _ all (fits, tt);
  Valid-drain = λ n s all. (
    subst (All (Ready n)) (sym (drain_loop_lem [] s.pending)) (singles-Ready n s.pending all),
    tt,
  );
}

-- Reads, or writes.
abbrev Mergeable : ℕ → TaggedRequest → Type 0
Mergeable n x = (op : MergedOp) → op.req.op ≡ x.req.op → op.channel_idx ≡ x.channel_idx → Ready n op

merge_from-Ready :
    (n : ℕ) (g : Group) (xs : List TaggedRequest)
    → Mergeable n g.first
    → All (Mergeable n) xs
    → All (Ready n) (merge_from g xs)
unfolding merge_from open_group join close_group
merge_from-Ready n g [] m all = (m (close_group g) refl refl, tt)
merge_from-Ready n g (x ∷ xs) m all = elim (Bool-cases (joins g x)) [
  | inl test ↦ rw (test, merge_from) (merge_from-Ready n (join g x) xs m all.1)
  | inr test ↦
      rw (test, merge_from)
        (m (close_group g) refl refl, merge_from-Ready n (open_group x) xs all.0 all.1)
]

merge_adjacent-Ready :
    (n : ℕ) (ops : List TaggedRequest) → All (Mergeable n) ops → All (Ready n) (merge_adjacent ops)
unfolding merge_adjacent merge_sorted open_group
merge_adjacent-Ready n ops all = go (sort_by ops) (All-sort_by (Mergeable n) ops all)
  where
    go : (xs : List TaggedRequest) → All (Mergeable n) xs → All (Ready n) (merge_sorted xs)
    go [] all = tt
    go (x ∷ xs) all = merge_from-Ready n (open_group x) xs all.0 all.1

read_Mergeable : (n : ℕ) (x : TaggedRequest) → HasCode 1 x → InRange n x → Mergeable n x
unfolding op_from_u8
read_Mergeable n x code fits op same channel =
    let e : 1 ≡ op.req.op = omega arith in
    (omega arith, subst (λ o. Answerable (op_from_u8 o) op) e tt)

write_Mergeable : (n : ℕ) (x : TaggedRequest) → HasCode 2 x → InRange n x → Mergeable n x
unfolding op_from_u8
write_Mergeable n x code fits op same channel =
    let e : 2 ≡ op.req.op = omega arith in
    (omega arith, subst (λ o. Answerable (op_from_u8 o) op) e tt)

-- Of nothing everything holds.
nothing-All :
    {A B : Type 0} (P : A → Type 0) (Q : B → Type 0) (p : List A) (c h l : List B)
    → (is_nil p && (is_nil c && is_nil h && is_nil l)) ≡ true
    → All P p × (All Q c × All Q h × All Q l)
nothing-All P Q [] [] [] [] e = (tt, (tt, tt, tt))
nothing-All P Q (_ ∷ _) c h l e = absurd (cc)
nothing-All P Q [] (_ ∷ _) h l e = absurd (cc)
nothing-All P Q [] [] (_ ∷ _) l e = absurd (cc)
nothing-All P Q [] [] [] (_ ∷ _) e = absurd (cc)

All_zip :
    (P Q R : TaggedRequest → Type 0)
    → ((x : TaggedRequest) → P x → Q x → R x)
    → (xs : List TaggedRequest) → All P xs
    → All Q xs
    → All R xs
All_zip P Q R f [] p q = tt
All_zip P Q R f (x ∷ xs) p q = (f x p.0 q.0, All_zip P Q R f xs p.1 q.1)

drain_merged-Ready :
    (n : ℕ) (trs : List TaggedRequest)
    → All (InRange n) trs
    → All (Ready n) (drain_merged (record { pending = trs })).0
unfolding drain_merged
drain_merged-Ready n [] all = tt
drain_merged-Ready n (tr ∷ trs) all =
    let s = separate (tr ∷ trs) in
    let kinds = separate-Kinds (tr ∷ trs) in
    let fits = separate-Everywhere (InRange n) (tr ∷ trs) all in
    All-append (Ready n) (singles s.others) _ (singles-Ready n s.others fits.in_others) (
      All-append (Ready n) (merge_adjacent s.reads) _
        (merge_adjacent-Ready n s.reads (
          All_zip (HasCode 1) (InRange n) (Mergeable n) (read_Mergeable n) s.reads kinds.0
            fits.in_reads))
        (merge_adjacent-Ready n s.writes (
          All_zip (HasCode 2) (InRange n) (Mergeable n) (write_Mergeable n) s.writes kinds.1
            fits.in_writes)))

-- What the queues hold.
abbrev Queued : ℕ → Scheduler → Type 0
Queued n s = All (Ready n) s.critical × All (Ready n) s.high × All (Ready n) s.low

enqueue_at-Queued :
    (n : ℕ) (p : Option IoPriority) (s : Scheduler) (op : MergedOp)
    → Ready n op
    → Queued n s
    → Queued n (enqueue_at p s op)
enqueue_at-Queued n (some IoPriority.critical) s op r (c, h, l) =
    (All-append (Ready n) s.critical _ c (r, tt), h, l)
enqueue_at-Queued n (some IoPriority.high) s op r (c, h, l) =
    (c, All-append (Ready n) s.high _ h (r, tt), l)
enqueue_at-Queued n (some IoPriority.low) s op r (c, h, l) =
    (c, h, All-append (Ready n) s.low _ l (r, tt))
enqueue_at-Queued n none s op r (c, h, l) = (c, h, All-append (Ready n) s.low _ l (r, tt))

enqueue_all-Queued :
    (n : ℕ) (s : Scheduler) (ops : List MergedOp)
    → All (Ready n) ops
    → Queued n s
    → Queued n (enqueue_all s ops)
unfolding enqueue_all enqueue
enqueue_all-Queued n s [] all q = q
enqueue_all-Queued n s (op ∷ ops) all q =
    enqueue_all-Queued n (enqueue s op) ops all.1
      (enqueue_at-Queued n (priority_from_u8 op.req.priority) s op all.0 q)

schedule-Queued :
    (n : ℕ) (b : Batched)
    → All (InRange n) b.batch.pending
    → Queued n b.scheduler
    → Queued n (Batched.schedule b).scheduler
unfolding Batched.schedule
schedule-Queued n b all q = elim (Bool-cases (Batch.is_empty b.batch)) [
  | inl h ↦ rw h q
  | inr h ↦ rw h (
      enqueue_all-Queued n b.scheduler (drain_merged b.batch).0
        (drain_merged-Ready n b.batch.pending all) q)
]

all-Ready : (n : ℕ) (s : Scheduler) → Queued n s → All (Ready n) (in_order s)
all-Ready n s (c, h, l) = All-append (Ready n) s.critical _ c (All-append (Ready n) s.high _ h l)

batched_drain :
    (n : ℕ) (b : Batched)
    → All (InRange n) b.batch.pending
    → Queued n b.scheduler
    → All (Ready n) (Batched.drain b).0
unfolding Batched.drain
batched_drain n b all q =
    subst (All (Ready n)) (sym (drain_all (Batched.schedule b).scheduler).0)
      (all-Ready n (Batched.schedule b).scheduler (schedule-Queued n b all q))

empty-Valid :
    (n : ℕ) (b : Batched)
    → Batched.is_empty b ≡ true
    → All (InRange n) b.batch.pending × Queued n b.scheduler
unfolding Batched.is_empty Batch.is_empty Scheduler.is_empty
empty-Valid n b e =
    nothing-All (InRange n) (Ready n) b.batch.pending b.scheduler.critical b.scheduler.high
      b.scheduler.low e

pub batched-Delivers : Delivers batched
unfolding Batched.new new_engine new_scheduler Batched.add Batch.add
batched-Delivers = record {
  Valid = λ n b. All (InRange n) b.batch.pending × Queued n b.scheduler;
  Valid-new = λ n. (tt, (tt, tt, tt));
  Valid-add = λ n b x fits v. (All-append (InRange n) b.batch.pending _ v.0 (fits, tt), v.1);
  Valid-drain =
      λ n b v. (batched_drain n b v.0 v.1, empty-Valid n (Batched.drain b).1 (drain-tags b).1);
}
