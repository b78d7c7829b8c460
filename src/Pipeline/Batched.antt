-- ===== src/Pipeline/Batched.antt =====
-- atlas-service/src/pipeline.rs: `Batched`, which merges by `BatchEngine` and orders by `Scheduler`.
use mathlib.Core.List.Perm
use mathlib.Core.List.Permᴰ
use atlas_io.Base.{
  ℕ, ◌≡◌, refl, sym, subst, ap, ap₂, arith, perm_middle, ◌∙◌, Bool, true, ◌&&◌, List, [], ◌∷◌, ◌++◌,
  map, map-append, append_assoc, append-nil, Perm, if◌then◌else◌, Bool-cases, inl, inr,
}
use atlas_io.Protocol.{IoRequest}
use atlas_io.Batch.{TaggedRequest, MergedOp, BatchEngine, new_engine, is_nil, drain_merged}
use atlas_io.Batch as Batch
use atlas_io.Batch.Tags.{
  Tag, tag_of, tags, tags-append, tags-perm, drain_merged-tags, nil_of_is_nil,
}
use atlas_io.Scheduler.{Scheduler, new_scheduler, enqueue_all, queued}
use atlas_io.Scheduler as Scheduler
use atlas_io.Scheduler.Drain.{
  in_order, drain_all, enqueue_all-perm, by_priority, in_order-enqueue_all,
}
use atlas_io.Pipeline.{Pipeline, Conserves, add_all}

pub record Batched : Type 0 where
  pub batch : BatchEngine
  pub scheduler : Scheduler

unfoldable pub new : Batched
new = record { batch = new_engine; scheduler = new_scheduler }

unfoldable pub add : Batched → IoRequest → ℕ → Batched
add b req channel_idx = record b { batch = Batch.add b.batch req channel_idx }

unfoldable pub is_empty : Batched → Bool
is_empty b = Batch.is_empty b.batch && Scheduler.is_empty b.scheduler

-- The first half of `drain`: what is pending goes to the scheduler.
unfoldable pub schedule : Batched → Batched
schedule b = if Batch.is_empty b.batch then b else record {
  batch = (drain_merged b.batch).1;
  scheduler = enqueue_all b.scheduler (drain_merged b.batch).0;
}

unfoldable pub drain : Batched → List MergedOp × Batched
drain b =
    let b' = schedule b in
    let (out, scheduler) = Scheduler.drain b'.scheduler (queued b'.scheduler) in
    (out, record b' { scheduler = scheduler })

abbrev pub batched : Pipeline
batched = record { State = Batched; new = new; add = add; is_empty = is_empty; drain = drain }

abbrev pub held : Batched → List Tag
held b = map tag_of b.batch.pending ++ tags (in_order b.scheduler)

schedule-held :
    (b : Batched)
    → (Perm (tags (in_order (schedule b).scheduler)) (held b)) × ((schedule b).batch.pending ≡ [])
unfolding schedule Batch.is_empty
schedule-held b = elim (Bool-cases (is_nil b.batch.pending)) [
  | inl nothing ↦ let e = nil_of_is_nil b.batch.pending nothing in rw nothing (rw e Perm.rfl, e)
  | inr something ↦
      let (kept, gone) = drain_merged-tags b.batch in
      let ops = (drain_merged b.batch).0 in
      let pending = map tag_of b.batch.pending in
      let queued_tags = tags (in_order b.scheduler) in
      rw something (
        Perm.trans (tags-perm (enqueue_all-perm b.scheduler ops)) (
            subst (λ q. Perm q (pending ++ queued_tags))
              (sym (tags-append (in_order b.scheduler) ops))
              (Perm.trans (Perm.append_left queued_tags kept)
                ∣ Permᴰ.append_comm queued_tags pending ∣₁)),
        gone,
      )
]

all_nil : (a b c : List MergedOp) → a ++ (b ++ c) ≡ [] → (is_nil a && is_nil b && is_nil c) ≡ true
all_nil [] [] [] h = refl
all_nil [] [] (_ ∷ _) h = absurd (cc)
all_nil [] (_ ∷ _) c h = absurd (cc)
all_nil (_ ∷ _) b c h = absurd (cc)

nil_of_all :
    (a b c : List MergedOp) → (is_nil a && is_nil b && is_nil c) ≡ true → a ++ (b ++ c) ≡ []
nil_of_all [] [] [] h = refl
nil_of_all [] [] (_ ∷ _) h = absurd (cc)
nil_of_all [] (_ ∷ _) c h = absurd (cc)
nil_of_all (_ ∷ _) b c h = absurd (cc)

is_empty_of_in_order : (s : Scheduler) → in_order s ≡ [] → Scheduler.is_empty s ≡ true
unfolding Scheduler.is_empty
is_empty_of_in_order s h = all_nil s.critical s.high s.low h

in_order_of_is_empty : (s : Scheduler) → Scheduler.is_empty s ≡ true → in_order s ≡ []
unfolding Scheduler.is_empty
in_order_of_is_empty s h = nil_of_all s.critical s.high s.low h

-- One drain of `Batched` hands out an operation for every request that was pending or queued, each
-- exactly once, and the pipeline is then empty.
pub drain-tags : (b : Batched) → (Perm (tags (drain b).0) (held b)) × (is_empty (drain b).1 ≡ true)
unfolding drain is_empty Batch.is_empty
drain-tags b =
    let (kept, gone) = schedule-held b in
    let (out, left) = drain_all (schedule b).scheduler in
    (subst (λ q. Perm (tags q) (held b)) (sym out) kept, rw gone (is_empty_of_in_order _ left))

batched-add_all :
    (b : Batched) (xs : List TaggedRequest)
    → add_all batched b xs ≡ record b { batch = record { pending = b.batch.pending ++ xs } }
unfolding add_all add Batch.add
batched-add_all b [] =
    ap (λ p. record b { batch = record { pending = p } }) (sym (append-nil b.batch.pending))
batched-add_all b (x ∷ xs) =
    batched-add_all (add b x.req x.channel_idx) xs
    ∙ ap (λ p. record b { batch = record { pending = p } })
        (append_assoc b.batch.pending (x ∷ []) xs)

drain_merged_nil : (e : BatchEngine) → is_nil e.pending ≡ true → (drain_merged e).0 ≡ []
unfolding drain_merged
drain_merged_nil e nothing = rw nothing refl

drain_fresh :
    (e : BatchEngine)
    → (drain (record { batch = e; scheduler = new_scheduler })).0 ≡ by_priority (drain_merged e).0
unfolding drain schedule Batch.is_empty new_scheduler
drain_fresh e = elim (Bool-cases (is_nil e.pending)) [
  | inl nothing ↦ rw nothing (rw (drain_merged_nil e nothing) ((drain_all new_scheduler).0))
  | inr something ↦ rw something (
      (drain_all (enqueue_all new_scheduler (drain_merged e).0)).0
      ∙ in_order-enqueue_all (drain_merged e).0)
]

-- Requests added to a fresh `Batched` come out as the operations that `drain_merged` makes of them,
-- by priority: critical before high before low, and those of one priority in its order.
pub drain-by_priority :
    (xs : List TaggedRequest)
    → (drain (add_all batched new xs)).0 ≡ by_priority (drain_merged (record { pending = xs })).0
unfolding new new_engine
drain-by_priority xs =
    ap (λ b. (drain b).0) (batched-add_all new xs) ∙ drain_fresh (record { pending = xs })

held-add :
    (b : Batched) (x : TaggedRequest)
    → Perm (held (add b x.req x.channel_idx)) (held b ++ tag_of x ∷ [])
unfolding add Batch.add
held-add b x =
    let pending = map tag_of b.batch.pending in
    let rest = tags (in_order b.scheduler) in
    let front : Perm (map tag_of (b.batch.pending ++ x ∷ []) ++ rest)
        (tag_of x ∷ (pending ++ rest)) =
      subst (λ q. Perm q (tag_of x ∷ (pending ++ rest)))
        (sym (
          ap (λ t. t ++ rest) (map-append tag_of b.batch.pending (x ∷ []))
          ∙ append_assoc pending (tag_of x ∷ []) rest))
        (perm_middle pending rest) in
    Perm.trans front ∣ Permᴰ.append_comm (tag_of x ∷ []) (pending ++ rest) ∣₁

held-is_empty : (b : Batched) → is_empty b ≡ true → held b ≡ []
unfolding is_empty Batch.is_empty
held-is_empty b h = elim (Bool-cases (is_nil b.batch.pending)) [
  | inl nothing ↦
      let queues : Scheduler.is_empty b.scheduler ≡ true = ground arith in
      ap₂ (λ p q. map tag_of p ++ tags q) (nil_of_is_nil b.batch.pending nothing)
        (in_order_of_is_empty b.scheduler queues)
  | inr something ↦ absurd (ground arith)
]

-- `Batched` keeps what the interface asks for.
pub batched-Conserves : Conserves batched
unfolding new new_engine new_scheduler
batched-Conserves = record {
  held = held;
  held-new = refl;
  held-add = held-add;
  held-drain = λ b.
      let nothing = held-is_empty (drain b).1 (drain-tags b).1 in
      subst (λ h. Perm (tags (drain b).0 ++ h) (held b)) (sym nothing)
        (subst (λ q. Perm q (held b)) (sym (append-nil _)) (drain-tags b).0);
  held-is_empty = held-is_empty;
  is_empty-drain = λ b. (drain-tags b).1;
}
