-- ===== src/Pipeline/Same.antt =====
-- atlas-service/src/pipeline.rs: `Batched` hands out what `PassThrough` does, merged.
use mathlib.Core.Logic.{∥∥₁_elim}
use mathlib.Core.List.Perm
use mathlib.Core.List.Permᴰ
use mathlib.Core.List.{Permᴰ, Perm-prop}
use atlas_io.Base.{
  ◌<◌, ◌^◌, ◌≡◌, sym, subst, ap, ◌∙◌, List, ◌∷◌, ◌++◌, map, append_assoc, Perm, All,
}
use atlas_io.Batch.{TaggedRequest, MergedOp, singles, drain_merged}
use atlas_io.Batch.Merge.{piece_in, piece_of, pieces, NoWrap, total_len}
use atlas_io.Batch.Drain.{drain_merged-pieces, singles_lem}
use atlas_io.Scheduler.{new_scheduler}
use atlas_io.Scheduler.Drain.{by_priority, in_order-enqueue_all, enqueue_all-perm}
use atlas_io.Pipeline.{add_all}
use atlas_io.Pipeline.PassThrough.{pass_through}
use atlas_io.Pipeline.PassThrough as PassThrough
use atlas_io.Pipeline.Batched.{batched}
use atlas_io.Pipeline.Batched as Batched

-- Operations in another order stand for the same requests.
pieces-permuted : {xs ys : List MergedOp} → Permᴰ xs ys → Perm (pieces xs) (pieces ys)
pieces-permuted Permᴰ.nil = Perm.rfl
pieces-permuted (Permᴰ.cons {a = a} {b = b} {l₂ = ys} e d) =
    Perm.trans (Perm.append_left (map (piece_in a) a.sources) (pieces-permuted d))
      (subst (λ c. Perm (pieces (a ∷ ys)) (pieces (c ∷ ys))) e Perm.rfl)
pieces-permuted (Permᴰ.swap {a = a} {b = b} {b' = b'} {l = l} e e') =
    let f = map (piece_in a) a.sources in
    let g = map (piece_in b) b.sources in
    subst (λ c. Perm (pieces (a ∷ b ∷ l)) (pieces (c ∷ b' ∷ l))) e'
      (subst (λ c. Perm (pieces (a ∷ b ∷ l)) (pieces (b ∷ c ∷ l))) e
        (subst (λ t. Perm t (g ++ (f ++ pieces l))) (append_assoc f g (pieces l))
          (subst (Perm ((f ++ g) ++ pieces l)) (append_assoc g f (pieces l))
            (Perm.append_right (pieces l) ∣ Permᴰ.append_comm f g ∣₁))))
pieces-permuted (Permᴰ.trans d d') = Perm.trans (pieces-permuted d) (pieces-permuted d')

by_priority-perm : (ops : List MergedOp) → Perm (by_priority ops) ops
unfolding new_scheduler
by_priority-perm ops =
    subst (λ q. Perm q ops) (in_order-enqueue_all ops) (enqueue_all-perm new_scheduler ops)

-- Let no request run past 2 ^ 64 and all together be about less than 2 ^ 32 bytes. Added to a fresh
-- `PassThrough` they come out one operation each, in the order in which they went in. Added to a
-- fresh `Batched`, the operations that come out stand for exactly the same requests, each once: same
-- channel, descriptor, operation, identifier, offset and length.
pub merged-unmerged :
    (xs : List TaggedRequest)
    → All NoWrap xs
    → total_len xs < 2 ^ 32
    → ((PassThrough.drain (add_all pass_through PassThrough.new xs)).0 ≡ singles xs)
      × Perm
          (pieces (Batched.drain (add_all batched Batched.new xs)).0)
          (pieces (PassThrough.drain (add_all pass_through PassThrough.new xs)).0)
merged-unmerged xs fits few =
    let ops = (drain_merged (record { pending = xs })).0 in
    let (unmerged, _) = PassThrough.drain-add_all xs in
    let (same, _) = drain_merged-pieces (record { pending = xs }) fits few in
    let sorted = by_priority-perm ops in
    (
      unmerged,
      subst (λ q. Perm (pieces (Batched.drain (add_all batched Batched.new xs)).0) q)
          (sym (ap pieces unmerged ∙ (singles_lem xs).0))
          (subst (λ q. Perm (pieces q) (map piece_of xs)) (sym (Batched.drain-by_priority xs))
            (Perm.trans (∥∥₁_elim sorted Perm-prop pieces-permuted) same)),
    )
