-- ===== src/Batch/Tags.antt =====
-- Which requests an operation answers: their channels and identifiers. Nothing is assumed of the
-- ranges here.
use mathlib.Core.List.Perm
use mathlib.Core.List.{Permᴰ, Perm-prop}
use mathlib.Core.List.Permᴰ
use mathlib.Core.Logic.{∥∥₁_elim}
use atlas_io.Base.{
  ℕ, ◌≡◌, refl, sym, ap, ◌∙◌, List, [], ◌∷◌, ◌++◌, map, map-append, append_assoc, arith, Perm,
  subst, Bool-cases, inl, inr, true,
}
use atlas_io.Batch.{
  TaggedRequest, Source, MergedOp, BatchEngine, Group, is_nil, separate, singles, sort_by,
  open_group, joins, join, close_group, merge_from, merge_sorted, merge_adjacent, drain_merged,
}
use atlas_io.Batch.Order.{sort_by-perm, perm_of_parts}

pub record Tag : Type 0 where
  pub channel_idx : ℕ
  pub request_id : ℕ

abbrev pub tag_of : TaggedRequest → Tag
tag_of x = record { channel_idx = x.channel_idx; request_id = x.req.id }

abbrev pub tag_in : ℕ → Source → Tag
tag_in channel_idx s = record { channel_idx = channel_idx; request_id = s.request_id }

abbrev pub tags : List MergedOp → List Tag
tags [] = []
tags (op ∷ ops) = map (tag_in op.channel_idx) op.sources ++ tags ops

pub tags-append : (xs ys : List MergedOp) → tags (xs ++ ys) ≡ tags xs ++ tags ys
tags-append [] ys = refl
tags-append (x ∷ xs) ys =
    ap (λ ts. map (tag_in x.channel_idx) x.sources ++ ts) (tags-append xs ys)
    ∙ sym (append_assoc (map (tag_in x.channel_idx) x.sources) (tags xs) (tags ys))

pub tags-singles : (xs : List TaggedRequest) → tags (singles xs) ≡ map tag_of xs
tags-singles [] = refl
tags-singles (x ∷ xs) = ap (λ ts. tag_of x ∷ ts) (tags-singles xs)

-- Operations in another order answer the same requests.
tags-permuted : {xs ys : List MergedOp} → Permᴰ xs ys → Perm (tags xs) (tags ys)
tags-permuted Permᴰ.nil = Perm.rfl
tags-permuted (Permᴰ.cons {a = a} {b = b} {l₂ = ys} e d) =
    Perm.trans (Perm.append_left (map (tag_in a.channel_idx) a.sources) (tags-permuted d))
      (subst (λ c. Perm (tags (a ∷ ys)) (tags (c ∷ ys))) e Perm.rfl)
tags-permuted (Permᴰ.swap {a = a} {b = b} {b' = b'} {l = l} e e') =
    let f = map (tag_in a.channel_idx) a.sources in
    let g = map (tag_in b.channel_idx) b.sources in
    subst (λ c. Perm (tags (a ∷ b ∷ l)) (tags (c ∷ b' ∷ l))) e'
      (subst (λ c. Perm (tags (a ∷ b ∷ l)) (tags (b ∷ c ∷ l))) e
        (subst (λ t. Perm t (g ++ (f ++ tags l))) (append_assoc f g (tags l))
          (subst (Perm ((f ++ g) ++ tags l)) (append_assoc g f (tags l))
            (Perm.append_right (tags l) ∣ Permᴰ.append_comm f g ∣₁))))
tags-permuted (Permᴰ.trans d d') = Perm.trans (tags-permuted d) (tags-permuted d')

pub tags-perm : {xs ys : List MergedOp} → Perm xs ys → Perm (tags xs) (tags ys)
tags-perm p = ∥∥₁_elim p Perm-prop tags-permuted

abbrev group_tags : Group → List Tag
group_tags g = map (tag_in g.first.channel_idx) g.sources

group_tags-join :
    (g : Group) (x : TaggedRequest)
    → joins g x ≡ true
    → group_tags (join g x) ≡ group_tags g ++ tag_of x ∷ []
unfolding join
group_tags-join g x test =
    map-append (tag_in g.first.channel_idx) g.sources _
    ∙ ap (λ c. group_tags g ++ record { channel_idx = c; request_id = x.req.id } ∷ [])
        (ground arith)

tags-merge_from :
    (g : Group) (xs : List TaggedRequest) → tags (merge_from g xs) ≡ group_tags g ++ map tag_of xs
unfolding merge_from close_group open_group
tags-merge_from g [] = refl
tags-merge_from g (x ∷ xs) = elim (Bool-cases (joins g x)) [
  | inl test ↦
      rw (test, merge_from)
        (tags-merge_from (join g x) xs
          ∙ ap (λ ts. ts ++ map tag_of xs) (group_tags-join g x test)
          ∙ append_assoc (group_tags g) (tag_of x ∷ []) (map tag_of xs))
  | inr test ↦
      rw (test, merge_from) (ap (λ ts. group_tags g ++ ts) (tags-merge_from (open_group x) xs))
]

pub nil_of_is_nil : {A : Type 0} (xs : List A) → is_nil xs ≡ true → xs ≡ []
nil_of_is_nil [] h = refl
nil_of_is_nil (x ∷ xs) h = absurd (cc)

tags-merge_sorted : (xs : List TaggedRequest) → tags (merge_sorted xs) ≡ map tag_of xs
unfolding merge_sorted open_group
tags-merge_sorted [] = refl
tags-merge_sorted (x ∷ xs) = tags-merge_from (open_group x) xs

tags-merge_adjacent : (ops : List TaggedRequest) → Perm (tags (merge_adjacent ops)) (map tag_of ops)
unfolding merge_adjacent
tags-merge_adjacent ops =
    subst (λ ts. Perm ts (map tag_of ops)) (sym (tags-merge_sorted (sort_by ops)))
      (Perm.map tag_of (sort_by-perm ops))

drained_tags :
    (trs : List TaggedRequest)
    → Perm (tags (drain_merged (record { pending = trs })).0) (map tag_of trs)
unfolding drain_merged
drained_tags [] = Perm.rfl
drained_tags (tr ∷ trs) =
    let s = separate (tr ∷ trs) in
    perm_of_parts tags tag_of tags-append (tr ∷ trs) (singles s.others) (merge_adjacent s.reads)
      (merge_adjacent s.writes)
      (subst (λ ts. Perm ts (map tag_of s.others)) (sym (tags-singles s.others)) Perm.rfl)
      (tags-merge_adjacent s.reads) (tags-merge_adjacent s.writes)

-- Merging answers each pending request exactly once, whatever the ranges are, and leaves nothing
-- pending.
pub drain_merged-tags :
    (e : BatchEngine)
    → Perm (tags (drain_merged e).0) (map tag_of e.pending) × ((drain_merged e).1.pending ≡ [])
unfolding drain_merged
drain_merged-tags e = (drained_tags e.pending, refl)
