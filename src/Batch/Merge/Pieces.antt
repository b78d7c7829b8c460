-- ===== src/Batch/Merge/Pieces.antt =====
-- `merge_adjacent` on sorted requests: its operations stand for exactly those requests, in order,
-- and cover their bytes.
use atlas_io.Base.{
  ℕ, ◌+◌, ◌-◌, ◌≤◌, ◌<◌, ◌^◌, ◌≡◌, refl, sym, subst, ap, ap₂, ◌∙◌, true, List, [], ◌∷◌, ◌++◌, map,
  map-append, append_assoc, arith, All, Bool-cases, inl, inr,
}
use atlas_io.Batch.{
  TaggedRequest, MergedOp, Group, open_group, joins, join, close_group, merge_from, merge_sorted,
}
use atlas_io.Batch.Order.{Before, IsSorted, HasCode}
use atlas_io.Batch.Merge.{piece_of, piece_in, pieces, Covers, NoWrap, total_len}
use atlas_io.Batch.Merge.Groups.{
  Inside, source_in, Took, total_len-append, Took-open_group, Took-join,
}

pub len-close_group :
    (g : Group) (taken : List TaggedRequest)
    → total_len taken < 2 ^ 32
    → Took g taken
    → (close_group g).req.len ≡ g.end - g.first.req.offset
unfolding close_group
len-close_group g taken few t = omega (arith, t.start, t.span, t.end_fits)

piece_in-source_in :
    (op : MergedOp) (first : TaggedRequest) (end : ℕ) (xs : List TaggedRequest)
    → op.channel_idx ≡ first.channel_idx
    → op.req.fd ≡ first.req.fd
    → op.req.op ≡ first.req.op
    → op.req.offset ≡ first.req.offset
    → All (Inside first end) xs
    → map (piece_in op) (map (source_in first) xs) ≡ map piece_of xs
piece_in-source_in op first end [] a b c d all = refl
piece_in-source_in op first end (x ∷ xs) a b c d all =
    let here = all.0 in ap₂ ◌∷◌ (ground arith) (piece_in-source_in op first end xs a b c d all.1)

covers_sources :
    (first : TaggedRequest) (end len : ℕ) (xs : List TaggedRequest)
    → end - first.req.offset ≤ len
    → All (Inside first end) xs
    → All (λ s. s.offset_within + s.original_len ≤ len) (map (source_in first) xs)
covers_sources first end len [] le all = tt
covers_sources first end len (x ∷ xs) le all =
    let (a, b, c, d, e) = all.0 in (omega arith, covers_sources first end len xs le all.1)

module _ (g : Group) (taken : List TaggedRequest) (few : total_len taken < 2 ^ 32)
    (t : Took g taken) where
  pieces-close_group : map (piece_in (close_group g)) (close_group g).sources ≡ map piece_of taken
  unfolding close_group
  pieces-close_group =
      ap (map (piece_in (close_group g))) t.named
      ∙ piece_in-source_in (close_group g) g.first g.end taken refl refl refl refl t.inside

  close_group-Covers : Covers (close_group g)
  unfolding close_group
  close_group-Covers =
      subst (All (λ s. s.offset_within + s.original_len ≤ (close_group g).req.len)) (sym t.named) (
        covers_sources g.first g.end (close_group g).req.len taken
          (omega (arith, len-close_group g taken few t)) t.inside)

-- What a sorted rest must satisfy for `merge_from` to carry on.
pub record Fit (code : ℕ) (g : Group) (taken xs : List TaggedRequest) : Type 0 where
  pub took : Took g taken
  pub kind : g.first.req.op ≡ code
  pub kinds : All (HasCode code) xs
  pub fits : All NoWrap xs
  pub after : All (Before g.first) xs
  pub sorted : IsSorted xs
  pub few : total_len taken + total_len xs < 2 ^ 32

pub Fit-join :
    (code : ℕ) (g : Group) (taken : List TaggedRequest) (x : TaggedRequest)
    (xs : List TaggedRequest)
    → joins g x ≡ true
    → Fit code g taken (x ∷ xs)
    → Fit code (join g x) (taken ++ x ∷ []) xs
unfolding join
Fit-join code g taken x xs test f =
    let total = total_len-append taken (x ∷ []) in
    let before = f.after.0 in
    let from : g.first.req.offset ≤ x.req.offset = ground arith in
    record {
      took =
          Took-join g taken x f.fits.0 (f.kinds.0 ∙ sym f.kind) from (omega (arith, f.few)) test
            f.took;
      kind = f.kind;
      kinds = f.kinds.1;
      fits = f.fits.1;
      after = f.after.1;
      sorted = f.sorted.1;
      few = omega (arith, f.few, total);
    }

pub Fit-open_group :
    (code : ℕ) (x : TaggedRequest) (xs : List TaggedRequest)
    → All (HasCode code) (x ∷ xs)
    → All NoWrap (x ∷ xs)
    → IsSorted (x ∷ xs)
    → total_len (x ∷ xs) < 2 ^ 32
    → Fit code (open_group x) (x ∷ []) xs
unfolding open_group
Fit-open_group code x xs kinds fits sorted few = record {
  took = Took-open_group x fits.0;
  kind = kinds.0;
  kinds = kinds.1;
  fits = fits.1;
  after = sorted.0;
  sorted = sorted.1;
  few = omega arith;
}

-- The loop stands for what its group has taken, then for the rest; every operation covers its
-- sources.
merge_from_lem :
    (code : ℕ) (g : Group) (taken xs : List TaggedRequest)
    → Fit code g taken xs
    → (pieces (merge_from g xs) ≡ map piece_of taken ++ map piece_of xs)
      × All Covers (merge_from g xs)
unfolding merge_from
merge_from_lem code g taken [] f =
    let few : total_len taken < 2 ^ 32 = omega (arith, f.few) in
    (
      ap (λ ps. ps ++ []) (pieces-close_group g taken few f.took),
      (close_group-Covers g taken few f.took, tt),
    )
merge_from_lem code g taken (x ∷ xs) f = elim (Bool-cases (joins g x)) [
  | inl test ↦
      let (same, cover) =
        merge_from_lem code (join g x) (taken ++ x ∷ []) xs (Fit-join code g taken x xs test f) in
      rw (test, merge_from)
        (
          same
              ∙ ap (λ ps. ps ++ map piece_of xs) (map-append piece_of taken (x ∷ []))
              ∙ append_assoc (map piece_of taken) (piece_of x ∷ []) (map piece_of xs),
          cover,
        )
  | inr test ↦
      let few : total_len taken < 2 ^ 32 = omega (arith, f.few) in
      let few' : total_len (x ∷ xs) < 2 ^ 32 = omega (arith, f.few) in
      let (same, cover) =
        merge_from_lem code (open_group x) (x ∷ []) xs
          (Fit-open_group code x xs f.kinds f.fits f.sorted few') in
      rw (test, merge_from)
        (
          ap₂ ◌++◌ (pieces-close_group g taken few f.took) same,
          (close_group-Covers g taken few f.took, cover),
        )
]

pub merge_sorted_lem :
    (code : ℕ) (xs : List TaggedRequest)
    → All (HasCode code) xs
    → All NoWrap xs
    → IsSorted xs
    → total_len xs < 2 ^ 32
    → (pieces (merge_sorted xs) ≡ map piece_of xs) × All Covers (merge_sorted xs)
unfolding merge_sorted
merge_sorted_lem code [] kinds fits sorted few = (refl, tt)
merge_sorted_lem code (x ∷ xs) kinds fits sorted few =
    merge_from_lem code (open_group x) (x ∷ []) xs (Fit-open_group code x xs kinds fits sorted few)
