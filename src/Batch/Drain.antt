-- ===== src/Batch/Drain.antt =====
-- `BatchEngine::drain_merged`: what is drained is what was pending.
use mathlib.Core.List.Perm
use atlas_io.Base.{
  ℕ, ◌+◌, ◌<◌, ◌^◌, ◌≡◌, refl, sym, ap, ap₂, ◌∙◌, subst, List, [], ◌∷◌, ◌++◌, map, append_assoc,
  arith, All, All-append, Perm, Option, some,
}
use atlas_io.Protocol.{IoOp, op_from_u8}
use atlas_io.Batch.{
  TaggedRequest, MergedOp, BatchEngine, Separated, place, separate, singles, sort_by,
  merge_adjacent, drain_merged,
}
use atlas_io.Batch.Order.{
  HasCode, All-sort_by, sort_by-IsSorted, sort_by-perm, separate-Everywhere, separate-Kinds,
  perm_of_parts,
}
use atlas_io.Batch.Merge.{piece_of, piece_in, pieces, Covers, NoWrap, total_len}
use atlas_io.Batch.Merge.Bytes.{total_len-sort_by}
use atlas_io.Batch.Merge.Pieces.{merge_sorted_lem}

abbrev bytes_in : Separated → ℕ
bytes_in s = total_len s.reads + total_len s.writes + total_len s.others

bytes_in-place :
    (o : Option IoOp) (tr : TaggedRequest) (s : Separated)
    → bytes_in (place o tr s) ≡ tr.req.len + bytes_in s
bytes_in-place (some IoOp.read) tr s = omega arith
bytes_in-place (some IoOp.write) tr s = omega arith
bytes_in-place _ tr s = omega arith

bytes_in-separate : (trs : List TaggedRequest) → bytes_in (separate trs) ≡ total_len trs
unfolding separate
bytes_in-separate [] = refl
bytes_in-separate (tr ∷ trs) =
    omega (arith, bytes_in-place (op_from_u8 tr.req.op) tr (separate trs), bytes_in-separate trs)

pub pieces-append : (xs ys : List MergedOp) → pieces (xs ++ ys) ≡ pieces xs ++ pieces ys
pieces-append [] ys = refl
pieces-append (x ∷ xs) ys =
    ap (λ ps. map (piece_in x) x.sources ++ ps) (pieces-append xs ys)
    ∙ sym (append_assoc (map (piece_in x) x.sources) (pieces xs) (pieces ys))

pub singles_lem :
    (trs : List TaggedRequest)
    → (pieces (singles trs) ≡ map piece_of trs) × All Covers (singles trs)
singles_lem [] = (refl, tt)
singles_lem (tr ∷ trs) =
    let (same, cover) = singles_lem trs in (ap₂ ◌∷◌ (ground arith) same, ((omega arith, tt), cover))

-- `merge_adjacent` on requests of one kind.
merge_adjacent_lem :
    (code : ℕ) (ops : List TaggedRequest)
    → All (HasCode code) ops
    → All NoWrap ops
    → total_len ops < 2 ^ 32
    → Perm (pieces (merge_adjacent ops)) (map piece_of ops) × All Covers (merge_adjacent ops)
unfolding merge_adjacent
merge_adjacent_lem code ops kinds fits few =
    let (same, cover) =
      merge_sorted_lem code (sort_by ops) (All-sort_by (HasCode code) ops kinds)
        (All-sort_by NoWrap ops fits) (sort_by-IsSorted ops)
        (omega (arith, total_len-sort_by ops)) in
    (
      subst (λ ps. Perm ps (map piece_of ops)) (sym same) (Perm.map piece_of (sort_by-perm ops)),
      cover,
    )

drained_lem :
    (trs : List TaggedRequest)
    → All NoWrap trs
    → total_len trs < 2 ^ 32
    → Perm (pieces (drain_merged (record { pending = trs })).0) (map piece_of trs)
      × All Covers (drain_merged (record { pending = trs })).0
unfolding drain_merged
drained_lem [] fits few = (Perm.rfl, tt)
drained_lem (tr ∷ trs) fits few =
    let s = separate (tr ∷ trs) in
    let kinds = separate-Kinds (tr ∷ trs) in
    let fit = separate-Everywhere NoWrap (tr ∷ trs) fits in
    let bytes = bytes_in-separate (tr ∷ trs) in
    let (same_r, cover_r) =
      merge_adjacent_lem 1 s.reads kinds.0 fit.in_reads (omega (arith, bytes)) in
    let (same_w, cover_w) =
      merge_adjacent_lem 2 s.writes kinds.1 fit.in_writes (omega (arith, bytes)) in
    let (same_o, cover_o) = singles_lem s.others in
    (
      perm_of_parts pieces piece_of pieces-append (tr ∷ trs) (singles s.others)
          (merge_adjacent s.reads) (merge_adjacent s.writes)
          (subst (λ ps. Perm ps (map piece_of s.others)) (sym same_o) Perm.rfl) same_r same_w,
      All-append Covers (singles s.others) _ cover_o
          (All-append Covers (merge_adjacent s.reads) _ cover_r cover_w),
    )

-- If no pending request runs past 2 ^ 64 and all together are about less than 2 ^ 32 bytes, then
-- the sources of the drained operations, read at their offsets within the merged ranges, are the
-- pending requests, each once: same channel, descriptor, operation, identifier, offset and length.
-- And every merged range covers the bytes of its sources.
pub drain_merged-pieces :
    (e : BatchEngine)
    → All NoWrap e.pending
    → total_len e.pending < 2 ^ 32
    → Perm (pieces (drain_merged e).0) (map piece_of e.pending) × All Covers (drain_merged e).0
drain_merged-pieces e fits few = drained_lem e.pending fits few
