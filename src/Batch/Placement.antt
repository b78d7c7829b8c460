-- ===== src/Batch/Placement.antt =====
-- Which bytes of the data region a merged operation moves: it has the `data_offset` of its first
-- request, so the data of the others is taken to follow on it.
use atlas_io.Base.{ℕ, ◌+◌, ◌<◌, ◌^◌, ◌≡◌, refl, ap₂, List, [], ◌∷◌, ◌++◌, map, arith, true}
use atlas_io.Batch.{
  TaggedRequest, Source, MergedOp, insert_by, sort_by, joins, join, open_group, close_group,
  merge_from, merge_sorted, merge_adjacent, not_after,
}
use atlas_io.Batch.Merge.{NoWrap}

-- The data of a request begins at an offset of the region.
pub record Placed : Type 0 where
  pub request_id : ℕ
  pub data_offset : ℕ

abbrev pub placed_in : MergedOp → Source → Placed
placed_in op s = record {
  request_id = s.request_id;
  data_offset = op.req.data_offset + s.offset_within;
}

abbrev pub placements : List MergedOp → List Placed
placements [] = []
placements (op ∷ ops) = map (placed_in op) op.sources ++ placements ops

-- The second of two requests goes on in the file where the first ends.
pub record Follows (x y : TaggedRequest) : Type 0 where
  pub channel : y.channel_idx ≡ x.channel_idx
  pub descriptor : y.req.fd ≡ x.req.fd
  pub offset : y.req.offset ≡ x.req.offset + x.req.len
  pub fits : NoWrap y
  pub small : x.req.len < 2 ^ 32

pub in_order : (x y : TaggedRequest) → Follows x y → sort_by (x ∷ y ∷ []) ≡ x ∷ y ∷ []
unfolding sort_by insert_by
in_order x y f =
    let c = f.channel in
    let d = f.descriptor in
    let o = f.offset in let first : not_after x y ≡ true = ground arith in rw first refl

pub joins_next : (x y : TaggedRequest) → Follows x y → joins (open_group x) y ≡ true
unfolding open_group
joins_next x y f =
    let c = f.channel in
    let d = f.descriptor in let o = f.offset in let fits = f.fits in ground arith

placements_merged :
    (x y : TaggedRequest)
    → Follows x y
    → placements (close_group (join (open_group x) y) ∷ [])
      ≡ record { request_id = x.req.id; data_offset = x.req.data_offset }
        ∷ record { request_id = y.req.id; data_offset = x.req.data_offset + x.req.len }
        ∷ []
unfolding close_group join open_group
placements_merged x y f =
    let o = f.offset in
    let fits = f.fits in
    let small = f.small in
    ap₂
      (λ m n.
        record { request_id = x.req.id; data_offset = m }
        ∷ record { request_id = y.req.id; data_offset = n }
        ∷ [])
      (omega arith) (omega arith)

-- When one request of a kind goes on where another of its kind ends, `merge_adjacent` makes one
-- operation of the two, which takes the data of the second from right behind the data of the first:
-- where the second request itself keeps its data makes no difference.
pub merge_adjacent-placements :
    (x y : TaggedRequest)
    → Follows x y
    → placements (merge_adjacent (x ∷ y ∷ []))
      ≡ record { request_id = x.req.id; data_offset = x.req.data_offset }
        ∷ record { request_id = y.req.id; data_offset = x.req.data_offset + x.req.len }
        ∷ []
unfolding merge_adjacent merge_sorted merge_from
merge_adjacent-placements x y f =
    rw (in_order x y f, merge_sorted, joins_next x y f, merge_from) (placements_merged x y f)
