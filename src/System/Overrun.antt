-- ===== src/System/Overrun.antt =====
-- A merged read next to a pending write: `drain_merged` of atlas-service/src/batch.rs and then
-- `execute_round` of atlas-service/src/service.rs.
use atlas_io.Base.{◌+◌, ◌<◌, ◌^◌, ◌≡◌, ap, [], ◌∷◌, arith}
use atlas_io.Batch.{
  TaggedRequest, MergedOp, merge_adjacent, merge_sorted, merge_from, open_group, join, close_group,
}
use atlas_io.Batch.Placement.{Follows, in_order, joins_next}
use atlas_io.Pipeline.{Pipeline}

-- The operation that two reads or two writes make.
abbrev pub both : TaggedRequest → TaggedRequest → MergedOp
both x y = record {
  req = record (x.req) { len = x.req.len + y.req.len };
  channel_idx = x.channel_idx;
  sources = (join (open_group x) y).sources;
}

pub merge_two :
    (x y : TaggedRequest)
    → Follows x y
    → x.req.len + y.req.len < 2 ^ 32
    → merge_adjacent (x ∷ y ∷ []) ≡ both x y ∷ []
unfolding merge_adjacent merge_sorted merge_from close_group join open_group
merge_two x y f few =
    let o = f.offset in
    let fits = f.fits in
    let width = (join (open_group x) y).sources in
    rw (in_order x y f, merge_sorted, joins_next x y f, merge_from)
      (ap
        (λ n.
          record { req = record (x.req) { len = n }; channel_idx = x.channel_idx; sources = width }
          ∷ [])
        (ground (arith, o, fits, few)))
