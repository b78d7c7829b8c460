-- ===== src/Batch.antt =====
-- atlas-service/src/batch.rs: `BatchEngine`, which merges reads and writes of neighbouring ranges.
pub mod Order
pub mod Merge
pub mod Tags
pub mod Drain
pub mod Placement
mod Tests
use atlas_io.Base.{
  ℕ, ◌+◌, Bool, true, false, ◌&&◌, Option, some, List, [], ◌∷◌, ◌++◌, ltb, leb, ◌==◌, if◌then◌else◌,
  wrapping_add, wrapping_sub, as_u32,
}
use atlas_io.Protocol.{IoOp, IoRequest, op_from_u8}

-- A pending request with the index of its channel.
pub record TaggedRequest : Type 0 where
  pub req : IoRequest
  pub channel_idx : ℕ

-- `(request_id, offset_within_merged, original_len)`
pub record Source : Type 0 where
  pub request_id : ℕ
  pub offset_within : ℕ
  pub original_len : ℕ

pub record MergedOp : Type 0 where
  pub req : IoRequest
  pub channel_idx : ℕ
  pub sources : List Source

pub record BatchEngine : Type 0 where
  pub pending : List TaggedRequest

unfoldable pub new_engine : BatchEngine
new_engine = record { pending = [] }

unfoldable pub add : BatchEngine → IoRequest → ℕ → BatchEngine
add e req channel_idx = record {
  pending = e.pending ++ record { req = req; channel_idx = channel_idx } ∷ [];
}

abbrev pub is_nil {ℓ} : {A : Type ℓ} → List A → Bool
is_nil [] = true
is_nil (_ ∷ _) = false

unfoldable pub is_empty : BatchEngine → Bool
is_empty e = is_nil e.pending

-- The three vectors that `drain_merged` sorts the pending requests into.
pub record Separated : Type 0 where
  pub reads : List TaggedRequest
  pub writes : List TaggedRequest
  pub others : List TaggedRequest

abbrev pub place : Option IoOp → TaggedRequest → Separated → Separated
place (some IoOp.read) tr s = record s { reads = tr ∷ s.reads }
place (some IoOp.write) tr s = record s { writes = tr ∷ s.writes }
place _ tr s = record s { others = tr ∷ s.others }

-- Each vector keeps the order of the queue.
unfoldable pub separate : List TaggedRequest → Separated
separate [] = record { reads = []; writes = []; others = [] }
separate (tr ∷ trs) = place (op_from_u8 tr.req.op) tr (separate trs)

-- An operation with one source; so `PassThrough` builds them too.
abbrev pub single : TaggedRequest → MergedOp
single tr = record {
  req = tr.req;
  channel_idx = tr.channel_idx;
  sources = record { request_id = tr.req.id; offset_within = 0; original_len = tr.req.len } ∷ [];
}

abbrev pub singles : List TaggedRequest → List MergedOp
singles [] = []
singles (tr ∷ trs) = single tr ∷ singles trs

-- The comparison that `merge_adjacent` sorts by: channel, then descriptor, then offset.
abbrev pub not_after : TaggedRequest → TaggedRequest → Bool
not_after a b =
    if ltb a.channel_idx b.channel_idx
    then true
    else if ltb b.channel_idx a.channel_idx
    then false
    else if ltb a.req.fd b.req.fd
    then true
    else if ltb b.req.fd a.req.fd
    then false
    else leb a.req.offset b.req.offset

-- `slice::sort_by` is a stable sort.
unfoldable pub insert_by : TaggedRequest → List TaggedRequest → List TaggedRequest
insert_by x [] = x ∷ []
insert_by x (y ∷ ys) = if not_after x y then x ∷ y ∷ ys else y ∷ insert_by x ys

unfoldable pub sort_by : List TaggedRequest → List TaggedRequest
unfolding insert_by
sort_by [] = []
sort_by (x ∷ xs) = insert_by x (sort_by xs)

-- The locals of the outer loop: `merged_req` and `ch_idx` (both of the first request), `end` and
-- `sources`.
pub record Group : Type 0 where
  pub first : TaggedRequest
  pub end : ℕ
  pub sources : List Source

-- `x.req.offset + x.req.len as u64`
abbrev pub end_of : TaggedRequest → ℕ
end_of x = wrapping_add x.req.offset x.req.len

unfoldable pub open_group : TaggedRequest → Group
open_group x = record {
  first = x;
  end = end_of x;
  sources = record { request_id = x.req.id; offset_within = 0; original_len = x.req.len } ∷ [];
}

-- The test of the inner loop.
abbrev pub joins : Group → TaggedRequest → Bool
joins g x =
    x.channel_idx == g.first.channel_idx && x.req.fd == g.first.req.fd && leb x.req.offset g.end

-- The body of the inner loop.
unfoldable pub join : Group → TaggedRequest → Group
join g x = record g {
  end = if ltb g.end (end_of x) then end_of x else g.end;
  sources =
      g.sources
      ++ record {
        request_id = x.req.id;
        offset_within = as_u32 (wrapping_sub x.req.offset g.first.req.offset);
        original_len = x.req.len;
      }
        ∷ [];
}

-- What the outer loop pushes.
unfoldable pub close_group : Group → MergedOp
close_group g = record {
  req = record (g.first.req) { len = as_u32 (wrapping_sub g.end g.first.req.offset) };
  channel_idx = g.first.channel_idx;
  sources = g.sources;
}

-- Both loops: the inner one takes requests while they join the group, and where one does not, the
-- outer one closes the group and begins the next with it.
unfoldable pub merge_from : Group → List TaggedRequest → List MergedOp
merge_from g [] = close_group g ∷ []
merge_from g (x ∷ xs) = elim (joins g x) [
  | true ↦ merge_from (join g x) xs
  | false ↦ close_group g ∷ merge_from (open_group x) xs
]

unfoldable pub merge_sorted : List TaggedRequest → List MergedOp
merge_sorted [] = []
merge_sorted (x ∷ xs) = merge_from (open_group x) xs

-- The operations that `merge_adjacent` appends to the result.
unfoldable pub merge_adjacent : List TaggedRequest → List MergedOp
merge_adjacent ops = merge_sorted (sort_by ops)

-- The operations, and the engine that is left.
unfoldable pub drain_merged : BatchEngine → List MergedOp × BatchEngine
drain_merged e =
    let s = separate e.pending in
    (
      if is_nil e.pending
          then []
          else singles s.others ++ (merge_adjacent s.reads ++ merge_adjacent s.writes),
      record { pending = [] },
    )
