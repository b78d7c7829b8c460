-- ===== src/Batch/Merge.antt =====
-- What `merge_adjacent` makes of sorted requests: which request each source stands for, and that
-- its bytes lie inside the merged range.
pub mod Bytes
pub mod Groups
pub mod Pieces
pub mod Apart
use atlas_io.Base.{ℕ, ◌+◌, ◌≤◌, ◌<◌, ◌^◌, List, [], ◌∷◌, ◌++◌, map, All}
use atlas_io.Batch.{TaggedRequest, Source, MergedOp}

-- A request as its client sees it: where it comes from, and which bytes of which file it is about.
pub record Piece : Type 0 where
  pub channel_idx : ℕ
  pub fd : ℕ
  pub op : ℕ
  pub request_id : ℕ
  pub offset : ℕ
  pub len : ℕ

abbrev pub piece_of : TaggedRequest → Piece
piece_of x = record {
  channel_idx = x.channel_idx;
  fd = x.req.fd;
  op = x.req.op;
  request_id = x.req.id;
  offset = x.req.offset;
  len = x.req.len;
}

-- The request that a source of a merged operation stands for.
abbrev pub piece_in : MergedOp → Source → Piece
piece_in op s = record {
  channel_idx = op.channel_idx;
  fd = op.req.fd;
  op = op.req.op;
  request_id = s.request_id;
  offset = op.req.offset + s.offset_within;
  len = s.original_len;
}

abbrev pub pieces : List MergedOp → List Piece
pieces [] = []
pieces (op ∷ ops) = map (piece_in op) op.sources ++ pieces ops

-- The bytes of every source lie inside the merged range.
abbrev pub Covers : MergedOp → Type 0
Covers op = All (λ s. s.offset_within + s.original_len ≤ op.req.len) op.sources

-- No request runs past the end of the address space.
abbrev pub NoWrap : TaggedRequest → Type 0
NoWrap x = x.req.offset + x.req.len < 2 ^ 64

abbrev pub total_len : List TaggedRequest → ℕ
total_len [] = 0
total_len (x ∷ xs) = x.req.len + total_len xs
