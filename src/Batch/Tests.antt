-- ===== src/Batch/Tests.antt =====
-- Runs of batch.rs, and each theorem at a concrete input.
use atlas_io.Base.{ℕ, ◌≡◌, refl, List, [], ◌∷◌, map, arith, length, All, Perm}
use atlas_io.Protocol.{op_from_u8}
use atlas_io.Batch.{
  TaggedRequest, MergedOp, BatchEngine, separate, insert_by, sort_by, merge_from, merge_sorted,
  merge_adjacent, drain_merged, open_group, join, close_group,
}
use atlas_io.Batch.Tags.{tags, tag_of, drain_merged-tags}
use atlas_io.Batch.Merge.{pieces, piece_of, Covers}
use atlas_io.Batch.Drain.{drain_merged-pieces}
use atlas_io.Batch.Placement.{placements, merge_adjacent-placements}

-- A request for 4096 bytes.
abbrev block : ℕ → ℕ → ℕ → ℕ → ℕ → TaggedRequest
block op id fd offset data_offset = record {
  req = record {
    id = id;
    op = op;
    priority = 1;
    pad = [];
    fd = fd;
    offset = offset;
    len = 4096;
    data_offset = data_offset;
    path = [];
  };
  channel_idx = 0;
}

abbrev first_read : TaggedRequest
first_read = block 1 1 10 0 0

abbrev second_read : TaggedRequest
second_read = block 1 2 10 4096 4096

abbrev other_read : TaggedRequest
other_read = block 1 3 11 0 8192

abbrev first_write : TaggedRequest
first_write = block 2 4 10 0 0

abbrev second_write : TaggedRequest
second_write = block 2 5 10 4096 65536

-- Two reads that belong together, out of order, with one of another file between them.
abbrev reads : List TaggedRequest
reads = second_read ∷ other_read ∷ first_read ∷ []

abbrev engine : BatchEngine
engine = record { pending = reads }

abbrev spans : List MergedOp → List (ℕ × ℕ × ℕ)
spans [] = []
spans (op ∷ ops) = (op.req.fd, op.req.len, length op.sources) ∷ spans ops

-- The test `merge_adjacent_reads`.
merge_adjacent_reads :
    spans (drain_merged (record { pending = first_read ∷ second_read ∷ [] })).0 ≡ (10, 8192, 2) ∷ []
unfolding drain_merged merge_adjacent merge_sorted merge_from separate sort_by insert_by open_group
    join close_group op_from_u8
merge_adjacent_reads = refl

-- The test `no_merge_different_fds`.
no_merge_different_fds :
    spans (drain_merged (record { pending = first_read ∷ other_read ∷ [] })).0
    ≡ (10, 4096, 1) ∷ (11, 4096, 1) ∷ []
unfolding drain_merged merge_adjacent merge_sorted merge_from separate sort_by insert_by open_group
    join close_group op_from_u8
no_merge_different_fds = refl

drain_merged-tags_example :
    Perm (tags (drain_merged engine).0) (map tag_of reads) × ((drain_merged engine).1.pending ≡ [])
drain_merged-tags_example = drain_merged-tags engine

drain_merged-pieces_example :
    Perm (pieces (drain_merged engine).0) (map piece_of reads) × All Covers (drain_merged engine).0
drain_merged-pieces_example =
    drain_merged-pieces engine (omega arith, (omega arith, (omega arith, tt))) (omega arith)

-- The data of the second write is at 65536, and bytes from 4096 on are written.
merge_adjacent-placements_example :
    placements (merge_adjacent (first_write ∷ second_write ∷ []))
    ≡ record { request_id = 4; data_offset = 0 }
      ∷ record { request_id = 5; data_offset = 4096 }
      ∷ []
merge_adjacent-placements_example = merge_adjacent-placements first_write second_write (record {
  channel = refl;
  descriptor = refl;
  offset = refl;
  fits = omega arith;
  small = omega arith;
})
