-- ===== src/Pipeline/Tests.antt =====
-- Runs of pipeline.rs, and each theorem at a concrete input.
use atlas_io.Base.{ℕ, ◌≡◌, true, List, [], ◌∷◌, Perm, arith}
use atlas_io.Batch.{TaggedRequest, drain_merged, singles}
use atlas_io.Batch.Tags.{tags}
use atlas_io.Scheduler.Drain.{by_priority}
use atlas_io.Batch.Merge.{pieces}
use atlas_io.Pipeline.{add_all}
use atlas_io.Pipeline.Same.{merged-unmerged}
use atlas_io.Pipeline.PassThrough.{pass_through}
use atlas_io.Pipeline.PassThrough as PassThrough
use atlas_io.Pipeline.Batched.{Batched, batched, held}
use atlas_io.Pipeline.Batched as Batched

-- A read of 4096 bytes of descriptor 10 by channel 0.
abbrev read_at : ℕ → ℕ → ℕ → TaggedRequest
read_at id priority offset = record {
  req = record {
    id = id;
    op = 1;
    priority = priority;
    pad = [];
    fd = 10;
    offset = offset;
    len = 4096;
    data_offset = offset;
    path = [];
  };
  channel_idx = 0;
}

abbrev two_reads : List TaggedRequest
two_reads = read_at 1 1 0 ∷ read_at 2 1 4096 ∷ []

abbrev waiting : Batched
waiting = record {
  batch = record { pending = two_reads };
  scheduler = record { critical = []; high = []; low = [] };
}

merged-unmerged_example :
    ((PassThrough.drain (add_all pass_through PassThrough.new two_reads)).0 ≡ singles two_reads)
    × Perm
        (pieces (Batched.drain (add_all batched Batched.new two_reads)).0)
        (pieces (PassThrough.drain (add_all pass_through PassThrough.new two_reads)).0)
merged-unmerged_example = merged-unmerged two_reads (omega arith, (omega arith, tt)) (omega arith)

drain-tags_example :
    Perm (tags (Batched.drain waiting).0) (held waiting)
    × (Batched.is_empty (Batched.drain waiting).1 ≡ true)
drain-tags_example = Batched.drain-tags waiting

drain-by_priority_example :
    (Batched.drain (add_all batched Batched.new two_reads)).0
    ≡ by_priority (drain_merged (record { pending = two_reads })).0
drain-by_priority_example = Batched.drain-by_priority two_reads
