-- ===== src/Scheduler/Tests.antt =====
-- Runs of scheduler.rs, and each theorem at a concrete input.
use atlas_io.Base.{ℕ, ◌≡◌, refl, List, [], ◌∷◌, take}
use atlas_io.Protocol.{priority_from_u8}
use atlas_io.Batch.{MergedOp}
use atlas_io.Scheduler.{new_scheduler, enqueue, enqueue_all, drain_queue, drain}
use atlas_io.Scheduler.Drain.{by_priority, drain-enqueue_all}

abbrev make_op : ℕ → ℕ → MergedOp
make_op id priority = record {
  req = record {
    id = id;
    op = 1;
    priority = priority;
    pad = [];
    fd = 0;
    offset = 0;
    len = 0;
    data_offset = 0;
    path = [];
  };
  channel_idx = 0;
  sources = record { request_id = id; offset_within = 0; original_len = 4096 } ∷ [];
}

abbrev ops : List MergedOp
ops = make_op 1 0 ∷ make_op 2 2 ∷ make_op 3 1 ∷ make_op 4 2 ∷ []

abbrev ids : List MergedOp → List ℕ
ids [] = []
ids (op ∷ ops) = op.req.id ∷ ids ops

-- The test `priority_ordering`, with a second critical operation.
priority_ordering : ids (drain (enqueue_all new_scheduler ops) 10).0 ≡ 2 ∷ 4 ∷ 3 ∷ 1 ∷ []
unfolding drain drain_queue enqueue_all enqueue new_scheduler priority_from_u8
priority_ordering = refl

drain-enqueue_all_example : (drain (enqueue_all new_scheduler ops) 3).0 ≡ take 3 (by_priority ops)
drain-enqueue_all_example = drain-enqueue_all ops 3
