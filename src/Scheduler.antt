-- ===== src/Scheduler.antt =====
-- atlas-service/src/scheduler.rs: three queues by priority.
pub mod Drain
mod Tests
use atlas_io.Base.{
  ℕ, ◌+◌, Bool, ◌&&◌, Option, some, List, [], ◌∷◌, ◌++◌, length, ltb, if◌then◌else◌,
}
use atlas_io.Protocol.{IoPriority, priority_from_u8}
use atlas_io.Batch.{MergedOp, is_nil}

pub record Scheduler : Type 0 where
  pub critical : List MergedOp
  pub high : List MergedOp
  pub low : List MergedOp

unfoldable pub new_scheduler : Scheduler
new_scheduler = record { critical = []; high = []; low = [] }

abbrev pub enqueue_at : Option IoPriority → Scheduler → MergedOp → Scheduler
enqueue_at (some IoPriority.critical) s op = record s { critical = s.critical ++ op ∷ [] }
enqueue_at (some IoPriority.high) s op = record s { high = s.high ++ op ∷ [] }
enqueue_at _ s op = record s { low = s.low ++ op ∷ [] }

unfoldable pub enqueue : Scheduler → MergedOp → Scheduler
enqueue s op = enqueue_at (priority_from_u8 op.req.priority) s op

unfoldable pub enqueue_all : Scheduler → List MergedOp → Scheduler
enqueue_all s [] = s
enqueue_all s (op ∷ ops) = enqueue_all (enqueue s op) ops

-- The `while` of `drain` on one queue: what is then in `out`, and in the queue.
unfoldable pub drain_queue : ℕ → List MergedOp → List MergedOp → List MergedOp × List MergedOp
drain_queue max out [] = (out, [])
drain_queue max out (op ∷ q) =
    let rest = drain_queue max (out ++ op ∷ []) q in
    if ltb (length out) max then rest else (out, op ∷ q)

unfoldable pub drain : Scheduler → ℕ → List MergedOp × Scheduler
drain s max =
    let (out, critical) = drain_queue max [] s.critical in
    let (out', high) = drain_queue max out s.high in
    let (out'', low) = drain_queue max out' s.low in
    (out'', record { critical = critical; high = high; low = low })

unfoldable pub is_empty : Scheduler → Bool
is_empty s = is_nil s.critical && is_nil s.high && is_nil s.low

unfoldable pub queued : Scheduler → ℕ
queued s = length s.critical + length s.high + length s.low
