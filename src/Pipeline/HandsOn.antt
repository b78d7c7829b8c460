-- ===== src/Pipeline/HandsOn.antt =====
-- What becomes of a request that comes alone.
use atlas_io.Base.{
  ◌<◌, ◌^◌, ◌≡◌, refl, false, [], ◌∷◌, arith, as_u32, u32_mod, wrapping_add, wrapping_sub,
}
use atlas_io.Protocol.{IoRequest}
use atlas_io.Batch.{
  MergedOp, TaggedRequest, single, new_engine, drain_merged, separate, merge_adjacent, merge_sorted,
  merge_from, open_group, close_group, sort_by, insert_by,
}
use atlas_io.Batch as Batch
use atlas_io.Scheduler.{enqueue, enqueue_all, new_scheduler, drain_queue, queued}
use atlas_io.Scheduler as Scheduler
use atlas_io.Pipeline.{Pipeline}
use atlas_io.Pipeline.PassThrough.{pass_through, drain_loop}
use atlas_io.Pipeline.PassThrough as PassThrough
use atlas_io.Pipeline.Batched.{batched, schedule}
use atlas_io.Pipeline.Batched as Batched

-- A pipeline that hands a lone request on as it is, and is then as it was.
pub record HandsOn (p : Pipeline) : Type 0 where
  pub is_empty-add : (req : IoRequest) → p.is_empty (p.add p.new req 0) ≡ false
  pub drain-add :
      (req : IoRequest)
      → req.offset < 2 ^ 64
      → req.len < u32_mod
      → p.drain (p.add p.new req 0) ≡ (single (record { req = req; channel_idx = 0 }) ∷ [], p.new)

pub pass_through-HandsOn : HandsOn pass_through
unfolding PassThrough.new PassThrough.add PassThrough.is_empty PassThrough.drain drain_loop
pass_through-HandsOn = record { is_empty-add = λ req. refl; drain-add = λ req h k. refl }

close_group-open_group :
    (x : TaggedRequest)
    → x.req.offset < 2 ^ 64
    → x.req.len < u32_mod
    → close_group (open_group x) ≡ single x
unfolding close_group open_group
close_group-open_group x h k =
    let len : as_u32 (wrapping_sub (wrapping_add x.req.offset x.req.len) x.req.offset) ≡ x.req.len =
      omega (arith, h, k) in
    ground (arith, len)

drain_merged-alone :
    (x : TaggedRequest)
    → x.req.offset < 2 ^ 64
    → x.req.len < u32_mod
    → drain_merged (record { pending = x ∷ [] }) ≡ (single x ∷ [], record { pending = [] })
unfolding drain_merged separate merge_adjacent merge_sorted merge_from sort_by insert_by
drain_merged-alone x h k = ground (arith, close_group-open_group x h k)

drain-enqueue_alone :
    (op : MergedOp)
    → let s = enqueue_all new_scheduler (op ∷ []) in
      Scheduler.drain s (queued s) ≡ (op ∷ [], new_scheduler)
unfolding enqueue_all enqueue new_scheduler Scheduler.drain drain_queue queued
drain-enqueue_alone op = ground arith

pub batched-HandsOn : HandsOn batched
unfolding Batched.new Batched.add Batched.is_empty Batched.drain schedule Batch.is_empty Batch.add
    new_engine
batched-HandsOn = record {
  is_empty-add = λ req. refl;
  drain-add = λ req h k.
      let x : TaggedRequest = record { req = req; channel_idx = 0 } in
      ground (arith, drain_merged-alone x h k, drain-enqueue_alone (single x));
}
