-- ===== src/Scheduler/Drain.antt =====
-- What `Scheduler::drain` takes: the front of the three queues one after the other.
use mathlib.Core.List.Perm
use atlas_io.Base.{
  Perm, perm_middle, subst, ℕ, zero, suc, ◌+◌, ◌-◌, ◌≤◌, ◌≡◌, refl, sym, ap, ap₂, ◌∙◌, List, [],
  ◌∷◌, ◌++◌, append_assoc, append-nil, length, take, drop, filter, filter-append, take-append,
  drop-append, length-take, length-append, ltb, Bool, true, false, arith, none, some, Option,
  if◌then◌else◌, take_of_length_le, drop_of_length_le,
}
use atlas_io.Protocol.{IoPriority, priority_from_u8}
use atlas_io.Batch.{MergedOp}
use atlas_io.Scheduler.{
  Scheduler, new_scheduler, enqueue_at, enqueue, enqueue_all, drain_queue, drain, queued,
}

-- The queues, first to last.
abbrev pub in_order : Scheduler → List MergedOp
in_order s = s.critical ++ (s.high ++ s.low)

-- A queue gives as much as there is room for.
drain_queue_lem :
    (max room : ℕ) (out q : List MergedOp)
    → length out + room ≡ max
    → drain_queue max out q ≡ (out ++ take room q, drop room q)
unfolding drain_queue
drain_queue_lem max zero out [] h = ap (λ o. (o, [])) (sym (append-nil out))
drain_queue_lem max (suc room) out [] h = ap (λ o. (o, [])) (sym (append-nil out))
drain_queue_lem max zero out (op ∷ q) h =
    let full : ltb (length out) max ≡ false = ground arith in
    rw full (ap (λ o. (o, op ∷ q)) (sym (append-nil out)))
drain_queue_lem max (suc room) out (op ∷ q) h =
    let more : ltb (length out) max ≡ true = ground arith in
    rw more (
      drain_queue_lem max room (out ++ op ∷ []) q (omega (arith, length-append out (op ∷ [])))
      ∙ ap (λ o. (o, drop room q)) (append_assoc out (op ∷ []) (take room q)))

-- `drain` hands out the first `max` operations of the critical, the high and the low queue taken
-- one after the other, and what stays queued is the rest, in the same order.
drain_lem :
    (s : Scheduler) (max : ℕ)
    → ((drain s max).0 ≡ take max (in_order s)) × (in_order (drain s max).1 ≡ drop max (in_order s))
unfolding drain
drain_lem s max =
    let n = length s.critical in
    let m = length s.high in
    let left = length-take max s.critical in
    let left' = length-take (max - n) s.high in
    let len = length-append (take max s.critical) (take (max - n) s.high) in
    let first = drain_queue_lem max max [] s.critical (omega arith) in
    let second = drain_queue_lem max (max - n) (take max s.critical) s.high (omega (arith, left)) in
    let third =
      drain_queue_lem max (max - n - m) (take max s.critical ++ take (max - n) s.high) s.low
        (omega (arith, left, left', len)) in
    rw (first, second, third)
      (
        append_assoc (take max s.critical) _ _
            ∙ sym (
                take-append max s.critical (s.high ++ s.low)
                ∙ ap (λ r. take max s.critical ++ r) (take-append (max - n) s.high s.low)),
        sym (
            drop-append max s.critical (s.high ++ s.low)
            ∙ ap (λ r. drop max s.critical ++ r) (drop-append (max - n) s.high s.low)),
      )

-- Draining as many as are queued empties the scheduler.
pub drain_all :
    (s : Scheduler) → ((drain s (queued s)).0 ≡ in_order s) × (in_order (drain s (queued s)).1 ≡ [])
unfolding queued
drain_all s =
    let (out, rest) = drain_lem s (queued s) in
    let enough : length (in_order s) ≤ queued s =
      omega (arith, length-append s.critical (s.high ++ s.low), length-append s.high s.low) in
    (
      out ∙ take_of_length_le (queued s) (in_order s) enough,
      rest ∙ drop_of_length_le (queued s) (in_order s) enough,
    )

-- Which queue an operation belongs to.
pub data Level : Type 0 where
  critical : Level
  high : Level
  low : Level

-- A priority byte that is no code counts as low.
abbrev level_of : Option IoPriority → Level
level_of (some IoPriority.critical) = Level.critical
level_of (some IoPriority.high) = Level.high
level_of _ = Level.low

abbrev pub level : MergedOp → Level
level op = level_of (priority_from_u8 op.req.priority)

abbrev same_level : Level → Level → Bool
same_level Level.critical Level.critical = true
same_level Level.high Level.high = true
same_level Level.low Level.low = true
same_level _ _ = false

abbrev pub at : Level → MergedOp → Bool
at l op = same_level l (level op)

-- The operations by priority, those of one priority in their order.
abbrev pub by_priority : List MergedOp → List MergedOp
by_priority ops =
    filter (at Level.critical) ops ++ (filter (at Level.high) ops ++ filter (at Level.low) ops)

record After (s : Scheduler) (ops : List MergedOp) (s' : Scheduler) : Type 0 where
  in_critical : s'.critical ≡ s.critical ++ filter (at Level.critical) ops
  in_high : s'.high ≡ s.high ++ filter (at Level.high) ops
  in_low : s'.low ≡ s.low ++ filter (at Level.low) ops

-- What one queue gets of an operation of a priority.
abbrev given : Level → Option IoPriority → MergedOp → List MergedOp
given l p op = if same_level l (level_of p) then op ∷ [] else []

enqueue_at_lem :
    (p : Option IoPriority) (s : Scheduler) (op : MergedOp)
    → ((enqueue_at p s op).critical ≡ s.critical ++ given Level.critical p op)
      × ((enqueue_at p s op).high ≡ s.high ++ given Level.high p op)
      × ((enqueue_at p s op).low ≡ s.low ++ given Level.low p op)
enqueue_at_lem (some IoPriority.critical) s op =
    (refl, sym (append-nil s.high), sym (append-nil s.low))
enqueue_at_lem (some IoPriority.high) s op =
    (sym (append-nil s.critical), refl, sym (append-nil s.low))
enqueue_at_lem (some IoPriority.low) s op =
    (sym (append-nil s.critical), sym (append-nil s.high), refl)
enqueue_at_lem none s op = (sym (append-nil s.critical), sym (append-nil s.high), refl)

enqueue-After : (s : Scheduler) (op : MergedOp) → After s (op ∷ []) (enqueue s op)
unfolding enqueue
enqueue-After s op =
    let (c, h, l) = enqueue_at_lem (priority_from_u8 op.req.priority) s op in
    record { in_critical = c; in_high = h; in_low = l }

After-trans :
    (s t u : Scheduler) (op : MergedOp) (ops : List MergedOp)
    → After s (op ∷ []) t
    → After t ops u
    → After s (op ∷ ops) u
After-trans s t u op ops first rest = record {
  in_critical =
      step (at Level.critical) s.critical t.critical u.critical first.in_critical rest.in_critical;
  in_high = step (at Level.high) s.high t.high u.high first.in_high rest.in_high;
  in_low = step (at Level.low) s.low t.low u.low first.in_low rest.in_low;
}
  where
    step :
        (p : MergedOp → Bool) (a b c : List MergedOp)
        → b ≡ a ++ filter p (op ∷ [])
        → c ≡ b ++ filter p ops
        → c ≡ a ++ filter p (op ∷ ops)
    step p a b c h k =
        k
        ∙ ap (λ b. b ++ filter p ops) h
        ∙ append_assoc a (filter p (op ∷ [])) (filter p ops)
        ∙ ap (λ r. a ++ r) (sym (filter-append p (op ∷ []) ops))

enqueue_all-After : (s : Scheduler) (ops : List MergedOp) → After s ops (enqueue_all s ops)
unfolding enqueue_all
enqueue_all-After s [] = record {
  in_critical = sym (append-nil s.critical);
  in_high = sym (append-nil s.high);
  in_low = sym (append-nil s.low);
}
enqueue_all-After s (op ∷ ops) =
    After-trans s (enqueue s op) _ op ops (enqueue-After s op)
      (enqueue_all-After (enqueue s op) ops)

pub in_order-enqueue_all :
    (ops : List MergedOp) → in_order (enqueue_all new_scheduler ops) ≡ by_priority ops
unfolding new_scheduler
in_order-enqueue_all ops =
    let after = enqueue_all-After new_scheduler ops in
    ap₂ ◌++◌ after.in_critical (ap₂ ◌++◌ after.in_high after.in_low)

-- Operations enqueued in an empty scheduler are handed out by priority, those of one priority first
-- in, first out: `drain` takes the first `max` of them in that order.
pub drain-enqueue_all :
    (ops : List MergedOp) (max : ℕ)
    → (drain (enqueue_all new_scheduler ops) max).0 ≡ take max (by_priority ops)
drain-enqueue_all ops max =
    (drain_lem (enqueue_all new_scheduler ops) max).0 ∙ ap (take max) (in_order-enqueue_all ops)

-- A queued operation is queued once.
enqueue_at-perm :
    (p : Option IoPriority) (s : Scheduler) (op : MergedOp)
    → Perm (in_order (enqueue_at p s op)) (in_order s ++ op ∷ [])
enqueue_at-perm p s op = Perm.trans (go p) (Perm.symm (perm_last (in_order s)))
  where
    perm_last : (xs : List MergedOp) → Perm (xs ++ op ∷ []) (op ∷ xs)
    perm_last xs = subst (λ ys. Perm (xs ++ op ∷ []) (op ∷ ys)) (append-nil xs) (perm_middle xs [])

    inside : (xs ys : List MergedOp) → Perm ((xs ++ op ∷ []) ++ ys) (op ∷ (xs ++ ys))
    inside xs ys = Perm.append_right ys (perm_last xs)

    go_low : Perm (in_order (enqueue_at none s op)) (op ∷ in_order s)
    go_low =
        Perm.trans
          (Perm.append_left s.critical
            (Perm.trans (Perm.append_left s.high (perm_last s.low)) (perm_middle s.high s.low)))
          (perm_middle s.critical (s.high ++ s.low))

    go : (p : Option IoPriority) → Perm (in_order (enqueue_at p s op)) (op ∷ in_order s)
    go (some IoPriority.critical) = inside s.critical (s.high ++ s.low)
    go (some IoPriority.high) =
        Perm.trans (Perm.append_left s.critical (inside s.high s.low))
          (perm_middle s.critical (s.high ++ s.low))
    go (some IoPriority.low) = go_low
    go none = go_low

pub enqueue_all-perm :
    (s : Scheduler) (ops : List MergedOp) → Perm (in_order (enqueue_all s ops)) (in_order s ++ ops)
unfolding enqueue_all enqueue
enqueue_all-perm s [] = subst (λ q. Perm (in_order s) q) (sym (append-nil (in_order s))) Perm.rfl
enqueue_all-perm s (op ∷ ops) = Perm.trans (enqueue_all-perm (enqueue s op) ops) (
    subst (λ q. Perm (in_order (enqueue s op) ++ ops) q) (append_assoc (in_order s) (op ∷ []) ops)
      (Perm.append_right ops (enqueue_at-perm (priority_from_u8 op.req.priority) s op)))
