-- ===== src/Spsc/Queue.antt =====
-- The values that a ring of spsc.rs holds between two handles.
use atlas_io.Base.{ℕ, ◌≡◌, refl, sym, ap, ◌∙◌, List, []}
use atlas_io.Base.Bits.{IsPower}
use atlas_io.Spsc.{SpscRing, Producer, Consumer, push, pop, new_producer, new_consumer}
use atlas_io.Spsc.Fifo.{add_newest, take_oldest}
use atlas_io.Spsc.Machine.{ProducerAt, ConsumerAt, System}
use atlas_io.Spsc.Machine.Counts.{Counts}
use atlas_io.Spsc.Machine.Contents.{Contents}
use atlas_io.Spsc.Machine.Reach.{start, start-Counts, start-Contents}
use atlas_io.Spsc.Machine.Calls.{
  push_call, pop_call, push_call-Run, pop_call-Run, Run-Counts, Run-Contents,
}
use atlas_io.Spsc.Machine.Refine.{view, push_refines, pop_refines}

-- The ring and its handles have got where they are by calls of `push` and `pop`, and the values
-- that are in the ring are `q`, oldest first.
pub record Holds {A : Type 0} (n : ℕ) (r : SpscRing A) (t : Producer) (h : Consumer) (q : List A)
    : Type 0 where
  pub system : System A
  pub ring : system.ring ≡ r
  pub producer : system.producer ≡ t
  pub consumer : system.consumer ≡ h
  pub producer_outside : system.producer_at ≡ ProducerAt.outside
  pub consumer_outside : system.consumer_at ≡ ConsumerAt.outside
  pub counts : Counts n system
  pub kept : Contents n system
  pub queue : view system ≡ q

module _ {A : Type 0} {n : ℕ} (p : IsPower n) where
  pub Holds-start :
      (r : SpscRing A) (t : Producer) (h : Consumer)
      → r.tail ≡ 0
      → r.head ≡ 0
      → t ≡ record { cached_head = 0; local_tail = 0 }
      → h ≡ record { local_head = 0; cached_tail = 0 }
      → Holds n r t h []
  unfolding start new_producer new_consumer
  Holds-start r t h tail head et eh = record {
    system = start r;
    ring = refl;
    producer = rw (tail, head) (sym et);
    consumer = rw (tail, head) (sym eh);
    producer_outside = refl;
    consumer_outside = refl;
    counts = start-Counts p r tail head;
    kept = start-Contents p r tail head;
    queue = refl;
  }

  module _ {r : SpscRing A} {t : Producer} {h : Consumer} {q : List A}
      (holds : Holds n r t h q) where
    -- `push` is `add_newest` on the queue.
    pub push-Holds :
        (v : A)
        → ((push n r t v).0 ≡ (add_newest n q v).0)
          × Holds n (push n r t v).1 (push n r t v).2 h (add_newest n q v).1
    push-Holds v =
        let s = holds.system in
        let queued : add_newest n q v ≡ ((push n s.ring s.producer v).0, view (push_call n s v)) =
          ap (λ q. add_newest n q v) (sym holds.queue)
          ∙ push_refines p holds.counts v holds.producer_outside in
        let same : push n s.ring s.producer v ≡ push n r t v =
          rw (holds.ring, holds.producer) refl in
        let run = push_call-Run n s v holds.producer_outside in
        (
          sym (ap (λ x. x.0) queued ∙ ap (λ x. x.0) same),
          record {
            system = push_call n s v;
            ring = ap (λ x. x.1) same;
            producer = ap (λ x. x.2) same;
            consumer = holds.consumer;
            producer_outside = refl;
            consumer_outside = holds.consumer_outside;
            counts = Run-Counts p run holds.counts;
            kept = Run-Contents p run holds.counts holds.kept;
            queue = sym (ap (λ x. x.1) queued);
          },
        )

    -- `pop` is `take_oldest` on the queue.
    pub pop-Holds :
        ((pop n r h).0 ≡ (take_oldest q).0)
        × Holds n (pop n r h).1 t (pop n r h).2 (take_oldest q).1
    pop-Holds =
        let s = holds.system in
        let queued : take_oldest q ≡ ((pop n s.ring s.consumer).0, view (pop_call n s)) =
          ap take_oldest (sym holds.queue)
          ∙ pop_refines p holds.counts holds.kept holds.consumer_outside in
        let same : pop n s.ring s.consumer ≡ pop n r h = rw (holds.ring, holds.consumer) refl in
        let run = pop_call-Run n s holds.consumer_outside in
        (
          sym (ap (λ x. x.0) queued ∙ ap (λ x. x.0) same),
          record {
            system = pop_call n s;
            ring = ap (λ x. x.1) same;
            producer = holds.producer;
            consumer = ap (λ x. x.2) same;
            producer_outside = holds.producer_outside;
            consumer_outside = refl;
            counts = Run-Counts p run holds.counts;
            kept = Run-Contents p run holds.counts holds.kept;
            queue = sym (ap (λ x. x.1) queued);
          },
        )
