-- ===== src/Spsc/Machine/Reach.antt =====
-- Every interleaving of one producer and one consumer over a ring that `init_in_place` has made from
-- zeroed memory.
use atlas_io.Base.{ℕ, ◌+◌, ◌≤◌, ◌<◌, ◌≡◌, ◌≢◌, refl, sym, ◌∙◌, [], arith, length, take}
use atlas_io.Base.Bits.{IsPower}
use atlas_io.Spsc.{SpscRing, new_producer, new_consumer, slot_index}
use atlas_io.Spsc.Slots.{slot_index-lt, mod_ne}
use atlas_io.Spsc.Setup.{init_in_place, returned}
use atlas_io.Spsc.Setup.Handshake.{init_in_place_zeroed}
use atlas_io.Spsc.Machine.{ProducerAt, ConsumerAt, writing, reading, System, Step}
use atlas_io.Spsc.Machine.Steps.{Step-Counts}
use atlas_io.Spsc.Machine.Counts.{Counts, producing_at, consuming_at}
use atlas_io.Spsc.Machine.Contents.{Contents, Step-Contents, slot-word}

module _ {A : Type 0} where
  -- Both handles are made before either is used.
  unfoldable pub start : SpscRing A → System A
  start r = record {
    ring = r;
    producer = new_producer r;
    producer_at = ProducerAt.outside;
    consumer = new_consumer r;
    consumer_at = ConsumerAt.outside;
    sent = [];
    received = [];
  }

  pub data Reach (n : ℕ) (r : SpscRing A) : System A → Type 0 where
    here : Reach n r (start r)
    next : {s t : System A} → Reach n r s → Step n s t → Reach n r t

  module _ {n : ℕ} (p : IsPower n) (r : SpscRing A) (tail : r.tail ≡ 0) (head : r.head ≡ 0) where
    pub start-Counts : Counts n (start r)
    unfolding start new_producer new_consumer
    start-Counts = record {
      tail = omega arith;
      head = omega arith;
      producing = record {
        seen_head = 0;
        local_tail = omega arith;
        cached_head = omega arith;
        old_head = omega arith;
        room = omega arith;
      };
      consuming = record {
        seen_tail = 0;
        local_head = omega arith;
        cached_tail = omega arith;
        old_tail = omega arith;
        ready = omega arith;
      };
    }

    pub start-Contents : Contents n (start r)
    unfolding start
    start-Contents = record {
      filled = λ i v h e. cc;
      pending = λ v e. cc;
      held = λ v e. cc;
      fifo = refl;
    }

    pub Reach-Counts : {s : System A} → Reach n r s → Counts n s
    Reach-Counts here = start-Counts
    Reach-Counts (next before st) = Step-Counts p st (Reach-Counts before)

    pub Reach-Contents : {s : System A} → Reach n r s → Contents n s
    Reach-Contents here = start-Contents
    Reach-Contents (next before st) =
        Step-Contents p st (Reach-Counts before) (Reach-Contents before)

  -- What the invariant says of a state.
  sent_bounds :
      {n : ℕ} {s : System A}
      → Counts n s
      → (length s.received ≤ length s.sent) × (length s.sent ≤ length s.received + n)
  sent_bounds c = omega (arith, c.old_head, c.room, c.old_tail, c.ready)

  busy_slots :
      {n : ℕ} {s : System A} (v : A)
      → IsPower n
      → Counts n s
      → s.producer_at ≡ writing v
      → s.consumer_at ≡ reading
      → slot_index n s.producer.local_tail ≢ slot_index n s.consumer.local_head
  busy_slots {n} {s} v p c w q e =
      let put = producing_at w c.producing in
      let get = consuming_at q c.consuming in
      let lt : length s.received < length s.sent = omega (arith, get.ready, get.old_tail) in
      let near : length s.sent < length s.received + n = omega (arith, put.room, put.old_head) in
      mod_ne n (length s.received) (length s.sent) lt near
        (sym (slot-word p _ _ get.local_head) ∙ sym e ∙ slot-word p _ _ put.local_tail)

  module _ {n : ℕ} (ptr : ℕ) (zeroed r : SpscRing A) {s : System A} (unused : zeroed.magic ≡ 0)
      (made : init_in_place n ptr zeroed ≡ returned r) where
    made-Counts : Reach n r s → IsPower n × Counts n s
    made-Counts h =
        let (p, t, d) = init_in_place_zeroed n ptr zeroed unused made in (p, Reach-Counts p r t d h)

    -- However the two threads are interleaved, what the consumer has received is the beginning of
    -- what the producer has sent, in order and unchanged, and at most `n` values are under way.
    pub Reach-fifo :
        Reach n r s
        → (s.received ≡ take (length s.received) s.sent)
          × (length s.received ≤ length s.sent)
          × (length s.sent ≤ length s.received + n)
    Reach-fifo h =
        let (p, t, d) = init_in_place_zeroed n ptr zeroed unused made in
        let (le, room) = sent_bounds (Reach-Counts p r t d h) in
        ((Reach-Contents p r t d h).fifo, le, room)

    -- The producer never writes the slot that the consumer is about to read, and both stay inside
    -- the array of `n` slots.
    pub Reach-no_race :
        (v : A)
        → Reach n r s
        → s.producer_at ≡ writing v
        → s.consumer_at ≡ reading
        → (slot_index n s.producer.local_tail ≢ slot_index n s.consumer.local_head)
          × (slot_index n s.producer.local_tail < n)
          × (slot_index n s.consumer.local_head < n)
    Reach-no_race v h w q =
        let (p, c) = made-Counts h in
        (
          busy_slots v p c w q,
          slot_index-lt p s.producer.local_tail,
          slot_index-lt p s.consumer.local_head,
        )
