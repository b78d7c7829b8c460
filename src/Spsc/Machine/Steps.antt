-- ===== src/Spsc/Machine/Steps.antt =====
-- Every step of the two threads keeps the counters of spsc.rs true to the history.
use atlas_io.Base.{ℕ, sym, subst, arith, length}
use atlas_io.Base.Bits.{IsPower}
use atlas_io.Spsc.Machine.{
  System, Step, push_fast, push_refresh, push_refuse, push_write, push_store, pop_fast, pop_reload,
  pop_empty, pop_read, pop_store,
}
use atlas_io.Spsc.Machine.Counts.{
  reserved, written, claimed, taken, ProducerCounts, ConsumerCounts, Counts, producing_at,
  consuming_at, reserve_slot, reload_head, write_ahead, publish_one, claim_value, reload_tail,
  read_ahead, free_one, freed_meanwhile, sent_meanwhile, length-suc_snoc,
}

module _ {A : Type 0} {n : ℕ} (q : IsPower n) where
  -- Every access of shared memory, by either thread, keeps the counters true to the history.
  pub Step-Counts : {s t : System A} → Step n s t → Counts n s → Counts n t
  Step-Counts {s} (push_fast v a f) c = record {
    tail = c.tail;
    head = c.head;
    producing = reserve_slot q f (producing_at a c.producing);
    consuming = c.consuming;
  }
  Step-Counts {s} (push_refresh v a f g) c = record {
    tail = c.tail;
    head = c.head;
    producing = reserve_slot q g (reload_head q s.ring.head c.head (producing_at a c.producing));
    consuming = c.consuming;
  }
  Step-Counts {s} (push_refuse a f g) c = record {
    tail = c.tail;
    head = c.head;
    producing =
        producing_at (sym a) (reload_head q s.ring.head c.head (producing_at a c.producing));
    consuming = c.consuming;
  }
  Step-Counts {s} (push_write v a) c = record {
    tail = c.tail;
    head = c.head;
    producing = write_ahead q (producing_at a c.producing);
    consuming = c.consuming;
  }
  Step-Counts {s} (push_store v a) c =
      let now = producing_at a c.producing in
      let more = length-suc_snoc s.sent v in
      record {
        tail = omega (arith, now.local_tail, more);
        head = c.head;
        producing =
            subst (λ k. ProducerCounts n k (length s.received) 0 0 s.producer) more
              (publish_one q now);
        consuming =
            subst
              (λ k.
                ConsumerCounts k (length s.received) (claimed s.consumer_at) (taken s.consumer_at)
                  s.consumer)
              more (sent_meanwhile c.consuming);
      }
  Step-Counts {s} (pop_fast a f) c = record {
    tail = c.tail;
    head = c.head;
    producing = c.producing;
    consuming = claim_value f (consuming_at a c.consuming);
  }
  Step-Counts {s} (pop_reload a f g) c = record {
    tail = c.tail;
    head = c.head;
    producing = c.producing;
    consuming = claim_value g (reload_tail s.ring.tail c.tail (consuming_at a c.consuming));
  }
  Step-Counts {s} (pop_empty a f g) c = record {
    tail = c.tail;
    head = c.head;
    producing = c.producing;
    consuming = consuming_at (sym a) (reload_tail s.ring.tail c.tail (consuming_at a c.consuming));
  }
  Step-Counts {s} (pop_read a) c = record {
    tail = c.tail;
    head = c.head;
    producing = c.producing;
    consuming = read_ahead (consuming_at a c.consuming);
  }
  Step-Counts {s} (pop_store v a) c =
      let now = consuming_at a c.consuming in
      let more = length-suc_snoc s.received v in
      record {
        tail = c.tail;
        head = omega (arith, now.local_head, more);
        producing =
            subst
              (λ k.
                ProducerCounts n (length s.sent) k (reserved s.producer_at) (written s.producer_at)
                  s.producer)
              more (freed_meanwhile c.producing);
        consuming =
            subst (λ k. ConsumerCounts (length s.sent) k 0 0 s.consumer) more (free_one now);
      }
