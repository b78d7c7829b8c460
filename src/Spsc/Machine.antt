-- ===== src/Spsc/Machine.antt =====
-- `Producer::push` and `Consumer::pop` of spsc.rs running at the same time: two threads over one
-- ring, interleaved at every access of shared memory (the loads and stores of `head` and `tail`,
-- and the plain accesses of a slot).
pub mod Counts
pub mod Steps
pub mod Contents
pub mod Reach
pub mod Calls
pub mod Refine
use atlas_io.Base.{ℕ, ◌+◌, ◌≡◌, ◌≢◌, true, false, List, [], ◌∷◌, ◌++◌, wrapping_add}
use atlas_io.Spsc.{SpscRing, Producer, Consumer, write_slot, slot_index, looks_full}

-- Where a thread stands inside its call, with the locals that are live there.
pub data ProducerAt (A : Type 0) : Type 0 where
  outside : ProducerAt A
  writing : A → ProducerAt A  -- before the slot write
  storing : A → ProducerAt A  -- before the store of `tail`

pub data ConsumerAt (A : Type 0) : Type 0 where
  outside : ConsumerAt A
  reading : ConsumerAt A  -- before the slot read
  storing : A → ConsumerAt A  -- before the store of `head`

-- `sent` and `received` are the history: what `push` has published, what `pop` has returned.
pub record System (A : Type 0) : Type 0 where
  pub ring : SpscRing A
  pub producer : Producer
  pub producer_at : ProducerAt A
  pub consumer : Consumer
  pub consumer_at : ConsumerAt A
  pub sent : List A
  pub received : List A

abbrev pub refreshed : {A : Type 0} → System A → Producer
refreshed s = record s.producer { cached_head = s.ring.head }

abbrev pub reloaded : {A : Type 0} → System A → Consumer
reloaded s = record s.consumer { cached_tail = s.ring.tail }

-- One access of shared memory, or the decision that needs none. A call may begin at any time, with
-- any value.
pub data Step {A : Type 0} (n : ℕ) (s : System A) : System A → Type 0 where
  push_fast :
      (v : A)
      → s.producer_at ≡ outside
      → looks_full n s.producer ≡ false
      → Step n s (record s { producer_at = writing v })
  push_refresh :
      (v : A)
      → s.producer_at ≡ outside
      → looks_full n s.producer ≡ true
      → looks_full n (refreshed s) ≡ false
      → Step n s (record s { producer = refreshed s; producer_at = writing v })
  push_refuse :
      s.producer_at ≡ outside
      → looks_full n s.producer ≡ true
      → looks_full n (refreshed s) ≡ true
      → Step n s (record s { producer = refreshed s })
  push_write :
      (v : A)
      → s.producer_at ≡ writing v
      → Step n s (record s {
        ring = record (s.ring) {
          slots = write_slot s.ring.slots (slot_index n s.producer.local_tail) v;
        };
        producer = record (s.producer) { local_tail = wrapping_add s.producer.local_tail 1 };
        producer_at = storing v;
      })
  push_store :
      (v : A)
      → s.producer_at ≡ storing v
      → Step n s (record s {
        ring = record (s.ring) { tail = s.producer.local_tail };
        producer_at = outside;
        sent = s.sent ++ v ∷ [];
      })
  pop_fast :
      s.consumer_at ≡ outside
      → s.consumer.local_head ≢ s.consumer.cached_tail
      → Step n s (record s { consumer_at = reading })
  pop_reload :
      s.consumer_at ≡ outside
      → s.consumer.local_head ≡ s.consumer.cached_tail
      → s.consumer.local_head ≢ s.ring.tail
      → Step n s (record s { consumer = reloaded s; consumer_at = reading })
  pop_empty :
      s.consumer_at ≡ outside
      → s.consumer.local_head ≡ s.consumer.cached_tail
      → s.consumer.local_head ≡ s.ring.tail
      → Step n s (record s { consumer = reloaded s })
  pop_read :
      s.consumer_at ≡ reading
      → Step n s (record s {
        consumer = record (s.consumer) { local_head = wrapping_add s.consumer.local_head 1 };
        consumer_at = storing (s.ring.slots (slot_index n s.consumer.local_head));
      })
  pop_store :
      (v : A)
      → s.consumer_at ≡ storing v
      → Step n s (record s {
        ring = record (s.ring) { head = s.consumer.local_head };
        consumer_at = outside;
        received = s.received ++ v ∷ [];
      })
