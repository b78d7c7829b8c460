-- ===== src/Spsc/Machine/Counts.antt =====
-- The counters of spsc.rs against the number of values sent and received: no wrap and no stale
-- cache ever lets the two threads meet.
use atlas_io.Base.{
  ℕ, suc, ◌+◌, ◌%◌, ◌^◌, ◌≤◌, ◌≡◌, ◌≢◌, false, List, [], ◌∷◌, ◌++◌, subst, arith, length,
  length-snoc, wrapping_add,
}
use atlas_io.Base.Bits.{IsPower, IsPower-le}
use atlas_io.Spsc.{Producer, Consumer, looks_full}
use atlas_io.Spsc.Machine.{ProducerAt, ConsumerAt, writing, reading, System}

-- Slots that the producer has reserved beyond what it has published, and how far its local counter
-- is ahead.
abbrev pub reserved : {A : Type 0} → ProducerAt A → ℕ
reserved ProducerAt.outside = 0
reserved (writing _) = 1
reserved (ProducerAt.storing _) = 1

abbrev pub written : {A : Type 0} → ProducerAt A → ℕ
written ProducerAt.outside = 0
written (writing _) = 0
written (ProducerAt.storing _) = 1

abbrev pub claimed : {A : Type 0} → ConsumerAt A → ℕ
claimed ConsumerAt.outside = 0
claimed reading = 1
claimed (ConsumerAt.storing _) = 1

abbrev pub taken : {A : Type 0} → ConsumerAt A → ℕ
taken ConsumerAt.outside = 0
taken reading = 0
taken (ConsumerAt.storing _) = 1

-- What the producer's locals say of `sent` published and `received` returned values. `seen_head` is
-- the count that the cached word stands for.
pub record ProducerCounts (n sent received reserve ahead : ℕ) (p : Producer) : Type 0 where
  pub seen_head : ℕ
  pub local_tail : p.local_tail ≡ (sent + ahead) % 2 ^ 64
  pub cached_head : p.cached_head ≡ seen_head % 2 ^ 64
  pub old_head : seen_head ≤ received
  pub room : sent + reserve ≤ seen_head + n

pub record ConsumerCounts (sent received claim ahead : ℕ) (c : Consumer) : Type 0 where
  pub seen_tail : ℕ
  pub local_head : c.local_head ≡ (received + ahead) % 2 ^ 64
  pub cached_tail : c.cached_tail ≡ seen_tail % 2 ^ 64
  pub old_tail : seen_tail ≤ sent
  pub ready : received + claim ≤ seen_tail

abbrev pub Producing : {A : Type 0} → ℕ → System A → Type 0
Producing n s =
    ProducerCounts n (length s.sent) (length s.received) (reserved s.producer_at)
      (written s.producer_at) s.producer

abbrev pub Consuming : {A : Type 0} → System A → Type 0
Consuming s =
    ConsumerCounts (length s.sent) (length s.received) (claimed s.consumer_at) (taken s.consumer_at)
      s.consumer

pub record Counts {A : Type 0} (n : ℕ) (s : System A) : Type 0 where
  pub tail : s.ring.tail ≡ length s.sent % 2 ^ 64
  pub head : s.ring.head ≡ length s.received % 2 ^ 64
  pub producing : Producing n s
  pub open producing use *
  pub consuming : Consuming s
  pub open consuming use *

module _ {n sent received : ℕ} (q : IsPower n) {p : Producer} where
  -- A producer that sees room may reserve a slot.
  pub reserve_slot :
      looks_full n p ≡ false
      → ProducerCounts n sent received 0 0 p
      → ProducerCounts n sent received 1 0 p
  reserve_slot f c = record {
    seen_head = c.seen_head;
    local_tail = c.local_tail;
    cached_head = c.cached_head;
    old_head = c.old_head;
    room = ground (arith, IsPower-le q);
  }

  -- Loading `head` leaves the counts right.
  pub reload_head :
      (word : ℕ)
      → word ≡ received % 2 ^ 64
      → ProducerCounts n sent received 0 0 p
      → ProducerCounts n sent received 0 0 (record p { cached_head = word })
  reload_head word e c = record {
    seen_head = received;
    local_tail = c.local_tail;
    cached_head = e;
    old_head = omega arith;
    room = omega (arith, c.old_head, c.room);
  }

  pub write_ahead :
      ProducerCounts n sent received 1 0 p
      → ProducerCounts n sent received 1 1 (record p { local_tail = wrapping_add p.local_tail 1 })
  write_ahead c = record {
    seen_head = c.seen_head;
    local_tail = omega (arith, c.local_tail);
    cached_head = c.cached_head;
    old_head = c.old_head;
    room = c.room;
  }

  pub publish_one :
      ProducerCounts n sent received 1 1 p → ProducerCounts n (suc sent) received 0 0 p
  publish_one c = record {
    seen_head = c.seen_head;
    local_tail = omega (arith, c.local_tail);
    cached_head = c.cached_head;
    old_head = c.old_head;
    room = omega (arith, c.room);
  }

module _ {sent received : ℕ} {c : Consumer} where
  -- A consumer whose counters differ has a value to read.
  pub claim_value :
      c.local_head ≢ c.cached_tail
      → ConsumerCounts sent received 0 0 c
      → ConsumerCounts sent received 1 0 c
  claim_value f k = record {
    seen_tail = k.seen_tail;
    local_head = k.local_head;
    cached_tail = k.cached_tail;
    old_tail = k.old_tail;
    ready = ground arith;
  }

  pub reload_tail :
      (word : ℕ)
      → word ≡ sent % 2 ^ 64
      → ConsumerCounts sent received 0 0 c
      → ConsumerCounts sent received 0 0 (record c { cached_tail = word })
  reload_tail word e k = record {
    seen_tail = sent;
    local_head = k.local_head;
    cached_tail = e;
    old_tail = omega arith;
    ready = omega (arith, k.old_tail, k.ready);
  }

  pub read_ahead :
      ConsumerCounts sent received 1 0 c
      → ConsumerCounts sent received 1 1 (record c { local_head = wrapping_add c.local_head 1 })
  read_ahead k = record {
    seen_tail = k.seen_tail;
    local_head = omega (arith, k.local_head);
    cached_tail = k.cached_tail;
    old_tail = k.old_tail;
    ready = k.ready;
  }

  pub free_one : ConsumerCounts sent received 1 1 c → ConsumerCounts sent (suc received) 0 0 c
  free_one k = record {
    seen_tail = k.seen_tail;
    local_head = omega (arith, k.local_head);
    cached_tail = k.cached_tail;
    old_tail = k.old_tail;
    ready = omega (arith, k.ready);
  }

module _ {n sent received reserve ahead : ℕ} {p : Producer} where
  -- What the other thread does only helps.
  pub freed_meanwhile :
      ProducerCounts n sent received reserve ahead p
      → ProducerCounts n sent (suc received) reserve ahead p
  freed_meanwhile c = record {
    seen_head = c.seen_head;
    local_tail = c.local_tail;
    cached_head = c.cached_head;
    old_head = omega (arith, c.old_head);
    room = c.room;
  }

module _ {sent received claim ahead : ℕ} {c : Consumer} where
  pub sent_meanwhile :
      ConsumerCounts sent received claim ahead c → ConsumerCounts (suc sent) received claim ahead c
  sent_meanwhile k = record {
    seen_tail = k.seen_tail;
    local_head = k.local_head;
    cached_tail = k.cached_tail;
    old_tail = omega (arith, k.old_tail);
    ready = k.ready;
  }

pub length-suc_snoc : {A : Type 0} (xs : List A) (x : A) → suc (length xs) ≡ length (xs ++ x ∷ [])
length-suc_snoc xs x = omega (arith, length-snoc xs x)

-- Each thread's counts at the place where a step finds it.
pub producing_at :
    {A : Type 0} {n sent received : ℕ} {p : Producer} {a b : ProducerAt A}
    → a ≡ b
    → ProducerCounts n sent received (reserved a) (written a) p
    → ProducerCounts n sent received (reserved b) (written b) p
producing_at {n} {sent} {received} {p} e =
    subst (λ a. ProducerCounts n sent received (reserved a) (written a) p) e

pub consuming_at :
    {A : Type 0} {sent received : ℕ} {c : Consumer} {a b : ConsumerAt A}
    → a ≡ b
    → ConsumerCounts sent received (claimed a) (taken a) c
    → ConsumerCounts sent received (claimed b) (taken b) c
consuming_at {sent} {received} {c} e =
    subst (λ a. ConsumerCounts sent received (claimed a) (taken a) c) e
