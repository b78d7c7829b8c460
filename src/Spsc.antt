-- ===== src/Spsc.antt =====
-- atlas-protocol/src/spsc.rs: the ring in shared memory, and its two handles. A word is a number
-- below 2 ^ 64; the arithmetic of the source is written out with its wrap.
pub mod Fifo
pub mod Slots
pub mod Machine
pub mod Setup
pub mod Queue
mod Tests
use atlas_io.Base.{
  ℕ, ◌-◌, bit_and, Bool, Option, none, some, leb, ◌==◌, if◌then◌else◌, wrapping_add, wrapping_sub,
}

pub data RingFull : Type 0 where
  ring_full : RingFull

-- `Result<(), RingFull>`
pub data Pushed : Type 0 where
  ok : Pushed
  err : RingFull → Pushed

-- The header and the slots. The slots are the array that the raw pointer addresses; Spsc/Slots
-- proves that no index leaves it.
pub record SpscRing (A : Type 0) : Type 0 where
  pub magic : ℕ
  pub capacity : ℕ
  pub tail : ℕ
  pub head : ℕ
  pub slots : ℕ → A

pub record Producer : Type 0 where
  pub cached_head : ℕ
  pub local_tail : ℕ

pub record Consumer : Type 0 where
  pub local_head : ℕ
  pub cached_tail : ℕ

module _ {A : Type 0} where
  -- `core::ptr::write` to one slot
  abbrev pub write_slot : (ℕ → A) → ℕ → A → ℕ → A
  write_slot slots i v j = if j == i then v else slots j

  -- `Producer::new` and `Consumer::new`: both loads, in the order of the source
  unfoldable pub new_producer : SpscRing A → Producer
  new_producer r = record { cached_head = r.head; local_tail = r.tail }

  unfoldable pub new_consumer : SpscRing A → Consumer
  new_consumer r = record { local_head = r.head; cached_tail = r.tail }

-- `counter & (N - 1)`
abbrev pub slot_index : ℕ → ℕ → ℕ
slot_index n counter = bit_and counter (n - 1)

-- `self.local_tail.wrapping_sub(self.cached_head) >= N`
abbrev pub looks_full : ℕ → Producer → Bool
looks_full n p = leb n (wrapping_sub p.local_tail p.cached_head)

module _ {A : Type 0} (n : ℕ) where
  -- From the slot write of `push` on.
  abbrev pub publish : SpscRing A → Producer → A → Pushed × SpscRing A × Producer
  publish r p v =
      let next = wrapping_add p.local_tail 1 in
      (
        ok,
        record r { tail = next; slots = write_slot r.slots (slot_index n p.local_tail) v },
        record p { local_tail = next },
      )

  -- `Producer::push`
  pub push : SpscRing A → Producer → A → Pushed × SpscRing A × Producer
  push r p v =
      let refreshed = record p { cached_head = r.head } in
      if looks_full n p
      then (if looks_full n refreshed then (err ring_full, r, refreshed) else publish r refreshed v)
      else publish r p v

  -- From the slot read of `pop` on.
  abbrev pub take_out : SpscRing A → Consumer → Option A × SpscRing A × Consumer
  take_out r c =
      let next = wrapping_add c.local_head 1 in
      (
        some (r.slots (slot_index n c.local_head)),
        record r { head = next },
        record c { local_head = next },
      )

  -- `Consumer::pop`
  pub pop : SpscRing A → Consumer → Option A × SpscRing A × Consumer
  pop r c =
      let reloaded = record c { cached_tail = r.tail } in
      if c.local_head == c.cached_tail
      then (if c.local_head == reloaded.cached_tail
          then (none, r, reloaded)
          else take_out r reloaded)
      else take_out r c
