-- ===== src/Spsc/Machine/Contents.antt =====
-- What the slots hold while both threads run: every value that was published and not yet received,
-- each in the slot of its count.
use atlas_io.Base.{
  ℕ, suc, ◌+◌, ◌%◌, ◌^◌, ◌≤◌, ◌<◌, ◌≡◌, ◌≢◌, sym, ap, ◌∙◌, inl, inr, some, List, [], ◌∷◌, ◌++◌,
  arith, length, get_elem?, take, lt_of_get_elem?, get_elem?_of_lt, get_elem?-snoc_cases,
  get_elem?-append_left, take-append_left, take-suc_snoc, length-snoc, ne→==, ==_refl,
}
use atlas_io.Base.Bits.{IsPower}
use atlas_io.Spsc.{write_slot, slot_index}
use atlas_io.Spsc.Slots.{slot_index-wrap, mod_ne}
use atlas_io.Spsc.Machine.{
  ProducerAt, ConsumerAt, System, Step, push_fast, push_refresh, push_refuse, push_write,
  push_store, pop_fast, pop_reload, pop_empty, pop_read, pop_store,
}
use atlas_io.Spsc.Machine.Counts.{Counts, producing_at, consuming_at}

-- The values still in the ring stand where `pop` will look for them.
abbrev pub Filled : {A : Type 0} → ℕ → (ℕ → A) → List A → ℕ → Type 0
Filled {A} n slots sent from =
    (i : ℕ) (v : A) → from ≤ i → get_elem? sent i ≡ some v → slots (i % n) ≡ v

abbrev pub Pending : {A : Type 0} → ℕ → (ℕ → A) → List A → ProducerAt A → Type 0
Pending {A} n slots sent at = (v : A) → at ≡ ProducerAt.storing v → slots (length sent % n) ≡ v

abbrev pub Held : {A : Type 0} → List A → ℕ → ConsumerAt A → Type 0
Held {A} sent from at = (v : A) → at ≡ ConsumerAt.storing v → get_elem? sent from ≡ some v

pub record Contents {A : Type 0} (n : ℕ) (s : System A) : Type 0 where
  pub filled : Filled n s.ring.slots s.sent (length s.received)
  pub pending : Pending n s.ring.slots s.sent s.producer_at
  pub held : Held s.sent (length s.received) s.consumer_at
  pub fifo : s.received ≡ take (length s.received) s.sent

module _ {A : Type 0} (slots : ℕ → A) (v : A) where
  write_slot_hit : (i : ℕ) → write_slot slots i v i ≡ v
  write_slot_hit i = rw (==_refl i)

  write_slot_miss : (i j : ℕ) → j ≢ i → write_slot slots i v j ≡ slots j
  write_slot_miss i j h = rw (ne→== j i h)

module _ {A : Type 0} (n : ℕ) (slots : ℕ → A) (sent : List A) (v : A) where
  -- Writing the slot of the next count overwrites no value that is still in the ring.
  Filled-write :
      (from : ℕ)
      → length sent < from + n
      → Filled n slots sent from
      → Filled n (write_slot slots (length sent % n) v) sent from
  Filled-write from room f i w h e =
      let lt = lt_of_get_elem? sent i e in
      write_slot_miss slots v (length sent % n) (i % n) (mod_ne n i (length sent) lt (omega arith))
      ∙ f i w h e

  -- A published value joins the others.
  Filled-store :
      (from : ℕ)
      → slots (length sent % n) ≡ v
      → Filled n slots sent from
      → Filled n slots (sent ++ v ∷ []) from
  Filled-store from here f i w h e = elim (get_elem?-snoc_cases sent v i e) [
    | inl old ↦ f i w h old
    | inr (at, new) ↦ rw at (here ∙ new)
  ]

module _ {n : ℕ} (p : IsPower n) where
  pub slot-word : (word count : ℕ) → word ≡ (count + 0) % 2 ^ 64 → slot_index n word ≡ count % n
  slot-word word count e =
      let e' : word ≡ count % 2 ^ 64 = omega (arith, e) in
      ap (slot_index n) e' ∙ slot_index-wrap p count

module _ {A : Type 0} (sent received : List A) (v : A) where
  -- The next value received keeps the order of sending.
  fifo-snoc :
      received ≡ take (length received) sent
      → get_elem? sent (length received) ≡ some v
      → received ++ v ∷ [] ≡ take (length (received ++ v ∷ [])) sent
  fifo-snoc fifo next =
      let more : suc (length received) ≡ length (received ++ v ∷ []) =
        omega (arith, length-snoc received v) in
      ap (λ xs. xs ++ v ∷ []) fifo
      ∙ sym (take-suc_snoc sent (length received) v next)
      ∙ ap (λ m. take m sent) more

  Held-append :
      {at : ConsumerAt A}
      → Held sent (length received) at
      → Held (sent ++ v ∷ []) (length received) at
  Held-append held w e =
      let h = held w e in
      get_elem?-append_left sent (v ∷ []) (length received) (lt_of_get_elem? sent _ h) ∙ h

-- The slot that `pop` reads holds the next value in the order of sending.
pub Filled-read :
    {A : Type 0} (n : ℕ) (slots : ℕ → A) (sent : List A) (from i : ℕ)
    → from < length sent
    → i ≡ from % n
    → Filled n slots sent from
    → get_elem? sent from ≡ some (slots i)
Filled-read n slots sent from i lt e f =
    let (v, here) = get_elem?_of_lt sent from lt in
    here ∙ ap some (sym (f from v (omega arith) here) ∙ ap slots (sym e))

module _ {A : Type 0} {n : ℕ} (p : IsPower n) where
  -- Every access of shared memory, by either thread, keeps the slots true to the history.
  pub Step-Contents : {s t : System A} → Step n s t → Counts n s → Contents n s → Contents n t
  Step-Contents (push_fast v a f) c k = record {
    filled = k.filled;
    pending = λ w e. cc;
    held = k.held;
    fifo = k.fifo;
  }
  Step-Contents (push_refresh v a f g) c k = record {
    filled = k.filled;
    pending = λ w e. cc;
    held = k.held;
    fifo = k.fifo;
  }
  Step-Contents (push_refuse a f g) c k = record {
    filled = k.filled;
    pending = k.pending;
    held = k.held;
    fifo = k.fifo;
  }
  Step-Contents {s} (push_write v a) c k =
      let now = producing_at a c.producing in
      let room : length s.sent < length s.received + n = omega (arith, now.room, now.old_head) in
      let slot = slot-word p s.producer.local_tail (length s.sent) now.local_tail in
      record {
        filled = rw slot (Filled-write n s.ring.slots s.sent v (length s.received) room k.filled);
        pending = λ w e. rw slot (write_slot_hit s.ring.slots v (length s.sent % n) ∙ cc);
        held = k.held;
        fifo = k.fifo;
      }
  Step-Contents {s} (push_store v a) c k =
      let few : length s.received ≤ length s.sent = omega (arith, c.old_tail, c.ready) in
      record {
        filled = Filled-store n s.ring.slots s.sent v (length s.received) (k.pending v a) k.filled;
        pending = λ w e. cc;
        held = Held-append s.sent s.received v k.held;
        fifo = k.fifo ∙ sym (take-append_left (length s.received) s.sent (v ∷ []) few);
      }
  Step-Contents (pop_fast a f) c k = record {
    filled = k.filled;
    pending = k.pending;
    held = λ w e. cc;
    fifo = k.fifo;
  }
  Step-Contents (pop_reload a f g) c k = record {
    filled = k.filled;
    pending = k.pending;
    held = λ w e. cc;
    fifo = k.fifo;
  }
  Step-Contents (pop_empty a f g) c k = record {
    filled = k.filled;
    pending = k.pending;
    held = k.held;
    fifo = k.fifo;
  }
  Step-Contents {s} (pop_read a) c k =
      let now = consuming_at a c.consuming in
      let next : length s.received < length s.sent = omega (arith, now.ready, now.old_tail) in
      let slot = slot-word p s.consumer.local_head (length s.received) now.local_head in
      record {
        filled = k.filled;
        pending = k.pending;
        held =
            λ w e. Filled-read n s.ring.slots s.sent (length s.received) _ next slot k.filled ∙ cc;
        fifo = k.fifo;
      }
  Step-Contents {s} (pop_store v a) c k = record {
    filled = λ i w h e. k.filled i w (omega (arith, length-snoc s.received v)) e;
    pending = k.pending;
    held = λ w e. cc;
    fifo = fifo-snoc s.sent s.received v k.fifo (k.held v a);
  }
