-- ===== src/Spsc/Machine/Calls.antt =====
-- Whole calls of `push` and `pop`: each is a run of the machine.
use atlas_io.Base.{
  ℕ, ◌≡◌, refl, inl, inr, List, [], ◌∷◌, ◌++◌, Option, none, some, Bool-cases, subst, ◌==◌, ==→eq,
  ==_false→ne,
}
use atlas_io.Base.Bits.{IsPower}
use atlas_io.Spsc.{Pushed, ok, err, push, pop, looks_full}
use atlas_io.Spsc.Machine.{
  ProducerAt, ConsumerAt, System, Step, push_fast, push_refresh, push_refuse, push_write,
  push_store, pop_fast, pop_reload, pop_empty, pop_read, pop_store, refreshed, reloaded,
}
use atlas_io.Spsc.Machine.Steps.{Step-Counts}
use atlas_io.Spsc.Machine.Counts.{Counts}
use atlas_io.Spsc.Machine.Contents.{Contents, Step-Contents}

-- The history that a result adds to.
abbrev pub sent_after : {A : Type 0} → Pushed → List A → A → List A
sent_after ok xs v = xs ++ v ∷ []
sent_after (err _) xs v = xs

abbrev pub received_after : {A : Type 0} → Option A → List A → List A
received_after none xs = xs
received_after (some v) xs = xs ++ v ∷ []

module _ {A : Type 0} (n : ℕ) where
  pub data Run (s : System A) : System A → Type 0 where
    stay : Run s s
    then : {t u : System A} → Run s t → Step n t u → Run s u

  -- A thread that is outside makes one whole call while the other does nothing.
  abbrev pub push_call : System A → A → System A
  push_call s v =
      let (result, ring, producer) = push n s.ring s.producer v in
      record s {
        ring = ring;
        producer = producer;
        producer_at = ProducerAt.outside;
        sent = sent_after result s.sent v;
      }

  abbrev pub pop_call : System A → System A
  pop_call s =
      let (result, ring, consumer) = pop n s.ring s.consumer in
      record s {
        ring = ring;
        consumer = consumer;
        consumer_at = ConsumerAt.outside;
        received = received_after result s.received;
      }

  -- `Producer::push` is a run of the machine.
  pub push_call-Run :
      (s : System A) (v : A) → s.producer_at ≡ ProducerAt.outside → Run s (push_call s v)
  unfolding push
  push_call-Run s v a = elim (Bool-cases (looks_full n s.producer)) [
    | inl full ↦ elim (Bool-cases (looks_full n (refreshed s))) [
      | inl still ↦ rw (full, still) (subst Refused a (then stay (push_refuse a full still)))
      | inr room ↦
          rw (full, room)
            (then (then (then stay (push_refresh v a full room)) (push_write v refl))
              (push_store v refl))
    ]
    | inr room ↦
        rw room
          (then (then (then stay (push_fast v a room)) (push_write v refl)) (push_store v refl))
  ]
    where
      Refused : ProducerAt A → Type 0
      Refused at = Run s (record s { producer = refreshed s; producer_at = at })

  -- `Consumer::pop` is a run of the machine.
  pub pop_call-Run : (s : System A) → s.consumer_at ≡ ConsumerAt.outside → Run s (pop_call s)
  unfolding pop
  pop_call-Run s a = elim (Bool-cases (s.consumer.local_head == s.consumer.cached_tail)) [
    | inl same ↦ elim (Bool-cases (s.consumer.local_head == s.ring.tail)) [
      | inl still ↦
          rw (same, still)
            (subst Drained a (then stay (pop_empty a (==→eq _ _ same) (==→eq _ _ still))))
      | inr more ↦
          rw (same, more)
            (then
              (then (then stay (pop_reload a (==→eq _ _ same) (==_false→ne _ _ more)))
                (pop_read refl))
              (pop_store _ refl))
    ]
    | inr ready ↦ rw ready (
        then (then (then stay (pop_fast a (==_false→ne _ _ ready))) (pop_read refl))
          (pop_store _ refl))
  ]
    where
      Drained : ConsumerAt A → Type 0
      Drained at = Run s (record s { consumer = reloaded s; consumer_at = at })

-- A run keeps what every step keeps.
module _ {A : Type 0} {n : ℕ} (p : IsPower n) {s : System A} where
  pub Run-Counts : {t : System A} → Run n s t → Counts n s → Counts n t
  Run-Counts stay c = c
  Run-Counts (then before st) c = Step-Counts p st (Run-Counts before c)

  pub Run-Contents : {t : System A} → Run n s t → Counts n s → Contents n s → Contents n t
  Run-Contents stay c k = k
  Run-Contents (then before st) c k =
      Step-Contents p st (Run-Counts before c) (Run-Contents before c k)
