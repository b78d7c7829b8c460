-- ===== src/Spsc/Machine/Refine.antt =====
-- `push` and `pop` of spsc.rs, called one at a time in any order, are a bounded queue.
use atlas_io.Base.{
  ℕ, suc, ◌+◌, ◌≤◌, ◌<◌, ◌≡◌, ◌≢◌, refl, ap, inl, inr, List, [], ◌∷◌, ◌++◌, arith, length, drop,
  none, some, true, false, Bool-cases, ◌==◌, ==→eq, ==_false→ne, length-drop, drop-append_left,
  drop_of_length_le, drop_of_get_elem?, length-snoc,
}
use atlas_io.Base.Bits.{IsPower, IsPower-le}
use atlas_io.Spsc.{
  SpscRing, Producer, Consumer, ok, err, ring_full, push, pop, slot_index, looks_full, new_producer,
  new_consumer,
}
use atlas_io.Spsc.Setup.{init_in_place, returned}
use atlas_io.Spsc.Setup.Handshake.{init_in_place_zeroed}
use atlas_io.Spsc.Fifo.{Call, Reply, pushed, popped, take_oldest, add_newest, replies}
use atlas_io.Spsc.Machine.{ProducerAt, ConsumerAt, System, refreshed}
use atlas_io.Spsc.Machine.Counts.{Counts, producing_at, consuming_at}
use atlas_io.Spsc.Machine.Contents.{Contents, Filled-read, slot-word}
use atlas_io.Spsc.Machine.Reach.{start, start-Counts, start-Contents}
use atlas_io.Spsc.Machine.Calls.{
  push_call, pop_call, push_call-Run, pop_call-Run, Run-Counts, Run-Contents,
}

-- The values in the ring, oldest first.
abbrev pub view : {A : Type 0} → System A → List A
view s = drop (length s.received) s.sent

module _ {A : Type 0} {n : ℕ} (p : IsPower n) {s : System A} (c : Counts n s) where
  module _ (a : s.producer_at ≡ ProducerAt.outside) where
    -- After the reload of `head` the test is exact; before it, it errs on the safe side.
    length_of_full : looks_full n (refreshed s) ≡ true → length s.sent ≡ length s.received + n
    length_of_full full =
        let now = producing_at a c.producing in
        ground (arith, IsPower-le p, c.head, now.local_tail, now.old_head, now.room)

    length_of_room : looks_full n (refreshed s) ≡ false → length s.sent < length s.received + n
    length_of_room room =
        let now = producing_at a c.producing in
        ground (arith, IsPower-le p, c.head, now.local_tail, now.old_head, now.room)

    length_of_fast : looks_full n s.producer ≡ false → length s.sent < length s.received + n
    length_of_fast room =
        let now = producing_at a c.producing in
        ground (arith, IsPower-le p, now.local_tail, now.cached_head, now.old_head, now.room)

  module _ (a : s.consumer_at ≡ ConsumerAt.outside) where
    length_of_empty : s.consumer.local_head ≡ s.ring.tail → length s.sent ≡ length s.received
    length_of_empty same =
        let now = consuming_at a c.consuming in
        omega (
          arith,
          IsPower-le p,
          c.tail,
          now.local_head,
          now.old_tail,
          now.ready,
          c.old_head,
          c.room,
          same,
        )

    length_of_more : s.consumer.local_head ≢ s.ring.tail → length s.received < length s.sent
    length_of_more more =
        let now = consuming_at a c.consuming in
        ground (arith, c.tail, now.local_head, now.old_tail, now.ready)

    length_of_ready :
        s.consumer.local_head ≢ s.consumer.cached_tail → length s.received < length s.sent
    length_of_ready ready =
        let now = consuming_at a c.consuming in
        ground (arith, now.local_head, now.cached_tail, now.old_tail, now.ready)

module _ {A : Type 0} (capacity : ℕ) (received : ℕ) (sent : List A) (v : A) where
  add_newest-full :
      length sent ≡ received + capacity
      → add_newest capacity (drop received sent) v ≡ (err ring_full, drop received sent)
  unfolding add_newest
  add_newest-full e = ground (arith, length-drop received sent)

  add_newest-room :
      received ≤ length sent
      → length sent < received + capacity
      → add_newest capacity (drop received sent) v ≡ (ok, drop received (sent ++ v ∷ []))
  unfolding add_newest
  add_newest-room le lt =
      ground (arith, length-drop received sent, drop-append_left received sent (v ∷ []) le)

module _ {A : Type 0} {n : ℕ} (p : IsPower n) {s : System A} (c : Counts n s) where
  -- `push` answers as the bounded queue does, and leaves the ring holding its values.
  pub push_refines :
      (v : A)
      → s.producer_at ≡ ProducerAt.outside
      → add_newest n (view s) v ≡ ((push n s.ring s.producer v).0, view (push_call n s v))
  unfolding push
  push_refines v a = elim (Bool-cases (looks_full n s.producer)) [
    | inl full ↦ elim (Bool-cases (looks_full n (refreshed s))) [
      | inl still ↦
          rw (full, still)
            (add_newest-full n (length s.received) s.sent v (length_of_full p c a still))
      | inr room ↦
          rw (full, room)
            (add_newest-room n (length s.received) s.sent v few (length_of_room p c a room))
    ]
    | inr room ↦
        rw room (add_newest-room n (length s.received) s.sent v few (length_of_fast p c a room))
  ]
    where
      few : length s.received ≤ length s.sent
      few = omega (arith, c.old_tail, c.ready)

  module _ (k : Contents n s) (a : s.consumer_at ≡ ConsumerAt.outside) where
    take_oldest-empty : length s.sent ≡ length s.received → take_oldest (view s) ≡ (none, view s)
    unfolding take_oldest
    take_oldest-empty e = rw (drop_of_length_le (length s.received) s.sent (omega arith))

    take_oldest-next :
        (v : A)
        → v ≡ s.ring.slots (slot_index n s.consumer.local_head)
        → length s.received < length s.sent
        → take_oldest (view s) ≡ (some v, drop (length (s.received ++ v ∷ [])) s.sent)
    unfolding take_oldest
    take_oldest-next v e lt =
        let now = consuming_at a c.consuming in
        let slot = slot-word p s.consumer.local_head (length s.received) now.local_head in
        let here = Filled-read n s.ring.slots s.sent (length s.received) _ lt slot k.filled in
        let more : length (s.received ++ v ∷ []) ≡ suc (length s.received) =
          omega (arith, length-snoc s.received v) in
        rw (drop_of_get_elem? (length s.received) s.sent here, more, e)

    -- `pop` answers as the bounded queue does, and leaves the ring holding its values.
    pub pop_refines : take_oldest (view s) ≡ ((pop n s.ring s.consumer).0, view (pop_call n s))
    unfolding pop
    pop_refines = elim (Bool-cases (s.consumer.local_head == s.consumer.cached_tail)) [
      | inl same ↦ elim (Bool-cases (s.consumer.local_head == s.ring.tail)) [
        | inl still ↦ rw (same, still) (take_oldest-empty (length_of_empty p c a (==→eq _ _ still)))
        | inr more ↦
            rw (same, more) (take_oldest-next _ refl (length_of_more p c a (==_false→ne _ _ more)))
      ]
      | inr ready ↦
          rw ready (take_oldest-next _ refl (length_of_ready p c a (==_false→ne _ _ ready)))
    ]

module _ {A : Type 0} (n : ℕ) where
  -- A client's calls in order, with what each returns.
  unfoldable pub answers : SpscRing A → Producer → Consumer → List (Call A) → List (Reply A)
  answers r t h [] = []
  answers r t h (Call.push v ∷ calls) =
      let (result, r', t') = push n r t v in pushed result ∷ answers r' t' h calls
  answers r t h (Call.pop ∷ calls) =
      let (result, r', h') = pop n r h in popped result ∷ answers r' t h' calls

module _ {A : Type 0} {n : ℕ} (p : IsPower n) where
  answers_refine :
      (calls : List (Call A)) {s : System A}
      → Counts n s
      → Contents n s
      → s.producer_at ≡ ProducerAt.outside
      → s.consumer_at ≡ ConsumerAt.outside
      → answers n s.ring s.producer s.consumer calls ≡ replies n (view s) calls
  unfolding answers replies
  answers_refine [] c k a b = refl
  answers_refine (Call.push v ∷ calls) {s} c k a b =
      let run = push_call-Run n s v a in
      rw (push_refines p c v a) (
        ap (◌∷◌ (pushed (push n s.ring s.producer v).0))
          (answers_refine calls (Run-Counts p run c) (Run-Contents p run c k) refl b))
  answers_refine (Call.pop ∷ calls) {s} c k a b =
      let run = pop_call-Run n s b in
      rw (pop_refines p c k b) (
        ap (◌∷◌ (popped (pop n s.ring s.consumer).0))
          (answers_refine calls (Run-Counts p run c) (Run-Contents p run c k) a refl))

-- On a ring that `init_in_place` has made from zeroed memory, every sequence of `push` and `pop`
-- calls is answered as by a queue of at most `n` values: a full ring refuses, an empty one gives
-- nothing, and values come out in the order in which they went in.
pub answers-replies :
    {A : Type 0} (n ptr : ℕ) (zeroed r : SpscRing A) (calls : List (Call A))
    → zeroed.magic ≡ 0
    → init_in_place n ptr zeroed ≡ returned r
    → answers n r (new_producer r) (new_consumer r) calls ≡ replies n [] calls
unfolding start
answers-replies n ptr zeroed r calls unused made =
    let (p, t, d) = init_in_place_zeroed n ptr zeroed unused made in
    answers_refine p calls (start-Counts p r t d) (start-Contents p r t d) refl refl
