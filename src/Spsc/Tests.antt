-- ===== src/Spsc/Tests.antt =====
-- Runs of spsc.rs on a ring of four slots, and each theorem at a concrete input.
use atlas_io.Base.{
  ℕ, ◌%◌, ◌<◌, ◌≤◌, ◌+◌, ◌≡◌, ◌≢◌, ◌⊎◌, refl, List, [], ◌∷◌, none, some, arith, length, take,
}
use atlas_io.Base.Bits.{is_power_of_two, IsPower}
use atlas_io.Spsc.{SpscRing, ok, err, ring_full, push, pop, new_producer, new_consumer, slot_index}
use atlas_io.Spsc.Fifo.{Call, pushed, popped, replies}
use atlas_io.Spsc.Setup.{
  returned, panicked, magic_mismatch, misaligned, magic_word, init_in_place, init_stores, attach,
  attach_rounds,
}
use atlas_io.Spsc.Setup.{ok as attached, err as refused, uninitialized}
use atlas_io.Spsc.Setup.Handshake.{
  stage, init_in_place_lem, attach_sound, attach_during_init, attach_before_init,
}
use atlas_io.Spsc.Machine.{System, writing, reading, push_fast, push_write, push_store, pop_reload}
use atlas_io.Spsc.Machine.Reach.{start, Reach, here, next, Reach-fifo, Reach-no_race}
use atlas_io.Spsc.Machine.Refine.{answers, answers-replies}

abbrev zeroed : SpscRing ℕ
zeroed = record { magic = 0; capacity = 0; tail = 0; head = 0; slots = λ _. 0 }

abbrev made : SpscRing ℕ
made = record { magic = magic_word; capacity = 4; tail = 0; head = 0; slots = λ _. 0 }

init-zeroed : init_in_place 4 4096 zeroed ≡ returned made
unfolding init_in_place init_stores is_power_of_two
init-zeroed = refl

init_again : init_in_place 4 4096 made ≡ returned made
unfolding init_in_place init_stores is_power_of_two
init_again = refl

init_misaligned : init_in_place 4 4097 zeroed ≡ panicked misaligned
unfolding init_in_place init_stores is_power_of_two
init_misaligned = refl

init_corrupt : init_in_place 4 4096 (record made { magic = 5 }) ≡ panicked (magic_mismatch 5)
unfolding init_in_place init_stores is_power_of_two
init_corrupt = refl

-- The test `fill_then_drain` of spsc.rs.
abbrev script : List (Call ℕ)
script =
    Call.push 0
    ∷ Call.push 1
    ∷ Call.push 2
    ∷ Call.push 3
    ∷ Call.push 99
    ∷ Call.pop
    ∷ Call.pop
    ∷ Call.pop
    ∷ Call.pop
    ∷ Call.pop
    ∷ Call.push 10
    ∷ Call.pop
    ∷ []

fill_then_drain :
    answers 4 made (new_producer made) (new_consumer made) script
    ≡ pushed ok
      ∷ pushed ok
      ∷ pushed ok
      ∷ pushed ok
      ∷ pushed (err ring_full)
      ∷ popped (some 0)
      ∷ popped (some 1)
      ∷ popped (some 2)
      ∷ popped (some 3)
      ∷ popped none
      ∷ pushed ok
      ∷ popped (some 10)
      ∷ []
unfolding answers push pop new_producer new_consumer
fill_then_drain = refl

answers-replies_example :
    answers 4 made (new_producer made) (new_consumer made) script ≡ replies 4 [] script
answers-replies_example = answers-replies 4 4096 zeroed made script refl init-zeroed

-- One value published; the consumer has seen it and the producer writes the next.
abbrev busy : System ℕ
busy = record {
  ring = record made { tail = 1; slots = λ j. atlas_io.Spsc.write_slot (λ _. 0) 0 7 j };
  producer = record { cached_head = 0; local_tail = 1 };
  producer_at = writing 8;
  consumer = record { local_head = 0; cached_tail = 1 };
  consumer_at = reading;
  sent = 7 ∷ [];
  received = [];
}

busy-Reach : Reach 4 made busy
unfolding start new_producer new_consumer
busy-Reach =
    next
      (next
        (next (next (next here (push_fast 7 refl refl)) (push_write 7 refl)) (push_store 7 refl))
        (pop_reload refl refl (λ e. absurd (omega arith))))
      (push_fast 8 refl refl)

Reach-fifo_example :
    (busy.received ≡ take (length busy.received) busy.sent)
    × (length busy.received ≤ length busy.sent)
    × (length busy.sent ≤ length busy.received + 4)
Reach-fifo_example = Reach-fifo 4096 zeroed made refl init-zeroed busy-Reach

Reach-no_race_example :
    (slot_index 4 1 ≢ slot_index 4 0) × (slot_index 4 1 < 4) × (slot_index 4 0 < 4)
Reach-no_race_example = Reach-no_race 4096 zeroed made refl init-zeroed 8 busy-Reach refl refl

init_in_place_lem_example :
    IsPower 4
    × (made.magic ≡ magic_word)
    × (made.capacity ≡ 4)
    × (made.slots ≡ zeroed.slots)
    × (((zeroed.magic ≡ 0) × (made.tail ≡ 0) × (made.head ≡ 0))
        ⊎ ((zeroed.magic ≡ magic_word) × (made ≡ zeroed)))
init_in_place_lem_example = init_in_place_lem 4 4096 zeroed init-zeroed

abbrev stores : ℕ → ℕ
stores j = j + 2

attach_during_init_example :
    attach 4 4096 (λ j. stage 4 zeroed (stores j)) (λ j. stage 4 zeroed (stores j))
    ≡ returned attached
unfolding is_power_of_two
attach_during_init_example =
    attach_during_init 4 4096 zeroed refl stores stores (λ j. omega arith) 2 refl refl (omega arith)
      (omega arith)

attach_sound_example :
    IsPower 4
    × (4096 % 128 ≡ 0)
    × (k : ℕ) × (k < attach_rounds)
    × ((stage 4 zeroed (stores k)).magic ≡ magic_word)
    × ((stage 4 zeroed (stores k)).capacity ≡ 4)
attach_sound_example =
    attach_sound 4 (λ j. stage 4 zeroed (stores j)) (λ j. stage 4 zeroed (stores j)) 4096
      attach_during_init_example

attach_before_init_example :
    attach 4 4096 (λ j. stage 4 zeroed 3) (λ j. stage 4 zeroed 5) ≡ returned (refused uninitialized)
unfolding is_power_of_two
attach_before_init_example =
    attach_before_init 4 4096 zeroed refl (λ j. 3) (λ j. 5) (λ j. omega arith) refl refl
      (λ j. omega arith)
