-- ===== src/Spsc/Fifo.antt =====
-- What the ring of spsc.rs promises: a queue of at most `capacity` values, oldest first.
use atlas_io.Base.{ℕ, Option, none, some, List, [], ◌∷◌, ◌++◌, length, ◌==◌, if◌then◌else◌}
use atlas_io.Spsc.{Pushed, ok, err, ring_full}

pub data Call (A : Type 0) : Type 0 where
  push : A → Call A
  pop : Call A

pub data Reply (A : Type 0) : Type 0 where
  pushed : Pushed → Reply A
  popped : Option A → Reply A

module _ {A : Type 0} where
  unfoldable pub take_oldest : List A → Option A × List A
  take_oldest [] = (none, [])
  take_oldest (x ∷ q) = (some x, q)

  unfoldable pub add_newest : ℕ → List A → A → Pushed × List A
  add_newest capacity q v = if length q == capacity then (err ring_full, q) else (ok, q ++ v ∷ [])

  unfoldable pub replies : ℕ → List A → List (Call A) → List (Reply A)
  replies capacity q [] = []
  replies capacity q (push v ∷ calls) =
      let (s, q') = add_newest capacity q v in pushed s ∷ replies capacity q' calls
  replies capacity q (pop ∷ calls) =
      let (v, q') = take_oldest q in popped v ∷ replies capacity q' calls
