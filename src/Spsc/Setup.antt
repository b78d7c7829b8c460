-- ===== src/Spsc/Setup.antt =====
-- `SpscRing::init_in_place` and `SpscRing::attach` of spsc.rs: who may use a segment, and what a
-- peer that attaches meanwhile can see.
pub mod Handshake
use atlas_io.Base.{ℕ, zero, suc, ◌+◌, ◌%◌, not, List, [], ◌∷◌, ◌==◌, ltb, ◌&&◌, if◌then◌else◌}
use atlas_io.Base.Bits.{is_power_of_two}
use atlas_io.Spsc.{SpscRing}

abbrev pub magic_word : ℕ
magic_word = 0xA71A5_595C_0001

pub data Panic : Type 0 where
  not_power_of_two misaligned capacity_mismatch : Panic
  magic_mismatch : ℕ → Panic

-- A call that returns, or one that an `assert!` or `panic!` ends.
pub data Outcome (R : Type 0) : Type 0 where
  returned : R → Outcome R
  panicked : Panic → Outcome R

pub data AttachError : Type 0 where
  capacity_mismatch corrupt_magic uninitialized : AttachError

-- `Result<*const Self, &'static str>`
pub data Attached : Type 0 where
  ok : Attached
  err : AttachError → Attached

-- The two assertions that both functions begin with.
abbrev pub checked : {R : Type 0} → ℕ → ℕ → Outcome R → Outcome R
checked n ptr rest =
    if ltb 0 n && is_power_of_two n
    then (if ptr % 128 == 0 then rest else panicked misaligned)
    else panicked not_power_of_two

module _ {A : Type 0} where
  -- The four stores of `init_in_place`, in its order: what memory holds after each.
  unfoldable pub init_stores : ℕ → SpscRing A → List (SpscRing A)
  init_stores n r =
      let capacity_set = record r { capacity = n } in
      let tail_set = record capacity_set { tail = 0 } in
      let head_set = record tail_set { head = 0 } in
      let published = record head_set { magic = magic_word } in
      capacity_set ∷ tail_set ∷ head_set ∷ published ∷ []

  abbrev pub last_or : SpscRing A → List (SpscRing A) → SpscRing A
  last_or r [] = r
  last_or r (s ∷ ss) = last_or s ss

  -- The memory that a call of `init_in_place` at `ptr` leaves.
  unfoldable pub init_in_place : ℕ → ℕ → SpscRing A → Outcome (SpscRing A)
  init_in_place n ptr r = checked n ptr (
      if r.magic == 0
      then returned (last_or r (init_stores n r))
      else if not (r.magic == magic_word)
      then panicked (magic_mismatch r.magic)
      else if r.capacity == n
      then returned r
      else panicked Panic.capacity_mismatch)

abbrev pub attach_rounds : ℕ
attach_rounds = 1_000_000

module _ {A : Type 0} where
  -- The loop of `attach`. The load of `magic` in round `i` finds the memory `seen i`, the load of
  -- `capacity` after it the memory `later i`: the peer may write between any two loads.
  attach_loop : ℕ → ℕ → ℕ → (ℕ → SpscRing A) → (ℕ → SpscRing A) → Attached
  attach_loop n zero i seen later = err uninitialized
  attach_loop n (suc rounds) i seen later =
      let rest = attach_loop n rounds (i + 1) seen later in
      if (seen i).magic == magic_word
      then (if (later i).capacity == n then ok else err AttachError.capacity_mismatch)
      else if (seen i).magic == 0
      then rest
      else err corrupt_magic

  pub attach : ℕ → ℕ → (ℕ → SpscRing A) → (ℕ → SpscRing A) → Outcome Attached
  attach n ptr seen later = checked n ptr (returned (attach_loop n attach_rounds 0 seen later))
