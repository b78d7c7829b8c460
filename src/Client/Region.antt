-- ===== src/Client/Region.antt =====
-- The allocator of the data region, and the bytes of its slots.
use atlas_io.Base.{
  ℕ, suc, ◌+◌, ◌≤◌, ◌<◌, ◌^◌, ◌≡◌, refl, ap, ap₂, ◌∙◌, List, [], ◌∷◌, length, arith, ◌==◌,
  if◌then◌else◌, as_u32, false, ==_refl, All,
}
use atlas_io.Protocol.{data_region_size, new_request}
use atlas_io.Client.{Memory, write_bytes, read_bytes, alloc, write_request}

-- A slot of `n` bytes lies inside the region and `offset` goes to its end.
pub alloc-inside :
    (cur n : ℕ)
    → cur ≤ data_region_size
    → n ≤ data_region_size
    → ((alloc cur n).0 + n ≡ (alloc cur n).1) × ((alloc cur n).1 ≤ data_region_size)
unfolding alloc
alloc-inside cur n h k = ground arith

-- The slots of one allocation after another.
pub record Slot : Type 0 where
  pub start : ℕ
  pub len : ℕ

unfoldable pub allocs : ℕ → List ℕ → List Slot × ℕ
allocs cur [] = ([], cur)
allocs cur (n ∷ ns) =
    let (start, next) = alloc cur n in
    let (slots, last) = allocs next ns in (record { start = start; len = n } ∷ slots, last)

abbrev pub Inside : Slot → Type 0
Inside s = s.start + s.len ≤ data_region_size

-- As long as no single request is larger than the region, every slot that is ever allocated lies
-- inside the region, however often the allocator has started again from the front.
pub allocs-Inside :
    (cur : ℕ) (ns : List ℕ)
    → cur ≤ data_region_size
    → All (λ n. n ≤ data_region_size) ns
    → All Inside (allocs cur ns).0
unfolding allocs
allocs-Inside cur [] h all = tt
allocs-Inside cur (n ∷ ns) h all =
    let (slot, next) = alloc-inside cur n h all.0 in
    (omega (arith, slot, next), allocs-Inside (alloc cur n).1 ns next all.1)

-- A request that is larger than the region is not refused: it gets a slot at the front, which runs
-- past the end of the region. (The size is below 2 ^ 31.)
alloc_oversize :
    (cur n : ℕ)
    → cur ≤ data_region_size
    → data_region_size < n
    → n < 2 ^ 31
    → ((alloc cur n).0 ≡ 0) × (data_region_size < (alloc cur n).0 + n)
unfolding alloc
alloc_oversize cur n h k small = ground arith

pub write_bytes_before :
    (m : Memory) (offset i : ℕ) (bs : List ℕ) → i < offset → write_bytes m offset bs i ≡ m i
write_bytes_before m offset i [] h = refl
write_bytes_before m offset i (b ∷ bs) h =
    let other : (i == offset) ≡ false = ground arith in
    write_bytes_before (λ j. if j == offset then b else m j) (suc offset) i bs (omega arith)
    ∙ rw other refl

pub read-write_bytes :
    (m : Memory) (offset : ℕ) (bs : List ℕ)
    → read_bytes (write_bytes m offset bs) offset (length bs) ≡ bs
read-write_bytes m offset [] = refl
read-write_bytes m offset (b ∷ bs) =
    let m' : Memory = λ j. if j == offset then b else m j in
    ap₂ ◌∷◌ (write_bytes_before m' (suc offset) offset bs (omega arith) ∙ rw (==_refl offset) refl)
      (read-write_bytes m' (suc offset) bs)

-- The request of a `write` of at most the size of the region names a slot inside the region, and
-- what the service finds in that slot is what the caller has given.
pub write_request-bytes :
    (id cur : ℕ) (m : Memory) (fd : ℕ) (buf : List ℕ) (offset : ℕ)
    → cur ≤ data_region_size
    → length buf ≤ data_region_size
    → let (m', req) = write_request id cur m fd buf offset in
      (read_bytes m' req.data_offset req.len ≡ buf) × (req.data_offset + req.len ≤ data_region_size)
unfolding write_request new_request
write_request-bytes id cur m fd buf offset h k =
    let start = (alloc cur (length buf)).0 in
    let whole : as_u32 (length buf) ≡ length buf = omega arith in
    let (slot, next) = alloc-inside cur (length buf) h k in
    (
      ap (read_bytes (write_bytes m start buf) start) whole ∙ read-write_bytes m start buf,
      omega (arith, slot, next, whole),
    )
