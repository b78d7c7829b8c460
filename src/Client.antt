-- ===== src/Client.antt =====
-- atlas-client/src/channel.rs and atlas-client/src/lib.rs: the data region with its allocator, and
-- the requests of `AtlasClient`.
pub mod Region
pub mod Calls
pub mod Ffi
mod Tests
use atlas_io.Base.{
  ◌++◌, ℕ, zero, suc, ◌+◌, ℤ, pos, negsuc, Option, none, some, List, [], ◌∷◌, length, ltb, ◌==◌,
  if◌then◌else◌, wrapping_add, add_u32, as_u32,
}
use atlas_io.Protocol.{
  IoOp, IoPriority, IoRequest, IoResponse, new_request, set_path, data_region_size,
}

-- The bytes of the region.
abbrev pub Memory : Type 0
Memory = ℕ → ℕ

-- `DataRegion::write`, and the filling of a slot
abbrev pub write_bytes : Memory → ℕ → List ℕ → Memory
write_bytes m offset [] = m
write_bytes m offset (b ∷ bs) = write_bytes (λ i. if i == offset then b else m i) (suc offset) bs

-- `DataRegion::read`
abbrev pub read_bytes : Memory → ℕ → ℕ → List ℕ
read_bytes m offset zero = []
read_bytes m offset (suc len) = m offset ∷ read_bytes m (suc offset) len

-- `DataRegion::alloc`: the start of the slot, and `offset` afterwards. The exchange succeeds only
-- when no other thread has allocated since the load, so it is one step.
unfoldable pub alloc : ℕ → ℕ → ℕ × ℕ
alloc cur n =
    let n' = as_u32 n in
    if ltb data_region_size (add_u32 cur n') then (0, n') else (cur, add_u32 cur n')

-- The second loop of `send_request` over the responses that come: those to other requests are
-- dropped. Without the response it goes on waiting.
unfoldable pub receive : ℕ → List IoResponse → Option (IoResponse × List IoResponse)
receive id [] = none
receive id (resp ∷ resps) = if resp.id == id then some (resp, resps) else receive id resps

-- The other side: what it answers to a request, with the region and itself afterwards.
pub record Peer : Type 1 where
  pub World : Type 0
  pub submit : World → Memory → IoRequest → List IoResponse × Memory × World

pub data Result (A : Type 0) : Type 0 where
  ok : A → Result A
  err : ℤ → Result A

-- `next_id` is the counter of the process.
pub record AtlasClient (peer : Peer) : Type 0 where
  pub next_id : ℕ
  pub offset : ℕ
  pub memory : Memory
  pub inbox : List IoResponse
  pub world : peer.World

-- `if resp.status != 0 { Err(resp.status) } else { Ok(a) }`
abbrev pub checked : {A : Type 0} → ℤ → A → Result A
checked (pos zero) a = ok a
checked (pos (suc n)) a = err (pos (suc n))
checked (negsuc n) a = err (negsuc n)

-- The region with the bytes of the slot, and the request, of `write` with the identifier `id`.
unfoldable pub write_request : ℕ → ℕ → Memory → ℕ → List ℕ → ℕ → Memory × IoRequest
write_request id cur m fd buf offset =
    let data_off = (alloc cur (length buf)).0 in
    (
      write_bytes m data_off buf,
      record (new_request id IoOp.write IoPriority.high) {
        fd = fd;
        offset = offset;
        len = as_u32 (length buf);
        data_offset = data_off;
      },
    )

unfoldable pub read_request : ℕ → ℕ → ℕ → ℕ → ℕ → IoRequest
read_request id cur fd len offset = record (new_request id IoOp.read IoPriority.high) {
  fd = fd;
  offset = offset;
  len = as_u32 len;
  data_offset = (alloc cur len).0;
}

module _ (peer : Peer) where
  -- `next_id` and `send_request`; nothing when the response never comes.
  unfoldable pub exchange : AtlasClient peer → IoRequest → Option (IoResponse × AtlasClient peer)
  exchange c req =
      let (resps, m, w) = peer.submit c.world c.memory req in
      elim (receive req.id (c.inbox ++ resps)) [
        | none ↦ none
        | some (resp, rest) ↦ some (
          resp,
          record c { next_id = wrapping_add c.next_id 1; memory = m; inbox = rest; world = w },
        )
      ]

  -- The result of an exchange that is only about the status and one field.
  abbrev finish :
      {A : Type 0}
      → (IoResponse → A)
      → Option (IoResponse × AtlasClient peer)
      → Option (Result A × AtlasClient peer)
  finish f none = none
  finish f (some (resp, c)) = some (checked resp.status (f resp), c)

  unfoldable pub «open» : AtlasClient peer → List ℕ → ℕ → Option (Result ℕ × AtlasClient peer)
  «open» c path flags =
      let req = set_path (new_request c.next_id IoOp.«open» IoPriority.high) path in
      finish (λ resp. resp.fd) (exchange c (record req { len = flags }))

  -- `write` by `write_with`
  unfoldable pub write : AtlasClient peer → ℕ → List ℕ → ℕ → Option (Result ℕ × AtlasClient peer)
  write c fd buf offset =
      let (m, req) = write_request c.next_id c.offset c.memory fd buf offset in
      let c' = record c { memory = m; offset = (alloc c.offset (length buf)).1 } in
      finish (λ resp. resp.data_len) (exchange c' req)

  abbrev consume :
      Option (IoResponse × AtlasClient peer) → Option (Result (List ℕ) × AtlasClient peer)
  consume none = none
  consume (some (resp, c)) =
      some (checked resp.status (read_bytes c.memory resp.data_offset resp.data_len), c)

  -- `read_with`, with the bytes that `consume` gets
  unfoldable pub read : AtlasClient peer → ℕ → ℕ → ℕ → Option (Result (List ℕ) × AtlasClient peer)
  read c fd len offset =
      let req = read_request c.next_id c.offset fd len offset in
      consume (exchange (record c { offset = (alloc c.offset len).1 }) req)

  unfoldable pub sync : AtlasClient peer → ℕ → Option (Result Unit × AtlasClient peer)
  sync c fd =
      finish (λ resp. tt)
        (exchange c (record (new_request c.next_id IoOp.sync IoPriority.critical) { fd = fd }))

  unfoldable pub close : AtlasClient peer → ℕ → Option (Result Unit × AtlasClient peer)
  close c fd =
      finish (λ resp. tt)
        (exchange c (record (new_request c.next_id IoOp.close IoPriority.low) { fd = fd }))
