-- ===== src/Protocol.antt =====
-- atlas-protocol/src/lib.rs: the wire types. A `u8`, `u32` or `u64` field is a number, an `i32` a
-- signed one, and text is its UTF-8 bytes.
pub mod Utf8
pub mod Codes
pub mod Paths
pub mod Names
mod Tests
use atlas_io.Base.{
  ℕ, suc, ◌-◌, ◌*◌, ℤ, pos, Option, none, some, List, [], ◌∷◌, ◌++◌, take, drop, set, replicate,
  length, min, ◌==◌, if◌then◌else◌,
}
use Utf8.{from_utf8}

abbrev pub ring_capacity : ℕ
ring_capacity = 4096

abbrev pub data_region_size : ℕ
data_region_size = 64 * 1024 * 1024

abbrev pub max_path_len : ℕ
max_path_len = 256

pub data IoOp : Type 0 where
  «open» : IoOp
  read : IoOp
  write : IoOp
  sync : IoOp
  close : IoOp

pub data IoPriority : Type 0 where
  low : IoPriority  -- compaction
  high : IoPriority  -- foreground reads
  critical : IoPriority  -- WAL sync

-- `op as u8`
abbrev pub op_code : IoOp → ℕ
op_code «open» = 0
op_code read = 1
op_code write = 2
op_code sync = 3
op_code close = 4

abbrev pub priority_code : IoPriority → ℕ
priority_code low = 0
priority_code high = 1
priority_code critical = 2

-- `IoOp::from_u8`
unfoldable pub op_from_u8 : ℕ → Option IoOp
op_from_u8 v =
    if v == 0
    then some «open»
    else if v == 1
    then some read
    else if v == 2
    then some write
    else if v == 3
    then some sync
    else if v == 4
    then some close
    else none

-- `IoPriority::from_u8`
unfoldable pub priority_from_u8 : ℕ → Option IoPriority
priority_from_u8 v =
    if v == 0
    then some low
    else if v == 1
    then some high
    else if v == 2
    then some critical
    else none

pub record IoRequest : Type 0 where
  pub id : ℕ
  pub op : ℕ
  pub priority : ℕ
  pub pad : List ℕ
  pub fd : ℕ
  pub offset : ℕ
  pub len : ℕ
  pub data_offset : ℕ
  pub path : List ℕ

pub record IoResponse : Type 0 where
  pub id : ℕ
  pub status : ℤ
  pub pad : List ℕ
  pub fd : ℕ
  pub data_offset : ℕ
  pub data_len : ℕ

-- `[0; n]`
unfoldable pub zeros : ℕ → List ℕ
zeros n = replicate n 0

-- `IoRequest::new`
unfoldable pub new_request : ℕ → IoOp → IoPriority → IoRequest
new_request id op priority = record {
  id = id;
  op = op_code op;
  priority = priority_code priority;
  pad = zeros 6;
  fd = 0;
  offset = 0;
  len = 0;
  data_offset = 0;
  path = zeros max_path_len;
}

pub io_op : IoRequest → Option IoOp
io_op r = op_from_u8 r.op

pub io_priority : IoRequest → Option IoPriority
io_priority r = priority_from_u8 r.priority

-- `self.path[..n].copy_from_slice(&bytes[..n])` for `n` within both
abbrev pub copy_prefix : ℕ → List ℕ → List ℕ → List ℕ
copy_prefix n from to = take n from ++ drop n to

-- The text is a `&str`, given by its bytes.
unfoldable pub set_path : IoRequest → List ℕ → IoRequest
set_path r bytes =
    let n = min (length bytes) (max_path_len - 1) in
    record r { path = set (copy_prefix n bytes r.path) n 0 }

-- `.iter().position(|&b| b == 0)`
abbrev pub position_of_zero : List ℕ → Option ℕ
position_of_zero [] = none
position_of_zero (b ∷ bs) =
    if b == 0 then some 0 else elim (position_of_zero bs) [ none ↦ none | some i ↦ some (suc i) ]

abbrev pub unwrap_or {ℓ} : {A : Type ℓ} → Option A → A → A
unwrap_or none d = d
unwrap_or (some a) d = a

unfoldable pub path_str : IoRequest → List ℕ
path_str r =
    let end = unwrap_or (position_of_zero r.path) max_path_len in
    unwrap_or (from_utf8 (take end r.path)) []

-- `IoResponse::ok`
unfoldable pub ok_response : ℕ → IoResponse
ok_response id = record {
  id = id;
  status = pos 0;
  pad = zeros 4;
  fd = 0;
  data_offset = 0;
  data_len = 0;
}

-- `IoResponse::err`
unfoldable pub err_response : ℕ → ℤ → IoResponse
err_response id status = record {
  id = id;
  status = status;
  pad = zeros 4;
  fd = 0;
  data_offset = 0;
  data_len = 0;
}
