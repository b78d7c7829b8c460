-- ===== src/Service.antt =====
-- atlas-service/src/service.rs: the type `AtlasService`, for any pipeline and any executor.
pub mod Descriptors
pub mod Sends
pub mod Settled
pub mod Answers
pub mod Run
pub mod Files
pub mod Reads
pub mod Hazard
pub mod Binary
mod Tests
use atlas_io.Base.{
  ℕ, ℤ, pos, negsuc, neg, is_neg, as_i32, Bool, true, false, Option, none, some, List, [], ◌∷◌,
  ◌++◌, min, ltb, if◌then◌else◌, wrapping_add, add_u32, sub_u32, as_u32,
}
use atlas_io.Protocol.{IoOp, IoRequest, IoResponse, op_from_u8, path_str, ok_response, err_response}
use atlas_io.Batch.{MergedOp, Source, is_nil}
use atlas_io.Pipeline.{Pipeline}
use atlas_io.Executor.{IoResult, Buf, BatchKind, BatchOp, new_op, IoExecutor}
use atlas_io.Channel.{ServiceChannel, send_at}
use Descriptors.{FdTable, get, insert, remove}

-- `libc::EBADF`
abbrev pub ebadf : ℕ
ebadf = 9

pub record AtlasService (p : Pipeline) (ex : IoExecutor) : Type 0 where
  pub channels : List ServiceChannel
  pub fd_table : FdTable
  pub next_fd : ℕ
  pub pipeline : p.State
  pub executor : ex.backend.State

-- What `execute_round` collects: the batch, and the operation that each entry comes from.
pub record Batch : Type 0 where
  pub entries : List BatchOp
  pub origin : List MergedOp

abbrev pub push_entry : Option BatchOp → MergedOp → Batch → Batch
push_entry none op b = b
push_entry (some entry) op b = record { entries = entry ∷ b.entries; origin = op ∷ b.origin }

abbrev pub bytes_of : ℤ → ℕ
bytes_of (pos n) = n
bytes_of (negsuc n) = 0

-- The `data_len` of the response to one source of a read of `n` bytes. As `n` is not negative here,
-- `(*offset_within as i64) < n` compares numbers.
unfoldable pub read_len : Source → ℕ → ℕ
read_len src n =
    if ltb src.offset_within n
    then min (sub_u32 (as_u32 n) src.offset_within) src.original_len
    else 0

unfoldable pub read_response : MergedOp → Source → ℕ → IoResponse
read_response op src n = record (ok_response src.request_id) {
  data_offset = add_u32 op.req.data_offset src.offset_within;
  data_len = read_len src n;
}

unfoldable pub write_response : Source → IoResponse
write_response src = record (ok_response src.request_id) { data_len = src.original_len }

-- `status = err`, for every source
unfoldable pub send_errors : List ServiceChannel → ℕ → ℤ → List Source → List ServiceChannel
send_errors cs ch err [] = cs
send_errors cs ch err (src ∷ srcs) =
    send_errors (send_at cs ch (err_response src.request_id err)) ch err srcs

unfoldable pub send_reads : List ServiceChannel → MergedOp → ℕ → List Source → List ServiceChannel
send_reads cs op n [] = cs
send_reads cs op n (src ∷ srcs) =
    send_reads (send_at cs op.channel_idx (read_response op src n)) op n srcs

unfoldable pub send_writes : List ServiceChannel → ℕ → List Source → List ServiceChannel
send_writes cs ch [] = cs
send_writes cs ch (src ∷ srcs) = send_writes (send_at cs ch (write_response src)) ch srcs

unfoldable pub send_read_responses : List ServiceChannel → MergedOp → IoResult → List ServiceChannel
send_read_responses cs op n =
    if is_neg n
    then send_errors cs op.channel_idx (as_i32 n) op.sources
    else send_reads cs op (bytes_of n) op.sources

unfoldable pub send_write_responses :
    List ServiceChannel → MergedOp → IoResult → List ServiceChannel
send_write_responses cs op n =
    if is_neg n
    then send_errors cs op.channel_idx (as_i32 n) op.sources
    else send_writes cs op.channel_idx op.sources

-- The response to a sync.
abbrev pub sync_response : MergedOp → IoResult → IoResponse
sync_response op n = if is_neg n then err_response op.req.id (as_i32 n) else ok_response op.req.id

-- The loop over the executed batch.
unfoldable pub respond_one : List ServiceChannel → BatchOp → MergedOp → List ServiceChannel
respond_one cs bop op = elim bop.kind [
  | BatchKind.pread _ _ _ _ ↦ send_read_responses cs op bop.result
  | BatchKind.pwrite _ _ _ _ ↦ send_write_responses cs op bop.result
  | BatchKind.fsync _ ↦ send_at cs op.channel_idx (sync_response op bop.result)
]

unfoldable pub respond : List ServiceChannel → List BatchOp → List MergedOp → List ServiceChannel
respond cs (bop ∷ bops) (op ∷ ops) = respond (respond_one cs bop op) bops ops
respond cs _ _ = cs

abbrev pub buf_of : MergedOp → Buf
buf_of op = record { channel_idx = op.channel_idx; data_offset = op.req.data_offset }

module _ (p : Pipeline) (ex : IoExecutor) where
  -- `AtlasService::with_pipeline`
  pub with_pipeline : p.State → ex.backend.State → AtlasService p ex
  with_pipeline pipeline executor = record {
    channels = [];
    fd_table = [];
    next_fd = 1;
    pipeline = pipeline;
    executor = executor;
  }

  -- `register`, with what `ServiceChannel::join` has given: a channel, or an error, which is handed
  -- on.
  unfoldable pub register : AtlasService p ex → Option ServiceChannel → Bool × AtlasService p ex
  register s none = (false, s)
  register s (some ch) = (true, record s { channels = s.channels ++ ch ∷ [] })

  abbrev send : AtlasService p ex → ℕ → IoResponse → AtlasService p ex
  send s ch resp = record s { channels = send_at s.channels ch resp }

  -- `handle_open` after the call: `rc` is what `open` gave, and `e` the executor behind it.
  abbrev pub opened :
      AtlasService p ex → IoRequest → IoResult → ex.backend.State → IoResponse × AtlasService p ex
  opened s req (negsuc n) e = (err_response req.id (as_i32 (negsuc n)), record s { executor = e })
  opened s req (pos fd) e = (
    record (ok_response req.id) { fd = s.next_fd },
    record s {
      next_fd = wrapping_add s.next_fd 1;
      fd_table = insert s.next_fd (as_i32 (pos fd)) s.fd_table;
      executor = e;
    },
  )

  -- The response, and the service with the descriptor in its table. 420 is 0o644.
  unfoldable pub handle_open : AtlasService p ex → IoRequest → IoResponse × AtlasService p ex
  handle_open s req =
      let (rc, e) = ex.backend.«open» s.executor (path_str req) (as_i32 (pos req.len)) 420 in
      opened s req rc e

  abbrev pub close_response : ℕ → IoResult → IoResponse
  close_response id (negsuc n) = err_response id (as_i32 (negsuc n))
  close_response id (pos n) = ok_response id

  -- `handle_close` with what the table has for the descriptor
  abbrev pub close_with : AtlasService p ex → IoRequest → Option ℤ → IoResponse × AtlasService p ex
  close_with s req none = (err_response req.id (neg (pos ebadf)), s)
  close_with s req (some real_fd) =
      let (rc, e) = ex.backend.close s.executor real_fd in
      (close_response req.id rc, record s { fd_table = remove req.fd s.fd_table; executor = e })

  unfoldable pub handle_close : AtlasService p ex → IoRequest → IoResponse × AtlasService p ex
  handle_close s req = close_with s req (get req.fd s.fd_table)

  -- `prepare_read` and `prepare_write`, by the entry that they make for a descriptor and by what
  -- the table has.
  abbrev pub prepare_with :
      (ℤ → BatchKind) → AtlasService p ex → MergedOp → Option ℤ → Option BatchOp × AtlasService p ex
  prepare_with kind s op none = (
    none,
    record s { channels = send_errors s.channels op.channel_idx (neg (pos ebadf)) op.sources },
  )
  prepare_with kind s op (some real_fd) = (some (new_op (kind real_fd)), s)

  unfoldable pub prepare_read : AtlasService p ex → MergedOp → Option BatchOp × AtlasService p ex
  prepare_read s op =
      prepare_with (λ fd. BatchKind.pread fd (buf_of op) op.req.len op.req.offset) s op
        (get op.req.fd s.fd_table)

  unfoldable pub prepare_write : AtlasService p ex → MergedOp → Option BatchOp × AtlasService p ex
  prepare_write s op =
      prepare_with (λ fd. BatchKind.pwrite fd (buf_of op) op.req.len op.req.offset) s op
        (get op.req.fd s.fd_table)

  abbrev pub fsync_with :
      AtlasService p ex → MergedOp → Option ℤ → Option BatchOp × AtlasService p ex
  fsync_with s op none = (none, send s op.channel_idx (err_response op.req.id (neg (pos ebadf))))
  fsync_with s op (some real_fd) = (some (new_op (BatchKind.fsync real_fd)), s)

  unfoldable pub prepare_fsync : AtlasService p ex → MergedOp → Option BatchOp × AtlasService p ex
  prepare_fsync s op = fsync_with s op (get op.req.fd s.fd_table)

  -- A structural operation is answered at once.
  abbrev answer_now : MergedOp → IoResponse × AtlasService p ex → Option BatchOp × AtlasService p ex
  answer_now op (resp, s) = (none, send s op.channel_idx resp)

  -- The `match` of the first loop of `execute_round`.
  unfoldable pub dispatch :
      Option IoOp → AtlasService p ex → MergedOp → Option BatchOp × AtlasService p ex
  dispatch (some IoOp.«open») s op = answer_now op (handle_open s op.req)
  dispatch (some IoOp.close) s op = answer_now op (handle_close s op.req)
  dispatch (some IoOp.read) s op = prepare_read s op
  dispatch (some IoOp.write) s op = prepare_write s op
  dispatch (some IoOp.sync) s op = prepare_fsync s op
  dispatch none s op = (none, send s op.channel_idx (err_response op.req.id (neg (pos 1))))

  unfoldable pub collect : AtlasService p ex → List MergedOp → Batch × AtlasService p ex
  collect s [] = (record { entries = []; origin = [] }, s)
  collect s (op ∷ ops) =
      let (entry, s') = dispatch (op_from_u8 op.req.op) s op in
      let (batch, s'') = collect s' ops in (push_entry entry op batch, s'')

  unfoldable pub execute_round : AtlasService p ex → List MergedOp → AtlasService p ex
  execute_round s ops =
      let (batch, s') = collect s ops in
      if is_nil batch.entries
      then s'
      else (let (done, e) = ex.execute_batch s'.executor batch.entries in
          record s' { executor = e; channels = respond s'.channels done batch.origin })
