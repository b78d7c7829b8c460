-- ===== src/System/Turns.antt =====
-- One turn of the service's loop for one request, when nothing else is under way.
use atlas_io.Base.{
  ℕ, ◌<◌, ◌^◌, ◌≡◌, refl, ℤ, pos, as_i64, as_i32-small, false, ◌≢◌, All, ne→==, add_u32, u32_mod,
  wrapping_add, some, List, [], ◌∷◌, arith,
}
use atlas_io.Protocol.{IoRequest, IoResponse, IoOp, op_from_u8, path_str, ok_response}
use atlas_io.Pipeline.{Pipeline}
use atlas_io.Pipeline.HandsOn.{HandsOn}
use atlas_io.Executor.{Buf, has_nul, execute_one_by_one}
use atlas_io.Service.{
  execute_round, handle_open, handle_close, collect, dispatch, prepare_write, prepare_read, respond,
  respond_one, send_write_responses, send_writes, write_response, send_read_responses, send_reads,
  read_response, read_len,
}
use atlas_io.Batch.{Source}
use atlas_io.Service.Run.{turn, poll_channels, poll_channel}
use atlas_io.Service.Descriptors.{FdTable, get, insert, remove}
use atlas_io.Client.{Memory}
use atlas_io.System.{Machine, Service, after_turn}

abbrev pub at_region : IoRequest → Buf
at_region req = record { channel_idx = 0; data_offset = req.data_offset }

module _ (p : Pipeline) (mc : Machine) where
  -- The service with one channel and nothing under way.
  abbrev pub quiet : ℕ → FdTable → ℕ → mc.libc.World → Service p mc
  quiet i t v w = record {
    channels = record { instance_id = i; requests = []; sent = [] } ∷ [];
    fd_table = t;
    next_fd = v;
    pipeline = p.new;
    executor = w;
  }

  -- It, after a turn that has sent one response.
  abbrev pub answered : ℕ → FdTable → ℕ → mc.libc.World → IoResponse → Service p mc
  answered i t v w resp = record (quiet i t v w) {
    channels = record { instance_id = i; requests = []; sent = resp ∷ [] } ∷ [];
  }

module _ (p : Pipeline) (h : HandsOn p) (mc : Machine) where
  pub after_turn-write :
      (i : ℕ) (t : FdTable) (v : ℕ) (w : mc.libc.World) (m : Memory) (req : IoRequest) (real_fd : ℤ)
      (offset : ℕ)
      → req.offset < 2 ^ 64
      → req.len < u32_mod
      → op_from_u8 req.op ≡ some IoOp.write
      → as_i64 req.offset ≡ pos offset
      → get req.fd t ≡ some real_fd
      → let (n, w') =
          mc.libc.pwrite (mc.set_region 0 m w) real_fd (at_region req) req.len (pos offset) in
        n ≡ pos req.len
        → after_turn p mc (quiet p mc i t v w) m req
          ≡ answered p mc i t v w' (record (ok_response req.id) { data_len = req.len })
  unfolding turn poll_channels poll_channel execute_round collect dispatch prepare_write
      execute_one_by_one respond respond_one send_write_responses send_writes write_response
  after_turn-write i t v w m req real_fd offset far few op at found whole =
      ground (arith, h.is_empty-add req, h.drain-add req far few, op, at, found, whole)

  read_len-whole :
      (src : Source) (n : ℕ)
      → src.offset_within ≡ 0
      → src.original_len ≡ n
      → n < u32_mod
      → read_len src n ≡ n
  unfolding read_len
  read_len-whole src n start whole small = ground (arith, start, whole, small)

  pub after_turn-read :
      (i : ℕ) (t : FdTable) (v : ℕ) (w : mc.libc.World) (m : Memory) (req : IoRequest) (real_fd : ℤ)
      (offset : ℕ)
      → req.offset < 2 ^ 64
      → req.len < u32_mod
      → op_from_u8 req.op ≡ some IoOp.read
      → as_i64 req.offset ≡ pos offset
      → get req.fd t ≡ some real_fd
      → req.data_offset < u32_mod
      → let (n, w') =
          mc.libc.pread (mc.set_region 0 m w) real_fd (at_region req) req.len (pos offset) in
        n ≡ pos req.len
        → after_turn p mc (quiet p mc i t v w) m req
          ≡ answered p mc i t v w'
              (record (ok_response req.id) { data_offset = req.data_offset; data_len = req.len })
  unfolding turn poll_channels poll_channel execute_round collect dispatch prepare_read
      execute_one_by_one respond respond_one send_read_responses send_reads read_response
  after_turn-read i t v w m req real_fd offset far few op at found inside whole =
      let src : Source = record {
        request_id = req.id;
        offset_within = 0;
        original_len = req.len;
      } in
      let len = read_len-whole src req.len refl refl few in
      let start : add_u32 req.data_offset 0 ≡ req.data_offset = omega (arith, inside) in
      ground (arith, h.is_empty-add req, h.drain-add req far few, op, at, found, whole, len, start)

  has_nul-solid : (path : List ℕ) → All (λ b. b ≢ 0) path → has_nul path ≡ false
  has_nul-solid [] solid = refl
  has_nul-solid (b ∷ bs) (ne, solid) = rw (ne→== b 0 ne) (has_nul-solid bs solid)

  pub after_turn-open :
      (i : ℕ) (t : FdTable) (v : ℕ) (w : mc.libc.World) (m : Memory) (req : IoRequest)
      (path : List ℕ) (real_fd : ℕ)
      → req.offset < 2 ^ 64
      → req.len < u32_mod
      → op_from_u8 req.op ≡ some IoOp.«open»
      → path_str req ≡ path
      → All (λ b. b ≢ 0) path
      → req.len < 2 ^ 31
      → real_fd < 2 ^ 31
      → let (n, w') = mc.libc.«open» (mc.set_region 0 m w) path (pos req.len) 420 in
        n ≡ pos real_fd
        → after_turn p mc (quiet p mc i t v w) m req
          ≡ answered p mc i
              (insert v (pos real_fd) t)
              (wrapping_add v 1)
              w'
              (record (ok_response req.id) { fd = v })
  unfolding turn poll_channels poll_channel execute_round collect dispatch handle_open
  after_turn-open i t v w m req path real_fd far few op named solid small small' gave = ground (
    arith,
    h.is_empty-add req,
    h.drain-add req far few,
    op,
    named,
    has_nul-solid path solid,
    as_i32-small req.len small,
    as_i32-small real_fd small',
    gave,
  )

  pub after_turn-close :
      (i : ℕ) (t : FdTable) (v : ℕ) (w : mc.libc.World) (m : Memory) (req : IoRequest) (real_fd : ℤ)
      → req.offset < 2 ^ 64
      → req.len < u32_mod
      → op_from_u8 req.op ≡ some IoOp.close
      → get req.fd t ≡ some real_fd
      → let (n, w') = mc.libc.close (mc.set_region 0 m w) real_fd in
        n ≡ pos 0
        → after_turn p mc (quiet p mc i t v w) m req
          ≡ answered p mc i (remove req.fd t) v w' (ok_response req.id)
  unfolding turn poll_channels poll_channel execute_round collect dispatch handle_close
  after_turn-close i t v w m req real_fd far few op found gave =
      ground (arith, h.is_empty-add req, h.drain-add req far few, op, found, gave)
