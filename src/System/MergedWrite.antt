-- ===== src/System/MergedWrite.antt =====
-- Writes that `drain_merged` of atlas-service/src/batch.rs has merged, and the same writes one by
-- one, in `execute_round` of atlas-service/src/service.rs.
use atlas_io.Base.{
  ℕ, zero, suc, ◌+◌, ◌≤◌, ◌<◌, ◌^◌, ◌≡◌, refl, sym, ap, ◌∙◌, ◌==◌, if◌then◌else◌, ℤ, pos, true,
  some, as_i64-small, [], ◌∷◌, arith,
}
use atlas_io.Protocol.{IoOp, op_from_u8, data_region_size}
use atlas_io.Batch.{
  TaggedRequest, single, singles, separate, merge_adjacent, merge_sorted, sort_by, drain_merged,
}
use atlas_io.Batch.Placement.{Follows}
use atlas_io.Executor.{posix, execute_one_by_one}
use atlas_io.Service.{AtlasService, buf_of, collect, dispatch, prepare_write, execute_round}
use atlas_io.Service.Descriptors.{get}
use atlas_io.Pipeline.{Pipeline}
use atlas_io.Client.{Memory, write_bytes, read_bytes}
use atlas_io.System.{Machine}
use atlas_io.System.Disk.{IsDisk}
use atlas_io.System.Overrun.{both, merge_two}

-- A write in two parts.
write_parts :
    (m f : Memory) (o d a b : ℕ)
    → write_bytes f o (read_bytes m d (a + b))
      ≡ write_bytes (write_bytes f o (read_bytes m d a)) (o + a) (read_bytes m (d + a) b)
write_parts m f o d zero b =
    let first : zero + b ≡ b = omega arith in
    let o' : o + zero ≡ o = omega arith in
    let d' : d + zero ≡ d = omega arith in rw (first, o', d') refl
write_parts m f o d (suc a) b =
    let first : suc a + b ≡ suc (a + b) = omega arith in
    let o' : o + suc a ≡ suc o + a = omega arith in
    let d' : d + suc a ≡ suc d + a = omega arith in
    rw (first, o', d') (write_parts m (λ j. if j == o then m d else f j) (suc o) (suc d) a b)

drained_writes :
    (x y : TaggedRequest)
    → Follows x y
    → x.req.len + y.req.len < 2 ^ 32
    → op_from_u8 x.req.op ≡ some IoOp.write
    → op_from_u8 y.req.op ≡ some IoOp.write
    → (drain_merged (record { pending = x ∷ y ∷ [] })).0 ≡ both x y ∷ []
unfolding drain_merged separate merge_adjacent merge_sorted sort_by
drained_writes x y f few wx wy = rw (wx, wy) (merge_two x y f few)

module _ (p : Pipeline) (mc : Machine) (disk : IsDisk mc) where
  after_both :
      (s : AtlasService p (posix mc.libc)) (x y : TaggedRequest) (fd : ℤ)
      → op_from_u8 x.req.op ≡ some IoOp.write
      → get x.req.fd s.fd_table ≡ some fd
      → x.req.offset < 2 ^ 63
      → (execute_round p (posix mc.libc) s (both x y ∷ [])).executor
        ≡ (mc.libc.pwrite s.executor fd
            (buf_of (both x y))
            (x.req.len + y.req.len)
            (pos x.req.offset)).1
  unfolding execute_round collect dispatch prepare_write execute_one_by_one
  after_both s x y fd wx known small =
      let a = as_i64-small x.req.offset small in rw (wx, known, a) refl

  after_each :
      (s : AtlasService p (posix mc.libc)) (x y : TaggedRequest) (fd : ℤ)
      → op_from_u8 x.req.op ≡ some IoOp.write
      → op_from_u8 y.req.op ≡ some IoOp.write
      → get x.req.fd s.fd_table ≡ some fd
      → get y.req.fd s.fd_table ≡ some fd
      → x.req.offset < 2 ^ 63
      → y.req.offset < 2 ^ 63
      → (execute_round p (posix mc.libc) s (singles (x ∷ y ∷ []))).executor
        ≡ (mc.libc.pwrite
            (mc.libc.pwrite s.executor fd (buf_of (single x)) x.req.len (pos x.req.offset)).1
            fd
            (buf_of (single y))
            y.req.len
            (pos y.req.offset)).1
  unfolding execute_round collect dispatch prepare_write execute_one_by_one
  after_each s x y fd wx wy known known' small small' =
      let a = as_i64-small x.req.offset small in
      let b = as_i64-small y.req.offset small' in rw (wx, wy, known, known', a, b) refl

  -- Let one write go on where another ends, in the file and in the data region, inside of it. When they are
  -- drained together and merged, a round with the POSIX executor leaves the file as a round does
  -- that executes the two one after the other. (The descriptor is open on a regular
  -- file, the offsets are below 2 ^ 63 and the two are about less than 2 ^ 32 bytes.)
  pub execute_round-merged_write :
      (s : AtlasService p (posix mc.libc)) (x y : TaggedRequest) (fd : ℤ)
      → Follows x y
      → x.req.len + y.req.len < 2 ^ 32
      → op_from_u8 x.req.op ≡ some IoOp.write
      → op_from_u8 y.req.op ≡ some IoOp.write
      → get x.req.fd s.fd_table ≡ some fd
      → y.req.offset < 2 ^ 63
      → disk.whole s.executor fd ≡ true
      → y.req.data_offset ≡ x.req.data_offset + x.req.len
      → y.req.data_offset + y.req.len ≤ data_region_size
      → let merged = (drain_merged (record { pending = x ∷ y ∷ [] })).0 in
        disk.file (execute_round p (posix mc.libc) s merged).executor fd
        ≡ disk.file (execute_round p (posix mc.libc) s (singles (x ∷ y ∷ []))).executor fd
  execute_round-merged_write s x y fd f few wx wy known small whole behind room =
      let w = s.executor in
      let small' : x.req.offset < 2 ^ 63 = omega (arith, small, f.offset) in
      let known' : get y.req.fd s.fd_table ≡ some fd =
        ap (λ v. get v s.fd_table) f.descriptor ∙ known in
      let (_, _, at_once, _, _) =
        disk.writes w fd (buf_of (both x y)) (x.req.len + y.req.len) x.req.offset whole
          (omega (arith, behind, room)) in
      let (_, region, first, _, whole') =
        disk.writes w fd (buf_of (single x)) x.req.len x.req.offset whole
          (omega (arith, behind, room)) in
      let w' = (mc.libc.pwrite w fd (buf_of (single x)) x.req.len (pos x.req.offset)).1 in
      let (_, _, second, _, _) =
        disk.writes w' fd (buf_of (single y)) y.req.len y.req.offset whole' room in
      let parts =
        write_parts (mc.region w x.channel_idx) (disk.file w fd) x.req.offset x.req.data_offset
          x.req.len y.req.len in
      ap (λ ops. disk.file (execute_round p (posix mc.libc) s ops).executor fd)
        (drained_writes x y f few wx wy)
      ∙ ap (λ v. disk.file v fd) (after_both s x y fd wx known small')
      ∙ at_once
      ∙ parts
      ∙ sym (
          ap (λ v. disk.file v fd) (after_each s x y fd wx wy known known' small' small)
          ∙ second
          ∙ rw (region, first, f.offset, behind, f.channel) refl)
