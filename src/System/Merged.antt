-- ===== src/System/Merged.antt =====
-- Reads that `BatchEngine::drain_merged` (atlas-service/src/batch.rs) has merged, with the responses
-- of atlas-service/src/service.rs, as each client sees them.
use mathlib.Core.Logic.{∥∥₁_elim, ∥∥₁_prop, ∥∥₁_map}
use mathlib.Core.List.{
  Mem, Memᴰ, exists_of_mem-map, mem-map_of_mem, mem-append_left, mem-append_right,
}
use mathlib.Core.List.Perm
use atlas_io.Base.{
  ℕ, zero, suc, min, ◌+◌, ◌-◌, ◌≤◌, ◌<◌, ◌^◌, ◌≡◌, refl, sym, ap, ap₂, subst, ◌∙◌, ℤ, true, ◌==◌,
  ==_refl, if◌then◌else◌, as_i64-small, List, [], ◌∷◌, map, All, arith,
}
use atlas_io.Protocol.{IoResponse, ok_response, data_region_size}
use atlas_io.Batch.{TaggedRequest, MergedOp, Source, BatchEngine, drain_merged}
use atlas_io.Batch.Merge.{piece_in, pieces, Covers, NoWrap, total_len}
use atlas_io.Batch.Drain.{drain_merged-pieces}
use atlas_io.Executor.{posix_backend}
use atlas_io.Service.{bytes_of, buf_of, read_response}
use atlas_io.Service.Reads.{read_response-bytes}
use atlas_io.Client.{Memory, write_bytes, read_bytes}
use atlas_io.Client.Region.{write_bytes_before}
use atlas_io.System.{Machine}
use atlas_io.System.Disk.{IsDisk}

-- A byte of the file, where a read has put it.
byte_copied :
    (m f : Memory) (a o n i : ℕ) → i < n → write_bytes m a (read_bytes f o n) (a + i) ≡ f (o + i)
byte_copied m f a o zero i h = absurd (omega (arith, h))
byte_copied m f a o (suc n) zero h =
    let m' : Memory = λ j. if j == a then f o else m j in
    let first : m' a ≡ f o = rw (==_refl a) refl in
    ap (write_bytes m' (suc a) (read_bytes f (suc o) n)) (omega arith)
    ∙ write_bytes_before m' (suc a) a (read_bytes f (suc o) n) (omega arith)
    ∙ first
    ∙ ap f (omega arith)
byte_copied m f a o (suc n) (suc i) h =
    let m' : Memory = λ j. if j == a then f o else m j in
    ap (write_bytes m' (suc a) (read_bytes f (suc o) n)) (omega arith)
    ∙ byte_copied m' f (suc a) (suc o) n i (omega arith)
    ∙ ap f (omega arith)

-- Any part of it.
pub part_copied :
    (m f : Memory) (a o n k l : ℕ)
    → k + l ≤ n
    → read_bytes (write_bytes m a (read_bytes f o n)) (a + k) l ≡ read_bytes f (o + k) l
part_copied m f a o n k zero h = refl
part_copied m f a o n k (suc l) h =
    let g = write_bytes m a (read_bytes f o n) in
    ap₂ ◌∷◌ (byte_copied m f a o n k (omega arith)) (
      ap (λ s. read_bytes g s l) (omega arith)
      ∙ part_copied m f a o n (suc k) l (omega arith)
      ∙ ap (λ s. read_bytes f s l) (omega arith))

mem-pieces :
    (op : MergedOp) (src : Source) (ops : List MergedOp)
    → Memᴰ op ops
    → Mem src op.sources
    → Mem (piece_in op src) (pieces ops)
mem-pieces op src [] d h = elim d [ ]
mem-pieces op src (op' ∷ ops) (Memᴰ.head e) h = mem-append_left (pieces ops) (
    subst (λ o. Mem (piece_in op src) (map (piece_in o) o.sources)) e
      (mem-map_of_mem (piece_in op) h))
mem-pieces op src (op' ∷ ops) (Memᴰ.tail d) h =
    mem-append_right (map (piece_in op') op'.sources) (mem-pieces op src ops d h)

All-at {ℓ κ} : {A : Type ℓ} (P : A → Type κ) (x : A) (xs : List A) → All P xs → Memᴰ x xs → P x
All-at P x [] all d = elim d [ ]
All-at P x (y ∷ ys) all (Memᴰ.head e) = subst P (sym e) all.0
All-at P x (y ∷ ys) all (Memᴰ.tail d) = All-at P x ys all.1 d

-- What a pending request gets: the response that `op` sends is for it, goes to its channel, and
-- points at the bytes that it has asked for.
pub record Got (file region : Memory) (op : MergedOp) (resp : IoResponse) (tr : TaggedRequest)
    : Type 0 where
  pub channel : op.channel_idx ≡ tr.channel_idx
  pub descriptor : op.req.fd ≡ tr.req.fd
  pub request_id : resp.id ≡ tr.req.id
  pub bytes :
      read_bytes region resp.data_offset resp.data_len ≡ read_bytes file tr.req.offset tr.req.len

module _ (mc : Machine) (disk : IsDisk mc) where
  -- The bytes that the response to `src` points at, when the read is complete.
  pub source_bytes :
      (op : MergedOp) (src : Source) (w : mc.libc.World) (fd : ℤ)
      → src.offset_within + src.original_len ≤ op.req.len
      → op.req.data_offset + op.req.len ≤ data_region_size
      → op.req.offset < 2 ^ 63
      → disk.whole w fd ≡ true
      → op.req.offset + op.req.len ≤ disk.size w fd
      → let (n, w') = (posix_backend mc.libc).pread w fd (buf_of op) op.req.len op.req.offset in
        let resp = read_response op src (bytes_of n) in
        read_bytes (mc.region w' op.channel_idx) resp.data_offset resp.data_len
        ≡ read_bytes (disk.file w fd) (op.req.offset + src.offset_within) src.original_len
  source_bytes op src w fd covered room small whole within =
      let (all, region, _, _, _) =
        disk.reads w fd (buf_of op) op.req.len op.req.offset whole room within in
      let at = as_i64-small op.req.offset small in
      let (start, len) =
        read_response-bytes op src op.req.len (omega arith) (omega (arith, room)) covered in
      let full : min src.original_len (op.req.len - src.offset_within) ≡ src.original_len =
        omega (arith, covered) in
      rw (at, all, start, len, region, full)
        (part_copied (mc.region w op.channel_idx) (disk.file w fd) op.req.data_offset op.req.offset
          op.req.len src.offset_within src.original_len covered)

  -- Let no pending request run past 2 ^ 64 and all together be about less than 2 ^ 32 bytes, and let
  -- `op` be one of the drained operations. Then each source of `op` stands for a pending request;
  -- and when `op` is read by the POSIX executor, from a file that reaches as far and at an offset
  -- below 2 ^ 63, into a buffer that ends inside the data region, then the response for that source
  -- bears the request's identifier, goes to the request's channel, and points, in the region of
  -- that channel, at exactly the bytes of the file at the request's own offset and length. `fd` is
  -- the file behind the descriptor. (The merged buffer begins at the slot of the first request; that
  -- the slots are inside the region is not enough for it to end there.)
  pub merged_read :
      (e : BatchEngine) (op : MergedOp) (src : Source) (w : mc.libc.World) (fd : ℤ)
      → All NoWrap e.pending
      → total_len e.pending < 2 ^ 32
      → Mem op (drain_merged e).0
      → Mem src op.sources
      → op.req.data_offset + op.req.len ≤ data_region_size
      → op.req.offset < 2 ^ 63
      → disk.whole w fd ≡ true
      → op.req.offset + op.req.len ≤ disk.size w fd
      → let (n, w') = (posix_backend mc.libc).pread w fd (buf_of op) op.req.len op.req.offset in
        ∥ (
          (tr : TaggedRequest) × Mem tr e.pending
          × Got
              (disk.file w fd)
              (mc.region w' op.channel_idx)
              op
              (read_response op src (bytes_of n))
              tr) ∥₁
  unfolding read_response ok_response
  merged_read e op src w fd fits few drained source room small whole within =
      let (kept, covers) = drain_merged-pieces e fits few in
      ∥∥₁_elim drained ∥∥₁_prop (λ at. ∥∥₁_elim source ∥∥₁_prop (λ src_at.
        let covered : src.offset_within + src.original_len ≤ op.req.len =
          All-at (λ s. s.offset_within + s.original_len ≤ op.req.len) src op.sources
            (All-at Covers op (drain_merged e).0 covers at) src_at in
        let mem = (Perm.mem_iff kept).0 (mem-pieces op src (drain_merged e).0 at source) in
        ∥∥₁_map (exists_of_mem-map mem) (λ (tr, pending, same). (
          tr,
          pending,
          record {
            channel = sym (ap (λ x. x.channel_idx) same);
            descriptor = sym (ap (λ x. x.fd) same);
            request_id = sym (ap (λ x. x.request_id) same);
            bytes =
                source_bytes op src w fd covered room small whole within
                ∙ ap₂ (λ o l. read_bytes (disk.file w fd) o l) (sym (ap (λ x. x.offset) same))
                    (sym (ap (λ x. x.len) same));
          },
        ))))
