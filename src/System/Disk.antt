-- ===== src/System/Disk.antt =====
-- Files: what a client writes through the service is in the file, and is what it reads.
use atlas_io.Base.{
  ℕ, zero, suc, ap₂, ◌+◌, ◌≤◌, ◌<◌, ◌^◌, ◌≡◌, ◌≢◌, refl, sym, ap, ◌∙◌, ℤ, pos, as_i64-small, as_u32,
  wrapping_add, Bool, true, some, List, [], length, arith,
}
use atlas_io.Protocol.{new_request, op_from_u8, ok_response, data_region_size}
use atlas_io.Executor.{Buf}
use atlas_io.Client.Region.{alloc-inside, read-write_bytes, write_request-bytes}
use atlas_io.Service.Descriptors.{FdTable, get}
use atlas_io.Client.{
  Memory, write_bytes, read_bytes, alloc, ok, AtlasClient, write, read, exchange, receive,
  write_request, read_request,
}
use atlas_io.Pipeline.{Pipeline}
use atlas_io.Pipeline.HandsOn.{HandsOn}
use atlas_io.System.{Machine, service_peer}
use atlas_io.System.Turns.{quiet, at_region, after_turn-write, after_turn-read}

-- What the transfers do to the file that a descriptor refers to. `whole` says that the descriptor
-- is open on a regular file and that nothing fails or ends early on it. Nothing is said of transfers
-- to or from addresses outside of the data region.
pub record IsDisk (mc : Machine) : Type 0 where
  pub file : mc.libc.World → ℤ → Memory
  pub size : mc.libc.World → ℤ → ℕ
  pub whole : mc.libc.World → ℤ → Bool
  pub region-set :
      (ch : ℕ) (m : Memory) (w : mc.libc.World) → mc.region (mc.set_region ch m w) ch ≡ m
  pub others-set :
      (ch ch' : ℕ) (m : Memory) (w : mc.libc.World)
      → ch' ≢ ch
      → mc.region (mc.set_region ch m w) ch' ≡ mc.region w ch'
  pub files-set :
      (ch : ℕ) (m : Memory) (w : mc.libc.World) (fd : ℤ)
      → (file (mc.set_region ch m w) fd ≡ file w fd)
        × (size (mc.set_region ch m w) fd ≡ size w fd)
        × (whole (mc.set_region ch m w) fd ≡ whole w fd)
  -- pwrite(2), of bytes inside the region of a channel
  pub writes :
      (w : mc.libc.World) (fd : ℤ) (buf : Buf) (len offset : ℕ)
      → whole w fd ≡ true
      → buf.data_offset + len ≤ data_region_size
      → let (n, w') = mc.libc.pwrite w fd buf len (pos offset) in
        (n ≡ pos len)
        × (mc.region w' ≡ mc.region w)
        × (file w' fd
            ≡ write_bytes
                (file w fd)
                offset
                (read_bytes (mc.region w buf.channel_idx) buf.data_offset len))
        × (offset + len ≤ size w' fd)
        × (whole w' fd ≡ true)
  -- close(2)
  pub closes : (w : mc.libc.World) (fd : ℤ) → whole w fd ≡ true → (mc.libc.close w fd).0 ≡ pos 0
  -- pread(2), into the region of a channel, where the file reaches that far
  pub reads :
      (w : mc.libc.World) (fd : ℤ) (buf : Buf) (len offset : ℕ)
      → whole w fd ≡ true
      → buf.data_offset + len ≤ data_region_size
      → offset + len ≤ size w fd
      → let (n, w') = mc.libc.pread w fd buf len (pos offset) in
        (n ≡ pos len)
        × (mc.region w' buf.channel_idx
            ≡ write_bytes
                (mc.region w buf.channel_idx)
                buf.data_offset
                (read_bytes (file w fd) offset len))
        × (file w' fd ≡ file w fd)
        × (size w' fd ≡ size w fd)
        × (whole w' fd ≡ true)
  -- and no other channel's
  pub reads-others :
      (w : mc.libc.World) (fd : ℤ) (buf : Buf) (len offset ch : ℕ)
      → ch ≢ buf.channel_idx
      → mc.region (mc.libc.pread w fd buf len (pos offset)).1 ch ≡ mc.region w ch

module _ (p : Pipeline) (h : HandsOn p) (mc : Machine) (disk : IsDisk mc) where
  -- The client is the only one, nothing is under way, and its descriptor leads to a regular file.
  pub record Ready (fd : ℕ) (real_fd : ℤ) (c : AtlasClient (service_peer p mc)) : Type 0 where
    pub channel_id : ℕ
    pub fd_table : FdTable
    pub next_fd : ℕ
    pub files : mc.libc.World
    pub service : c.world ≡ quiet p mc channel_id fd_table next_fd files
    pub inbox : c.inbox ≡ []
    pub found : get fd fd_table ≡ some real_fd
    pub whole : disk.whole files real_fd ≡ true
    pub offset : c.offset ≤ data_region_size

  pub write-file :
      (c : AtlasClient (service_peer p mc)) (fd : ℕ) (real_fd : ℤ) (buf : List ℕ) (offset : ℕ)
      → (r : Ready fd real_fd c) → length buf ≤ data_region_size
      → offset < 2 ^ 63
      → (c' : AtlasClient (service_peer p mc)) × (r' : Ready fd real_fd c') × (write
            (service_peer p mc)
            c
            fd
            buf
            offset
          ≡ some (ok (length buf), c'))
        × (disk.file r'.files real_fd ≡ write_bytes (disk.file r.files real_fd) offset buf)
        × (offset + length buf ≤ disk.size r'.files real_fd)
  unfolding write exchange receive write_request new_request ok_response op_from_u8
  write-file c fd real_fd buf offset r fits small =
      let start = (alloc c.offset (length buf)).0 in
      let (m', req) = write_request c.next_id c.offset c.memory fd buf offset in
      let (filled, inside) =
        write_request-bytes c.next_id c.offset c.memory fd buf offset r.offset fits in
      let w = mc.set_region 0 m' r.files in
      let (file_same, size_same, whole_same) = disk.files-set 0 m' r.files real_fd in
      let (n, region', file', size', whole') =
        disk.writes w real_fd (at_region req) req.len offset (whole_same ∙ r.whole)
          (omega (arith, inside)) in
      let turned =
        after_turn-write p h mc r.channel_id r.fd_table r.next_fd r.files m' req real_fd offset
          (omega (arith, small)) (omega arith) refl (as_i64-small offset small) r.found n in
      let len : as_u32 (length buf) ≡ length buf = omega (arith, fits) in
      let w' = (mc.libc.pwrite w real_fd (at_region req) req.len (pos offset)).1 in
      (
        record {
          next_id = wrapping_add c.next_id 1;
          offset = (alloc c.offset (length buf)).1;
          memory = mc.region w' 0;
          inbox = [];
          world = quiet p mc r.channel_id r.fd_table r.next_fd w';
        },
        record {
          channel_id = r.channel_id;
          fd_table = r.fd_table;
          next_fd = r.next_fd;
          files = w';
          service = refl;
          inbox = refl;
          found = r.found;
          whole = whole';
          offset = (alloc-inside c.offset (length buf) r.offset fits).1;
        },
        ground (arith, r.service, turned, r.inbox, len),
        file'
            ∙ ap₂ (λ f b. write_bytes f offset b) file_same
                (ap (λ g. read_bytes g start req.len) (disk.region-set 0 m' r.files) ∙ filled),
        omega (arith, size', len),
      )

  length-read_bytes : (g : Memory) (offset n : ℕ) → length (read_bytes g offset n) ≡ n
  length-read_bytes g offset zero = refl
  length-read_bytes g offset (suc n) = ap suc (length-read_bytes g (suc offset) n)

  pub read-file :
      (c : AtlasClient (service_peer p mc)) (fd : ℕ) (real_fd : ℤ) (n offset : ℕ)
      → (r : Ready fd real_fd c) → n ≤ data_region_size
      → offset < 2 ^ 63
      → offset + n ≤ disk.size r.files real_fd
      → (c' : AtlasClient (service_peer p mc)) × (r' : Ready fd real_fd c') × (read
            (service_peer p mc)
            c
            fd
            n
            offset
          ≡ some (ok (read_bytes (disk.file r.files real_fd) offset n), c'))
        × (disk.file r'.files real_fd ≡ disk.file r.files real_fd)
        × (disk.size r'.files real_fd ≡ disk.size r.files real_fd)
  unfolding read exchange receive read_request new_request ok_response op_from_u8
  read-file c fd real_fd n offset r fits small within =
      let start = (alloc c.offset n).0 in
      let req = read_request c.next_id c.offset fd n offset in
      let (slot, next) = alloc-inside c.offset n r.offset fits in
      let w = mc.set_region 0 c.memory r.files in
      let (file_same, size_same, whole_same) = disk.files-set 0 c.memory r.files real_fd in
      let len : as_u32 n ≡ n = omega (arith, fits) in
      let (done, region', file', size', whole') =
        disk.reads w real_fd (at_region req) req.len offset (whole_same ∙ r.whole)
          (omega (arith, slot, next, len)) (omega (arith, within, size_same, len)) in
      let turned =
        after_turn-read p h mc r.channel_id r.fd_table r.next_fd r.files c.memory req real_fd offset
          (omega (arith, small)) (omega arith) refl (as_i64-small offset small) r.found
          (omega (arith, slot, next)) done in
      let w' = (mc.libc.pread w real_fd (at_region req) req.len (pos offset)).1 in
      let bytes = read_bytes (disk.file r.files real_fd) offset n in
      let filled : mc.region w' 0 ≡ write_bytes (mc.region w 0) start bytes =
        region'
        ∙ ap₂ (λ f k. write_bytes (mc.region w 0) start (read_bytes f offset k)) file_same len in
      let seen : read_bytes (mc.region w' 0) start req.len ≡ bytes =
        ap₂ (λ g k. read_bytes g start k) filled
          (len ∙ sym (length-read_bytes (disk.file r.files real_fd) offset n))
        ∙ read-write_bytes (mc.region w 0) start bytes in
      (
        record {
          next_id = wrapping_add c.next_id 1;
          offset = (alloc c.offset n).1;
          memory = mc.region w' 0;
          inbox = [];
          world = quiet p mc r.channel_id r.fd_table r.next_fd w';
        },
        record {
          channel_id = r.channel_id;
          fd_table = r.fd_table;
          next_fd = r.next_fd;
          files = w';
          service = refl;
          inbox = refl;
          found = r.found;
          whole = whole';
          offset = next;
        },
        ground (arith, r.service, turned, r.inbox, seen),
        file' ∙ file_same,
        size' ∙ size_same,
      )

  -- Bytes written through the service and read back through it, at the same place, are the same.
  pub read-write :
      (c : AtlasClient (service_peer p mc)) (fd : ℕ) (real_fd : ℤ) (buf : List ℕ) (offset : ℕ)
      → (r : Ready fd real_fd c) → length buf ≤ data_region_size
      → offset < 2 ^ 63
      → (c' c'' : AtlasClient (service_peer p mc)) × (write (service_peer p mc) c fd buf offset
          ≡ some (ok (length buf), c'))
        × (read (service_peer p mc) c' fd (length buf) offset ≡ some (ok buf, c''))
        × Ready fd real_fd c''
  read-write c fd real_fd buf offset r fits small =
      let (c', r', wrote, file', size') = write-file c fd real_fd buf offset r fits small in
      let (c'', r'', done, _, _) =
        read-file c' fd real_fd (length buf) offset r' fits small size' in
      let same : read_bytes (disk.file r'.files real_fd) offset (length buf) ≡ buf =
        ap (λ f. read_bytes f offset (length buf)) file'
        ∙ read-write_bytes (disk.file r.files real_fd) offset buf in
      (c', c'', wrote, done ∙ ap (λ b. some (ok b, c'')) same, r'')
