-- ===== src/System/Session.antt =====
-- A whole session of a client: open, write, read back, close.
use atlas_io.Base.{
  ℕ, ◌≤◌, ◌<◌, ◌^◌, ◌≡◌, ◌≢◌, refl, ◌∙◌, ℤ, pos, true, some, List, [], length, arith, All,
  wrapping_add,
}
use atlas_io.Protocol.{
  IoOp, IoPriority, new_request, set_path, path_str, op_from_u8, ok_response, data_region_size,
  zeros,
}
use atlas_io.Protocol.Utf8.{is_utf8}
use atlas_io.Protocol.Paths.{path_str-set_path_short}
use atlas_io.Service.Descriptors.{FdTable, insert, remove, get-insert}
use atlas_io.Client.{ok, AtlasClient, «open», write, read, close, exchange, receive}
use atlas_io.Pipeline.{Pipeline}
use atlas_io.Pipeline.HandsOn.{HandsOn}
use atlas_io.System.{Machine, service_peer}
use atlas_io.System.Turns.{quiet, after_turn-open, after_turn-close}
use atlas_io.System.Disk.{IsDisk, Ready, read-write}

-- The paths that arrive as they are.
pub record IsPath (path : List ℕ) : Type 0 where
  pub short : length path ≤ 255
  pub solid : All (λ b. b ≢ 0) path
  pub text : is_utf8 path ≡ true

module _ (p : Pipeline) (h : HandsOn p) (mc : Machine) (disk : IsDisk mc) where
  -- Nothing is under way between the client, which is the only one, and the service.
  pub record Idle (c : AtlasClient (service_peer p mc)) : Type 0 where
    pub channel_id : ℕ
    pub fd_table : FdTable
    pub next_fd : ℕ
    pub files : mc.libc.World
    pub service : c.world ≡ quiet p mc channel_id fd_table next_fd files
    pub inbox : c.inbox ≡ []
    pub offset : c.offset ≤ data_region_size

  -- `open` gives a descriptor for the path, of a regular file.
  pub record OpensFile (w : mc.libc.World) (path : List ℕ) (flags real_fd : ℕ) : Type 0 where
    pub gives : (mc.libc.«open» w path (pos flags) 420).0 ≡ pos real_fd
    pub small : real_fd < 2 ^ 31
    pub whole : disk.whole (mc.libc.«open» w path (pos flags) 420).1 (pos real_fd) ≡ true

  open-Ready :
      (c : AtlasClient (service_peer p mc)) (path : List ℕ) (flags real_fd : ℕ)
      → (i : Idle c) → IsPath path
      → flags < 2 ^ 31
      → OpensFile (mc.set_region 0 c.memory i.files) path flags real_fd
      → (c' : AtlasClient (service_peer p mc)) × («open» (service_peer p mc) c path flags
          ≡ some (ok i.next_fd, c'))
        × Ready p h mc disk i.next_fd (pos real_fd) c'
  unfolding «open» exchange receive new_request ok_response op_from_u8 zeros set_path path_str
  open-Ready c path flags real_fd i is_path small o =
      let req = set_path (new_request c.next_id IoOp.«open» IoPriority.high) path in
      let named : path_str req ≡ path =
        path_str-set_path_short (new_request c.next_id IoOp.«open» IoPriority.high) path refl
          is_path.short is_path.solid is_path.text in
      let turned =
        after_turn-open p h mc i.channel_id i.fd_table i.next_fd i.files c.memory
          (record req { len = flags }) path real_fd (omega arith) (omega (arith, small)) refl named
          is_path.solid small o.small o.gives in
      let w' = (mc.libc.«open» (mc.set_region 0 c.memory i.files) path (pos flags) 420).1 in
      (
        record {
          next_id = wrapping_add c.next_id 1;
          offset = c.offset;
          memory = mc.region w' 0;
          inbox = [];
          world =
              quiet p mc i.channel_id (insert i.next_fd (pos real_fd) i.fd_table)
                (wrapping_add i.next_fd 1) w';
        },
        ground (arith, i.service, turned, i.inbox),
        record {
          channel_id = i.channel_id;
          fd_table = insert i.next_fd (pos real_fd) i.fd_table;
          next_fd = wrapping_add i.next_fd 1;
          files = w';
          service = refl;
          inbox = refl;
          found = get-insert i.next_fd (pos real_fd) i.fd_table;
          whole = o.whole;
          offset = i.offset;
        },
      )

  close-ok :
      (c : AtlasClient (service_peer p mc)) (fd : ℕ) (real_fd : ℤ)
      → Ready p h mc disk fd real_fd c
      → (c' : AtlasClient (service_peer p mc)) × (close (service_peer p mc) c fd ≡ some (ok tt, c'))
        × Idle c'
  unfolding close exchange receive new_request ok_response op_from_u8
  close-ok c fd real_fd r =
      let req = record (new_request c.next_id IoOp.close IoPriority.low) { fd = fd } in
      let w = mc.set_region 0 c.memory r.files in
      let (_, _, whole) = disk.files-set 0 c.memory r.files real_fd in
      let turned =
        after_turn-close p h mc r.channel_id r.fd_table r.next_fd r.files c.memory req real_fd
          (omega arith) (omega arith) refl r.found (disk.closes w real_fd (whole ∙ r.whole)) in
      let w' = (mc.libc.close w real_fd).1 in
      (
        record {
          next_id = wrapping_add c.next_id 1;
          offset = c.offset;
          memory = mc.region w' 0;
          inbox = [];
          world = quiet p mc r.channel_id (remove fd r.fd_table) r.next_fd w';
        },
        ground (arith, r.service, turned, r.inbox),
        record {
          channel_id = r.channel_id;
          fd_table = remove fd r.fd_table;
          next_fd = r.next_fd;
          files = w';
          service = refl;
          inbox = refl;
          offset = r.offset;
        },
      )

  -- A client alone with an idle service, with any pipeline that hands a lone request on as it is
  -- (both do), over a system on which the path opens as a regular file
  -- and transfers are whole: `open` returns a descriptor, `write` through it the number of bytes,
  -- `read` of the same range the bytes that were written, and `close` succeeds, after which the
  -- client and the service are idle again. The path has at most 255 bytes, is text and has no NUL,
  -- the bytes fit in the data region, and the offset is below 2 ^ 63.
  pub session :
      (c : AtlasClient (service_peer p mc)) (path : List ℕ) (flags real_fd : ℕ) (buf : List ℕ)
      (offset : ℕ)
      → (i : Idle c) → IsPath path
      → flags < 2 ^ 31
      → OpensFile (mc.set_region 0 c.memory i.files) path flags real_fd
      → length buf ≤ data_region_size
      → offset < 2 ^ 63
      → (fd : ℕ) × (c1 c2 c3 c4 : AtlasClient (service_peer p mc)) × («open»
            (service_peer p mc)
            c
            path
            flags
          ≡ some (ok fd, c1))
        × (write (service_peer p mc) c1 fd buf offset ≡ some (ok (length buf), c2))
        × (read (service_peer p mc) c2 fd (length buf) offset ≡ some (ok buf, c3))
        × (close (service_peer p mc) c3 fd ≡ some (ok tt, c4))
        × Idle c4
  session c path flags real_fd buf offset i is_path small o fits below =
      let (c1, opened, r1) = open-Ready c path flags real_fd i is_path small o in
      let (c2, c3, wrote, got, r3) =
        read-write p h mc disk c1 i.next_fd (pos real_fd) buf offset r1 fits below in
      let (c4, closed, idle) = close-ok c3 i.next_fd (pos real_fd) r3 in
      (i.next_fd, c1, c2, c3, c4, opened, wrote, got, closed, idle)
