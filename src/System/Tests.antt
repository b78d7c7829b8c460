-- ===== src/System/Tests.antt =====
-- A session on a system with one file.
mod Merges
use atlas_io.Base.{
  List, ℕ, ◌+◌, ◌-◌, ◌≡◌, ◌≤◌, refl, ℤ, pos, negsuc, true, some, [], ◌∷◌, arith, min, max, ==_refl,
  ne→==, ◌==◌, if◌then◌else◌,
}
use atlas_io.Protocol.Utf8.{is_utf8}
use atlas_io.Client.{Memory, read_bytes, write_bytes, ok, AtlasClient, «open», write, read, close}
use atlas_io.Pipeline.Batched.{batched}
use atlas_io.Pipeline.HandsOn.{batched-HandsOn}
use atlas_io.System.{Machine, service_peer}
use atlas_io.System.Turns.{quiet}
use atlas_io.System.Disk.{IsDisk}
use atlas_io.System.Session.{Idle, IsPath, session}

-- The region of each channel, and the file.
record Disk : Type 0 where
  regions : ℕ → Memory
  bytes : Memory
  size : ℕ

abbrev put : ℕ → Memory → Disk → Disk
put ch m w = record w { regions = λ i. if i == ch then m else w.regions i }

abbrev position : ℤ → ℕ
position (pos n) = n
position (negsuc n) = 0

-- Every path opens the file, and a transfer ends early only at its end.
abbrev one_file : Machine
one_file = record {
  libc = record {
    World = Disk;
    «open» = λ w path flags mode. (pos 3, w);
    close = λ w fd. (pos 0, w);
    pread = λ w fd buf len offset.
        let n = min len (w.size - position offset) in
        (
          pos n,
          put buf.channel_idx
              (write_bytes (w.regions buf.channel_idx) buf.data_offset
                (read_bytes w.bytes (position offset) n))
              w,
        );
    pwrite = λ w fd buf len offset. (
      pos len,
      record w {
        bytes =
            write_bytes w.bytes (position offset)
              (read_bytes (w.regions buf.channel_idx) buf.data_offset len);
        size = max w.size (position offset + len);
      },
    );
    fsync = λ w fd. (pos 0, w);
    errno = λ w. 0;
  };
  region = λ w. w.regions;
  set_region = put;
}

whole_read : (len offset size : ℕ) → offset + len ≤ size → min len (size - offset) ≡ len
whole_read len offset size h = omega arith

one_file-IsDisk : IsDisk one_file
one_file-IsDisk = record {
  file = λ w fd. w.bytes;
  size = λ w fd. w.size;
  whole = λ w fd. true;
  region-set = λ ch m w. rw (==_refl ch) refl;
  others-set = λ ch ch' m w ne. rw (ne→== ch' ch ne) refl;
  files-set = λ ch m w fd. (refl, refl, refl);
  writes = λ w fd buf len offset h inside. (refl, refl, refl, omega arith, refl);
  closes = λ w fd h. refl;
  reads = λ w fd buf len offset h inside within.
      let n = whole_read len offset w.size within in
      (rw n refl, rw (n, ==_refl buf.channel_idx) refl, refl, refl, refl);
  reads-others = λ w fd buf len offset ch ne. rw (ne→== ch buf.channel_idx ne) refl;
}

abbrev empty_disk : Disk
empty_disk = record { regions = λ _ _. 0; bytes = λ _. 0; size = 0 }

abbrev client : AtlasClient (service_peer batched one_file)
client = record {
  next_id = 1;
  offset = 0;
  memory = λ _. 0;
  inbox = [];
  world = quiet batched one_file 7 [] 1 empty_disk;
}

client-Idle : Idle batched batched-HandsOn one_file one_file-IsDisk client
client-Idle = record {
  channel_id = 7;
  fd_table = [];
  next_fd = 1;
  files = empty_disk;
  service = refl;
  inbox = refl;
  offset = omega arith;
}

abbrev a_path : List ℕ
a_path = b'/' ∷ b'a' ∷ []

a_path-IsPath : IsPath a_path
unfolding is_utf8
a_path-IsPath = record {
  short = omega arith;
  solid = (λ e. absurd (omega arith), (λ e. absurd (omega arith), tt));
  text = refl;
}

session_example :
    (fd : ℕ) × (c1 c2 c3 c4 : AtlasClient (service_peer batched one_file)) × («open»
        (service_peer batched one_file)
        client
        a_path
        66
      ≡ some (ok fd, c1))
    × (write (service_peer batched one_file) c1 fd (104 ∷ 105 ∷ []) 4096 ≡ some (ok 2, c2))
    × (read (service_peer batched one_file) c2 fd 2 4096 ≡ some (ok (104 ∷ 105 ∷ []), c3))
    × (close (service_peer batched one_file) c3 fd ≡ some (ok tt, c4))
    × Idle batched batched-HandsOn one_file one_file-IsDisk c4
unfolding one_file-IsDisk
session_example =
    session batched batched-HandsOn one_file one_file-IsDisk client a_path 66 3 (104 ∷ 105 ∷ [])
      4096 client-Idle a_path-IsPath (omega arith)
      (record { gives = refl; small = omega arith; whole = refl }) (omega arith) (omega arith)
