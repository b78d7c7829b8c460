-- ===== src/Service/Tests.antt =====
-- A service with two channels over a small operating system, and each theorem at a concrete input.
use atlas_io.Base.{ℕ, ◌+◌, ◌≡◌, ◌≢◌, refl, pos, neg, as_i32, none, List, [], ◌∷◌, map, arith, Perm}
use atlas_io.Protocol.{IoRequest, op_from_u8, path_str, err_response}
use atlas_io.Protocol.Utf8.{from_utf8, is_utf8}
use atlas_io.Batch.{TaggedRequest, MergedOp, Source}
use atlas_io.Batch.Tags.{tag_of, tags}
use atlas_io.Pipeline.Batched.{batched, batched-Conserves}
use atlas_io.Pipeline.Batched as Batched
use atlas_io.Pipeline.Ready.{batched-Delivers}
use atlas_io.Channel.{ServiceChannel}
use atlas_io.Executor.{BatchKind, new_op, Libc, posix, IoExecutor}
use atlas_io.Executor.Kinds.{posix-KeepsKinds}
use atlas_io.Service.{AtlasService, handle_open, handle_close, execute_round, read_response, ebadf}
use atlas_io.Service.{collect, dispatch}
use atlas_io.Service.Hazard.{execute_round-structural_first}
use atlas_io.Service.Descriptors.{get}
use atlas_io.Service.Sends.{Sends, answered_tags, waiting}
use atlas_io.Service.Answers.{execute_round-Sends}
use atlas_io.Service.Run.{run}
use atlas_io.Service.Run.Exactly.{run-answers}
use atlas_io.Service.Files.{Opened, handle_open-Opened, close_twice}
use atlas_io.Service.Reads.{read_response-bytes}

-- Every `open` gives the next descriptor, every transfer is whole, and nothing fails.
abbrev small_libc : Libc
small_libc = record {
  World = ℕ;
  «open» = λ w path flags mode. (pos w, w + 1);
  close = λ w fd. (pos 0, w);
  pread = λ w fd buf len offset. (pos len, w);
  pwrite = λ w fd buf len offset. (pos len, w);
  fsync = λ w fd. (pos 0, w);
  errno = λ w. 0;
}

abbrev system : IoExecutor
system = posix small_libc

abbrev request : ℕ → ℕ → ℕ → ℕ → IoRequest
request id op fd offset = record {
  id = id;
  op = op;
  priority = 1;
  pad = [];
  fd = fd;
  offset = offset;
  len = 4096;
  data_offset = offset;
  path = [];
}

abbrev channel : ℕ → ServiceChannel
channel i = record { instance_id = i; requests = []; sent = [] }

abbrev service : AtlasService batched system
service = record {
  channels = channel 0 ∷ channel 1 ∷ [];
  fd_table = (1, pos 3) ∷ [];
  next_fd = 2;
  pipeline = Batched.new;
  executor = 4;
}

abbrev on : ℕ → IoRequest → TaggedRequest
on ch req = record { req = req; channel_idx = ch }

-- Two neighbouring reads and a sync of another client, then a read of an unknown descriptor and an
-- operation that there is not.
abbrev arrivals : List (List TaggedRequest)
arrivals =
    (on 0 (request 1 1 1 0) ∷ on 1 (request 2 3 1 0) ∷ on 0 (request 3 1 1 4096) ∷ [])
    ∷ (on 1 (request 4 1 7 0) ∷ on 1 (request 5 9 0 0) ∷ [])
    ∷ []

run-answers_example :
    Perm (answered_tags (run batched system service arrivals).channels) (
      map tag_of (
        on 0 (request 1 1 1 0)
        ∷ on 1 (request 2 3 1 0)
        ∷ on 0 (request 3 1 1 4096)
        ∷ on 1 (request 4 1 7 0)
        ∷ on 1 (request 5 9 0 0)
        ∷ []))
    × (waiting (run batched system service arrivals).channels ≡ [])
run-answers_example =
    run-answers batched system batched-Conserves batched-Delivers (posix-KeepsKinds small_libc)
      service arrivals
      (record { empty = batched-Conserves.held-new; valid = batched-Delivers.Valid-new 2 }) refl
      ((omega arith, (omega arith, (omega arith, tt))), ((omega arith, (omega arith, tt)), tt))

abbrev sync_op : MergedOp
sync_op = record {
  req = request 6 3 1 0;
  channel_idx = 1;
  sources = record { request_id = 6; offset_within = 0; original_len = 4096 } ∷ [];
}

abbrev read_op : MergedOp
read_op = record {
  req = record (request 7 1 1 0) { len = 8192 };
  channel_idx = 0;
  sources =
      record { request_id = 7; offset_within = 0; original_len = 4096 }
      ∷ record { request_id = 8; offset_within = 4096; original_len = 4096 }
      ∷ [];
}

execute_round-Sends_example :
    Sends service.channels
      (execute_round batched system service (sync_op ∷ read_op ∷ [])).channels
      (tags (sync_op ∷ read_op ∷ []))
unfolding op_from_u8
execute_round-Sends_example =
    execute_round-Sends batched system service (sync_op ∷ read_op ∷ [])
      (posix-KeepsKinds small_libc) ((omega arith, (_, refl, refl)), ((omega arith, tt), tt))

handle_open-Opened_example :
    Opened batched system service
      (as_i32 (pos 4))
      (handle_open batched system service (request 9 0 0 0)).0
      (handle_open batched system service (request 9 0 0 0)).1
unfolding path_str from_utf8 is_utf8
handle_open-Opened_example =
    handle_open-Opened batched system service (request 9 0 0 0) 4 refl (λ v le. ground arith)
      (omega arith)

close_twice_example :
    (get 1 (handle_close batched system service (request 9 4 1 0)).1.fd_table ≡ none)
    × ((v : ℕ)
        → v ≢ 1
        → get v (handle_close batched system service (request 9 4 1 0)).1.fd_table
          ≡ get v service.fd_table)
    × (handle_close batched system
          (handle_close batched system service (request 9 4 1 0)).1
          (request 10 4 1 0)
        ≡ (
          err_response 10 (neg (pos ebadf)),
          (handle_close batched system service (request 9 4 1 0)).1,
        ))
close_twice_example = close_twice batched system service (request 9 4 1 0) (request 10 4 1 0) refl

-- The file ends after 5000 bytes: the second request gets 904.
abbrev second : Source
second = record { request_id = 8; offset_within = 4096; original_len = 4096 }

read_response-bytes_example :
    ((read_response read_op second 5000).data_offset ≡ 4096)
    × ((read_response read_op second 5000).data_len ≡ 904)
read_response-bytes_example =
    read_response-bytes read_op second 5000 (omega arith) (omega arith) (omega arith)

abbrev close_op : MergedOp
close_op = record {
  req = request 11 4 1 0;
  channel_idx = 1;
  sources = record { request_id = 11; offset_within = 0; original_len = 4096 } ∷ [];
}

-- The close is another client's, and comes behind the read.
execute_round-structural_first_example :
    (execute_round batched system service (read_op ∷ close_op ∷ [])).executor
    ≡ (system.execute_batch (execute_round batched system service (close_op ∷ [])).executor (
        new_op (BatchKind.pread (pos 3) (record { channel_idx = 0; data_offset = 0 }) 8192 0)
        ∷ [])).1
unfolding op_from_u8 collect dispatch
execute_round-structural_first_example =
    execute_round-structural_first batched system service [] read_op (close_op ∷ []) (pos 3) refl
      refl
