-- ===== src/System/Tests/Merges.antt =====
-- Runs of rounds with merged requests, on a system with one file.
use mathlib.Core.List.{Mem, mem-cons_self, mem-cons_of_mem}
use atlas_io.Base.{ℕ, ◌+◌, ◌≡◌, refl, pos, [], ◌∷◌, arith}
use atlas_io.Protocol.{IoOp, IoPriority, new_request, op_from_u8}
use atlas_io.Batch.{
  TaggedRequest, MergedOp, Source, singles, BatchEngine, separate, insert_by, sort_by, merge_from,
  merge_sorted, merge_adjacent, drain_merged, open_group, join, close_group,
}
use atlas_io.Service.{bytes_of, read_response, execute_round}
use atlas_io.Executor.{posix, posix_backend}
use atlas_io.Pipeline.Batched.{batched}
use atlas_io.System.Turns.{quiet}
use atlas_io.System.Merged.{Got, merged_read}
use atlas_io.System.MergedWrite.{execute_round-merged_write}
use atlas_io.System.Tests.{Disk, one_file, one_file-IsDisk}

-- Two reads that meet in the file and whose slots meet in the region, the later one first.
abbrev half : ℕ → ℕ → ℕ → TaggedRequest
half id offset data_offset = record {
  req = record (new_request id IoOp.read IoPriority.high) {
    fd = 10;
    offset = offset;
    len = 2;
    data_offset = data_offset;
  };
  channel_idx = 0;
}

abbrev halves : BatchEngine
halves = record { pending = half 2 2 2 ∷ half 1 0 0 ∷ [] }

abbrev second_half : Source
second_half = record { request_id = 2; offset_within = 2; original_len = 2 }

abbrev both_halves : MergedOp
both_halves = record {
  req = record (half 1 0 0).req { len = 4 };
  channel_idx = 0;
  sources = record { request_id = 1; offset_within = 0; original_len = 2 } ∷ second_half ∷ [];
}

both_halves-drained : Mem both_halves (drain_merged halves).0
unfolding drain_merged merge_adjacent merge_sorted merge_from separate sort_by insert_by open_group
    join close_group op_from_u8 new_request
both_halves-drained = mem-cons_self

abbrev full_disk : Disk
full_disk = record { regions = λ _ _. 0; bytes = λ i. i + 65; size = 4 }

merged_read_example :
    let (n, after) =
      (posix_backend one_file.libc).pread full_disk
        (pos 3)
        (record { channel_idx = 0; data_offset = 0 })
        4
        0 in
    ∥ (
      (tr : TaggedRequest) × Mem tr halves.pending
      × Got
          (λ i. i + 65)
          (after.regions 0)
          both_halves
          (read_response both_halves second_half (bytes_of n))
          tr) ∥₁
unfolding one_file-IsDisk
merged_read_example =
    merged_read one_file one_file-IsDisk halves both_halves second_half full_disk (pos 3)
      (omega arith, (omega arith, tt)) (omega arith) both_halves-drained
      (mem-cons_of_mem _ mem-cons_self) (omega arith) (omega arith) refl (omega arith)

-- A write whose bytes are right behind the slot of the first read; the second has its slot at 64.
abbrev behind_first : TaggedRequest
behind_first = record {
  req = record (new_request 3 IoOp.write IoPriority.high) {
    fd = 10;
    offset = 100;
    len = 2;
    data_offset = 2;
  };
  channel_idx = 0;
}

-- Two writes that go on in the file and in the region, on a disk whose region has bytes.
abbrev half_write : ℕ → ℕ → ℕ → TaggedRequest
half_write id offset data_offset = record {
  req = record (half id offset data_offset).req { op = 2 };
  channel_idx = 0;
}

abbrev inked_disk : Disk
inked_disk = record { regions = λ _ i. i + 97; bytes = λ _. 0; size = 0 }

execute_round-merged_write_example :
    let s = quiet batched one_file 7 ((10, pos 3) ∷ []) 11 inked_disk in
    let x = half_write 1 100 0 in
    let y = half_write 2 102 2 in
    let merged = (drain_merged (record { pending = x ∷ y ∷ [] })).0 in
    (execute_round batched (posix one_file.libc) s merged).executor.bytes
    ≡ (execute_round batched (posix one_file.libc) s (singles (x ∷ y ∷ []))).executor.bytes
unfolding one_file-IsDisk new_request op_from_u8
execute_round-merged_write_example =
    execute_round-merged_write batched one_file one_file-IsDisk
      (quiet batched one_file 7 ((10, pos 3) ∷ []) 11 inked_disk) (half_write 1 100 0)
      (half_write 2 102 2) (pos 3)
      (record {
        channel = refl;
        descriptor = refl;
        offset = refl;
        fits = omega arith;
        small = omega arith;
      })
      (omega arith) refl refl refl (omega arith) refl refl (omega arith)
