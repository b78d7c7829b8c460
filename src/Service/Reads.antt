-- ===== src/Service/Reads.antt =====
-- What `send_read_responses` tells the client of each request that a read stood for.
use atlas_io.Base.{ℕ, ◌+◌, ◌-◌, ◌≤◌, ◌<◌, ◌^◌, ◌≡◌, min, arith}
use atlas_io.Protocol.{ok_response}
use atlas_io.Batch.{MergedOp, Source}
use atlas_io.Service.{read_len, read_response}

-- Let a read of less than 2 ^ 32 bytes that stays inside the data region give `n` bytes, at most
-- the `len` that it asked for. Then the response to a source whose bytes the read covers points at
-- the source's own bytes in the buffer of the read and counts exactly those of them that are among
-- the first `n`: none when the file ended before, and all when it did not end.
pub read_response-bytes :
    (op : MergedOp) (src : Source) (n : ℕ)
    → n ≤ op.req.len
    → op.req.data_offset + op.req.len < 2 ^ 32
    → src.offset_within + src.original_len ≤ op.req.len
    → ((read_response op src n).data_offset ≡ op.req.data_offset + src.offset_within)
      × ((read_response op src n).data_len ≡ min src.original_len (n - src.offset_within))
unfolding read_response read_len ok_response
read_response-bytes op src n h fits covered = (omega arith, ground arith)
