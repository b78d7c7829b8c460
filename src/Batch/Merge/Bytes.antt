-- ===== src/Batch/Merge/Bytes.antt =====
-- Sorting keeps the number of bytes that requests are about.
use atlas_io.Base.{◌+◌, ◌≡◌, refl, List, [], ◌∷◌, arith}
use atlas_io.Batch.{TaggedRequest, insert_by, sort_by}
use atlas_io.Batch.Merge.{total_len}

total_len-insert_by :
    (x : TaggedRequest) (ys : List TaggedRequest)
    → total_len (insert_by x ys) ≡ x.req.len + total_len ys
unfolding insert_by
total_len-insert_by x [] = refl
total_len-insert_by x (y ∷ ys) = ground (arith, total_len-insert_by x ys)

pub total_len-sort_by : (xs : List TaggedRequest) → total_len (sort_by xs) ≡ total_len xs
unfolding sort_by
total_len-sort_by [] = refl
total_len-sort_by (x ∷ xs) = omega (arith, total_len-insert_by x (sort_by xs), total_len-sort_by xs)
