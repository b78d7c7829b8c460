-- ===== src/Batch/Merge/Apart.antt =====
-- Merging is complete: no two of the operations that `merge_adjacent` makes could still be joined.
use atlas_io.Base.{◌+◌, ◌<◌, ◌≡◌, ◌≢◌, ◌⊎◌, List, [], ◌∷◌}
use atlas_io.Batch.{MergedOp, Group}

-- `b` does not touch or overlap the range that ends where `a` does.
abbrev pub Apart : MergedOp → MergedOp → Type 0
Apart a b =
    (a.channel_idx ≢ b.channel_idx)
    ⊎ ((a.req.fd ≢ b.req.fd) ⊎ (a.req.offset + a.req.len < b.req.offset))

abbrev pub AllApart : List MergedOp → Type 0
AllApart [] = Unit
AllApart (a ∷ []) = Unit
AllApart (a ∷ b ∷ ops) = Apart a b × AllApart (b ∷ ops)

-- The loop pushes first the group that it has open.
record Heads (g : Group) (ops : List MergedOp) : Type 0 where
  op : MergedOp
  rest : List MergedOp
  split : ops ≡ op ∷ rest
  channel : op.channel_idx ≡ g.first.channel_idx
  descriptor : op.req.fd ≡ g.first.req.fd
  offset : op.req.offset ≡ g.first.req.offset
