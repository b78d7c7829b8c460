-- ===== src/Batch/Merge/Groups.antt =====
-- The inner loop of `merge_adjacent`: what a group knows of the requests that it has taken.
use atlas_io.Base.{
  ℕ, ◌+◌, ◌-◌, ◌≤◌, ◌<◌, ◌^◌, ◌≡◌, sym, ap₂, ◌∙◌, true, List, [], ◌∷◌, ◌++◌, map, map-append, arith,
  All, All-append, as_u32, wrapping_sub, max,
}
use atlas_io.Batch.{TaggedRequest, Source, Group, open_group, joins, join}
use atlas_io.Batch.Merge.{NoWrap, total_len}

-- A request that lies in the range of a group.
abbrev pub Inside : TaggedRequest → ℕ → TaggedRequest → Type 0
Inside first end x =
    (x.channel_idx ≡ first.channel_idx)
    × (x.req.fd ≡ first.req.fd)
    × (x.req.op ≡ first.req.op)
    × (first.req.offset ≤ x.req.offset)
    × (x.req.offset + x.req.len ≤ end)

abbrev pub source_in : TaggedRequest → TaggedRequest → Source
source_in first x = record {
  request_id = x.req.id;
  offset_within = x.req.offset - first.req.offset;
  original_len = x.req.len;
}

pub record Took (g : Group) (taken : List TaggedRequest) : Type 0 where
  pub inside : All (Inside g.first g.end) taken
  pub named : g.sources ≡ map (source_in g.first) taken
  pub start : g.first.req.offset ≤ g.end
  pub span : g.end ≤ g.first.req.offset + total_len taken
  pub end_fits : g.end < 2 ^ 64

pub total_len-append :
    (xs ys : List TaggedRequest) → total_len (xs ++ ys) ≡ total_len xs + total_len ys
total_len-append [] ys = omega arith
total_len-append (x ∷ xs) ys = omega (arith, total_len-append xs ys)

pub Took-open_group : (x : TaggedRequest) → NoWrap x → Took (open_group x) (x ∷ [])
unfolding open_group
Took-open_group x fits = record {
  inside = ground arith;
  named = ground arith;
  start = omega arith;
  span = omega arith;
  end_fits = omega arith;
}

Inside-longer :
    (first : TaggedRequest) (end end' : ℕ) (xs : List TaggedRequest)
    → end ≤ end'
    → All (Inside first end) xs
    → All (Inside first end') xs
Inside-longer first end end' [] le all = tt
Inside-longer first end end' (x ∷ xs) le all =
    let (a, b, c, d, e) = all.0 in
    ((a, b, c, d, omega arith), Inside-longer first end end' xs le all.1)

-- `if next_end > end { end = next_end; }`
later_end :
    (g : Group) (x : TaggedRequest)
    → NoWrap x
    → (join g x).end ≡ max g.end (x.req.offset + x.req.len)
unfolding join
later_end g x fits = ground arith

-- Taking one more request that the test admits keeps all of this.
pub Took-join :
    (g : Group) (taken : List TaggedRequest) (x : TaggedRequest)
    → NoWrap x
    → x.req.op ≡ g.first.req.op
    → g.first.req.offset ≤ x.req.offset
    → total_len taken < 2 ^ 32
    → joins g x ≡ true
    → Took g taken
    → Took (join g x) (taken ++ x ∷ [])
unfolding join
Took-join g taken x fits op from few test t =
    let e = later_end g x fits in
    let total = total_len-append taken (x ∷ []) in
    let le : x.req.offset ≤ g.end = ground arith in
    let same : (x.channel_idx ≡ g.first.channel_idx) × (x.req.fd ≡ g.first.req.fd) = ground arith in
    let within : as_u32 (wrapping_sub x.req.offset g.first.req.offset)
        ≡ x.req.offset - g.first.req.offset =
      omega (arith, t.span, t.end_fits) in
    record {
      inside =
          All-append (Inside g.first _) taken (x ∷ [])
            (Inside-longer g.first g.end _ taken (omega (arith, e)) t.inside)
            ((same.0, same.1, op, from, omega (arith, e)), tt);
      named =
          ap₂
            (λ ss o.
              ss
              ++ record { request_id = x.req.id; offset_within = o; original_len = x.req.len } ∷ [])
            t.named within
          ∙ sym (map-append (source_in g.first) taken (x ∷ []));
      start = omega (arith, e, t.start);
      span = omega (arith, e, total, t.span, t.start, le);
      end_fits = omega (arith, e, t.end_fits);
    }
