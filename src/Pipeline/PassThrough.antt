-- ===== src/Pipeline/PassThrough.antt =====
-- atlas-service/src/pipeline.rs: `PassThrough`, first in, first out.
use mathlib.Core.List.Perm
use atlas_io.Base.{
  ℕ, ◌≡◌, refl, sym, subst, ap, ◌∙◌, Bool, List, [], ◌∷◌, ◌++◌, map, map-append, append_assoc,
  append-nil, Perm,
}
use atlas_io.Protocol.{IoRequest}
use atlas_io.Batch.{TaggedRequest, MergedOp, is_nil, single, singles}
use atlas_io.Batch.Tags.{tag_of, tags, tags-singles, nil_of_is_nil}
use atlas_io.Pipeline.{Pipeline, Conserves, add_all}

pub record PassThrough : Type 0 where
  pub pending : List TaggedRequest

unfoldable pub new : PassThrough
new = record { pending = [] }

unfoldable pub add : PassThrough → IoRequest → ℕ → PassThrough
add p req channel_idx = record {
  pending = p.pending ++ record { req = req; channel_idx = channel_idx } ∷ [];
}

unfoldable pub is_empty : PassThrough → Bool
is_empty p = is_nil p.pending

-- The loop of `drain` over the queue: `out` at its end.
unfoldable pub drain_loop : List MergedOp → List TaggedRequest → List MergedOp
drain_loop out [] = out
drain_loop out (tr ∷ pending) = drain_loop (out ++ single tr ∷ []) pending

unfoldable pub drain : PassThrough → List MergedOp × PassThrough
drain p = (drain_loop [] p.pending, record { pending = [] })

abbrev pub pass_through : Pipeline
pass_through = record {
  State = PassThrough;
  new = new;
  add = add;
  is_empty = is_empty;
  drain = drain;
}

pub drain_loop_lem :
    (out : List MergedOp) (xs : List TaggedRequest) → drain_loop out xs ≡ out ++ singles xs
unfolding drain_loop
drain_loop_lem out [] = sym (append-nil out)
drain_loop_lem out (x ∷ xs) =
    drain_loop_lem (out ++ single x ∷ []) xs ∙ append_assoc out (single x ∷ []) (singles xs)

pending-add_all :
    (s : PassThrough) (xs : List TaggedRequest)
    → (add_all pass_through s xs).pending ≡ s.pending ++ xs
unfolding add_all add
pending-add_all s [] = sym (append-nil s.pending)
pending-add_all s (x ∷ xs) =
    pending-add_all (add s x.req x.channel_idx) xs ∙ append_assoc s.pending (x ∷ []) xs

-- What is added to a fresh `PassThrough` comes out in the order in which it went in, one operation
-- for each request and none merged, and nothing stays behind.
pub drain-add_all :
    (xs : List TaggedRequest)
    → (drain (add_all pass_through new xs)).0 ≡ singles xs
      × ((drain (add_all pass_through new xs)).1 ≡ new)
unfolding drain new
drain-add_all xs = (drain_loop_lem [] _ ∙ ap singles (pending-add_all new xs), refl)

-- `PassThrough` keeps what the interface asks for.
pub pass_through-Conserves : Conserves pass_through
unfolding new add is_empty drain
pass_through-Conserves = record {
  held = λ s. map tag_of s.pending;
  held-new = refl;
  held-add = λ s x.
      subst (λ q. Perm (map tag_of (s.pending ++ x ∷ [])) q) (map-append tag_of s.pending (x ∷ []))
        Perm.rfl;
  held-drain = λ s.
      let same = append-nil _ ∙ ap tags (drain_loop_lem [] s.pending) ∙ tags-singles s.pending in
      subst (λ q. Perm q (map tag_of s.pending)) (sym same) Perm.rfl;
  held-is_empty = λ s h. ap (map tag_of) (nil_of_is_nil s.pending h);
  is_empty-drain = λ s. refl;
}
