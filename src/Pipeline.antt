-- ===== src/Pipeline.antt =====
-- atlas-service/src/pipeline.rs: the `Pipeline` trait, and what the service relies on.
pub mod PassThrough
pub mod Batched
pub mod Ready
pub mod HandsOn
pub mod Same
mod Tests
use mathlib.Core.List.Perm
use atlas_io.Base.{
  ℕ, ◌≡◌, sym, subst, ◌∙◌, ap, Bool, true, List, [], ◌∷◌, ◌++◌, map, append_assoc, append-nil, Perm,
}
use atlas_io.Protocol.{IoRequest}
use atlas_io.Batch.{TaggedRequest, MergedOp}
use atlas_io.Batch.Tags.{Tag, tag_of, tags}

-- The trait, with the constructor that each implementation has.
pub record Pipeline : Type 1 where
  pub State : Type 0
  pub new : State
  pub add : State → IoRequest → ℕ → State
  pub is_empty : State → Bool
  pub drain : State → List MergedOp × State

-- A pipeline that loses and invents no request: `held` are the requests inside, by channel and
-- identifier.
pub record Conserves (p : Pipeline) : Type 0 where
  pub held : p.State → List Tag
  pub held-new : held p.new ≡ []
  pub held-add :
      (s : p.State) (x : TaggedRequest)
      → Perm (held (p.add s x.req x.channel_idx)) (held s ++ tag_of x ∷ [])
  pub held-drain : (s : p.State) → Perm (tags (p.drain s).0 ++ held (p.drain s).1) (held s)
  pub held-is_empty : (s : p.State) → p.is_empty s ≡ true → held s ≡ []
  pub is_empty-drain : (s : p.State) → p.is_empty (p.drain s).1 ≡ true

-- Requests of several channels, added one after the other.
unfoldable pub add_all : (p : Pipeline) → p.State → List TaggedRequest → p.State
add_all p s [] = s
add_all p s (x ∷ xs) = add_all p (p.add s x.req x.channel_idx) xs

module _ (p : Pipeline) (c : Conserves p) where
  pub held-add_all :
      (s : p.State) (xs : List TaggedRequest)
      → Perm (c.held (add_all p s xs)) (c.held s ++ map tag_of xs)
  unfolding add_all
  held-add_all s [] = subst (λ q. Perm (c.held s) q) (sym (append-nil (c.held s))) Perm.rfl
  held-add_all s (x ∷ xs) = Perm.trans (held-add_all (p.add s x.req x.channel_idx) xs) (
      subst (λ q. Perm (c.held (p.add s x.req x.channel_idx) ++ map tag_of xs) q)
        (append_assoc (c.held s) (tag_of x ∷ []) (map tag_of xs))
        (Perm.append_right (map tag_of xs) (c.held-add s x)))

  -- One drain hands out all that is inside.
  pub tags-drain : (s : p.State) → Perm (tags (p.drain s).0) (c.held s)
  tags-drain s =
      let out = tags (p.drain s).0 in
      let none_left = c.held-is_empty (p.drain s).1 (c.is_empty-drain s) in
      subst (λ q. Perm q (c.held s)) (ap (λ h. out ++ h) none_left ∙ append-nil out)
        (c.held-drain s)
