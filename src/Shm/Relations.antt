-- ===== src/Shm/Relations.antt =====
-- What a step leaves as it was, over several steps.
use atlas_io.Base.{ℕ, sym, ◌∙◌, subst, List}
use atlas_io.Protocol.Names.{Segment}
use atlas_io.Shm.Laws.{Segments, Zeroed, KeepsOthers, Made, Same}

pub Same-trans : {r s t : Segments} → Same r s → Same s t → Same r t
Same-trans a b = record {
  linked = λ n. b.linked n ∙ a.linked n;
  content = λ s p. b.content s p ∙ a.content s p;
}

pub KeepsOthers-trans :
    {name : List ℕ} {r s t : Segments}
    → KeepsOthers name r s
    → KeepsOthers name s t
    → KeepsOthers name r t
KeepsOthers-trans a b = record {
  linked = λ n other. b.linked n other ∙ a.linked n other;
  content =
      λ n p other at s. b.content n p other (a.linked n other ∙ at) s ∙ a.content n p other at s;
}

pub Same-KeepsOthers : {name : List ℕ} {s t : Segments} → Same s t → KeepsOthers name s t
Same-KeepsOthers a = record {
  linked = λ n other. a.linked n;
  content = λ n p other at s. a.content s p;
}

pub Zeroed-Same :
    {r t : Segments} {o : ℕ}
    → Same r t
    → ((s : Segment) → Zeroed s (r.content s o))
    → (s : Segment) → Zeroed s (t.content s o)
Zeroed-Same {o = o} a z s = subst (Zeroed s) (sym (a.content s o)) (z s)

pub KeepsOthers-Made :
    {name : List ℕ} {o : ℕ} {r s t : Segments}
    → KeepsOthers name r s
    → Made name o s t
    → Made name o r t
KeepsOthers-Made a b = record {
  linked = b.linked;
  alone = b.alone;
  keeps = KeepsOthers-trans a b.keeps;
}

pub Made-Same :
    {name : List ℕ} {o : ℕ} {r s t : Segments} → Made name o r s → Same s t → Made name o r t
Made-Same {name = name} a b = record {
  linked = b.linked name ∙ a.linked;
  alone = λ n other h. a.alone n other (sym (b.linked n) ∙ h);
  keeps = KeepsOthers-trans a.keeps (Same-KeepsOthers b);
}
