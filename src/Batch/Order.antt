-- ===== src/Batch/Order.antt =====
-- Sorting the pending requests: into three vectors by kind, and each of two by channel, descriptor
-- and offset.
use mathlib.Core.List.Perm
use atlas_io.Base.{
  ℕ, ◌≤◌, ◌<◌, ◌≡◌, refl, ◌⊎◌, inl, inr, true, false, Option, some, List, [], ◌∷◌, ◌++◌, arith, All,
  Perm, perm_middle, Bool-cases, map, map-append, sym, ap, subst, ◌∙◌,
}
use atlas_io.Protocol.{IoOp, op_from_u8}
use atlas_io.Protocol.Codes.{op_from_u8_iff}
use atlas_io.Batch.{TaggedRequest, Separated, place, separate, not_after, insert_by, sort_by}

-- The order of the sort.
abbrev pub Before : TaggedRequest → TaggedRequest → Type 0
Before a b =
    (a.channel_idx < b.channel_idx)
    ⊎ ((a.channel_idx ≡ b.channel_idx)
        × ((a.req.fd < b.req.fd) ⊎ ((a.req.fd ≡ b.req.fd) × (a.req.offset ≤ b.req.offset))))

not_after→Before : (a b : TaggedRequest) → not_after a b ≡ true → Before a b
not_after→Before a b h = ground arith

not_after_false→Before : (a b : TaggedRequest) → not_after a b ≡ false → Before b a
not_after_false→Before a b h = ground arith

Before-trans : (a b c : TaggedRequest) → Before a b → Before b c → Before a c
Before-trans a b c h k = omega arith

abbrev pub IsSorted : List TaggedRequest → Type 0
IsSorted [] = Unit
IsSorted (x ∷ xs) = All (Before x) xs × IsSorted xs

-- A property of every element survives an insertion, and so the sort.
pub All-insert_by :
    (P : TaggedRequest → Type 0) (x : TaggedRequest) (ys : List TaggedRequest)
    → P x
    → All P ys
    → All P (insert_by x ys)
unfolding insert_by
All-insert_by P x [] px all = (px, tt)
All-insert_by P x (y ∷ ys) px all = elim (Bool-cases (not_after x y)) [
  | inl first ↦ rw first (px, all)
  | inr later ↦ rw later (all.0, All-insert_by P x ys px all.1)
]

pub All-sort_by :
    (P : TaggedRequest → Type 0) (xs : List TaggedRequest) → All P xs → All P (sort_by xs)
unfolding sort_by
All-sort_by P [] all = tt
All-sort_by P (x ∷ xs) all = All-insert_by P x (sort_by xs) all.0 (All-sort_by P xs all.1)

All-Before :
    (x y : TaggedRequest) (ys : List TaggedRequest)
    → Before x y
    → All (Before y) ys
    → All (Before x) ys
All-Before x y [] h all = tt
All-Before x y (z ∷ zs) h all = (Before-trans x y z h all.0, All-Before x y zs h all.1)

insert_by-IsSorted :
    (x : TaggedRequest) (ys : List TaggedRequest) → IsSorted ys → IsSorted (insert_by x ys)
unfolding insert_by
insert_by-IsSorted x [] s = (tt, tt)
insert_by-IsSorted x (y ∷ ys) s = elim (Bool-cases (not_after x y)) [
  | inl first ↦ let h = not_after→Before x y first in rw first ((h, All-Before x y ys h s.0), s)
  | inr later ↦ rw later (
    All-insert_by (Before y) x ys (not_after_false→Before x y later) s.0,
    insert_by-IsSorted x ys s.1,
  )
]

-- The sort puts the requests in order.
pub sort_by-IsSorted : (xs : List TaggedRequest) → IsSorted (sort_by xs)
unfolding sort_by
sort_by-IsSorted [] = tt
sort_by-IsSorted (x ∷ xs) = insert_by-IsSorted x (sort_by xs) (sort_by-IsSorted xs)

insert_by-perm : (x : TaggedRequest) (ys : List TaggedRequest) → Perm (insert_by x ys) (x ∷ ys)
unfolding insert_by
insert_by-perm x [] = Perm.rfl
insert_by-perm x (y ∷ ys) = elim (Bool-cases (not_after x y)) [
  | inl first ↦ rw first Perm.rfl
  | inr later ↦ rw later (Perm.trans (Perm.cons y (insert_by-perm x ys)) (Perm.swap x y ys))
]

-- The sort loses no request and makes none up.
pub sort_by-perm : (xs : List TaggedRequest) → Perm (sort_by xs) xs
unfolding sort_by
sort_by-perm [] = Perm.rfl
sort_by-perm (x ∷ xs) = Perm.trans (insert_by-perm x (sort_by xs)) (Perm.cons x (sort_by-perm xs))

abbrev pub all_of : Separated → List TaggedRequest
all_of s = s.others ++ (s.reads ++ s.writes)

place-perm :
    (o : Option IoOp) (tr : TaggedRequest) (s : Separated)
    → Perm (all_of (place o tr s)) (tr ∷ all_of s)
place-perm (some IoOp.read) tr s = perm_middle {a = tr} s.others (s.reads ++ s.writes)
place-perm (some IoOp.write) tr s =
    Perm.trans (Perm.append_left s.others (perm_middle {a = tr} s.reads s.writes))
      (perm_middle {a = tr} s.others (s.reads ++ s.writes))
place-perm _ tr s = Perm.rfl

-- The three vectors hold the pending requests, each once.
pub separate-perm : (trs : List TaggedRequest) → Perm (all_of (separate trs)) trs
unfolding separate
separate-perm [] = Perm.rfl
separate-perm (tr ∷ trs) =
    Perm.trans (place-perm (op_from_u8 tr.req.op) tr (separate trs))
      (Perm.cons tr (separate-perm trs))

-- What holds of every pending request holds in each vector.
pub record Everywhere (P : TaggedRequest → Type 0) (s : Separated) : Type 0 where
  pub in_reads : All P s.reads
  pub in_writes : All P s.writes
  pub in_others : All P s.others

place-Everywhere :
    (P : TaggedRequest → Type 0) (o : Option IoOp) (tr : TaggedRequest) (s : Separated)
    → P tr
    → Everywhere P s
    → Everywhere P (place o tr s)
place-Everywhere P (some IoOp.read) tr s p e = record {
  in_reads = (p, e.in_reads);
  in_writes = e.in_writes;
  in_others = e.in_others;
}
place-Everywhere P (some IoOp.write) tr s p e = record {
  in_reads = e.in_reads;
  in_writes = (p, e.in_writes);
  in_others = e.in_others;
}
place-Everywhere P _ tr s p e = record {
  in_reads = e.in_reads;
  in_writes = e.in_writes;
  in_others = (p, e.in_others);
}

pub separate-Everywhere :
    (P : TaggedRequest → Type 0) (trs : List TaggedRequest)
    → All P trs
    → Everywhere P (separate trs)
unfolding separate
separate-Everywhere P [] all = record { in_reads = tt; in_writes = tt; in_others = tt }
separate-Everywhere P (tr ∷ trs) all =
    place-Everywhere P (op_from_u8 tr.req.op) tr (separate trs) all.0
      (separate-Everywhere P trs all.1)

-- The vector of reads holds reads, that of writes holds writes.
abbrev pub HasCode : ℕ → TaggedRequest → Type 0
HasCode code tr = tr.req.op ≡ code

abbrev Kinds : Separated → Type 0
Kinds s = All (HasCode 1) s.reads × All (HasCode 2) s.writes

place-Kinds :
    (o : Option IoOp) (tr : TaggedRequest) (s : Separated)
    → op_from_u8 tr.req.op ≡ o
    → Kinds s
    → Kinds (place o tr s)
place-Kinds (some IoOp.read) tr s e k = (((op_from_u8_iff tr.req.op IoOp.read).0 e, k.0), k.1)
place-Kinds (some IoOp.write) tr s e k = (k.0, ((op_from_u8_iff tr.req.op IoOp.write).0 e, k.1))
place-Kinds _ tr s e k = k

pub separate-Kinds : (trs : List TaggedRequest) → Kinds (separate trs)
unfolding separate
separate-Kinds [] = (tt, tt)
separate-Kinds (tr ∷ trs) =
    place-Kinds (op_from_u8 tr.req.op) tr (separate trs) refl (separate-Kinds trs)

-- A view of the operations that goes through lists may be taken of each of the three parts.
module _ {A B : Type 0} (f : List A → List B) (h : TaggedRequest → B)
    (f-append : (xs ys : List A) → f (xs ++ ys) ≡ f xs ++ f ys) where
  pub perm_of_parts :
      (trs : List TaggedRequest) (a b c : List A)
      → Perm (f a) (map h (separate trs).others)
      → Perm (f b) (map h (separate trs).reads)
      → Perm (f c) (map h (separate trs).writes)
      → Perm (f (a ++ (b ++ c))) (map h trs)
  perm_of_parts trs a b c p q r =
      let s = separate trs in
      let split = f-append a (b ++ c) ∙ ap (λ t. f a ++ t) (f-append b c) in
      let join =
        map-append h s.others (s.reads ++ s.writes)
        ∙ ap (λ t. map h s.others ++ t) (map-append h s.reads s.writes) in
      Perm.trans
        (subst (λ t. Perm t (map h (all_of s))) (sym split)
          (subst (Perm (f a ++ (f b ++ f c))) (sym join) (Perm.append p (Perm.append q r))))
        (Perm.map h (separate-perm trs))
