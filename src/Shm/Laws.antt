-- ===== src/Shm/Laws.antt =====
-- What the two sides rely on: the documented behaviour of the shared-memory calls, as long as the
-- kernel has the resources and the segments belong to the user.
use atlas_io.Base.{ℕ, ◌%◌, ◌≤◌, ◌≡◌, ◌≢◌, Bool, true, false, Option, none, some, List}
use atlas_io.Protocol.Names.{Segment, requests, responses, contents}
use atlas_io.Shm.{Content, Posix, done, failed}

-- What can be seen of a world: the object that a name refers to, the size of an object, and its
-- memory. An object stays when its name goes, as long as it is mapped.
pub record Segments : Type 0 where
  pub linked : List ℕ → Option ℕ
  pub size : ℕ → ℕ
  pub content : (s : Segment) → ℕ → Content s

abbrev pub enoent : ℕ
enoent = 2

-- Memory that nothing has been written to.
abbrev pub Zeroed : (s : Segment) → Content s → Type 0
Zeroed requests r = r.magic ≡ 0
Zeroed responses r = r.magic ≡ 0
Zeroed contents m = (i : ℕ) → m i ≡ 0

-- The names but this one refer to the objects that they did, and nothing happens to those.
pub record KeepsOthers (name : List ℕ) (st st' : Segments) : Type 0 where
  pub linked : (n : List ℕ) → n ≢ name → st'.linked n ≡ st.linked n
  pub content :
      (n : List ℕ) (p : ℕ)
      → n ≢ name
      → st.linked n ≡ some p
      → (s : Segment) → st'.content s p ≡ st.content s p

-- The name refers to an object that no other name refers to, and the others are as they were.
pub record Made (name : List ℕ) (o : ℕ) (st st' : Segments) : Type 0 where
  pub linked : st'.linked name ≡ some o
  pub alone : (n : List ℕ) → n ≢ name → st'.linked n ≢ some o
  pub keeps : KeepsOthers name st st'

-- Nothing to be seen has changed, but for sizes.
pub record Same (st st' : Segments) : Type 0 where
  pub linked : (n : List ℕ) → st'.linked n ≡ st.linked n
  pub content : (s : Segment) (p : ℕ) → st'.content s p ≡ st.content s p

-- What the descriptors and the mappings refer to.
pub record View (os : Posix) : Type 0 where
  pub look : os.World → Segments
  pub object_of : os.Fd → ℕ
  pub mapped : os.Mapping → ℕ

pub record IsPosix (os : Posix) (v : View os) : Type 0 where
  -- shm_unlink(3): the name goes, the objects stay.
  pub unlinks :
      (name : List ℕ) (w : os.World)
      → ((v.look (os.shm_unlink name w)).linked name ≡ none)
        × KeepsOthers name (v.look w) (v.look (os.shm_unlink name w))
  -- shm_open(3): the object that the name refers to; `O_CREAT` makes no difference then.
  pub opens :
      (create : Bool) (name : List ℕ) (w : os.World) (o : ℕ)
      → (v.look w).linked name ≡ some o
      → (fd : os.Fd) × (w' : os.World) × (os.shm_open create name w ≡ (done fd, w'))
        × (v.object_of fd ≡ o)
        × Same (v.look w) (v.look w')
  -- Without `O_CREAT` it fails when there is no such name.
  pub misses :
      (name : List ℕ) (w : os.World)
      → (v.look w).linked name ≡ none
      → (w' : os.World) × (os.shm_open false name w ≡ (failed enoent, w'))
        × Same (v.look w) (v.look w')
  -- With it a new object is made, of size zero.
  pub creates :
      (name : List ℕ) (w : os.World)
      → (v.look w).linked name ≡ none
      → (fd : os.Fd) × (w' : os.World) × (os.shm_open true name w ≡ (done fd, w'))
        × Made name (v.object_of fd) (v.look w) (v.look w')
        × ((v.look w').size (v.object_of fd) ≡ 0)
        × ((s : Segment) → Zeroed s ((v.look w').content s (v.object_of fd)))
  -- ftruncate(2): what an object gains reads as zeros, as what lies past its end is said to here.
  pub truncates :
      (fd : os.Fd) (size : ℕ) (w : os.World)
      → (v.look w).size (v.object_of fd) ≤ size
      → (w' : os.World) × (os.ftruncate fd size w ≡ (done tt, w')) × Same (v.look w) (v.look w')
  -- mmap(2) with `MAP_SHARED`, at the start of a page.
  pub maps :
      (fd : os.Fd) (size : ℕ) (w : os.World)
      → (m : os.Mapping) × (w' : os.World) × (os.mmap fd size w ≡ (done m, w'))
        × (v.mapped m ≡ v.object_of fd)
        × (os.address m % 4096 ≡ 0)
        × Same (v.look w) (v.look w')
  -- All the mappings of an object show its memory.
  pub loads :
      (s : Segment) (m : os.Mapping) (w : os.World)
      → os.load s m w ≡ (v.look w).content s (v.mapped m)
  pub stores :
      (s : Segment) (m : os.Mapping) (c : Content s) (w : os.World)
      → ((n : List ℕ) → (v.look (os.store s m c w)).linked n ≡ (v.look w).linked n)
        × ((v.look (os.store s m c w)).content s (v.mapped m) ≡ c)
        × ((t : Segment) (p : ℕ)
            → p ≢ v.mapped m
            → (v.look (os.store s m c w)).content t p ≡ (v.look w).content t p)
