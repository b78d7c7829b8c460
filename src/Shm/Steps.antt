-- ===== src/Shm/Steps.antt =====
-- What the functions of the two sides do to one segment, from the laws of the system calls.
use atlas_io.Base.{ℕ, ◌%◌, ◌≡◌, refl, sym, ap, ◌∙◌, true, false, none, some, List, arith}
use atlas_io.Base.Bits.{is_power_of_two}
use atlas_io.Protocol.{IoRequest, IoResponse, ring_capacity}
use atlas_io.Protocol.Names.{Segment, requests, responses}
use atlas_io.Spsc.{SpscRing}
use atlas_io.Spsc.Setup.{magic_word, returned, Attached}
use atlas_io.Spsc.Setup.Handshake.{fresh, init_in_place_fresh, attach_ready}
use atlas_io.Shm.{
  Content, Posix, done, ok, init_requests, init_responses, attach_requests, attach_responses,
}
use atlas_io.Shm.Relations.{Same-trans, Zeroed-Same, Made-Same}
use atlas_io.Shm.Laws.{Segments, Zeroed, Made, Same, View, IsPosix}

-- A ring as `init_in_place` leaves it in zeroed memory.
pub record IsFresh {A : Type 0} (r : SpscRing A) : Type 0 where
  pub magic : r.magic ≡ magic_word
  pub capacity : r.capacity ≡ ring_capacity
  pub tail : r.tail ≡ 0
  pub head : r.head ≡ 0

module _ (os : Posix) (v : View os) (posix : IsPosix os v) where
  -- `shm_open` with `O_CREAT`, `ftruncate` and `mmap`, where there was no such name.
  pub record Makes (name : List ℕ) (size : ℕ) (w : os.World) : Type 0 where
    pub fd : os.Fd
    pub ptr : os.Mapping
    pub opened : os.World
    pub cut : os.World
    pub last : os.World
    pub shm_open_done : os.shm_open true name w ≡ (done fd, opened)
    pub ftruncate_done : os.ftruncate fd size opened ≡ (done tt, cut)
    pub mmap_done : os.mmap fd size cut ≡ (done ptr, last)
    pub aligned : os.address ptr % 128 ≡ 0
    pub made : Made name (v.mapped ptr) (v.look w) (v.look last)
    pub zeroed : (s : Segment) → Zeroed s ((v.look last).content s (v.mapped ptr))

  pub makes :
      (name : List ℕ) (size : ℕ) (w : os.World) → (v.look w).linked name ≡ none → Makes name size w
  makes name size w gone =
      let (fd, w1, e1, made, empty, zero) = posix.creates name w gone in
      let (w2, e2, same2) = posix.truncates fd size w1 (omega (arith, empty)) in
      let (m, w3, e3, here, page, same3) = posix.maps fd size w2 in
      let same = Same-trans same2 same3 in
      record {
        fd = fd;
        ptr = m;
        opened = w1;
        cut = w2;
        last = w3;
        shm_open_done = e1;
        ftruncate_done = e2;
        mmap_done = e3;
        aligned = omega (arith, page);
        made = rw here (Made-Same made same);
        zeroed = rw here (Zeroed-Same same zero);
      }

  -- `shm_open` without `O_CREAT` and `mmap`, where there is such a name.
  pub record Opens (name : List ℕ) (size : ℕ) (w : os.World) (o : ℕ) : Type 0 where
    pub fd : os.Fd
    pub ptr : os.Mapping
    pub opened : os.World
    pub last : os.World
    pub shm_open_done : os.shm_open false name w ≡ (done fd, opened)
    pub mmap_done : os.mmap fd size opened ≡ (done ptr, last)
    pub aligned : os.address ptr % 128 ≡ 0
    pub here : v.mapped ptr ≡ o
    pub same : Same (v.look w) (v.look last)

  pub opens :
      (name : List ℕ) (size : ℕ) (w : os.World) (o : ℕ)
      → (v.look w).linked name ≡ some o
      → Opens name size w o
  opens name size w o at =
      let (fd, w1, e1, of_fd, same1) = posix.opens false name w o at in
      let (m, w2, e2, of_m, page, same2) = posix.maps fd size w1 in
      record {
        fd = fd;
        ptr = m;
        opened = w1;
        last = w2;
        shm_open_done = e1;
        mmap_done = e2;
        aligned = omega (arith, page);
        here = of_m ∙ of_fd;
        same = Same-trans same1 same2;
      }

  capacity-power : is_power_of_two ring_capacity ≡ true
  unfolding is_power_of_two
  capacity-power = refl

  -- What is written to a segment that one name refers to leaves the others alone.
  Made-store :
      (name : List ℕ) (s : Segment) (m : os.Mapping) (c : Content s) (w : os.World) (st : Segments)
      → Made name (v.mapped m) st (v.look w)
      → Made name (v.mapped m) st (v.look (os.store s m c w))
  Made-store name s m c w st made =
      let (link, _, others) = posix.stores s m c w in
      record {
        linked = link name ∙ made.linked;
        alone = λ n other h. made.alone n other (sym (link n) ∙ h);
        keeps = record {
          linked = λ n other. link n ∙ made.keeps.linked n other;
          content = λ n p other at t.
              others t p
                (λ same. made.alone n other (made.keeps.linked n other ∙ at ∙ ap some same))
              ∙ made.keeps.content n p other at t;
        };
      }

  fresh-IsFresh : {A : Type 0} (r : SpscRing A) → IsFresh (fresh ring_capacity r)
  fresh-IsFresh r = record { magic = refl; capacity = refl; tail = refl; head = refl }

  pub init_requests-Made :
      (name : List ℕ) (m : os.Mapping) (w : os.World) (st : Segments)
      → Made name (v.mapped m) st (v.look w)
      → os.address m % 128 ≡ 0
      → ((v.look w).content requests (v.mapped m)).magic ≡ 0
      → (w' : os.World) × (init_requests os m w ≡ (ok tt, w'))
        × Made name (v.mapped m) st (v.look w')
        × IsFresh ((v.look w').content requests (v.mapped m))
  unfolding init_requests
  init_requests-Made name m w st made a zero =
      let r = os.load requests m w in
      let z : r.magic ≡ 0 =
        ap (λ (r : SpscRing IoRequest). r.magic) (posix.loads requests m w) ∙ zero in
      let (_, seen, _) = posix.stores requests m (fresh ring_capacity r) w in
      (
        os.store requests m (fresh ring_capacity r) w,
        rw (init_in_place_fresh ring_capacity (os.address m) r capacity-power a z) refl,
        Made-store name requests m (fresh ring_capacity r) w st made,
        rw seen (fresh-IsFresh r),
      )

  pub init_responses-Made :
      (name : List ℕ) (m : os.Mapping) (w : os.World) (st : Segments)
      → Made name (v.mapped m) st (v.look w)
      → os.address m % 128 ≡ 0
      → ((v.look w).content responses (v.mapped m)).magic ≡ 0
      → (w' : os.World) × (init_responses os m w ≡ (ok tt, w'))
        × Made name (v.mapped m) st (v.look w')
        × IsFresh ((v.look w').content responses (v.mapped m))
  unfolding init_responses
  init_responses-Made name m w st made a zero =
      let r = os.load responses m w in
      let z : r.magic ≡ 0 =
        ap (λ (r : SpscRing IoResponse). r.magic) (posix.loads responses m w) ∙ zero in
      let (_, seen, _) = posix.stores responses m (fresh ring_capacity r) w in
      (
        os.store responses m (fresh ring_capacity r) w,
        rw (init_in_place_fresh ring_capacity (os.address m) r capacity-power a z) refl,
        Made-store name responses m (fresh ring_capacity r) w st made,
        rw seen (fresh-IsFresh r),
      )

  pub attach_requests-ok :
      (m : os.Mapping) (w : os.World)
      → os.address m % 128 ≡ 0
      → IsFresh ((v.look w).content requests (v.mapped m))
      → attach_requests os m w ≡ returned Attached.ok
  unfolding attach_requests
  attach_requests-ok m w a r = rw (posix.loads requests m w) (
      attach_ready ring_capacity (os.address m) ((v.look w).content requests (v.mapped m))
        capacity-power a r.magic r.capacity)

  pub attach_responses-ok :
      (m : os.Mapping) (w : os.World)
      → os.address m % 128 ≡ 0
      → IsFresh ((v.look w).content responses (v.mapped m))
      → attach_responses os m w ≡ returned Attached.ok
  unfolding attach_responses
  attach_responses-ok m w a r = rw (posix.loads responses m w) (
      attach_ready ring_capacity (os.address m) ((v.look w).content responses (v.mapped m))
        capacity-power a r.magic r.capacity)
