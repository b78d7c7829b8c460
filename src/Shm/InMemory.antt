-- ===== src/Shm/InMemory.antt =====
-- Shared memory with no failures: a concrete system for which the laws hold.
use atlas_io.Base.{
  ℕ, pos, suc, ◌*◌, ◌≡◌, ◌≢◌, refl, Bool, true, false, none, some, List, [], ◌∷◌, arith, ◌==◌,
  if◌then◌else◌,
}
use atlas_io.Protocol.{IoRequest, IoResponse, zeros, max_path_len}
use atlas_io.Protocol.Names.{Segment, requests, responses, contents}
use atlas_io.Spsc.{SpscRing}
use atlas_io.Client.{Memory}
use atlas_io.Shm.{Content, Posix, Errno, done, failed}
use atlas_io.Shm.Directory.{
  name_eq_refl, name_eq-other, lookup, erase, unused, lookup-erase, lookup-erase_other, lookup-lt,
}
use atlas_io.Shm.Laws.{Segments, Zeroed, Made, Same, View, IsPosix, enoent}

-- Which object each name refers to, and what is in the objects.
pub record Objects : Type 0 where
  pub names : List (List ℕ × ℕ)
  pub sizes : ℕ → ℕ
  pub request_rings : ℕ → SpscRing IoRequest
  pub response_rings : ℕ → SpscRing IoResponse
  pub regions : ℕ → Memory

abbrev update : {A : Type 0} → (ℕ → A) → ℕ → A → ℕ → A
update f o a p = if p == o then a else f p

abbrev put : (s : Segment) → ℕ → Content s → Objects → Objects
put requests o c w = record w { request_rings = update w.request_rings o c }
put responses o c w = record w { response_rings = update w.response_rings o c }
put contents o c w = record w { regions = update w.regions o c }

abbrev content_of : Objects → (s : Segment) → ℕ → Content s
content_of w requests = w.request_rings
content_of w responses = w.response_rings
content_of w contents = w.regions

abbrev see : Objects → Segments
see w = record { linked = λ n. lookup n w.names; size = w.sizes; content = content_of w }

abbrev zero_ring : {A : Type 0} → A → SpscRing A
zero_ring a = record { magic = 0; capacity = 0; tail = 0; head = 0; slots = λ _. a }

abbrev zero_request : IoRequest
zero_request = record {
  id = 0;
  op = 0;
  priority = 0;
  pad = zeros 6;
  fd = 0;
  offset = 0;
  len = 0;
  data_offset = 0;
  path = zeros max_path_len;
}

abbrev zero_response : IoResponse
zero_response = record {
  id = 0;
  status = pos 0;
  pad = zeros 4;
  fd = 0;
  data_offset = 0;
  data_len = 0;
}

abbrev new_object : List ℕ → Objects → Objects
new_object name w =
    let o = unused w.names in
    record {
      names = (name, o) ∷ w.names;
      sizes = update w.sizes o 0;
      request_rings = update w.request_rings o (zero_ring zero_request);
      response_rings = update w.response_rings o (zero_ring zero_response);
      regions = update w.regions o (λ _. 0);
    }

abbrev open_object : Bool → List ℕ → Objects → Errno ℕ × Objects
open_object create name w = elim (lookup name w.names) [
  | some o ↦ (done o, w)
  | none ↦ if create then (done (unused w.names), new_object name w) else (failed enoent, w)
]

open_object-some :
    (create : Bool) (name : List ℕ) (w : Objects) (o : ℕ)
    → lookup name w.names ≡ some o
    → open_object create name w ≡ (done o, w)
open_object-some create name w o at = ground (arith, at)

open_object-none :
    (create : Bool) (name : List ℕ) (w : Objects)
    → lookup name w.names ≡ none
    → open_object create name w
      ≡ (if create then (done (unused w.names), new_object name w) else (failed enoent, w))
open_object-none create name w gone = ground (arith, gone)

-- A descriptor and a mapping are the number of the object.
abbrev pub memory_os : Posix
memory_os = record {
  World = Objects;
  Fd = ℕ;
  Mapping = ℕ;
  shm_unlink = λ name w. record w { names = erase name w.names };
  shm_open = open_object;
  ftruncate = λ fd size w. (done tt, record w { sizes = update w.sizes fd size });
  mmap = λ fd size w. (done fd, w);
  address = λ m. 4096 * suc m;
  load = λ s m w. (see w).content s m;
  store = λ s m c w. put s m c w;
}

abbrev pub memory_view : View memory_os
memory_view = record { look = see; object_of = λ fd. fd; mapped = λ m. m }

new_object_content :
    (name : List ℕ) (w : Objects) (s : Segment) (p : ℕ)
    → (p == unused w.names) ≡ false
    → content_of (new_object name w) s p ≡ content_of w s p
new_object_content name w requests p h = rw h refl
new_object_content name w responses p h = rw h refl
new_object_content name w contents p h = rw h refl

new_object-Made :
    (name : List ℕ) (w : Objects)
    → lookup name w.names ≡ none
    → Made name (unused w.names) (see w) (see (new_object name w))
new_object-Made name w gone = record {
  linked = ground (arith, name_eq_refl name);
  alone = λ n ne h.
      let other = name_eq-other n name ne in
      let here : lookup n w.names ≡ some (unused w.names) = ground (arith, other) in
      omega (arith, lookup-lt n (unused w.names) w.names here);
  keeps = record {
    linked = λ n ne. ground (arith, name_eq-other n name ne);
    content = λ n p ne at s.
        let below = lookup-lt n p w.names at in
        let other : (p == unused w.names) ≡ false = ground (arith, below) in
        new_object_content name w s p other;
  };
}

new_object-Zeroed :
    (name : List ℕ) (w : Objects) (s : Segment)
    → Zeroed s ((see (new_object name w)).content s (unused w.names))
new_object-Zeroed name w requests = ground arith
new_object-Zeroed name w responses = ground arith
new_object-Zeroed name w contents = λ i. ground arith

put-stores :
    (s : Segment) (o : ℕ) (c : Content s) (w : Objects)
    → ((n : List ℕ) → (see (put s o c w)).linked n ≡ (see w).linked n)
      × ((see (put s o c w)).content s o ≡ c)
      × ((t : Segment) (p : ℕ) → p ≢ o → (see (put s o c w)).content t p ≡ (see w).content t p)
put-stores requests o c w = (
  λ n. refl,
  ground arith,
  λ t p ne. elim t as (λ t. content_of (put requests o c w) t p ≡ content_of w t p) [
    | requests ↦ ground arith
    | responses ↦ refl
    | contents ↦ refl
  ],
)
put-stores responses o c w = (
  λ n. refl,
  ground arith,
  λ t p ne. elim t as (λ t. content_of (put responses o c w) t p ≡ content_of w t p) [
    | requests ↦ refl
    | responses ↦ ground arith
    | contents ↦ refl
  ],
)
put-stores contents o c w = (
  λ n. refl,
  ground arith,
  λ t p ne. elim t as (λ t. content_of (put contents o c w) t p ≡ content_of w t p) [
    | requests ↦ refl
    | responses ↦ refl
    | contents ↦ ground arith
  ],
)

abbrev same : (w : Objects) → Same (see w) (see w)
same w = record { linked = λ n. refl; content = λ s p. refl }

pub memory_os-IsPosix : IsPosix memory_os memory_view
memory_os-IsPosix = record {
  unlinks = λ name w. (
    lookup-erase name w.names,
    record { linked = λ n ne. lookup-erase_other name n w.names ne; content = λ n p ne at s. refl },
  );
  opens = λ create name w o at. (o, w, open_object-some create name w o at, refl, same w);
  misses = λ name w gone. (w, open_object-none false name w gone, same w);
  creates = λ name w gone. (
    unused w.names,
    new_object name w,
    open_object-none true name w gone,
    new_object-Made name w gone,
    ground arith,
    new_object-Zeroed name w,
  );
  truncates = λ fd size w le. (
    record w { sizes = update w.sizes fd size },
    refl,
    record { linked = λ n. refl; content = λ s p. refl },
  );
  maps = λ fd size w. (fd, w, refl, refl, omega arith, same w);
  loads = λ s m w. refl;
  stores = put-stores;
}

abbrev pub no_segments : Objects
no_segments = record {
  names = [];
  sizes = λ _. 0;
  request_rings = λ _. zero_ring zero_request;
  response_rings = λ _. zero_ring zero_response;
  regions = λ _ _. 0;
}
