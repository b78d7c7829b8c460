-- ===== src/Shm/Prepare.antt =====
-- `PreparedChannel::create`: what it makes, and what it leaves alone.
use atlas_io.Base.{ℕ, ◌<◌, ◌≡◌, ◌≢◌, refl, ap, ◌∙◌, none, some, List, u32_mod, arith}
use atlas_io.Protocol.{data_region_size}
use atlas_io.Protocol.Names.{
  Segment, requests, responses, contents, segment_name, shm_req_name, shm_resp_name, shm_data_name,
  segment_name-injective,
}
use atlas_io.Spsc.{new_producer}
use atlas_io.Shm.{Posix, ok, req_ring_size}
use atlas_io.Shm.ClientSide.{
  PreparedChannel, prepare, map_shm_sized, create_ring_shm, create_region, cleanup_shm,
}
use atlas_io.Shm.Laws.{Segments, Zeroed, KeepsOthers, View, IsPosix}
use atlas_io.Shm.Steps.{IsFresh, Makes, makes, init_requests-Made}
use atlas_io.Shm.Relations.{KeepsOthers-trans}

-- The names of no other instance, and no other names, are touched, nor are their segments.
pub record KeepsInstances (id : ℕ) (st st' : Segments) : Type 0 where
  pub linked : (n : List ℕ) → ((s : Segment) → n ≢ segment_name s id) → st'.linked n ≡ st.linked n
  pub content :
      (n : List ℕ) (p : ℕ)
      → ((s : Segment) → n ≢ segment_name s id)
      → st.linked n ≡ some p
      → (t : Segment) → st'.content t p ≡ st.content t p

pub KeepsInstances-trans :
    {id : ℕ} {r s t : Segments}
    → KeepsInstances id r s
    → KeepsInstances id s t
    → KeepsInstances id r t
KeepsInstances-trans a b = record {
  linked = λ n other. b.linked n other ∙ a.linked n other;
  content =
      λ n p other at s. b.content n p other (a.linked n other ∙ at) s ∙ a.content n p other at s;
}

pub KeepsOthers-KeepsInstances :
    {id : ℕ} {r t : Segments} (s : Segment)
    → KeepsOthers (segment_name s id) r t
    → KeepsInstances id r t
KeepsOthers-KeepsInstances s a = record {
  linked = λ n other. a.linked n (other s);
  content = λ n p other. a.content n p (other s);
}

pub segment_name-other :
    (s t : Segment) (id : ℕ) → id < u32_mod → s ≢ t → segment_name s id ≢ segment_name t id
segment_name-other s t id h other same = other (segment_name-injective s t id id h h same).0

module _ (os : Posix) (v : View os) (posix : IsPosix os v) where
  -- After `PreparedChannel::create`: a fresh request ring and an empty data region, and no response
  -- ring, not even one that was left from before.
  pub record Prepared (id : ℕ) (p : PreparedChannel os) (st : Segments) : Type 0 where
    pub requests_at : st.linked (shm_req_name id) ≡ some (v.mapped p.req_ring)
    pub responses_at : st.linked (shm_resp_name id) ≡ none
    pub contents_at : st.linked (shm_data_name id) ≡ some (v.mapped p.region.mapping)
    pub requests_fresh : IsFresh (st.content requests (v.mapped p.req_ring))
    pub contents_zeroed : Zeroed contents (st.content contents (v.mapped p.region.mapping))
    pub apart : v.mapped p.req_ring ≢ v.mapped p.region.mapping
    pub req_tx : p.req_tx ≡ record { cached_head = 0; local_tail = 0 }
    pub region_len : p.region.len ≡ data_region_size
    pub instance_id : p.instance_id ≡ id

  cleanup_shm-KeepsInstances :
      (id : ℕ) (w : os.World)
      → id < u32_mod
      → ((v.look (cleanup_shm os id w)).linked (shm_resp_name id) ≡ none)
        × KeepsInstances id (v.look w) (v.look (cleanup_shm os id w))
  unfolding cleanup_shm
  cleanup_shm-KeepsInstances id w h =
      let u1 = os.shm_unlink (shm_req_name id) w in
      let u2 = os.shm_unlink (shm_resp_name id) u1 in
      let (_, kept1) = posix.unlinks (shm_req_name id) w in
      let (gone, kept2) = posix.unlinks (shm_resp_name id) u1 in
      let (_, kept3) = posix.unlinks (shm_data_name id) u2 in
      (
        kept3.linked (shm_resp_name id)
              (segment_name-other responses contents id h (λ e. ground arith))
            ∙ gone,
        KeepsInstances-trans (KeepsOthers-KeepsInstances requests kept1) (
            KeepsInstances-trans (KeepsOthers-KeepsInstances responses kept2)
              (KeepsOthers-KeepsInstances contents kept3)),
      )

  created :
      (name : List ℕ) (size : ℕ) (w : os.World)
      (ring : Makes os v posix name size (os.shm_unlink name w))
      → create_ring_shm os name size w ≡ (ok (ring.fd, ring.ptr), ring.last)
  unfolding create_ring_shm map_shm_sized
  created name size w ring = ground (arith, ring.shm_open_done, ring.ftruncate_done, ring.mmap_done)

  region_created :
      (name : List ℕ) (w : os.World)
      (ring : Makes os v posix name data_region_size (os.shm_unlink name w))
      → create_region os name w ≡ (
        ok (record { mapping = ring.ptr; len = data_region_size; offset = 0; fd = ring.fd }),
        ring.last,
      )
  unfolding create_region map_shm_sized
  region_created name w ring =
      ground (arith, ring.shm_open_done, ring.ftruncate_done, ring.mmap_done)

  pub prepare-Prepared :
      (id : ℕ) (w : os.World)
      → id < u32_mod
      → (p : PreparedChannel os) × (w' : os.World) × (prepare os id w ≡ (ok p, w'))
        × Prepared id p (v.look w')
        × KeepsInstances id (v.look w) (v.look w')
  unfolding prepare new_producer
  prepare-Prepared id w h =
      let w1 = cleanup_shm os id w in
      let (no_resp, kept1) = cleanup_shm-KeepsInstances id w h in
      let w2 = os.shm_unlink (shm_req_name id) w1 in
      let (gone, kept2) = posix.unlinks (shm_req_name id) w1 in
      let ring = makes os v posix (shm_req_name id) req_ring_size w2 gone in
      let (w3, inited, made, fresh) =
        init_requests-Made os v posix (shm_req_name id) ring.ptr ring.last (v.look w2) ring.made
          ring.aligned (ring.zeroed requests) in
      let w4 = os.shm_unlink (shm_data_name id) w3 in
      let (gone', kept4) = posix.unlinks (shm_data_name id) w3 in
      let region = makes os v posix (shm_data_name id) data_region_size w4 gone' in
      let kept5 = KeepsOthers-trans kept4 region.made.keeps in
      let ring_here =
        kept5.linked (shm_req_name id)
          (segment_name-other requests contents id h (λ e. ground arith))
        ∙ made.linked in
      let ring_same =
        kept5.content (shm_req_name id) (v.mapped ring.ptr)
          (segment_name-other requests contents id h (λ e. ground arith)) made.linked requests in
      let loaded = posix.loads requests ring.ptr w3 in
      (
        record {
          req_tx = new_producer (os.load requests ring.ptr w3);
          req_ring = ring.ptr;
          req_fd = ring.fd;
          region = record {
            mapping = region.ptr;
            len = data_region_size;
            offset = 0;
            fd = region.fd;
          };
          instance_id = id;
        },
        region.last,
        ground (
          arith,
          created (shm_req_name id) req_ring_size w1 ring,
          inited,
          region_created (shm_data_name id) w3 region,
        ),
        record {
          requests_at = ring_here;
          responses_at =
              kept5.linked (shm_resp_name id)
                (segment_name-other responses contents id h (λ e. ground arith))
              ∙ made.keeps.linked (shm_resp_name id)
                  (segment_name-other responses requests id h (λ e. ground arith))
              ∙ kept2.linked (shm_resp_name id)
                  (segment_name-other responses requests id h (λ e. ground arith))
              ∙ no_resp;
          contents_at = region.made.linked;
          requests_fresh = rw ring_same fresh;
          contents_zeroed = region.zeroed contents;
          apart = λ same.
              region.made.alone (shm_req_name id)
                (segment_name-other requests contents id h (λ e. ground arith))
                (ring_here ∙ ap some same);
          req_tx = rw (loaded, fresh.tail, fresh.head) refl;
          region_len = refl;
          instance_id = refl;
        },
        KeepsInstances-trans kept1 (
            KeepsInstances-trans (KeepsOthers-KeepsInstances requests kept2) (
              KeepsInstances-trans (KeepsOthers-KeepsInstances requests made.keeps)
                (KeepsOthers-KeepsInstances contents kept5))),
      )
