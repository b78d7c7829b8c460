-- ===== src/Shm/Connect.antt =====
-- One round of `PreparedChannel::connect`, before and after `ServiceChannel::join`.
use atlas_io.Base.{ℕ, ◌≡◌, ◌≢◌, refl, sym, ap, ◌∙◌, none, List, arith, inl, inr}
use atlas_io.Protocol.Names.{
  requests, responses, contents, shm_req_name, shm_resp_name, shm_data_name,
}
use atlas_io.Spsc.{new_consumer}
use atlas_io.Shm.{Posix, of_errno, ok, resp_ring_size}
use atlas_io.Shm.ClientSide.{
  PreparedChannel, ClientChannel, map_shm_sized, open_ring_shm, try_attach, try_join,
}
use atlas_io.Shm.ServiceSide.{ServiceChannel}
use atlas_io.Shm.Laws.{Segments, Same, View, IsPosix, enoent}
use atlas_io.Shm.Steps.{IsFresh, Opens, opens, attach_responses-ok}
use atlas_io.Shm.Relations.{Same-KeepsOthers}
use atlas_io.Shm.Prepare.{KeepsInstances, KeepsOthers-KeepsInstances, Prepared}
use atlas_io.Shm.Join.{Joined}

module _ (os : Posix) (v : View os) (posix : IsPosix os v) where
  -- Both sides have the same three segments, no two of which are one, with empty rings and handles
  -- that stand at their start.
  pub record Connected (c : ClientChannel os) (s : ServiceChannel os) (st : Segments) : Type 0 where
    pub requests_shared : v.mapped s.req_ring ≡ v.mapped c.req_ring
    pub responses_shared : v.mapped s.resp_ring ≡ v.mapped c.resp_ring
    pub contents_shared : v.mapped s.region.mapping ≡ v.mapped c.region.mapping
    pub requests_fresh : IsFresh (st.content requests (v.mapped c.req_ring))
    pub responses_fresh : IsFresh (st.content responses (v.mapped c.resp_ring))
    pub apart :
        (v.mapped c.req_ring ≢ v.mapped c.resp_ring)
        × (v.mapped c.req_ring ≢ v.mapped c.region.mapping)
        × (v.mapped c.resp_ring ≢ v.mapped c.region.mapping)
    pub producers :
        (c.req_tx ≡ record { cached_head = 0; local_tail = 0 })
        × (s.resp_tx ≡ record { cached_head = 0; local_tail = 0 })
    pub consumers :
        (c.resp_rx ≡ record { local_head = 0; cached_tail = 0 })
        × (s.req_rx ≡ record { local_head = 0; cached_tail = 0 })
    pub instance_ids : s.instance_id ≡ c.instance_id

  ring_opened :
      (name : List ℕ) (size : ℕ) (w : os.World) (o : ℕ) (ring : Opens os v posix name size w o)
      → open_ring_shm os name size w ≡ (ok (ring.fd, ring.ptr), ring.last)
  unfolding open_ring_shm map_shm_sized
  ring_opened name size w o ring = ground (arith, ring.shm_open_done, ring.mmap_done)

  pub Same-KeepsInstances : (id : ℕ) {s t : Segments} → Same s t → KeepsInstances id s t
  Same-KeepsInstances id same = KeepsOthers-KeepsInstances requests (Same-KeepsOthers same)

  pub Prepared-Same :
      (id : ℕ) (p : PreparedChannel os) {s t : Segments}
      → Prepared os v posix id p s
      → Same s t
      → Prepared os v posix id p t
  Prepared-Same id p prep same = record {
    requests_at = same.linked (shm_req_name id) ∙ prep.requests_at;
    responses_at = same.linked (shm_resp_name id) ∙ prep.responses_at;
    contents_at = same.linked (shm_data_name id) ∙ prep.contents_at;
    requests_fresh = rw (same.content requests (v.mapped p.req_ring)) prep.requests_fresh;
    contents_zeroed = rw (same.content contents (v.mapped p.region.mapping)) prep.contents_zeroed;
    apart = prep.apart;
    req_tx = prep.req_tx;
    region_len = prep.region_len;
    instance_id = prep.instance_id;
  }

  -- A round while there is no response ring.
  pub try_join-missing :
      (p : PreparedChannel os) (w : os.World)
      → (v.look w).linked (shm_resp_name p.instance_id) ≡ none
      → (w' : os.World) × (try_join os p w ≡ (ok (inl (of_errno enoent)), w'))
        × Same (v.look w) (v.look w')
  unfolding try_join open_ring_shm map_shm_sized
  try_join-missing p w gone =
      let (w', e, same) = posix.misses (shm_resp_name p.instance_id) w gone in
      (w', ground (arith, e), same)

  -- A round after the service has joined.
  pub try_join-Connected :
      (id : ℕ) (p : PreparedChannel os) (s : ServiceChannel os) (st : Segments) (w : os.World)
      → Prepared os v posix id p st
      → Joined os v posix id p s (v.look w)
      → (c : ClientChannel os) × (w' : os.World) × (try_join os p w ≡ (ok (inr c), w'))
        × Connected c s (v.look w')
        × Same (v.look w) (v.look w')
  unfolding try_join try_attach new_consumer
  try_join-Connected id p s st w prep j =
      let o = v.mapped s.resp_ring in
      let linked =
        ap (λ i. (v.look w).linked (shm_resp_name i)) prep.instance_id ∙ j.responses_at in
      let ring = opens os v posix (shm_resp_name p.instance_id) resp_ring_size w o linked in
      let resp_fresh : IsFresh ((v.look ring.last).content responses o) =
        rw (ring.same.content responses o) j.responses_fresh in
      let accepted =
        attach_responses-ok os v posix ring.ptr ring.last ring.aligned (rw ring.here resp_fresh) in
      (
        record {
          req_tx = p.req_tx;
          req_ring = p.req_ring;
          req_fd = p.req_fd;
          resp_rx = new_consumer (os.load responses ring.ptr ring.last);
          resp_ring = ring.ptr;
          resp_fd = ring.fd;
          region = p.region;
          instance_id = p.instance_id;
        },
        ring.last,
        ground (arith, ring_opened (shm_resp_name p.instance_id) resp_ring_size w o ring, accepted),
        record {
          requests_shared = j.requests_at;
          responses_shared = sym ring.here;
          contents_shared = j.contents_at;
          requests_fresh = rw (ring.same.content requests (v.mapped p.req_ring)) j.requests_fresh;
          responses_fresh = rw ring.here resp_fresh;
          apart = (
            λ same. j.requests_apart (sym ring.here ∙ sym same),
            prep.apart,
            λ same. j.contents_apart (sym ring.here ∙ same),
          );
          producers = (prep.req_tx, j.resp_tx);
          consumers = (
            rw
                (
                  posix.loads responses ring.ptr ring.last,
                  ring.here,
                  resp_fresh.tail,
                  resp_fresh.head,
                )
                refl,
            j.req_rx,
          );
          instance_ids = j.instance_id ∙ sym prep.instance_id;
        },
        ring.same,
      )
