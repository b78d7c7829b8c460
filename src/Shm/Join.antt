-- ===== src/Shm/Join.antt =====
-- `ServiceChannel::join` after `PreparedChannel::create`.
use atlas_io.Base.{ℕ, ◌<◌, ◌≡◌, ◌≢◌, refl, sym, ap, ◌∙◌, none, some, List, u32_mod, arith}
use atlas_io.Protocol.{data_region_size}
use atlas_io.Protocol.Names.{
  requests, responses, contents, shm_req_name, shm_resp_name, shm_data_name,
}
use atlas_io.Spsc.{new_producer, new_consumer}
use atlas_io.Spsc.Setup.{returned, Attached}
use atlas_io.Shm.{Posix, ok, err, raw_os_error, req_ring_size, resp_ring_size, attach_requests}
use atlas_io.Shm.ClientSide.{PreparedChannel}
use atlas_io.Shm.ServiceSide.{
  ServiceChannel, map_shm_sized, open_existing_ring, create_or_open_ring, join_region, attached,
  consumer_at, join,
}
use atlas_io.Shm.Laws.{Segments, Same, View, IsPosix, enoent}
use atlas_io.Shm.Steps.{
  IsFresh, Makes, makes, Opens, opens, init_responses-Made, attach_requests-ok,
}
use atlas_io.Shm.Relations.{Same-KeepsOthers, Made-Same}
use atlas_io.Shm.Prepare.{
  KeepsInstances, KeepsInstances-trans, KeepsOthers-KeepsInstances, segment_name-other, Prepared,
}

module _ (os : Posix) (v : View os) (posix : IsPosix os v) where
  -- After `ServiceChannel::join`: the service has the client's segments, and there is a fresh
  -- response ring.
  pub record Joined (id : ℕ) (p : PreparedChannel os) (s : ServiceChannel os) (st : Segments)
      : Type 0 where
    pub requests_at : v.mapped s.req_ring ≡ v.mapped p.req_ring
    pub responses_at : st.linked (shm_resp_name id) ≡ some (v.mapped s.resp_ring)
    pub contents_at : v.mapped s.region.mapping ≡ v.mapped p.region.mapping
    pub requests_fresh : IsFresh (st.content requests (v.mapped p.req_ring))
    pub responses_fresh : IsFresh (st.content responses (v.mapped s.resp_ring))
    pub requests_apart : v.mapped s.resp_ring ≢ v.mapped p.req_ring
    pub contents_apart : v.mapped s.resp_ring ≢ v.mapped p.region.mapping
    pub req_rx : s.req_rx ≡ record { local_head = 0; cached_tail = 0 }
    pub resp_tx : s.resp_tx ≡ record { cached_head = 0; local_tail = 0 }
    pub instance_id : s.instance_id ≡ id

  ring_opened :
      (name : List ℕ) (size : ℕ) (w : os.World) (o : ℕ) (ring : Opens os v posix name size w o)
      → open_existing_ring os name size w ≡ (ok (ring.fd, ring.ptr), ring.last)
  unfolding open_existing_ring map_shm_sized
  ring_opened name size w o ring = ground (arith, ring.shm_open_done, ring.mmap_done)

  region_opened :
      (name : List ℕ) (w : os.World) (o : ℕ) (region : Opens os v posix name data_region_size w o)
      → join_region os name w ≡ (ok (record { mapping = region.ptr; fd = region.fd }), region.last)
  unfolding join_region
  region_opened name w o region = ground (arith, region.shm_open_done, region.mmap_done)

  ring_created :
      (name : List ℕ) (size : ℕ) (w : os.World) (ring : Makes os v posix name size w)
      → create_or_open_ring os name size w ≡ (ok (ring.fd, ring.ptr), ring.last)
  unfolding create_or_open_ring map_shm_sized
  ring_created name size w ring =
      ground (arith, ring.shm_open_done, ring.ftruncate_done, ring.mmap_done)

  consumer_made :
      (m : os.Mapping) (w : os.World)
      → attach_requests os m w ≡ returned Attached.ok
      → consumer_at os m w ≡ (ok (new_consumer (os.load requests m w)), w)
  unfolding consumer_at attached
  consumer_made m w e = rw e refl

  pub join-Joined :
      (id : ℕ) (p : PreparedChannel os) (w : os.World)
      → id < u32_mod
      → Prepared os v posix id p (v.look w)
      → (s : ServiceChannel os) × (w' : os.World) × (join os id w ≡ (ok s, w'))
        × Joined id p s (v.look w')
        × KeepsInstances id (v.look w) (v.look w')
  unfolding join new_producer new_consumer
  join-Joined id p w h prep =
      let o = v.mapped p.req_ring in
      let req = opens os v posix (shm_req_name id) req_ring_size w o prep.requests_at in
      let req_fresh : IsFresh ((v.look req.last).content requests o) =
        rw (req.same.content requests o) prep.requests_fresh in
      let accepted =
        attach_requests-ok os v posix req.ptr req.last req.aligned (rw req.here req_fresh) in
      let resp =
        makes os v posix (shm_resp_name id) resp_ring_size req.last
          (req.same.linked (shm_resp_name id) ∙ prep.responses_at) in
      let (w3, inited, made, fresh) =
        init_responses-Made os v posix (shm_resp_name id) resp.ptr resp.last (v.look req.last)
          resp.made resp.aligned (resp.zeroed responses) in
      let req_linked = req.same.linked (shm_req_name id) ∙ prep.requests_at in
      let data_linked = req.same.linked (shm_data_name id) ∙ prep.contents_at in
      let req_other = segment_name-other requests responses id h (λ e. ground arith) in
      let data_other = segment_name-other contents responses id h (λ e. ground arith) in
      let region =
        opens os v posix (shm_data_name id) data_region_size w3 (v.mapped p.region.mapping)
          (made.keeps.linked (shm_data_name id) data_other ∙ data_linked) in
      let last = Made-Same made region.same in
      let req_kept = last.keeps.content (shm_req_name id) o req_other req_linked requests in
      (
        record {
          req_rx = new_consumer (os.load requests req.ptr req.last);
          req_ring = req.ptr;
          req_fd = req.fd;
          resp_tx = new_producer (os.load responses resp.ptr w3);
          resp_ring = resp.ptr;
          resp_fd = resp.fd;
          region = record { mapping = region.ptr; fd = region.fd };
          instance_id = id;
        },
        region.last,
        ground (
          arith,
          ring_opened (shm_req_name id) req_ring_size w o req,
          consumer_made req.ptr req.last accepted,
          ring_created (shm_resp_name id) resp_ring_size req.last resp,
          inited,
          region_opened (shm_data_name id) w3 (v.mapped p.region.mapping) region,
        ),
        record {
          requests_at = req.here;
          responses_at = last.linked;
          contents_at = region.here;
          requests_fresh = rw req_kept req_fresh;
          responses_fresh = rw (region.same.content responses (v.mapped resp.ptr)) fresh;
          requests_apart = λ same.
              made.alone (shm_req_name id) req_other
                (made.keeps.linked (shm_req_name id) req_other ∙ req_linked ∙ ap some (sym same));
          contents_apart = λ same.
              made.alone (shm_data_name id) data_other (
                made.keeps.linked (shm_data_name id) data_other ∙ data_linked ∙ ap some (sym same));
          req_rx =
              rw (posix.loads requests req.ptr req.last, req.here, req_fresh.tail, req_fresh.head)
                refl;
          resp_tx = rw (posix.loads responses resp.ptr w3, fresh.tail, fresh.head) refl;
          instance_id = refl;
        },
        KeepsInstances-trans (KeepsOthers-KeepsInstances requests (Same-KeepsOthers req.same))
            (KeepsOthers-KeepsInstances responses last.keeps),
      )

  -- Without the client's segments there is nothing to join: the service gets `ENOENT`, and makes no
  -- segment of its own.
  join_too_early :
      (id : ℕ) (w : os.World)
      → (v.look w).linked (shm_req_name id) ≡ none
      → (w' : os.World) × (join os id w ≡ (err (raw_os_error enoent), w'))
        × Same (v.look w) (v.look w')
  unfolding join open_existing_ring map_shm_sized
  join_too_early id w gone =
      let (w', e, same) = posix.misses (shm_req_name id) w gone in (w', ground (arith, e), same)
