-- ===== src/Shm/ClientSide.antt =====
-- atlas-client/src/channel.rs: how the client makes its segments and finds that of the service.
use atlas_io.Base.{ℕ, zero, suc, true, false, List, ◌⊎◌, inl, inr}
use atlas_io.Protocol.{data_region_size}
use atlas_io.Protocol.Names.{requests, responses, shm_req_name, shm_resp_name, shm_data_name}
use atlas_io.Spsc.{Producer, Consumer, new_producer, new_consumer}
use atlas_io.Spsc.Setup.{Outcome, returned, panicked, Attached}
use atlas_io.Shm.{
  Posix, Text, empty, of_attach, timeout_joining, other, to_string, Result, ok, err, panic, Io,
  pure, ◌>>=◌, ◌>>◌, call, act, req_ring_size, resp_ring_size, init_requests, attach_responses,
}

-- `offset` is the allocator's, of atlas_io.Client.
pub record DataRegion (os : Posix) : Type 0 where
  pub mapping : os.Mapping
  pub len : ℕ
  pub offset : ℕ
  pub fd : os.Fd

pub record PreparedChannel (os : Posix) : Type 0 where
  pub req_tx : Producer
  pub req_ring : os.Mapping
  pub req_fd : os.Fd
  pub region : DataRegion os
  pub instance_id : ℕ

pub record ClientChannel (os : Posix) : Type 0 where
  pub req_tx : Producer
  pub req_ring : os.Mapping
  pub req_fd : os.Fd
  pub resp_rx : Consumer
  pub resp_ring : os.Mapping
  pub resp_fd : os.Fd
  pub region : DataRegion os
  pub instance_id : ℕ

abbrev pub connect_tries : ℕ
connect_tries = 200

module _ (os : Posix) where
  -- The protection and the flags are the same in every call.
  unfoldable pub map_shm_sized : os.Fd → ℕ → Io os.World os.Mapping
  map_shm_sized fd size = call (os.mmap fd size)

  unfoldable pub create_ring_shm : List ℕ → ℕ → Io os.World (os.Fd × os.Mapping)
  create_ring_shm name size = do
    act (os.shm_unlink name)
    fd ← call (os.shm_open true name)
    call (os.ftruncate fd size)
    ptr ← map_shm_sized fd size
    pure (fd, ptr)

  unfoldable pub open_ring_shm : List ℕ → ℕ → Io os.World (os.Fd × os.Mapping)
  open_ring_shm name size = do
    fd ← call (os.shm_open false name)
    ptr ← map_shm_sized fd size
    pure (fd, ptr)

  -- `DataRegion::create`
  unfoldable pub create_region : List ℕ → Io os.World (DataRegion os)
  create_region name = do
    act (os.shm_unlink name)
    fd ← call (os.shm_open true name)
    call (os.ftruncate fd data_region_size)
    ptr ← map_shm_sized fd data_region_size
    pure (record { mapping = ptr; len = data_region_size; offset = 0; fd = fd })

  -- `DataRegion::join`
  unfoldable pub join_region : List ℕ → Io os.World (DataRegion os)
  join_region name = do
    fd ← call (os.shm_open false name)
    ptr ← map_shm_sized fd data_region_size
    pure (record { mapping = ptr; len = data_region_size; offset = 0; fd = fd })

  unfoldable pub cleanup_shm : ℕ → os.World → os.World
  cleanup_shm instance_id w =
      os.shm_unlink (shm_data_name instance_id)
        (os.shm_unlink (shm_resp_name instance_id) (os.shm_unlink (shm_req_name instance_id) w))

  abbrev producer_at : os.Mapping → Io os.World Producer
  producer_at m w = (ok (new_producer (os.load requests m w)), w)

  -- `PreparedChannel::create`
  unfoldable pub prepare : ℕ → Io os.World (PreparedChannel os)
  prepare instance_id = do
    act (cleanup_shm instance_id)
    (req_fd, req_ptr) ← create_ring_shm (shm_req_name instance_id) req_ring_size
    init_requests os req_ptr
    req_tx ← producer_at req_ptr
    region ← create_region (shm_data_name instance_id)
    pure (record {
      req_tx = req_tx;
      req_ring = req_ptr;
      req_fd = req_fd;
      region = region;
      instance_id = instance_id;
    })

  -- The channel that the two phases make.
  abbrev connected : PreparedChannel os → Consumer → os.Mapping → os.Fd → ClientChannel os
  connected p resp_rx ptr fd = record {
    req_tx = p.req_tx;
    req_ring = p.req_ring;
    req_fd = p.req_fd;
    resp_rx = resp_rx;
    resp_ring = ptr;
    resp_fd = fd;
    region = p.region;
    instance_id = p.instance_id;
  }

  -- One round of `connect`: the channel, or the next `last_err`.
  unfoldable pub try_attach :
      PreparedChannel os
      → os.Fd
      → os.Mapping
      → os.World
      → Outcome Attached
      → Result (Text ⊎ ClientChannel os)
  try_attach p fd ptr w (returned Attached.ok) =
      ok (inr (connected p (new_consumer (os.load responses ptr w)) ptr fd))
  try_attach p fd ptr w (returned (Attached.err e)) = ok (inl (of_attach e))
  try_attach p fd ptr w (panicked q) = panic q

  unfoldable pub try_join : PreparedChannel os → Io os.World (Text ⊎ ClientChannel os)
  try_join p w =
      let (r, w') = open_ring_shm (shm_resp_name p.instance_id) resp_ring_size w in
      elim r [
        | ok opened ↦ (try_attach p opened.0 opened.1 w' (attach_responses os opened.1 w'), w')
        | err e ↦ (ok (inl (to_string e)), w')
        | panic q ↦ (panic q, w')
      ]

  -- The loop of `connect` with that many rounds left. In the sleep that ends round `i` the other
  -- processes take the world to `sleep i` of it.
  unfoldable pub connect_loop :
      (ℕ → os.World → os.World) → PreparedChannel os → ℕ → ℕ → Text → Io os.World (ClientChannel os)
  connect_loop sleep p zero i last_err w = (err (other (timeout_joining last_err)), w)
  connect_loop sleep p (suc rounds) i last_err w =
      let (r, w') = try_join p w in
      elim r [
        | ok (inl text) ↦ connect_loop sleep p rounds (suc i) text (sleep i w')
        | ok (inr channel) ↦ (ok channel, w')
        | err e ↦ (err e, w')
        | panic q ↦ (panic q, w')
      ]

  -- `PreparedChannel::connect`
  unfoldable pub connect :
      (ℕ → os.World → os.World) → PreparedChannel os → Io os.World (ClientChannel os)
  connect sleep p = connect_loop sleep p connect_tries 0 empty

  -- `ClientChannel::create`
  unfoldable pub create : (ℕ → os.World → os.World) → ℕ → Io os.World (ClientChannel os)
  create sleep instance_id = do prepared ← prepare instance_id; connect sleep prepared
