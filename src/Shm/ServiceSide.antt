-- ===== src/Shm/ServiceSide.antt =====
-- atlas-service/src/channel.rs: how the service finds the client's segments and makes its own.
use atlas_io.Base.{ℕ, true, false, List}
use atlas_io.Protocol.{data_region_size}
use atlas_io.Protocol.Names.{requests, responses, shm_req_name, shm_resp_name, shm_data_name}
use atlas_io.Spsc.{Producer, Consumer, new_producer, new_consumer}
use atlas_io.Spsc.Setup.{Outcome, returned, panicked, Attached}
use atlas_io.Shm.{
  Posix, req_ring_attach, other, Result, ok, err, panic, Io, pure, ◌>>=◌, ◌>>◌, call, req_ring_size,
  resp_ring_size, init_responses, attach_requests,
}

pub record DataRegion (os : Posix) : Type 0 where
  pub mapping : os.Mapping
  pub fd : os.Fd

pub record ServiceChannel (os : Posix) : Type 0 where
  pub req_rx : Consumer
  pub req_ring : os.Mapping
  pub req_fd : os.Fd
  pub resp_tx : Producer
  pub resp_ring : os.Mapping
  pub resp_fd : os.Fd
  pub region : DataRegion os
  pub instance_id : ℕ

module _ (os : Posix) where
  -- The protection and the flags are the same in every call.
  unfoldable pub map_shm_sized : os.Fd → ℕ → Io os.World os.Mapping
  map_shm_sized fd size = call (os.mmap fd size)

  unfoldable pub open_existing_ring : List ℕ → ℕ → Io os.World (os.Fd × os.Mapping)
  open_existing_ring name size = do
    fd ← call (os.shm_open false name)
    ptr ← map_shm_sized fd size
    pure (fd, ptr)

  unfoldable pub create_or_open_ring : List ℕ → ℕ → Io os.World (os.Fd × os.Mapping)
  create_or_open_ring name size = do
    fd ← call (os.shm_open true name)
    call (os.ftruncate fd size)
    ptr ← map_shm_sized fd size
    pure (fd, ptr)

  -- `DataRegion::join`
  unfoldable pub join_region : List ℕ → Io os.World (DataRegion os)
  join_region name = do
    fd ← call (os.shm_open false name)
    ptr ← call (os.mmap fd data_region_size)
    pure (record { mapping = ptr; fd = fd })

  -- `ReqRing::attach(req_ptr)` with its error mapped, and the consumer.
  unfoldable pub attached : os.Mapping → os.World → Outcome Attached → Result Consumer
  attached m w (returned Attached.ok) = ok (new_consumer (os.load requests m w))
  attached m w (returned (Attached.err e)) = err (other (req_ring_attach e))
  attached m w (panicked p) = panic p

  unfoldable pub consumer_at : os.Mapping → Io os.World Consumer
  consumer_at m w = (attached m w (attach_requests os m w), w)

  abbrev producer_at : os.Mapping → Io os.World Producer
  producer_at m w = (ok (new_producer (os.load responses m w)), w)

  -- `ServiceChannel::join`
  unfoldable pub join : ℕ → Io os.World (ServiceChannel os)
  join instance_id = do
    (req_fd, req_ptr) ← open_existing_ring (shm_req_name instance_id) req_ring_size
    req_rx ← consumer_at req_ptr
    (resp_fd, resp_ptr) ← create_or_open_ring (shm_resp_name instance_id) resp_ring_size
    init_responses os resp_ptr
    resp_tx ← producer_at resp_ptr
    region ← join_region (shm_data_name instance_id)
    pure (record {
      req_rx = req_rx;
      req_ring = req_ptr;
      req_fd = req_fd;
      resp_tx = resp_tx;
      resp_ring = resp_ptr;
      resp_fd = resp_fd;
      region = region;
      instance_id = instance_id;
    })
