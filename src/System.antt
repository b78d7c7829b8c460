-- ===== src/System.antt =====
-- A client of atlas-client/src/lib.rs and the service of atlas-service/src/service.rs in one system,
-- with any pipeline and the POSIX executor.
pub mod Turns
pub mod Disk
pub mod Session
pub mod Merged
pub mod Overrun
pub mod MergedWrite
mod Tests
use atlas_io.Base.{ℕ, List, [], ◌∷◌}
use atlas_io.Protocol.{IoRequest, IoResponse}
use atlas_io.Pipeline.{Pipeline}
use atlas_io.Channel.{ServiceChannel}
use atlas_io.Executor.{Libc, posix}
use atlas_io.Service.{AtlasService}
use atlas_io.Service.Run.{turn, arrive}
use atlas_io.Client.{Memory, Peer}

-- A system whose world has the data region of each channel in it, by the channel's index.
pub record Machine : Type 1 where
  pub libc : Libc
  pub region : libc.World → ℕ → Memory
  pub set_region : ℕ → Memory → libc.World → libc.World

-- What the client takes out of the response ring, and the ring without it.
abbrev pub responses_of : List ServiceChannel → List IoResponse
responses_of [] = []
responses_of (ch ∷ _) = ch.sent

abbrev pub taken : List ServiceChannel → List ServiceChannel
taken [] = []
taken (ch ∷ chs) = record ch { sent = [] } ∷ chs

module _ (p : Pipeline) (mc : Machine) where
  -- The binary's service has `PassThrough` for its pipeline (`AtlasService::new`).
  abbrev pub Service : Type 0
  Service = AtlasService p (posix mc.libc)

  -- The client's request reaches the first channel and the service makes one turn of its loop.
  abbrev pub after_turn : Service → Memory → IoRequest → Service
  after_turn s m req = turn p (posix mc.libc) (record s {
    channels = arrive p (posix mc.libc) s.channels 0 req;
    executor = mc.set_region 0 m s.executor;
  })

  abbrev pub service_peer : Peer
  service_peer = record {
    World = Service;
    submit = λ s m req.
        let s' = after_turn s m req in
        (
          responses_of s'.channels,
          mc.region s'.executor 0,
          record s' { channels = taken s'.channels },
        );
  }
