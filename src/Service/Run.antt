-- ===== src/Service/Run.antt =====
-- atlas-service/src/service.rs: the loop of `run`.
pub mod Polling
pub mod Frame
pub mod Exactly
use mathlib.Core.List.Perm
use atlas_io.Base.{ℕ, zero, suc, ◌+◌, List, [], ◌∷◌, ◌++◌, if◌then◌else◌}
use atlas_io.Protocol.{IoRequest}
use atlas_io.Batch.{TaggedRequest}
use atlas_io.Pipeline.{Pipeline}
use atlas_io.Channel.{ServiceChannel}
use atlas_io.Executor.{IoExecutor}
use atlas_io.Service.{AtlasService, execute_round}

module _ (p : Pipeline) (ex : IoExecutor) where
  -- The `while let` of `run` on one channel: all that is in its request ring.
  unfoldable pub poll_channel : p.State → ℕ → List IoRequest → p.State
  poll_channel st i [] = st
  poll_channel st i (req ∷ reqs) = poll_channel (p.add st req i) i reqs

  -- The `for` over the channels.
  unfoldable pub poll_channels : p.State → ℕ → List ServiceChannel → p.State × List ServiceChannel
  poll_channels st i [] = (st, [])
  poll_channels st i (c ∷ cs) =
      let (st', cs') = poll_channels (poll_channel st i c.requests) (suc i) cs in
      (st', record c { requests = [] } ∷ cs')

  -- One turn of the `while`.
  unfoldable pub turn : AtlasService p ex → AtlasService p ex
  turn s =
      let (st, cs) = poll_channels s.pipeline 0 s.channels in
      if p.is_empty st
      then record s { pipeline = st; channels = cs }
      else execute_round p ex (record s { pipeline = (p.drain st).1; channels = cs }) (p.drain st).0

  -- A client puts a request on the ring of a channel.
  abbrev pub arrive : List ServiceChannel → ℕ → IoRequest → List ServiceChannel
  arrive [] i req = []
  arrive (c ∷ cs) zero req = record c { requests = c.requests ++ req ∷ [] } ∷ cs
  arrive (c ∷ cs) (suc i) req = c ∷ arrive cs i req

  abbrev pub arrive_all : List ServiceChannel → List TaggedRequest → List ServiceChannel
  arrive_all cs [] = cs
  arrive_all cs (x ∷ xs) = arrive_all (arrive cs x.channel_idx x.req) xs

  -- `run` for as many turns as there are lists: each is what arrives before the turn, and then
  -- `running` is false.
  pub run : AtlasService p ex → List (List TaggedRequest) → AtlasService p ex
  run s [] = s
  run s (xs ∷ turns) = run (turn (record s { channels = arrive_all s.channels xs })) turns
