-- ===== src/Channel.antt =====
-- atlas-service/src/channel.rs: the service's end of a channel. The rings are those of
-- atlas-protocol/src/spsc.rs; here they stand as what is in them.
use atlas_io.Base.{ℕ, zero, suc, ◌≡◌, refl, ap, Option, none, some, List, [], ◌∷◌, ◌++◌, length}
use atlas_io.Protocol.{IoRequest, IoResponse}

-- `requests` are in the request ring, and `sent` is what has been pushed on the response ring.
pub record ServiceChannel : Type 0 where
  pub instance_id : ℕ
  pub requests : List IoRequest
  pub sent : List IoResponse

abbrev pub poll_request : ServiceChannel → Option IoRequest × ServiceChannel
poll_request c = elim c.requests [
  | [] ↦ (none, c)
  | req ∷ rest ↦ (some req, record c { requests = rest })
]

-- `send_response` tries until the ring takes the response.
abbrev pub send_response : ServiceChannel → IoResponse → ServiceChannel
send_response c resp = record c { sent = c.sent ++ resp ∷ [] }

-- `self.channels[i].send_response(resp)`; the index of a request is that of its channel, so it is
-- never out of range.
abbrev pub send_at : List ServiceChannel → ℕ → IoResponse → List ServiceChannel
send_at [] i resp = []
send_at (c ∷ cs) zero resp = send_response c resp ∷ cs
send_at (c ∷ cs) (suc i) resp = c ∷ send_at cs i resp

pub length-send_at :
    (cs : List ServiceChannel) (i : ℕ) (resp : IoResponse) → length (send_at cs i resp) ≡ length cs
length-send_at [] i resp = refl
length-send_at (c ∷ cs) zero resp = refl
length-send_at (c ∷ cs) (suc i) resp = ap suc (length-send_at cs i resp)
