-- ===== src/Shm/Messages.antt =====
-- atlas-service/src/channel.rs and atlas-client/src/channel.rs: requests and responses over the
-- rings of a channel.
use atlas_io.Base.{ℕ, zero, suc, Option, none, some, ◌==◌, if◌then◌else◌}
use atlas_io.Protocol.{IoRequest, IoResponse, ring_capacity}
use atlas_io.Protocol.Names.{requests, responses}
use atlas_io.Spsc.{Pushed, push, pop}
use atlas_io.Shm.{Posix}
use atlas_io.Shm.ClientSide.{ClientChannel}
use atlas_io.Shm.ServiceSide.{ServiceChannel}

module _ (os : Posix) where
  -- `poll_request`. What `pop` loads and stores is taken together here.
  unfoldable pub poll_request :
      ServiceChannel os → os.World → Option IoRequest × ServiceChannel os × os.World
  poll_request s w =
      let (req, ring, req_rx) = pop ring_capacity (os.load requests s.req_ring w) s.req_rx in
      (req, record s { req_rx = req_rx }, os.store requests s.req_ring ring w)

  -- `self.resp_tx.push(resp)`
  unfoldable pub push_response :
      ServiceChannel os → IoResponse → os.World → Pushed × ServiceChannel os × os.World
  push_response s resp w =
      let (result, ring, resp_tx) =
        push ring_capacity (os.load responses s.resp_ring w) s.resp_tx resp in
      (result, record s { resp_tx = resp_tx }, os.store responses s.resp_ring ring w)

  -- `send_response`, for that many tries from try `i` on; with none left it is still trying. While
  -- it yields after try `i` the other processes take the world to `yields i` of it.
  unfoldable pub send_response :
      (ℕ → os.World → os.World)
      → ℕ
      → ℕ
      → ServiceChannel os
      → IoResponse
      → os.World
      → Option (ServiceChannel os × os.World)
  send_response yields zero i s resp w = none
  send_response yields (suc tries) i s resp w =
      let (result, s', w') = push_response s resp w in
      elim result [
        | Pushed.ok ↦ some (s', w')
        | Pushed.err _ ↦ send_response yields tries (suc i) s' resp (yields i w')
      ]

  -- `self.req_tx.push(req)`. What `push` loads and stores is taken together here.
  unfoldable pub push_request :
      ClientChannel os → IoRequest → os.World → Pushed × ClientChannel os × os.World
  push_request c req w =
      let (result, ring, req_tx) =
        push ring_capacity (os.load requests c.req_ring w) c.req_tx req in
      (result, record c { req_tx = req_tx }, os.store requests c.req_ring ring w)

  -- `self.resp_rx.pop()`
  unfoldable pub pop_response :
      ClientChannel os → os.World → Option IoResponse × ClientChannel os × os.World
  pop_response c w =
      let (resp, ring, resp_rx) = pop ring_capacity (os.load responses c.resp_ring w) c.resp_rx in
      (resp, record c { resp_rx = resp_rx }, os.store responses c.resp_ring ring w)

  -- The two loops of `send_request`, for that many rounds from round `i` on; with none left the call
  -- has not returned. `X` is the state of the other processes, and `yields i` what they do while the
  -- client yields in round `i`.
  module _ {X : Type 0} (yields : ℕ → X × os.World → X × os.World) where
    unfoldable pub push_loop :
        ℕ
        → ℕ
        → ClientChannel os
        → IoRequest
        → X × os.World
        → Option (ClientChannel os × X × os.World)
    push_loop zero i c req (x, w) = none
    push_loop (suc rounds) i c req (x, w) =
        let (result, c', w') = push_request c req w in
        elim result [
          | Pushed.ok ↦ some (c', x, w')
          | Pushed.err _ ↦ push_loop rounds (suc i) c' req (yields i (x, w'))
        ]

    unfoldable pub receive_loop :
        ℕ
        → ℕ
        → ClientChannel os
        → ℕ
        → X × os.World
        → Option (IoResponse × ClientChannel os × X × os.World)
    receive_loop zero i c id (x, w) = none
    receive_loop (suc rounds) i c id (x, w) =
        let (resp, c', w') = pop_response c w in
        let next = receive_loop rounds (suc i) c' id (yields i (x, w')) in
        elim resp [
          | none ↦ next
          | some resp ↦ if resp.id == id then some (resp, c', x, w') else next
        ]

    -- `send_request`
    unfoldable pub send_request :
        ℕ
        → ClientChannel os
        → IoRequest
        → X × os.World
        → Option (IoResponse × ClientChannel os × X × os.World)
    send_request rounds c req xw = elim (push_loop rounds 0 c req xw) [
      | none ↦ none
      | some sent ↦ receive_loop rounds 0 sent.0 req.id (sent.1, sent.2)
    ]
