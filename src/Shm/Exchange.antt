-- ===== src/Shm/Exchange.antt =====
-- `ClientChannel::send_request` against a service that polls and answers.
use mathlib.Core.Option
use atlas_io.Base.{ℕ, suc, ◌≡◌, refl, Option, none, some, List, [], ◌∷◌, map, arith}
use atlas_io.Protocol.{IoRequest, IoResponse}
use atlas_io.Spsc.Fifo.{add_newest, take_oldest}
use atlas_io.Shm.{Posix}
use atlas_io.Shm.ClientSide.{ClientChannel}
use atlas_io.Shm.ServiceSide.{ServiceChannel}
use atlas_io.Shm.Messages.{
  push_loop, receive_loop, send_request, poll_request, push_response, send_response,
}
use atlas_io.Shm.Laws.{View, IsPosix}
use atlas_io.Shm.Connect.{Connected}
use atlas_io.Shm.Link.{
  Linked, Connected-Linked, push_request-Linked, poll_request-Linked, push_response-Linked,
  pop_response-Linked,
}

module _ (os : Posix) (answer : IoRequest → IoResponse) where
  -- A service that polls once and answers what it has got.
  abbrev pub serve : ServiceChannel os × os.World → ServiceChannel os × os.World
  serve (s, w) =
      let (req, s', w') = poll_request os s w in
      elim req [
        | none ↦ (s', w')
        | some req ↦ elim (send_response os (λ _ w. w) 1 0 s' (answer req) w') [
          | none ↦ (s', w')
          | some sent ↦ sent
        ]
      ]

  -- Calls of `send_request` one after the other, with that many rounds each, while the service
  -- serves in every yield: the responses, if all calls return.
  abbrev pub answers_to :
      ℕ
      → ClientChannel os
      → List IoRequest
      → ServiceChannel os × os.World
      → Option (List IoResponse)
  answers_to rounds c [] sw = some []
  answers_to rounds c (req ∷ reqs) sw = elim (send_request os (λ _. serve) rounds c req sw) [
    | none ↦ none
    | some back ↦ Option.map (◌∷◌ back.0) (answers_to rounds back.1 reqs (back.2, back.3))
  ]

module _ (os : Posix) (v : View os) (posix : IsPosix os v) (answer : IoRequest → IoResponse) where
  serve-Linked :
      {c : ClientChannel os} {s : ServiceChannel os} {w : os.World} (req : IoRequest)
      → Linked os v posix c s (v.look w) (req ∷ []) []
      → Linked os v posix c
          (serve os answer (s, w)).0
          (v.look (serve os answer (s, w)).1)
          []
          (answer req ∷ [])
  unfolding send_response add_newest take_oldest
  serve-Linked {c} {s} {w} req l =
      let (got, l1) = poll_request-Linked os v posix l in
      let (sent, l2) = push_response-Linked os v posix l1 (answer req) in
      let (_, s1, w1) = poll_request os s w in
      let (_, s2, w2) = push_response os s1 (answer req) w1 in
      let same : serve os answer (s, w) ≡ (s2, w2) = ground (arith, got, sent) in rw same l2

  send_request-Linked :
      {c : ClientChannel os} {s : ServiceChannel os} {w : os.World} (req : IoRequest) (rounds : ℕ)
      → (answer req).id ≡ req.id
      → Linked os v posix c s (v.look w) [] []
      → (c' : ClientChannel os) × (s' : ServiceChannel os) × (w' : os.World) × (send_request os
            (λ _. serve os answer)
            (suc (suc rounds))
            c
            req
            (s, w)
          ≡ some (answer req, c', s', w'))
        × Linked os v posix c' s' (v.look w') [] []
  unfolding send_request push_loop receive_loop add_newest take_oldest
  send_request-Linked {c} {s} {w} req rounds own l =
      let (sent, l1) = push_request-Linked os v posix l req in
      let (nothing, l2) = pop_response-Linked os v posix l1 in
      let l3 = serve-Linked req l2 in
      let (back, l4) = pop_response-Linked os v posix l3 in
      (_, _, _, ground (arith, sent, nothing, back, own), l4)

  answers_to-Linked :
      (reqs : List IoRequest) (rounds : ℕ) {c : ClientChannel os} {s : ServiceChannel os}
      {w : os.World}
      → ((req : IoRequest) → (answer req).id ≡ req.id)
      → Linked os v posix c s (v.look w) [] []
      → answers_to os answer (suc (suc rounds)) c reqs (s, w) ≡ some (map answer reqs)
  answers_to-Linked [] rounds own l = refl
  answers_to-Linked (req ∷ reqs) rounds own l =
      let (c', s', w', e, l') = send_request-Linked req rounds (own req) l in
      ground (arith, e, answers_to-Linked reqs rounds own l')

  -- After the startup the client's calls of `send_request` are answered one after the other: each
  -- returns the service's response to its own request, after at most two rounds of either loop, when
  -- the service polls its channel once in every yield of the client and sends a response with the
  -- identifier of the request.
  pub answers_to-map :
      (c : ClientChannel os) (s : ServiceChannel os) (w : os.World) (reqs : List IoRequest)
      (rounds : ℕ)
      → ((req : IoRequest) → (answer req).id ≡ req.id)
      → Connected os v posix c s (v.look w)
      → answers_to os answer (suc (suc rounds)) c reqs (s, w) ≡ some (map answer reqs)
  answers_to-map c s w reqs rounds own both =
      answers_to-Linked reqs rounds own (Connected-Linked os v posix c s (v.look w) both)
