-- ===== src/Shm/Refine.antt =====
-- The channel of `atlas_io.Channel`, which the service works with, and the rings in shared memory.
use atlas_io.Base.{
  ℕ, suc, ◌≡◌, refl, sym, ap, ◌∙◌, subst, some, List, [], ◌∷◌, ◌++◌, length, arith, append_assoc,
  ◌==◌, true, false, if◌then◌else◌, Bool-cases, inl, inr,
}
use atlas_io.Protocol.{IoResponse, ring_capacity}
use atlas_io.Spsc.{Pushed, ring_full}
use atlas_io.Spsc.Fifo.{add_newest, take_oldest}
use atlas_io.Channel as Channel
use atlas_io.Shm.{Posix}
use atlas_io.Shm.ClientSide.{ClientChannel}
use atlas_io.Shm.ServiceSide.{ServiceChannel}
use atlas_io.Shm.Messages.{poll_request, push_response, send_response, pop_response}
use atlas_io.Shm.Laws.{Segments, View, IsPosix}
use atlas_io.Shm.Link.{Linked, poll_request-Linked, push_response-Linked, pop_response-Linked}

-- The two descriptions of taking a request.
polled :
    (ch : Channel.ServiceChannel)
    → ((Channel.poll_request ch).0 ≡ (take_oldest ch.requests).0)
      × ((Channel.poll_request ch).1.requests ≡ (take_oldest ch.requests).1)
      × ((Channel.poll_request ch).1.sent ≡ ch.sent)
      × ((Channel.poll_request ch).1.instance_id ≡ ch.instance_id)
unfolding take_oldest
polled ch =
    elim ch.requests
      as (λ q.
        let c = record ch { requests = q } in
        ((Channel.poll_request c).0 ≡ (take_oldest q).0)
        × ((Channel.poll_request c).1.requests ≡ (take_oldest q).1)
        × ((Channel.poll_request c).1.sent ≡ ch.sent)
        × ((Channel.poll_request c).1.instance_id ≡ ch.instance_id)) [
          | [] ↦ (refl, refl, refl, refl)
          | req ∷ rest ↦ (refl, refl, refl, refl)
        ]

add_newest-room :
    (q : List IoResponse) (resp : IoResponse)
    → (length q == ring_capacity) ≡ false
    → add_newest ring_capacity q resp ≡ (Pushed.ok, q ++ resp ∷ [])
unfolding add_newest
add_newest-room q resp room = rw room refl

add_newest-full :
    (q : List IoResponse) (resp : IoResponse)
    → (length q == ring_capacity) ≡ true
    → add_newest ring_capacity q resp ≡ (Pushed.err ring_full, q)
unfolding add_newest
add_newest-full q resp full = rw full refl

-- A full queue has a value to take, and room afterwards.
take_oldest-full :
    (q : List IoResponse)
    → (length q == ring_capacity) ≡ true
    → (resp : IoResponse) × (rest : List IoResponse) × (q ≡ resp ∷ rest)
      × (take_oldest q ≡ (some resp, rest))
      × ((length rest == ring_capacity) ≡ false)
unfolding take_oldest
take_oldest-full [] full = absurd (ground arith)
take_oldest-full (resp ∷ rest) full = (resp, rest, refl, refl, ground arith)

module _ (os : Posix) (v : View os) (posix : IsPosix os v) where
  -- The rings hold the requests of the channel, and the last of the responses that it has sent; the
  -- client has taken the others.
  pub record Represents (ch : Channel.ServiceChannel) (c : ClientChannel os) (s : ServiceChannel os)
      (st : Segments) : Type 0 where
    pub taken : List IoResponse
    pub pending : List IoResponse
    pub sent : ch.sent ≡ taken ++ pending
    pub linked : Linked os v posix c s st ch.requests pending
    pub instance_id : s.instance_id ≡ ch.instance_id

  module _ {ch : Channel.ServiceChannel} {c : ClientChannel os} {s : ServiceChannel os}
      {w : os.World} (r : Represents ch c s (v.look w)) where
    poll_request-Represents :
        ((poll_request os s w).0 ≡ (Channel.poll_request ch).0)
        × Represents
            (Channel.poll_request ch).1
            c
            (poll_request os s w).1
            (v.look (poll_request os s w).2)
    unfolding poll_request
    poll_request-Represents =
        let (got, l) = poll_request-Linked os v posix r.linked in
        let (same, rest, sent, id) = polled ch in
        (
          got ∙ sym same,
          record {
            taken = r.taken;
            pending = r.pending;
            sent = sent ∙ r.sent;
            linked = rw rest l;
            instance_id = r.instance_id ∙ sym id;
          },
        )

    -- A try of `send_response` when the ring is not full, and one when it is.
    push_response-room :
        (resp : IoResponse)
        → (length r.pending == ring_capacity) ≡ false
        → ((push_response os s resp w).0 ≡ Pushed.ok)
          × Represents
              (Channel.send_response ch resp)
              c
              (push_response os s resp w).1
              (v.look (push_response os s resp w).2)
    unfolding push_response
    push_response-room resp room =
        let (result, l) = push_response-Linked os v posix r.linked resp in
        let added = add_newest-room r.pending resp room in
        (
          result ∙ ap (λ x. x.0) added,
          record {
            taken = r.taken;
            pending = r.pending ++ resp ∷ [];
            sent = ap (λ xs. xs ++ resp ∷ []) r.sent ∙ append_assoc r.taken r.pending (resp ∷ []);
            linked = subst (Linked os v posix c _ _ ch.requests) (ap (λ x. x.1) added) l;
            instance_id = r.instance_id;
          },
        )

    push_response-full :
        (resp : IoResponse)
        → (length r.pending == ring_capacity) ≡ true
        → ((push_response os s resp w).0 ≡ Pushed.err ring_full)
          × (r' : Represents ch c
              (push_response os s resp w).1
              (v.look (push_response os s resp w).2))
          × ((length r'.pending == ring_capacity) ≡ true)
    unfolding push_response
    push_response-full resp full =
        let (result, l) = push_response-Linked os v posix r.linked resp in
        let refused = add_newest-full r.pending resp full in
        (
          result ∙ ap (λ x. x.0) refused,
          record {
            taken = r.taken;
            pending = r.pending;
            sent = r.sent;
            linked = subst (Linked os v posix c _ _ ch.requests) (ap (λ x. x.1) refused) l;
            instance_id = r.instance_id;
          },
          full,
        )

    -- The client takes one response.
    pop_response-full :
        (length r.pending == ring_capacity) ≡ true
        → (r' : Represents ch (pop_response os c w).1 s (v.look (pop_response os c w).2)) × ((length
                r'.pending
              == ring_capacity)
            ≡ false)
    pop_response-full full =
        let (resp, rest, e, took, room) = take_oldest-full r.pending full in
        let (_, l) = pop_response-Linked os v posix r.linked in
        (
          record {
            taken = r.taken ++ resp ∷ [];
            pending = rest;
            sent = r.sent ∙ ap (λ q. r.taken ++ q) e ∙ sym (append_assoc r.taken (resp ∷ []) rest);
            linked = subst (Linked os v posix _ _ _ _) (ap (λ x. x.1) took) l;
            instance_id = r.instance_id;
          },
          room,
        )

  send_response-ok :
      (yields : ℕ → os.World → os.World) (tries i : ℕ) (s : ServiceChannel os) (resp : IoResponse)
      (w : os.World)
      → (push_response os s resp w).0 ≡ Pushed.ok
      → send_response os yields (suc tries) i s resp w
        ≡ some ((push_response os s resp w).1, (push_response os s resp w).2)
  unfolding send_response
  send_response-ok yields tries i s resp w e = ground (arith, e)

  send_response-err :
      (yields : ℕ → os.World → os.World) (tries i : ℕ) (s : ServiceChannel os) (resp : IoResponse)
      (w : os.World)
      → (push_response os s resp w).0 ≡ Pushed.err ring_full
      → send_response os yields (suc tries) i s resp w
        ≡ send_response os yields tries
            (suc i)
            (push_response os s resp w).1
            resp
            (yields i (push_response os s resp w).2)
  unfolding send_response
  send_response-err yields tries i s resp w e = ground (arith, e)

  -- The channel over shared memory does what the service takes it for. `poll_request` gives the
  -- oldest waiting request, or nothing. `send_response` returns after one try when the ring has
  -- room, and after two when it is full and the client takes a response while the service yields
  -- after the first; then the response is behind those sent before.
  pub Represents-refines :
      (ch : Channel.ServiceChannel) (c : ClientChannel os) (s : ServiceChannel os) (w : os.World)
      (resp : IoResponse) (tries : ℕ) (yields : ℕ → os.World → os.World)
      → (r : Represents ch c s (v.look w)) → ((w : os.World) → yields 0 w ≡ (pop_response os c w).2)
      → (((poll_request os s w).0 ≡ (Channel.poll_request ch).0)
          × Represents
              (Channel.poll_request ch).1
              c
              (poll_request os s w).1
              (v.look (poll_request os s w).2))
        × ((c' : ClientChannel os) × (s' : ServiceChannel os) × (w' : os.World) × (send_response os
                yields
                (suc (if length r.pending == ring_capacity then suc tries else tries))
                0
                s
                resp
                w
              ≡ some (s', w'))
            × Represents (Channel.send_response ch resp) c' s' (v.look w'))
  Represents-refines ch c s w resp tries yields r pops = (
    poll_request-Represents r,
    elim (Bool-cases (length r.pending == ring_capacity)) [
      | inr room ↦
          let (sent, r') = push_response-room r resp room in
          (c, _, _, send_response-ok yields _ 0 s resp w sent, r')
      | inl full ↦
          let (refused, r1, full1) = push_response-full r resp full in
          let (r2, room) = pop_response-full r1 full1 in
          let (sent, r') = push_response-room r2 resp room in
          let (_, s1, w1) = push_response os s resp w in
          (
            _,
            _,
            _,
            ap (λ b. send_response os yields (suc (if b then suc tries else tries)) 0 s resp w) full
                ∙ send_response-err yields (suc tries) 0 s resp w refused
                ∙ ap (send_response os yields (suc tries) 1 s1 resp) (pops w1)
                ∙ send_response-ok yields tries 1 s1 resp (pop_response os c w1).2 sent,
            r',
          )
    ],
  )
