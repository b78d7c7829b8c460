-- ===== src/Shm/Startup.antt =====
-- `PreparedChannel::connect` and `ClientChannel::create`: when the two sides find each other.
use atlas_io.Base.{ℕ, zero, suc, ◌+◌, ◌<◌, ◌≤◌, ◌≡◌, ◌≢◌, refl, ap, ◌∙◌, none, some, u32_mod, arith}
use native.Mathlib.Decide.{dec_lt}
use atlas_io.Protocol.Names.{Segment, segment_name, shm_resp_name, segment_name-injective}
use atlas_io.Shm.{Posix, Text, empty, of_errno, Result, ok}
use atlas_io.Shm.ClientSide.{
  PreparedChannel, ClientChannel, connect_loop, connect_tries, connect, prepare, create,
}
use atlas_io.Shm.ServiceSide.{ServiceChannel, join}
use atlas_io.Shm.Laws.{Same, View, IsPosix, enoent}
use atlas_io.Shm.Prepare.{KeepsInstances, KeepsInstances-trans, Prepared, prepare-Prepared}
use atlas_io.Shm.Join.{Joined, join-Joined}
use atlas_io.Shm.Connect.{
  Connected, Same-KeepsInstances, Prepared-Same, try_join-missing, try_join-Connected,
}

module _ (os : Posix) (v : View os) (posix : IsPosix os v) where
  -- In sleep `k` the service registers the instance; the other sleeps change nothing of the
  -- segments.
  pub record JoinsIn (k id : ℕ) (sleep : ℕ → os.World → os.World) : Type 0 where
    pub joins : (w : os.World) → sleep k w ≡ (join os id w).1
    pub idle : (j : ℕ) (w : os.World) → j ≢ k → Same (v.look w) (v.look (sleep j w))

  -- A round after the service has joined ends the loop.
  connect_loop-Joined :
      (sleep : ℕ → os.World → os.World) (id : ℕ) (p : PreparedChannel os) (s : ServiceChannel os)
      (w0 w : os.World) (rounds i : ℕ) (text : Text)
      → Prepared os v posix id p (v.look w0)
      → Joined os v posix id p s (v.look w)
      → (c : ClientChannel os) × (w' : os.World) × (connect_loop os sleep p (suc rounds) i text w
          ≡ (ok c, w'))
        × Connected os v posix c s (v.look w')
        × Same (v.look w) (v.look w')
  unfolding connect_loop
  connect_loop-Joined sleep id p s w0 w rounds i text prep j =
      let (c, w', e, both, same) = try_join-Connected os v posix id p s (v.look w0) w prep j in
      (c, w', ground (arith, e), both, same)

  -- `connect` returns a channel, and a call of `join` has made the service's end of it.
  abbrev pub Meets : ℕ → Result (ClientChannel os) × os.World → Type 0
  Meets id (r, w') =
      (c : ClientChannel os) × (s : ServiceChannel os) × (u : os.World) × (r ≡ ok c)
      × ((join os id u).0 ≡ ok s)
      × Connected os v posix c s (v.look w')

  abbrev Starts : ℕ → os.World → Result (ClientChannel os) × os.World → Type 0
  Starts id w r = Meets id r × KeepsInstances id (v.look w) (v.look r.1)

  Starts-after :
      (id : ℕ) (w w' : os.World) (r : Result (ClientChannel os) × os.World)
      → KeepsInstances id (v.look w) (v.look w')
      → Starts id w' r
      → Starts id w r
  Starts-after id w w' r before (both, kept) = (both, KeepsInstances-trans before kept)

  -- A round that finds no response ring, and the sleep after it.
  pub connect_loop-missing :
      (sleep : ℕ → os.World → os.World) (p : PreparedChannel os) (w : os.World) (rounds i : ℕ)
      (text : Text)
      → (v.look w).linked (shm_resp_name p.instance_id) ≡ none
      → (w' : os.World) × Same (v.look w) (v.look w')
        × (connect_loop os sleep p (suc rounds) i text w
            ≡ connect_loop os sleep p rounds (suc i) (of_errno enoent) (sleep i w'))
  unfolding connect_loop
  connect_loop-missing sleep p w rounds i text gone =
      let (w', e, same) = try_join-missing os v posix p w gone in (w', same, ground (arith, e))

  connect_loop-Starts :
      (k id : ℕ) (sleep : ℕ → os.World → os.World) (p : PreparedChannel os) (w : os.World)
      (rounds i : ℕ) (text : Text)
      → id < u32_mod
      → JoinsIn k id sleep
      → Prepared os v posix id p (v.look w)
      → i ≤ k
      → k + 1 < i + rounds
      → Starts id w (connect_loop os sleep p rounds i text w)
  connect_loop-Starts k id sleep p w zero i text h joins prep le lt = absurd (omega arith)
  connect_loop-Starts k id sleep p w (suc zero) i text h joins prep le lt = absurd (omega arith)
  connect_loop-Starts k id sleep p w (suc (suc rounds)) i text h joins prep le lt =
      let gone =
        ap (λ i. (v.look w).linked (shm_resp_name i)) prep.instance_id ∙ prep.responses_at in
      let (w1, same, e) = connect_loop-missing sleep p w (suc rounds) i text gone in
      let prep1 = Prepared-Same os v posix id p prep same in
      let kept1 = Same-KeepsInstances os v posix id same in
      elim (dec_lt i k) [
        | yes early ↦
            let quiet = joins.idle i w1 (λ e. omega (arith, e)) in
            rw e (
              Starts-after id w (sleep i w1) _
                (KeepsInstances-trans kept1 (Same-KeepsInstances os v posix id quiet))
                (connect_loop-Starts k id sleep p (sleep i w1) (suc rounds) (suc i)
                  (of_errno enoent) h joins (Prepared-Same os v posix id p prep1 quiet)
                  (omega arith) (omega arith)))
        | no late ↦
            let (s, w2, joined, j, kept2) = join-Joined os v posix id p w1 h prep1 in
            let slept : sleep i w1 ≡ w2 =
              ap (λ i. sleep i w1) (omega arith) ∙ joins.joins w1 ∙ ap (λ r. r.1) joined in
            let (c, w3, done, both, same3) =
              connect_loop-Joined sleep id p s w1 w2 rounds (suc i) (of_errno enoent) prep1 j in
            rw (e, slept, done)
              (
                (c, s, w1, refl, ap (λ r. r.0) joined, both),
                KeepsInstances-trans kept1
                    (KeepsInstances-trans kept2 (Same-KeepsInstances os v posix id same3)),
              )
      ]

  pub create-connect :
      (id : ℕ) (sleep : ℕ → os.World → os.World) (p : PreparedChannel os) (w w1 : os.World)
      → prepare os id w ≡ (ok p, w1)
      → create os sleep id w ≡ connect os sleep p w1
  unfolding create
  create-connect id sleep p w w1 e = ground (arith, e)

  create-Starts :
      (k id : ℕ) (sleep : ℕ → os.World → os.World) (w : os.World)
      → id < u32_mod
      → JoinsIn k id sleep
      → k + 1 < connect_tries
      → Starts id w (create os sleep id w)
  unfolding connect
  create-Starts k id sleep w h joins lt =
      let (p, w1, e, prep, kept) = prepare-Prepared os v posix id w h in
      rw (create-connect id sleep p w w1 e) (
        Starts-after id w w1 _ kept (
          connect_loop-Starts k id sleep p w1 connect_tries 0 empty h joins prep (omega arith)
            (omega (arith, lt))))

  -- Whatever segments are left from before: if the service registers the instance in one of the
  -- sleeps of `ClientChannel::create`, the last one excepted, and nothing else happens to the
  -- segments in the sleeps, then `create` returns a channel. Its two rings and its data region are
  -- those of the channel that `ServiceChannel::join` has made, three different segments, the rings
  -- are empty and all the four handles stand at their start.
  pub create-Meets :
      (k id : ℕ) (sleep : ℕ → os.World → os.World) (w : os.World)
      → id < u32_mod
      → JoinsIn k id sleep
      → k + 1 < connect_tries
      → Meets id (create os sleep id w)
  create-Meets k id sleep w h joins lt = (create-Starts k id sleep w h joins lt).0

  -- Meanwhile every segment of another instance stays: its name refers to the same object, and
  -- nothing is written to that.
  pub create_others_stay :
      (k id b o : ℕ) (s : Segment) (sleep : ℕ → os.World → os.World) (w : os.World)
      → id < u32_mod
      → b < u32_mod
      → b ≢ id
      → JoinsIn k id sleep
      → k + 1 < connect_tries
      → (v.look w).linked (segment_name s b) ≡ some o
      → ((v.look (create os sleep id w).1).linked (segment_name s b) ≡ some o)
        × ((v.look (create os sleep id w).1).content s o ≡ (v.look w).content s o)
  create_others_stay k id b o s sleep w h h' ne joins lt at =
      let kept = (create-Starts k id sleep w h joins lt).1 in
      let apart = λ (t : Segment) (same : segment_name s b ≡ segment_name t id).
        ne (segment_name-injective s t b id h' h same).1 in
      (kept.linked (segment_name s b) apart ∙ at, kept.content (segment_name s b) o apart at s)

  -- The order that the tests of atlas-service/src/channel.rs and the documentation of `AtlasClient`
  -- use: `PreparedChannel::create`, `ServiceChannel::join`, `PreparedChannel::connect`. All three
  -- succeed, `connect` in its first round, and the two channels fit as in `create-Meets`.
  pub connect-Connected :
      (id : ℕ) (sleep : ℕ → os.World → os.World) (w : os.World)
      → id < u32_mod
      → (p : PreparedChannel os) × (w1 : os.World) × (prepare os id w ≡ (ok p, w1))
        × (s : ServiceChannel os) × (w2 : os.World) × (join os id w1 ≡ (ok s, w2))
        × (c : ClientChannel os) × (w3 : os.World) × (connect os sleep p w2 ≡ (ok c, w3))
        × Connected os v posix c s (v.look w3)
  unfolding connect
  connect-Connected id sleep w h =
      let (p, w1, prepared, prep, _) = prepare-Prepared os v posix id w h in
      let (s, w2, joined, j, _) = join-Joined os v posix id p w1 h prep in
      let (c, w3, done, both, _) = connect_loop-Joined sleep id p s w1 w2 199 0 empty prep j in
      (p, w1, prepared, s, w2, joined, c, w3, done, both)
