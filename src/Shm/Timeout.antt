-- ===== src/Shm/Timeout.antt =====
-- `ClientChannel::create` when no response ring appears.
use atlas_io.Base.{ℕ, zero, suc, ◌<◌, ◌≡◌, sym, ap, ◌∙◌, none, u32_mod}
use atlas_io.Protocol.Names.{shm_resp_name}
use atlas_io.Shm.{Posix, Text, empty, of_errno, timeout_joining, other, err}
use atlas_io.Shm.ClientSide.{PreparedChannel, connect_loop, connect, create}
use atlas_io.Shm.Laws.{View, IsPosix, enoent}
use atlas_io.Shm.Prepare.{prepare-Prepared}
use atlas_io.Shm.Startup.{connect_loop-missing, create-connect}

module _ (os : Posix) (v : View os) (posix : IsPosix os v) where
  connect_loop_timeout :
      (sleep : ℕ → os.World → os.World) (p : PreparedChannel os) (w : os.World) (rounds i : ℕ)
      (text : Text)
      → ((j : ℕ) (w : os.World)
          → (v.look w).linked (shm_resp_name p.instance_id) ≡ none
          → (v.look (sleep j w)).linked (shm_resp_name p.instance_id) ≡ none)
      → (v.look w).linked (shm_resp_name p.instance_id) ≡ none
      → (connect_loop os sleep p (suc rounds) i text w).0
        ≡ err (other (timeout_joining (of_errno enoent)))
  unfolding connect_loop
  connect_loop_timeout sleep p w zero i text never gone =
      let (w1, same, e) = connect_loop-missing os v posix sleep p w zero i text gone in
      ap (λ r. r.0) e
  connect_loop_timeout sleep p w (suc rounds) i text never gone =
      let (w1, same, e) = connect_loop-missing os v posix sleep p w (suc rounds) i text gone in
      ap (λ r. r.0) e
      ∙ connect_loop_timeout sleep p (sleep i w1) rounds (suc i) (of_errno enoent) never
          (never i w1 (same.linked (shm_resp_name p.instance_id) ∙ gone))

  -- Unless the response ring is made in one of the sleeps, `ClientChannel::create` ends in the
  -- timeout, with the text of `ENOENT`: also when the service has registered the instance before,
  -- since `create` begins by removing the segments that it has joined.
  pub create_timeout :
      (id : ℕ) (sleep : ℕ → os.World → os.World) (w : os.World)
      → id < u32_mod
      → ((j : ℕ) (w : os.World)
          → (v.look w).linked (shm_resp_name id) ≡ none
          → (v.look (sleep j w)).linked (shm_resp_name id) ≡ none)
      → (create os sleep id w).0 ≡ err (other (timeout_joining (of_errno enoent)))
  unfolding connect
  create_timeout id sleep w h never =
      let (p, w1, e, prep, _) = prepare-Prepared os v posix id w h in
      let never' =
        λ (j : ℕ) (w : os.World) (gone : (v.look w).linked (shm_resp_name p.instance_id) ≡ none).
          ap (λ i. (v.look (sleep j w)).linked (shm_resp_name i)) prep.instance_id
          ∙ never j w
              (ap (λ i. (v.look w).linked (shm_resp_name i)) (sym prep.instance_id) ∙ gone) in
      let gone =
        ap (λ i. (v.look w1).linked (shm_resp_name i)) prep.instance_id ∙ prep.responses_at in
      rw (create-connect os v posix id sleep p w w1 e)
        (connect_loop_timeout sleep p w1 199 0 empty never' gone)
