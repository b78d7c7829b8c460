-- ===== src/Client/Calls.antt =====
-- `send_request`: which response a call gets.
use atlas_io.Base.{
  ℕ, ◌≡◌, ◌≢◌, refl, none, some, List, [], ◌∷◌, ◌++◌, All, arith, ◌==◌, true, false, ne→==,
}
use atlas_io.Protocol.{IoResponse}
use atlas_io.Client.{receive}

-- A call gets the first response with its own identifier: late responses to earlier calls are
-- dropped on the way, later ones stay for the next call, and while there are only such of others
-- the call goes on waiting.
pub receive_lem :
    (id : ℕ) (early rest : List IoResponse) (resp : IoResponse)
    → All (λ r. r.id ≢ id) early
    → resp.id ≡ id
    → (receive id (early ++ resp ∷ rest) ≡ some (resp, rest)) × (receive id early ≡ none)
unfolding receive
receive_lem id [] rest resp others own =
    let test : (resp.id == id) ≡ true = ground arith in (rw test refl, refl)
receive_lem id (r ∷ early) rest resp others own =
    let test : (r.id == id) ≡ false = ne→== r.id id others.0 in
    let (found, waits) = receive_lem id early rest resp others.1 own in
    (rw (test, receive) found, rw (test, receive) waits)
