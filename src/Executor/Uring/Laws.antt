-- ===== src/Executor/Uring/Laws.antt =====
-- What the ring of the kernel does, as `IoUringExecutor` of atlas-service/src/executor.rs uses it.
use atlas_io.Base.{
  Bool, Bool-cases, inl, inr, ltb, ℕ, suc, ◌+◌, ◌≤◌, ◌<◌, ◌≡◌, refl, sym, ap, ◌∙◌, true, false,
  none, some, List, [], ◌∷◌, ◌++◌, append_assoc, append-nil, length, length-snoc, arith,
}
use atlas_io.Executor.{BatchOp}
use atlas_io.Executor.Uring.{Ring, Entry, build_entries, push_all}

-- `queued` is the submission queue, which has `size` places, and `taken` what the kernel has taken
-- out of it so far. `goes` says that the next submission succeeds; one that fails leaves the queue
-- as it is.
pub record IsRing (ring : Ring) : Type 0 where
  pub size : ℕ
  pub queued : ring.World → List Entry
  pub taken : ring.World → List Entry
  pub goes : ring.World → Bool
  pub push-room :
      (w : ring.World) (e : Entry)
      → length (queued w) < size
      → ((ring.push w e).0 ≡ true)
        × (queued (ring.push w e).1 ≡ queued w ++ e ∷ [])
        × (taken (ring.push w e).1 ≡ taken w)
  pub push-full :
      (w : ring.World) (e : Entry) → size ≤ length (queued w) → (ring.push w e).0 ≡ false
  pub submits :
      (w : ring.World) (n : ℕ)
      → goes w ≡ true
      → (queued (ring.submit_and_wait w n) ≡ [])
        × (taken (ring.submit_and_wait w n) ≡ taken w ++ queued w)
  pub fails :
      (w : ring.World) (n : ℕ)
      → goes w ≡ false
      → (queued (ring.submit_and_wait w n) ≡ queued w)
        × (taken (ring.submit_and_wait w n) ≡ taken w)
  pub completions-keep :
      (w : ring.World)
      → (queued (ring.completions w).1 ≡ queued w) × (taken (ring.completions w).1 ≡ taken w)

pub length-build_entries :
    (tag : ℕ) (ops : List BatchOp) → length (build_entries tag ops) ≡ length ops
length-build_entries tag [] = refl
length-build_entries tag (op ∷ ops) = ap suc (length-build_entries (suc tag) ops)

module _ (ring : Ring) (io : IsRing ring) where
  -- A chunk that the queue has room for is pushed.
  pub push_all-room :
      (es : List Entry) (w : ring.World)
      → length (io.queued w) + length es ≤ io.size
      → (w' : ring.World) × (push_all ring es w ≡ some w')
        × (io.queued w' ≡ io.queued w ++ es)
        × (io.taken w' ≡ io.taken w)
  unfolding push_all
  push_all-room [] w h = (w, refl, sym (append-nil (io.queued w)), refl)
  push_all-room (e ∷ es) w h =
      let (ok, queue, took) = io.push-room w e (omega (arith, h)) in
      let w1 = (ring.push w e).1 in
      let len = ap length queue ∙ length-snoc (io.queued w) e in
      let (w', pushed, queue', took') = push_all-room es w1 (omega (arith, h, len)) in
      (
        w',
        rw ok pushed,
        queue' ∙ ap (λ q. q ++ es) queue ∙ append_assoc (io.queued w) (e ∷ []) es,
        took' ∙ took,
      )

  -- One that it has no room for makes `expect` panic.
  pub push_all-full :
      (es : List Entry) (w : ring.World)
      → length (io.queued w) ≤ io.size
      → io.size < length (io.queued w) + length es
      → push_all ring es w ≡ none
  unfolding push_all
  push_all-full [] w h k = absurd (omega (arith, h, k))
  push_all-full (e ∷ es) w h k = elim (Bool-cases (ltb (length (io.queued w)) io.size)) [
    | inr full ↦ rw (io.push-full w e (ground (arith, full))) refl
    | inl more ↦
        let room : length (io.queued w) < io.size = ground (arith, more) in
        let (ok, queue, _) = io.push-room w e room in
        let len = ap length queue ∙ length-snoc (io.queued w) e in
        rw ok
          (push_all-full es (ring.push w e).1 (omega (arith, room, len)) (omega (arith, k, len)))
  ]
