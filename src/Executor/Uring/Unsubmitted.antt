-- ===== src/Executor/Uring/Unsubmitted.antt =====
-- `IoUringExecutor` on a ring whose submissions fail.
use atlas_io.Base.{
  ℕ, zero, suc, ◌+◌, ◌≤◌, ◌<◌, ◌≡◌, refl, ap, ◌∙◌, Bool-cases, inl, inr, false, none, some, ltb,
  ltb→lt, ltb-false, List, [], ◌∷◌, take, drop, length, length-append, length-take, length-drop,
  arith,
}
use atlas_io.Executor.{BatchOp}
use atlas_io.Executor.Uring.{
  Ring, build_entries, reap, wait_and_reap, submit_chunk, run_chunks, execute_batch,
}
use atlas_io.Executor.Uring.Laws.{IsRing, push_all-room, push_all-full, length-build_entries}

module _ (ring : Ring) (io : IsRing ring) where
  -- A chunk that the queue has no room for makes `expect` panic.
  submit_chunk-full :
      (w : ring.World) (chunk : List BatchOp) (base : ℕ)
      → length (io.queued w) ≤ io.size
      → io.size < length (io.queued w) + length chunk
      → submit_chunk ring w chunk base ≡ none
  unfolding submit_chunk
  submit_chunk-full w chunk base room full = ap (wait_and_reap ring chunk base) (
      push_all-full ring io (build_entries base chunk) w room
        (omega (arith, full, length-build_entries base chunk)))

  -- One that it has room for stays in the queue.
  submit_chunk-fails :
      (w : ring.World) (chunk : List BatchOp) (base : ℕ)
      → ((v : ring.World) → io.goes v ≡ false)
      → length (io.queued w) + length chunk ≤ io.size
      → (done : List BatchOp) × (w' : ring.World) × (submit_chunk ring w chunk base
          ≡ some (done, w'))
        × (length (io.queued w') ≡ length (io.queued w) + length chunk)
  unfolding submit_chunk
  submit_chunk-fails w chunk base never room =
      let es = build_entries base chunk in
      let len = length-build_entries base chunk in
      let (w1, pushed, queue, _) = push_all-room ring io es w (omega (arith, room, len)) in
      let sent = ring.submit_and_wait w1 (length chunk) in
      let (queue', _) = io.fails w1 (length chunk) (never w1) in
      let (queue'', _) = io.completions-keep sent in
      let all = ap length (queue'' ∙ queue' ∙ queue) ∙ length-append (io.queued w) es in
      (
        reap base chunk (ring.completions sent).0,
        (ring.completions sent).1,
        ap (wait_and_reap ring chunk base) pushed,
        omega (arith, all, len),
      )

  module _ (capacity : ℕ) (some_room : 0 < capacity)
      (never : (v : ring.World) → io.goes v ≡ false) where
    run_chunks-panics :
        (fuel : ℕ) (w : ring.World) (base : ℕ) (ops : List BatchOp)
        → length ops ≤ fuel
        → length (io.queued w) ≤ io.size
        → io.size < length (io.queued w) + length ops
        → run_chunks ring capacity fuel w base ops ≡ none
    unfolding run_chunks
    run_chunks-panics fuel w base [] h room more = absurd (omega (arith, room, more))
    run_chunks-panics zero w base (op ∷ ops) h room more = absurd (omega (arith, h))
    run_chunks-panics (suc fuel) w base (op ∷ ops) h room more =
        let chunk = take capacity (op ∷ ops) in
        let rest = drop capacity (op ∷ ops) in
        let mine = length-take capacity (op ∷ ops) in
        let left = length-drop capacity (op ∷ ops) in
        elim (Bool-cases (ltb io.size (length (io.queued w) + length chunk))) [
          | inl full ↦ rw (submit_chunk-full w chunk base room (ltb→lt _ _ full)) refl
          | inr fits ↦
              let (_, w', returned, queue) =
                submit_chunk-fails w chunk base never (ltb-false _ _ fits) in
              rw returned (
                rw
                  (run_chunks-panics fuel w' (base + length chunk) rest
                    (omega (arith, h, left, some_room)) (omega (arith, queue, ltb-false _ _ fits))
                    (omega (arith, queue, more, mine, left)))
                  refl)
        ]

  -- The result of `submit_and_wait` is dropped, so a submission that fails leaves its entries in the
  -- queue and the next chunk comes on top of them: if no submission succeeds, then a batch of more
  -- operations than the submission queue has places, more than one chunk, ends in a panic.
  pub execute_batch-panics :
      (capacity : ℕ) (w : ring.World) (ops : List BatchOp)
      → 0 < capacity
      → io.queued w ≡ []
      → ((v : ring.World) → io.goes v ≡ false)
      → io.size < length ops
      → execute_batch ring capacity w ops ≡ none
  unfolding execute_batch
  execute_batch-panics capacity w ops some_room idle never more =
      let empty : length (io.queued w) ≡ 0 = ap length idle in
      run_chunks-panics capacity some_room never (length ops) w 0 ops (omega arith)
        (omega (arith, empty)) (omega (arith, more, empty))
