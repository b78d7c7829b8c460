-- ===== src/Executor/Uring/Submitted.antt =====
-- What `IoUringExecutor` hands to the kernel.
use atlas_io.Base.{
  ℕ, zero, suc, ◌+◌, ◌≤◌, ◌<◌, ◌≡◌, refl, sym, ap, ap₂, ◌∙◌, true, Option, some, List, [], ◌∷◌,
  ◌++◌, append_assoc, append-nil, take, drop, length, take-append-drop, length-take, length-drop,
  arith,
}
use atlas_io.Executor.{BatchOp}
use atlas_io.Executor.Uring.{
  Ring, Entry, build_entry, build_entries, reap, wait_and_reap, submit_chunk, run_chunks,
  execute_batch,
}
use atlas_io.Executor.Uring.Laws.{IsRing, push_all-room, length-build_entries}

build_entries-append :
    (tag : ℕ) (xs ys : List BatchOp)
    → build_entries tag (xs ++ ys) ≡ build_entries tag xs ++ build_entries (tag + length xs) ys
build_entries-append tag [] ys =
    let same : tag ≡ tag + 0 = omega arith in ap (λ t. build_entries t ys) same
build_entries-append tag (x ∷ xs) ys =
    let next : suc tag + length xs ≡ tag + suc (length xs) = omega arith in
    ap (λ es. build_entry x.kind tag ∷ es)
      (build_entries-append (suc tag) xs ys
        ∙ ap (λ t. build_entries (suc tag) xs ++ build_entries t ys) next)

module _ (ring : Ring) (io : IsRing ring) where
  -- The kernel has taken `es` since `w`, and the batch has come to an end.
  record Took (w : ring.World) (entries : List Entry) (o : Option (List BatchOp × ring.World))
      : Type 0 where
    ops : List BatchOp
    world : ring.World
    returned : o ≡ some (ops, world)
    taken : io.taken world ≡ io.taken w ++ entries
    queued : io.queued world ≡ []

  submit_chunk-Took :
      (w : ring.World) (chunk : List BatchOp) (base : ℕ)
      → io.queued w ≡ []
      → length chunk ≤ io.size
      → ((v : ring.World) → io.goes v ≡ true)
      → Took w (build_entries base chunk) (submit_chunk ring w chunk base)
  unfolding submit_chunk
  submit_chunk-Took w chunk base idle fits all =
      let es = build_entries base chunk in
      let len = length-build_entries base chunk in
      let none_queued : length (io.queued w) ≡ 0 = ap length idle in
      let (w1, pushed, queue, took) =
        push_all-room ring io es w (omega (arith, fits, len, none_queued)) in
      let sent = ring.submit_and_wait w1 (length chunk) in
      let (queue', took') = io.submits w1 (length chunk) (all w1) in
      let (queue'', took'') = io.completions-keep sent in
      record {
        ops = reap base chunk (ring.completions sent).0;
        world = (ring.completions sent).1;
        returned = ap (wait_and_reap ring chunk base) pushed;
        taken = took'' ∙ took' ∙ ap₂ ◌++◌ took (queue ∙ ap (λ q. q ++ es) idle);
        queued = queue'' ∙ queue';
      }

  module _ (capacity : ℕ) (some_room : 0 < capacity) (fits : capacity ≤ io.size)
      (all : (v : ring.World) → io.goes v ≡ true) where
    run_chunks-Took :
        (fuel : ℕ) (w : ring.World) (base : ℕ) (ops : List BatchOp)
        → length ops ≤ fuel
        → io.queued w ≡ []
        → Took w (build_entries base ops) (run_chunks ring capacity fuel w base ops)
    unfolding run_chunks
    run_chunks-Took zero w base [] h idle = record {
      ops = [];
      world = w;
      returned = refl;
      taken = sym (append-nil (io.taken w));
      queued = idle;
    }
    run_chunks-Took (suc fuel) w base [] h idle = record {
      ops = [];
      world = w;
      returned = refl;
      taken = sym (append-nil (io.taken w));
      queued = idle;
    }
    run_chunks-Took zero w base (op ∷ ops) h idle = absurd (omega arith)
    run_chunks-Took (suc fuel) w base (op ∷ ops) h idle =
        let chunk = take capacity (op ∷ ops) in
        let rest = drop capacity (op ∷ ops) in
        let first =
          submit_chunk-Took w chunk base idle (omega (arith, length-take capacity (op ∷ ops), fits))
            all in
        let others =
          run_chunks-Took fuel first.world (base + length chunk) rest
            (omega (arith, h, length-drop capacity (op ∷ ops), some_room)) first.queued in
        record {
          ops = first.ops ++ others.ops;
          world = others.world;
          returned = rw (first.returned, others.returned) refl;
          taken =
              others.taken
              ∙ ap (λ q. q ++ build_entries (base + length chunk) rest) first.taken
              ∙ append_assoc (io.taken w) (build_entries base chunk) _
              ∙ ap (λ es. io.taken w ++ es)
                  (sym (build_entries-append base chunk rest)
                    ∙ ap (build_entries base) (take-append-drop capacity (op ∷ ops)));
          queued = others.queued;
        }

  -- Let the ring have room for at least one entry, its submission queue be empty and at least as
  -- large as the capacity that the executor goes by, and every submission succeed. Then, whatever
  -- completions there are, `execute_batch` comes to its end without a panic, the kernel has taken
  -- every operation of the batch exactly once, in order, each under its index in the batch, and
  -- the queue is empty again.
  pub execute_batch_lem :
      (capacity : ℕ) (w : ring.World) (ops : List BatchOp)
      → 0 < capacity
      → capacity ≤ io.size
      → io.queued w ≡ []
      → ((v : ring.World) → io.goes v ≡ true)
      → (ops' : List BatchOp) × (w' : ring.World) × (execute_batch ring capacity w ops
          ≡ some (ops', w'))
        × (io.taken w' ≡ io.taken w ++ build_entries 0 ops)
        × (io.queued w' ≡ [])
  unfolding execute_batch
  execute_batch_lem capacity w ops some_room fits idle all =
      let took =
        run_chunks-Took capacity some_room fits all (length ops) w 0 ops (omega arith) idle in
      (took.ops, took.world, took.returned, took.taken, took.queued)
