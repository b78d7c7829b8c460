-- ===== src/Service/Files.antt =====
-- The descriptors that clients hold: `handle_open` gives out new ones, `handle_close` ends them.
use atlas_io.Base.{
  ℕ, ◌+◌, ◌≤◌, ◌<◌, ◌^◌, ◌≡◌, ◌≢◌, refl, sym, ap, ◌∙◌, subst, ℤ, pos, neg, as_i32, Option, none,
  some, arith,
}
use atlas_io.Protocol.{IoRequest, IoResponse, path_str, ok_response, err_response}
use atlas_io.Pipeline.{Pipeline}
use atlas_io.Executor.{IoExecutor}
use atlas_io.Service.{AtlasService, opened, handle_open, close_with, handle_close, ebadf}
use atlas_io.Service.Descriptors.{
  FdTable, get, get-remove, get-remove_ne, get-insert, get-insert_ne,
}

-- No descriptor from `next_fd` on is in use.
abbrev pub Fresh : FdTable → ℕ → Type 0
Fresh t next_fd = (v : ℕ) → next_fd ≤ v → get v t ≡ none

module _ (p : Pipeline) (ex : IoExecutor) where
  abbrev open_result : AtlasService p ex → IoRequest → ℤ
  open_result s req = (ex.backend.«open» s.executor (path_str req) (as_i32 (pos req.len)) 420).0

  -- The result of a `handle_open` that went well.
  pub record Opened (s : AtlasService p ex) (real_fd : ℤ) (resp : IoResponse)
      (s' : AtlasService p ex) : Type 0 where
    pub ok : resp.status ≡ pos 0
    pub unused : get resp.fd s.fd_table ≡ none
    pub known : get resp.fd s'.fd_table ≡ some real_fd
    pub others : (v : ℕ) → v ≢ resp.fd → get v s'.fd_table ≡ get v s.fd_table
    pub fresh : Fresh s'.fd_table s'.next_fd

  opened-Opened :
      (s : AtlasService p ex) (req : IoRequest) (n : ℕ) (e : ex.backend.State)
      → Fresh s.fd_table s.next_fd
      → s.next_fd + 1 < 2 ^ 64
      → Opened s (as_i32 (pos n)) (opened p ex s req (pos n) e).0 (opened p ex s req (pos n) e).1
  unfolding ok_response
  opened-Opened s req n e f h =
      let real_fd = as_i32 (pos n) in
      record {
        ok = refl;
        unused = f s.next_fd (omega arith);
        known = get-insert s.next_fd real_fd s.fd_table;
        others = λ v ne. get-insert_ne v s.next_fd real_fd s.fd_table ne;
        fresh = λ v le.
            get-insert_ne v s.next_fd real_fd s.fd_table (λ same. absurd (omega arith))
            ∙ f v (omega arith);
      }

  -- When the system opens the file, the client gets a descriptor that was not in use, the table
  -- leads from it to the descriptor of the system and says nothing else new, and later descriptors
  -- will be new again. (The counter must not have come to 2 ^ 64 - 1.)
  pub handle_open-Opened :
      (s : AtlasService p ex) (req : IoRequest) (n : ℕ)
      → open_result s req ≡ pos n
      → Fresh s.fd_table s.next_fd
      → s.next_fd + 1 < 2 ^ 64
      → Opened s (as_i32 (pos n)) (handle_open p ex s req).0 (handle_open p ex s req).1
  unfolding handle_open
  handle_open-Opened s req n went f h =
      let e = (ex.backend.«open» s.executor (path_str req) (as_i32 (pos req.len)) 420).1 in
      subst (λ rc. Opened s (as_i32 (pos n)) (opened p ex s req rc e).0 (opened p ex s req rc e).1)
        (sym went) (opened-Opened s req n e f h)

  close_with-table :
      (s : AtlasService p ex) (req : IoRequest) (o : Option ℤ)
      → get req.fd s.fd_table ≡ o
      → (get req.fd (close_with p ex s req o).1.fd_table ≡ none)
        × ((v : ℕ) → v ≢ req.fd → get v (close_with p ex s req o).1.fd_table ≡ get v s.fd_table)
  close_with-table s req none e = (e, λ v ne. refl)
  close_with-table s req (some fd) e =
      (get-remove req.fd s.fd_table, λ v ne. get-remove_ne v req.fd s.fd_table ne)

  -- Whatever the system says to the close, the descriptor is gone from the table afterwards and no
  -- other one is touched; and a second close of it is refused with EBADF and changes nothing.
  pub close_twice :
      (s : AtlasService p ex) (req again : IoRequest)
      → again.fd ≡ req.fd
      → (get req.fd (handle_close p ex s req).1.fd_table ≡ none)
        × ((v : ℕ) → v ≢ req.fd → get v (handle_close p ex s req).1.fd_table ≡ get v s.fd_table)
        × (handle_close p ex (handle_close p ex s req).1 again
            ≡ (err_response again.id (neg (pos ebadf)), (handle_close p ex s req).1))
  unfolding handle_close
  close_twice s req again same =
      let (gone, others) = close_with-table s req (get req.fd s.fd_table) refl in
      let s' = close_with p ex s req (get req.fd s.fd_table) in
      (gone, others, ap (close_with p ex s'.1 again) (ap (λ fd. get fd s'.1.fd_table) same ∙ gone))
