-- ===== src/Service/Settled.antt =====
-- One operation of `execute_round`: what is answered at once and what goes into the batch.
use atlas_io.Base.{
  ℕ, ◌<◌, ◌≡◌, refl, sym, subst, ℤ, pos, negsuc, neg, Option, none, some, List, [], ◌∷◌, length,
}
use atlas_io.Protocol.{IoOp, IoRequest, IoResponse, ok_response, err_response}
use atlas_io.Batch.{MergedOp}
use atlas_io.Pipeline.{Pipeline}
use atlas_io.Pipeline.Ready.{IsSingle, Answerable}
use atlas_io.Channel.{ServiceChannel, send_at}
use atlas_io.Executor.{BatchKind, BatchOp, IoExecutor}
use atlas_io.Service.{
  AtlasService, handle_open, handle_close, opened, close_response, close_with, prepare_with,
  fsync_with, prepare_read, prepare_write, prepare_fsync, dispatch, ebadf,
}
use atlas_io.Service.Descriptors.{get}
use atlas_io.Service.Sends.{Sends, send_single, send_errors-Sends, Matches, tags_of}

-- What one operation has led to: its responses, or an entry of the batch.
abbrev pub Settled : List ServiceChannel → List ServiceChannel → MergedOp → Option BatchOp → Type 0
Settled cs cs' op none = Sends cs cs' (tags_of op)
Settled cs cs' op (some entry) = (cs' ≡ cs) × Matches entry.kind op

-- The entries of a batch fit the operations that they come from.
abbrev pub MatchesAll : List BatchKind → List MergedOp → Type 0
MatchesAll [] [] = Unit
MatchesAll (k ∷ ks) (op ∷ ops) = Matches k op × MatchesAll ks ops
MatchesAll _ _ = ⊥

module _ (p : Pipeline) (ex : IoExecutor) where
  -- The response carries the identifier, and no other response is sent.
  abbrev Answer : AtlasService p ex → IoRequest → IoResponse × AtlasService p ex → Type 0
  Answer s req r = (r.0.id ≡ req.id) × (r.1.channels ≡ s.channels)

  opened-Answer :
      (s : AtlasService p ex) (req : IoRequest) (rc : ℤ) (e : ex.backend.State)
      → Answer s req (opened p ex s req rc e)
  unfolding ok_response err_response
  opened-Answer s req (negsuc n) e = (refl, refl)
  opened-Answer s req (pos n) e = (refl, refl)

  handle_open-Answer :
      (s : AtlasService p ex) (req : IoRequest) → Answer s req (handle_open p ex s req)
  unfolding handle_open
  handle_open-Answer s req = opened-Answer s req _ _

  close_response-id : (id : ℕ) (rc : ℤ) → (close_response p ex id rc).id ≡ id
  unfolding ok_response err_response
  close_response-id id (negsuc n) = refl
  close_response-id id (pos n) = refl

  close_with-Answer :
      (s : AtlasService p ex) (req : IoRequest) (o : Option ℤ)
      → Answer s req (close_with p ex s req o)
  unfolding err_response
  close_with-Answer s req none = (refl, refl)
  close_with-Answer s req (some fd) = (close_response-id req.id _, refl)

  handle_close-Answer :
      (s : AtlasService p ex) (req : IoRequest) → Answer s req (handle_close p ex s req)
  unfolding handle_close
  handle_close-Answer s req = close_with-Answer s req (get req.fd s.fd_table)

  prepare-Settled :
      (kind : ℤ → BatchKind) (s : AtlasService p ex) (op : MergedOp) (o : Option ℤ)
      → ((fd : ℤ) → Matches (kind fd) op)
      → op.channel_idx < length s.channels
      → Settled s.channels
          (prepare_with p ex kind s op o).1.channels
          op
          (prepare_with p ex kind s op o).0
  prepare-Settled kind s op none m h =
      send_errors-Sends s.channels op.channel_idx (neg (pos ebadf)) op.sources h
  prepare-Settled kind s op (some fd) m h = (refl, m fd)

  prepare_fsync-Settled :
      (s : AtlasService p ex) (op : MergedOp) (o : Option ℤ)
      → IsSingle op
      → op.channel_idx < length s.channels
      → Settled s.channels (fsync_with p ex s op o).1.channels op (fsync_with p ex s op o).0
  unfolding err_response
  prepare_fsync-Settled s op none m h =
      send_single s.channels op (err_response op.req.id (neg (pos ebadf))) m refl h
  prepare_fsync-Settled s op (some fd) m h = (refl, m)

  answer_now-Sends :
      (s : AtlasService p ex) (op : MergedOp) (resp : IoResponse) (cs : List ServiceChannel)
      → (resp.id ≡ op.req.id) × (cs ≡ s.channels)
      → IsSingle op
      → op.channel_idx < length s.channels
      → Sends s.channels (send_at cs op.channel_idx resp) (tags_of op)
  answer_now-Sends s op resp cs (e, same) m h =
      subst (λ c. Sends s.channels (send_at c op.channel_idx resp) (tags_of op)) (sym same)
        (send_single s.channels op resp m e h)

  pub dispatch-Settled :
      (o : Option IoOp) (s : AtlasService p ex) (op : MergedOp)
      → Answerable o op
      → op.channel_idx < length s.channels
      → Settled s.channels (dispatch p ex o s op).1.channels op (dispatch p ex o s op).0
  unfolding dispatch prepare_read prepare_write prepare_fsync err_response
  dispatch-Settled (some IoOp.«open») s op m h =
      answer_now-Sends s op (handle_open p ex s op.req).0 _ (handle_open-Answer s op.req) m h
  dispatch-Settled (some IoOp.close) s op m h =
      answer_now-Sends s op (handle_close p ex s op.req).0 _ (handle_close-Answer s op.req) m h
  dispatch-Settled (some IoOp.read) s op m h =
      prepare-Settled _ s op (get op.req.fd s.fd_table) (λ fd. tt) h
  dispatch-Settled (some IoOp.write) s op m h =
      prepare-Settled _ s op (get op.req.fd s.fd_table) (λ fd. tt) h
  dispatch-Settled (some IoOp.sync) s op m h =
      prepare_fsync-Settled s op (get op.req.fd s.fd_table) m h
  dispatch-Settled none s op m h =
      send_single s.channels op (err_response op.req.id (neg (pos 1))) m refl h
