-- ===== src/Service/Run/Exactly.antt =====
-- Every request that arrives is answered exactly once.
use mathlib.Core.List.Perm
use atlas_io.Base.{
  ℕ, suc, ◌+◌, ◌<◌, ◌≤◌, All-append, ◌≡◌, sym, ap, ◌∙◌, subst, true, List, [], ◌∷◌, ◌++◌, map,
  append-nil, append_assoc, map-append, length, Perm, arith, Bool-cases, inl, inr, All,
}
use atlas_io.Protocol.{IoRequest}
use atlas_io.Batch.{TaggedRequest}
use atlas_io.Batch.Tags.{tag_of, tags}
use atlas_io.Pipeline.{Pipeline, Conserves, add_all, held-add_all, tags-drain}
use atlas_io.Pipeline.Ready.{Ready, InRange, Delivers}
use atlas_io.Channel.{ServiceChannel}
use atlas_io.Executor.{IoExecutor}
use atlas_io.Executor.Kinds.{KeepsKinds}
use atlas_io.Service.{AtlasService, execute_round}
use atlas_io.Service.Sends.{requests_on, waiting_from, waiting, answered_tags}
use atlas_io.Service.Answers.{execute_round-Sends}
use atlas_io.Service.Run.{poll_channels, turn, arrive_all, run}
use atlas_io.Service.Run.Polling.{
  Polled, poll_channels_lem, poll_channels-Polled, Arrived, arrive_all-Arrived,
}
use atlas_io.Service.Run.Frame.{execute_round-pipeline}

module _ (p : Pipeline) (ex : IoExecutor) where
  -- Nothing is inside the pipeline, and no request waits.
  pub record Quiet (c : Conserves p) (d : Delivers p) (s : AtlasService p ex) : Type 0 where
    pub empty : c.held s.pipeline ≡ []
    pub valid : d.Valid (length s.channels) s.pipeline

  Valid-add_all :
      (d : Delivers p) (n : ℕ) (st : p.State) (xs : List TaggedRequest)
      → All (InRange n) xs
      → d.Valid n st
      → d.Valid n (add_all p st xs)
  unfolding add_all
  Valid-add_all d n st [] all v = v
  Valid-add_all d n st (x ∷ xs) all v =
      Valid-add_all d n (p.add st x.req x.channel_idx) xs all.1 (d.Valid-add n st x all.0 v)

  InRange-requests_on :
      (n ch : ℕ) (reqs : List IoRequest) → ch < n → All (InRange n) (requests_on ch reqs)
  InRange-requests_on n ch [] h = tt
  InRange-requests_on n ch (r ∷ reqs) h = (h, InRange-requests_on n ch reqs h)

  InRange-waiting_from :
      (n k : ℕ) (cs : List ServiceChannel) → k + length cs ≤ n → All (InRange n) (waiting_from k cs)
  InRange-waiting_from n k [] h = tt
  InRange-waiting_from n k (c ∷ cs) h =
      All-append (InRange n) (requests_on k c.requests) (waiting_from (suc k) cs)
        (InRange-requests_on n k c.requests (omega arith))
        (InRange-waiting_from n (suc k) cs (omega arith))

  -- What one turn does.
  pub record Turned (c : Conserves p) (d : Delivers p) (s s' : AtlasService p ex) : Type 0 where
    pub same : length s'.channels ≡ length s.channels
    pub answered :
        Perm
          (answered_tags s'.channels)
          (answered_tags s.channels ++ map tag_of (waiting s.channels))
    pub nothing : waiting s'.channels ≡ []
    pub quiet : Quiet c d s'

  module _ (c : Conserves p) (d : Delivers p) (keeps : KeepsKinds ex) where
    -- The pipeline after polling holds what was waiting.
    held_polled :
        (s : AtlasService p ex)
        → Quiet c d s
        → Perm
            (c.held (poll_channels p ex s.pipeline 0 s.channels).0)
            (map tag_of (waiting s.channels))
    held_polled s q =
        let w = waiting s.channels in
        subst (λ st. Perm (c.held st) (map tag_of w))
          (sym (poll_channels_lem p ex s.pipeline 0 s.channels))
          (subst (λ h. Perm (c.held (add_all p s.pipeline w)) (h ++ map tag_of w)) q.empty
            (held-add_all p c s.pipeline w))

    valid_polled :
        (s : AtlasService p ex)
        → Quiet c d s
        → d.Valid (length s.channels) (poll_channels p ex s.pipeline 0 s.channels).0
    valid_polled s q =
        subst (d.Valid (length s.channels)) (sym (poll_channels_lem p ex s.pipeline 0 s.channels)) (
          Valid-add_all d (length s.channels) s.pipeline (waiting s.channels)
            (InRange-waiting_from (length s.channels) 0 s.channels (omega arith)) q.valid)

    -- Nothing has come in.
    Turned-idle :
        (s : AtlasService p ex) (st : p.State) (cs : List ServiceChannel)
        → Polled p ex s.channels cs 0
        → Perm (c.held st) (map tag_of (waiting s.channels))
        → d.Valid (length s.channels) st
        → p.is_empty st ≡ true
        → Turned c d s (record s { pipeline = st; channels = cs })
    Turned-idle s st cs polled held valid h =
        let none_held = c.held-is_empty st h in
        record {
          same = polled.same;
          answered =
              subst (λ a. Perm a (answered_tags s.channels ++ map tag_of (waiting s.channels)))
                (append-nil (answered_tags s.channels) ∙ sym polled.sent)
                (Perm.append_left (answered_tags s.channels)
                  (subst (λ l. Perm l (map tag_of (waiting s.channels))) none_held held));
          nothing = polled.nothing;
          quiet = record {
            empty = none_held;
            valid = subst (λ n. d.Valid n st) (sym polled.same) valid;
          };
        }

    -- One round is executed.
    Turned-round :
        (s : AtlasService p ex) (st : p.State) (cs : List ServiceChannel)
        → Polled p ex s.channels cs 0
        → Perm (c.held st) (map tag_of (waiting s.channels))
        → d.Valid (length s.channels) st
        → Turned c d s (
            execute_round p ex
              (record s { pipeline = (p.drain st).1; channels = cs })
              (p.drain st).0)
    Turned-round s st cs polled held valid =
        let s' : AtlasService p ex = record s { pipeline = (p.drain st).1; channels = cs } in
        let ops = (p.drain st).0 in
        let w = map tag_of (waiting s.channels) in
        let (ready, valid') = d.Valid-drain (length s.channels) st valid in
        let sends =
          execute_round-Sends p ex s' ops keeps
            (subst (λ n. All (Ready n) ops) (sym polled.same) ready) in
        let same_pipeline = execute_round-pipeline p ex s' ops in
        record {
          same = sends.same ∙ polled.same;
          answered = Perm.trans sends.sent (
              subst (λ a. Perm (a ++ tags ops) (answered_tags s.channels ++ w)) (sym polled.sent)
                (Perm.append_left (answered_tags s.channels)
                  (Perm.trans (tags-drain p c st) held)));
          nothing = sends.kept ∙ polled.nothing;
          quiet = record {
            empty = ap c.held same_pipeline ∙ c.held-is_empty (p.drain st).1 (c.is_empty-drain st);
            valid =
                subst (λ n. d.Valid n (execute_round p ex s' ops).pipeline)
                  (sym (sends.same ∙ polled.same))
                  (subst (d.Valid (length s.channels)) (sym same_pipeline) valid');
          };
        }

    turn-Turned : (s : AtlasService p ex) → Quiet c d s → Turned c d s (turn p ex s)
    unfolding turn
    turn-Turned s q =
        let polled = poll_channels-Polled p ex s.pipeline 0 s.channels in
        let st = (poll_channels p ex s.pipeline 0 s.channels).0 in
        let cs = (poll_channels p ex s.pipeline 0 s.channels).1 in
        elim (Bool-cases (p.is_empty st)) [
          | inl h ↦ rw h (Turned-idle s st cs polled (held_polled s q) (valid_polled s q) h)
          | inr h ↦ rw h (Turned-round s st cs polled (held_polled s q) (valid_polled s q))
        ]

    Arrived-Quiet :
        (s : AtlasService p ex) (xs : List TaggedRequest)
        → Arrived p ex s.channels (arrive_all p ex s.channels xs) xs
        → Quiet c d s
        → Quiet c d (record s { channels = arrive_all p ex s.channels xs })
    Arrived-Quiet s xs arrived q = record {
      empty = q.empty;
      valid = subst (λ n. d.Valid n s.pipeline) (sym arrived.same) q.valid;
    }

    -- What a turn answers when only `xs` is waiting.
    answered_turn :
        (s : AtlasService p ex) (xs : List TaggedRequest)
        → waiting s.channels ≡ []
        → Arrived p ex s.channels (arrive_all p ex s.channels xs) xs
        → {s' : AtlasService p ex}
        → Turned c d (record s { channels = arrive_all p ex s.channels xs }) s'
        → Perm (answered_tags s'.channels) (answered_tags s.channels ++ map tag_of xs)
    answered_turn s xs w arrived {s'} t =
        let cs = arrive_all p ex s.channels xs in
        let only : Perm (waiting cs) xs =
          subst (Perm (waiting cs)) (append-nil xs)
            (subst (λ l. Perm (waiting cs) (xs ++ l)) w arrived.waits) in
        Perm.trans t.answered (
          subst
            (λ a. Perm (a ++ map tag_of (waiting cs)) (answered_tags s.channels ++ map tag_of xs))
            (sym arrived.sent) (Perm.append_left (answered_tags s.channels) (Perm.map tag_of only)))

    abbrev all_of : List (List TaggedRequest) → List TaggedRequest
    all_of [] = []
    all_of (xs ∷ turns) = xs ++ all_of turns

    -- With a pipeline that keeps its laws and an executor that keeps a batch in its places: if nothing
    -- is in the pipeline or waiting at first and every request comes on a channel that there is, then
    -- `run` answers every request that arrives exactly once. After the last turn, the responses are
    -- those that there were and one for each request, on its channel and with its identifier, and no
    -- request is left in a ring.
    pub run-answers :
        (s : AtlasService p ex) (turns : List (List TaggedRequest))
        → Quiet c d s
        → waiting s.channels ≡ []
        → All (All (InRange (length s.channels))) turns
        → Perm
            (answered_tags (run p ex s turns).channels)
            (answered_tags s.channels ++ map tag_of (all_of turns))
          × (waiting (run p ex s turns).channels ≡ [])
    unfolding run
    run-answers s [] q w all = (
      subst (Perm (answered_tags s.channels)) (sym (append-nil (answered_tags s.channels)))
          Perm.rfl,
      w,
    )
    run-answers s (xs ∷ turns) q w all =
        let s1 : AtlasService p ex = record s { channels = arrive_all p ex s.channels xs } in
        let arrived = arrive_all-Arrived p ex s.channels xs all.0 in
        let t = turn-Turned s1 (Arrived-Quiet s xs arrived q) in
        let (sent, nothing) =
          run-answers (turn p ex (record s { channels = arrive_all p ex s.channels xs })) turns
            t.quiet t.nothing
            (subst (λ n. All (All (InRange n)) turns) (sym (t.same ∙ arrived.same)) all.1) in
        (
          Perm.trans sent (
              subst
                (λ ts. Perm (answered_tags (turn p ex s1).channels ++ map tag_of (all_of turns)) ts)
                (append_assoc (answered_tags s.channels) (map tag_of xs) (map tag_of (all_of turns))
                  ∙ ap (λ ts. answered_tags s.channels ++ ts)
                      (sym (map-append tag_of xs (all_of turns))))
                (Perm.append_right (map tag_of (all_of turns)) (answered_turn s xs w arrived t))),
          nothing,
        )
