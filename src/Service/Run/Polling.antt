-- ===== src/Service/Run/Polling.antt =====
-- What polling takes and what clients put on the request rings.
use mathlib.Core.List.Perm
use atlas_io.Base.{
  ℕ, zero, suc, ◌+◌, ◌<◌, ◌≡◌, refl, sym, ap, ◌∙◌, subst, perm_middle, List, [], ◌∷◌, ◌++◌, map,
  append_assoc, length, Perm, arith, All,
}
use atlas_io.Protocol.{IoRequest}
use atlas_io.Batch.{TaggedRequest}
use atlas_io.Pipeline.{Pipeline, add_all}
use atlas_io.Pipeline.Ready.{InRange}
use atlas_io.Channel.{ServiceChannel}
use atlas_io.Executor.{IoExecutor}
use atlas_io.Service.Sends.{sent_from, tag_sent, requests_on, waiting_from, waiting, answered_tags}
use atlas_io.Service.Run.{poll_channel, poll_channels, arrive, arrive_all}

module _ (p : Pipeline) (ex : IoExecutor) where
  poll_channel_lem :
      (st : p.State) (i : ℕ) (reqs : List IoRequest)
      → poll_channel p ex st i reqs ≡ add_all p st (requests_on i reqs)
  unfolding poll_channel add_all
  poll_channel_lem st i [] = refl
  poll_channel_lem st i (req ∷ reqs) = poll_channel_lem (p.add st req i) i reqs

  add_all-append :
      (st : p.State) (xs ys : List TaggedRequest)
      → add_all p st (xs ++ ys) ≡ add_all p (add_all p st xs) ys
  unfolding add_all
  add_all-append st [] ys = refl
  add_all-append st (x ∷ xs) ys = add_all-append (p.add st x.req x.channel_idx) xs ys

  -- Polling hands the pipeline all that is waiting, in the order of the channels.
  pub poll_channels_lem :
      (st : p.State) (i : ℕ) (cs : List ServiceChannel)
      → (poll_channels p ex st i cs).0 ≡ add_all p st (waiting_from i cs)
  unfolding poll_channels add_all
  poll_channels_lem st i [] = refl
  poll_channels_lem st i (c ∷ cs) =
      poll_channels_lem (poll_channel p ex st i c.requests) (suc i) cs
      ∙ ap (λ t. add_all p t (waiting_from (suc i) cs)) (poll_channel_lem st i c.requests)
      ∙ sym (add_all-append st (requests_on i c.requests) (waiting_from (suc i) cs))

  -- The channels after polling.
  pub record Polled (cs cs' : List ServiceChannel) (i : ℕ) : Type 0 where
    pub same : length cs' ≡ length cs
    pub sent : (sent_from i cs' ≡ sent_from i cs)
    pub nothing : waiting_from i cs' ≡ []

  pub poll_channels-Polled :
      (st : p.State) (i : ℕ) (cs : List ServiceChannel) → Polled cs (poll_channels p ex st i cs).1 i
  unfolding poll_channels
  poll_channels-Polled st i [] = record { same = refl; sent = refl; nothing = refl }
  poll_channels-Polled st i (c ∷ cs) =
      let ih = poll_channels-Polled (poll_channel p ex st i c.requests) (suc i) cs in
      record {
        same = ap suc ih.same;
        sent = ap (λ t. map (tag_sent i) c.sent ++ t) ih.sent;
        nothing = ih.nothing;
      }

  arrive-length :
      (cs : List ServiceChannel) (i : ℕ) (req : IoRequest)
      → length (arrive p ex cs i req) ≡ length cs
  arrive-length [] i req = refl
  arrive-length (c ∷ cs) zero req = refl
  arrive-length (c ∷ cs) (suc i) req = ap suc (arrive-length cs i req)

  arrive-sent :
      (k : ℕ) (cs : List ServiceChannel) (i : ℕ) (req : IoRequest)
      → sent_from k (arrive p ex cs i req) ≡ sent_from k cs
  arrive-sent k [] i req = refl
  arrive-sent k (c ∷ cs) zero req = refl
  arrive-sent k (c ∷ cs) (suc i) req =
      ap (λ t. map (tag_sent k) c.sent ++ t) (arrive-sent (suc k) cs i req)

  requests_on-append :
      (k : ℕ) (xs ys : List IoRequest)
      → requests_on k (xs ++ ys) ≡ requests_on k xs ++ requests_on k ys
  requests_on-append k [] ys = refl
  requests_on-append k (x ∷ xs) ys =
      ap (λ t. record { req = x; channel_idx = k } ∷ t) (requests_on-append k xs ys)

  arrive-waiting :
      (k : ℕ) (cs : List ServiceChannel) (i : ℕ) (req : IoRequest)
      → i < length cs
      → Perm
          (waiting_from k (arrive p ex cs i req))
          (record { req = req; channel_idx = k + i } ∷ waiting_from k cs)
  arrive-waiting k [] i req h = absurd (omega arith)
  arrive-waiting k (c ∷ cs) zero req h =
      let here : k + 0 ≡ k = omega arith in
      rw (here, requests_on-append k c.requests (req ∷ []))
        (subst (λ q. Perm q (record { req = req; channel_idx = k } ∷ waiting_from k (c ∷ cs)))
          (sym (
            append_assoc (requests_on k c.requests) (record { req = req; channel_idx = k } ∷ [])
              (waiting_from (suc k) cs)))
          (perm_middle (requests_on k c.requests) (waiting_from (suc k) cs)))
  arrive-waiting k (c ∷ cs) (suc i) req h =
      let next : k + suc i ≡ suc k + i = omega arith in
      rw next (
        Perm.trans
          (Perm.append_left (requests_on k c.requests)
            (arrive-waiting (suc k) cs i req (omega arith)))
          (perm_middle (requests_on k c.requests) (waiting_from (suc k) cs)))

  -- What has arrived is waiting, and nothing else has changed.
  pub record Arrived (cs cs' : List ServiceChannel) (xs : List TaggedRequest) : Type 0 where
    pub same : length cs' ≡ length cs
    pub sent : answered_tags cs' ≡ answered_tags cs
    pub waits : Perm (waiting cs') (xs ++ waiting cs)

  pub arrive_all-Arrived :
      (cs : List ServiceChannel) (xs : List TaggedRequest)
      → All (InRange (length cs)) xs
      → Arrived cs (arrive_all p ex cs xs) xs
  arrive_all-Arrived cs [] all = record { same = refl; sent = refl; waits = Perm.rfl }
  arrive_all-Arrived cs (x ∷ xs) all =
      let cs' = arrive p ex cs x.channel_idx x.req in
      let longer = arrive-length cs x.channel_idx x.req in
      let zero_plus : 0 + x.channel_idx ≡ x.channel_idx = omega arith in
      let first : Perm (waiting cs') (x ∷ waiting cs) =
        subst (λ j. Perm (waiting cs') (record { req = x.req; channel_idx = j } ∷ waiting cs))
          zero_plus (arrive-waiting 0 cs x.channel_idx x.req all.0) in
      let ih =
        arrive_all-Arrived (arrive p ex cs x.channel_idx x.req) xs
          (subst (λ n. All (InRange n) xs) (sym longer) all.1) in
      record {
        same = ih.same ∙ longer;
        sent = ih.sent ∙ arrive-sent 0 cs x.channel_idx x.req;
        waits =
            Perm.trans ih.waits
              (Perm.trans (Perm.append_left xs first) (perm_middle xs (waiting cs)));
      }
