-- ===== src/Service/Sends.antt =====
-- Which requests the responses on the channels answer.
use mathlib.Core.List.Perm
use mathlib.Core.List.Permᴰ
use atlas_io.Base.{
  ℕ, zero, suc, ◌+◌, ◌<◌, ◌≡◌, refl, sym, ap, ◌∙◌, subst, ℤ, List, [], ◌∷◌, ◌++◌, map, map-append,
  append_assoc, append-nil, length, Perm, arith, Bool-cases, inl, inr, is_neg, as_i32,
}
use atlas_io.Protocol.{IoRequest, IoResponse, ok_response, err_response}
use atlas_io.Batch.{TaggedRequest, MergedOp, Source}
use atlas_io.Batch.Tags.{Tag, tag_in}
use atlas_io.Pipeline.Ready.{IsSingle}
use atlas_io.Channel.{ServiceChannel, send_at, length-send_at}
use atlas_io.Executor.{BatchKind}
use atlas_io.Service.{
  send_errors, send_reads, send_writes, send_read_responses, send_write_responses, read_response,
  write_response, sync_response, respond_one, bytes_of,
}

-- A response on a channel answers the request of its identifier.
abbrev pub tag_sent : ℕ → IoResponse → Tag
tag_sent ch resp = record { channel_idx = ch; request_id = resp.id }

abbrev pub sent_from : ℕ → List ServiceChannel → List Tag
sent_from i [] = []
sent_from i (c ∷ cs) = map (tag_sent i) c.sent ++ sent_from (suc i) cs

-- All that has been answered so far.
abbrev pub answered_tags : List ServiceChannel → List Tag
answered_tags cs = sent_from 0 cs

-- What is in the request rings, each request with the channel it is on.
abbrev pub requests_on : ℕ → List IoRequest → List TaggedRequest
requests_on ch [] = []
requests_on ch (req ∷ reqs) = record { req = req; channel_idx = ch } ∷ requests_on ch reqs

abbrev pub waiting_from : ℕ → List ServiceChannel → List TaggedRequest
waiting_from i [] = []
waiting_from i (c ∷ cs) = requests_on i c.requests ++ waiting_from (suc i) cs

abbrev pub waiting : List ServiceChannel → List TaggedRequest
waiting cs = waiting_from 0 cs

waiting_from-send_at :
    (k : ℕ) (cs : List ServiceChannel) (i : ℕ) (resp : IoResponse)
    → waiting_from k (send_at cs i resp) ≡ waiting_from k cs
waiting_from-send_at k [] i resp = refl
waiting_from-send_at k (c ∷ cs) zero resp = refl
waiting_from-send_at k (c ∷ cs) (suc i) resp =
    ap (λ w. requests_on k c.requests ++ w) (waiting_from-send_at (suc k) cs i resp)

-- What one channel gets may as well be written last.
write_last : (a r : List Tag) (x : Tag) → Perm ((a ++ x ∷ []) ++ r) ((a ++ r) ++ x ∷ [])
write_last a r x =
    subst (λ q. Perm q ((a ++ r) ++ x ∷ [])) (sym (append_assoc a (x ∷ []) r))
      (subst (Perm (a ++ (x ∷ r))) (sym (append_assoc a r (x ∷ [])))
        (Perm.append_left a ∣ Permᴰ.append_comm (x ∷ []) r ∣₁))

sent_from-send_at :
    (k : ℕ) (cs : List ServiceChannel) (i : ℕ) (resp : IoResponse)
    → i < length cs
    → Perm (sent_from k (send_at cs i resp)) (sent_from k cs ++ tag_sent (k + i) resp ∷ [])
sent_from-send_at k [] i resp h = absurd (omega arith)
sent_from-send_at k (c ∷ cs) zero resp h =
    let here : k + 0 ≡ k = omega arith in
    rw here (
      subst (λ q. Perm (q ++ sent_from (suc k) cs) (sent_from k (c ∷ cs) ++ tag_sent k resp ∷ []))
        (sym (map-append (tag_sent k) c.sent (resp ∷ [])))
        (write_last (map (tag_sent k) c.sent) (sent_from (suc k) cs) (tag_sent k resp)))
sent_from-send_at k (c ∷ cs) (suc i) resp h =
    let next : k + suc i ≡ suc k + i = omega arith in
    let mine = map (tag_sent k) c.sent in
    rw next (
      subst (Perm (mine ++ sent_from (suc k) (send_at cs i resp)))
        (sym (append_assoc mine (sent_from (suc k) cs) (tag_sent (suc k + i) resp ∷ [])))
        (Perm.append_left mine (sent_from-send_at (suc k) cs i resp (omega arith))))

-- `cs'` has the responses of `cs` and those to `ts`, and the same requests.
pub record Sends (cs cs' : List ServiceChannel) (ts : List Tag) : Type 0 where
  pub same : length cs' ≡ length cs
  pub kept : waiting cs' ≡ waiting cs
  pub sent : Perm (answered_tags cs') (answered_tags cs ++ ts)

pub Sends-nil : (cs : List ServiceChannel) → Sends cs cs []
Sends-nil cs = record {
  same = refl;
  kept = refl;
  sent = subst (Perm (answered_tags cs)) (sym (append-nil (answered_tags cs))) Perm.rfl;
}

pub Sends-trans :
    (a b c : List ServiceChannel) (ts us : List Tag)
    → Sends a b ts
    → Sends b c us
    → Sends a c (ts ++ us)
Sends-trans a b c ts us h k = record {
  same = k.same ∙ h.same;
  kept = k.kept ∙ h.kept;
  sent = Perm.trans k.sent (
      subst (Perm (answered_tags b ++ us)) (append_assoc (answered_tags a) ts us)
        (Perm.append_right us h.sent));
}

pub Sends-perm :
    (a b : List ServiceChannel) (ts us : List Tag) → Perm ts us → Sends a b ts → Sends a b us
Sends-perm a b ts us p h = record {
  same = h.same;
  kept = h.kept;
  sent = Perm.trans h.sent (Perm.append_left (answered_tags a) p);
}

pub Sends-one :
    (cs : List ServiceChannel) (i : ℕ) (resp : IoResponse)
    → i < length cs
    → Sends cs (send_at cs i resp) (record { channel_idx = i; request_id = resp.id } ∷ [])
Sends-one cs i resp h = record {
  same = length-send_at cs i resp;
  kept = waiting_from-send_at 0 cs i resp;
  sent =
      let zero_plus : 0 + i ≡ i = omega arith in
      subst
        (λ j. Perm (answered_tags (send_at cs i resp)) (answered_tags cs ++ tag_sent j resp ∷ []))
        zero_plus (sent_from-send_at 0 cs i resp h);
}

-- The length does not change, so an index stays in range.
pub still :
    (a b : List ServiceChannel) (ts : List Tag) (i : ℕ) → Sends a b ts → i < length a → i < length b
still a b ts i s h = omega (arith, s.same)

pub send_errors-Sends :
    (cs : List ServiceChannel) (ch : ℕ) (err : ℤ) (srcs : List Source)
    → ch < length cs
    → Sends cs (send_errors cs ch err srcs) (map (tag_in ch) srcs)
unfolding send_errors err_response
send_errors-Sends cs ch err [] h = Sends-nil cs
send_errors-Sends cs ch err (src ∷ srcs) h =
    let one = Sends-one cs ch (err_response src.request_id err) h in
    Sends-trans cs _ _ (tag_in ch src ∷ []) (map (tag_in ch) srcs) one (
      send_errors-Sends (send_at cs ch (err_response src.request_id err)) ch err srcs
        (still cs _ _ ch one h))

send_reads-Sends :
    (cs : List ServiceChannel) (op : MergedOp) (n : ℕ) (srcs : List Source)
    → op.channel_idx < length cs
    → Sends cs (send_reads cs op n srcs) (map (tag_in op.channel_idx) srcs)
unfolding send_reads read_response ok_response
send_reads-Sends cs op n [] h = Sends-nil cs
send_reads-Sends cs op n (src ∷ srcs) h =
    let one = Sends-one cs op.channel_idx (read_response op src n) h in
    Sends-trans cs _ _ (tag_in op.channel_idx src ∷ []) (map (tag_in op.channel_idx) srcs) one (
      send_reads-Sends (send_at cs op.channel_idx (read_response op src n)) op n srcs
        (still cs _ _ op.channel_idx one h))

send_writes-Sends :
    (cs : List ServiceChannel) (ch : ℕ) (srcs : List Source)
    → ch < length cs
    → Sends cs (send_writes cs ch srcs) (map (tag_in ch) srcs)
unfolding send_writes write_response ok_response
send_writes-Sends cs ch [] h = Sends-nil cs
send_writes-Sends cs ch (src ∷ srcs) h =
    let one = Sends-one cs ch (write_response src) h in
    Sends-trans cs _ _ (tag_in ch src ∷ []) (map (tag_in ch) srcs) one
      (send_writes-Sends (send_at cs ch (write_response src)) ch srcs (still cs _ _ ch one h))

-- The requests that an operation answers.
abbrev pub tags_of : MergedOp → List Tag
tags_of op = map (tag_in op.channel_idx) op.sources

-- One response answers an operation for one request.
pub send_single :
    (cs : List ServiceChannel) (op : MergedOp) (resp : IoResponse)
    → IsSingle op
    → resp.id ≡ op.req.id
    → op.channel_idx < length cs
    → Sends cs (send_at cs op.channel_idx resp) (tags_of op)
send_single cs op resp (src, only, same) e h =
    subst (Sends cs (send_at cs op.channel_idx resp))
      (ap (λ i. record { channel_idx = op.channel_idx; request_id = i } ∷ []) (e ∙ sym same)
        ∙ ap (map (tag_in op.channel_idx)) (sym only))
      (Sends-one cs op.channel_idx resp h)

-- What an entry of the batch has to be for its operation.
abbrev pub Matches : BatchKind → MergedOp → Type 0
Matches (BatchKind.pread _ _ _ _) op = Unit
Matches (BatchKind.pwrite _ _ _ _) op = Unit
Matches (BatchKind.fsync _) op = IsSingle op

send_read_responses-Sends :
    (cs : List ServiceChannel) (op : MergedOp) (n : ℤ)
    → op.channel_idx < length cs
    → Sends cs (send_read_responses cs op n) (tags_of op)
unfolding send_read_responses
send_read_responses-Sends cs op n h = elim (Bool-cases (is_neg n)) [
  | inl e ↦ rw e (send_errors-Sends cs op.channel_idx (as_i32 n) op.sources h)
  | inr e ↦ rw e (send_reads-Sends cs op (bytes_of n) op.sources h)
]

send_write_responses-Sends :
    (cs : List ServiceChannel) (op : MergedOp) (n : ℤ)
    → op.channel_idx < length cs
    → Sends cs (send_write_responses cs op n) (tags_of op)
unfolding send_write_responses
send_write_responses-Sends cs op n h = elim (Bool-cases (is_neg n)) [
  | inl e ↦ rw e (send_errors-Sends cs op.channel_idx (as_i32 n) op.sources h)
  | inr e ↦ rw e (send_writes-Sends cs op.channel_idx op.sources h)
]

sync_response-id : (op : MergedOp) (n : ℤ) → (sync_response op n).id ≡ op.req.id
unfolding ok_response err_response
sync_response-id op n = elim (Bool-cases (is_neg n)) [ inl e ↦ rw e refl | inr e ↦ rw e refl ]

pub respond_one-Sends :
    (cs : List ServiceChannel) (kind : BatchKind) (n : ℤ) (op : MergedOp)
    → Matches kind op
    → op.channel_idx < length cs
    → Sends cs (respond_one cs (record { kind = kind; result = n }) op) (tags_of op)
unfolding respond_one
respond_one-Sends cs (BatchKind.pread _ _ _ _) n op m h = send_read_responses-Sends cs op n h
respond_one-Sends cs (BatchKind.pwrite _ _ _ _) n op m h = send_write_responses-Sends cs op n h
respond_one-Sends cs (BatchKind.fsync _) n op m h =
    send_single cs op (sync_response op n) m (sync_response-id op n) h
