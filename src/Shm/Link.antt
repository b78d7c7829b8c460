-- ===== src/Shm/Link.antt =====
-- The two ends of a channel over its shared segments: each call of `push` or `pop` is one of a queue.
use atlas_io.Base.{◌≡◌, ◌≢◌, refl, sym, ◌∙◌, List, []}
use atlas_io.Base.Bits.{IsPower, is_power_of_two, is_power_of_two-IsPower}
use atlas_io.Protocol.{IoRequest, IoResponse, ring_capacity}
use atlas_io.Protocol.Names.{requests, responses}
use atlas_io.Spsc.{push, pop}
use atlas_io.Spsc.Fifo.{add_newest, take_oldest}
use atlas_io.Spsc.Queue.{Holds, Holds-start, push-Holds, pop-Holds}
use atlas_io.Shm.{Posix}
use atlas_io.Shm.ClientSide.{ClientChannel}
use atlas_io.Shm.ServiceSide.{ServiceChannel}
use atlas_io.Shm.Messages.{push_request, pop_response, poll_request, push_response}
use atlas_io.Shm.Laws.{Segments, View, IsPosix}
use atlas_io.Shm.Connect.{Connected}

pub capacity-IsPower : IsPower ring_capacity
unfolding is_power_of_two
capacity-IsPower = is_power_of_two-IsPower ring_capacity refl

module _ (os : Posix) (v : View os) (posix : IsPosix os v) where
  -- Requests and responses that are under way between the two ends.
  pub record Linked (c : ClientChannel os) (s : ServiceChannel os) (st : Segments)
      (reqs : List IoRequest) (resps : List IoResponse) : Type 0 where
    pub requests_shared : v.mapped s.req_ring ≡ v.mapped c.req_ring
    pub responses_shared : v.mapped s.resp_ring ≡ v.mapped c.resp_ring
    pub apart : v.mapped c.req_ring ≢ v.mapped c.resp_ring
    pub requests_held :
        Holds ring_capacity (st.content requests (v.mapped c.req_ring)) c.req_tx s.req_rx reqs
    pub responses_held :
        Holds ring_capacity (st.content responses (v.mapped c.resp_ring)) s.resp_tx c.resp_rx resps

  -- After the startup nothing is under way.
  pub Connected-Linked :
      (c : ClientChannel os) (s : ServiceChannel os) (st : Segments)
      → Connected os v posix c s st
      → Linked c s st [] []
  Connected-Linked c s st both =
      let reqs = both.requests_fresh in
      let resps = both.responses_fresh in
      record {
        requests_shared = both.requests_shared;
        responses_shared = both.responses_shared;
        apart = both.apart.0;
        requests_held =
            Holds-start capacity-IsPower (st.content requests (v.mapped c.req_ring)) c.req_tx
              s.req_rx reqs.tail reqs.head both.producers.0 both.consumers.1;
        responses_held =
            Holds-start capacity-IsPower (st.content responses (v.mapped c.resp_ring)) s.resp_tx
              c.resp_rx resps.tail resps.head both.producers.1 both.consumers.0;
      }

  module _ {c : ClientChannel os} {s : ServiceChannel os} {w : os.World} {reqs : List IoRequest}
      {resps : List IoResponse} (linked : Linked c s (v.look w) reqs resps) where
    pub push_request-Linked :
        (req : IoRequest)
        → ((push_request os c req w).0 ≡ (add_newest ring_capacity reqs req).0)
          × Linked
              (push_request os c req w).1
              s
              (v.look (push_request os c req w).2)
              (add_newest ring_capacity reqs req).1
              resps
    unfolding push_request
    push_request-Linked req =
        let r = os.load requests c.req_ring w in
        let same = posix.loads requests c.req_ring w in
        let held : Holds ring_capacity r c.req_tx s.req_rx reqs = rw same linked.requests_held in
        let (result, held') = push-Holds capacity-IsPower held req in
        let (_, here, others) =
          posix.stores requests c.req_ring (push ring_capacity r c.req_tx req).1 w in
        (
          result,
          record {
            requests_shared = linked.requests_shared;
            responses_shared = linked.responses_shared;
            apart = linked.apart;
            requests_held = rw here held';
            responses_held =
                rw (others responses (v.mapped c.resp_ring) (λ e. linked.apart (sym e)))
                  linked.responses_held;
          },
        )

    pub poll_request-Linked :
        ((poll_request os s w).0 ≡ (take_oldest reqs).0)
        × Linked c
            (poll_request os s w).1
            (v.look (poll_request os s w).2)
            (take_oldest reqs).1
            resps
    unfolding poll_request
    poll_request-Linked =
        let same = posix.loads requests s.req_ring w in
        let r = os.load requests s.req_ring w in
        let held : Holds ring_capacity r c.req_tx s.req_rx reqs =
          rw (same, linked.requests_shared) linked.requests_held in
        let (result, held') = pop-Holds capacity-IsPower held in
        let (_, here, others) =
          posix.stores requests s.req_ring (pop ring_capacity r s.req_rx).1 w in
        (
          result,
          record {
            requests_shared = linked.requests_shared;
            responses_shared = linked.responses_shared;
            apart = linked.apart;
            requests_held = rw (sym linked.requests_shared, here) held';
            responses_held =
                rw
                  (others responses (v.mapped c.resp_ring)
                    (λ e. linked.apart (sym linked.requests_shared ∙ sym e)))
                  linked.responses_held;
          },
        )

    pub push_response-Linked :
        (resp : IoResponse)
        → ((push_response os s resp w).0 ≡ (add_newest ring_capacity resps resp).0)
          × Linked c
              (push_response os s resp w).1
              (v.look (push_response os s resp w).2)
              reqs
              (add_newest ring_capacity resps resp).1
    unfolding push_response
    push_response-Linked resp =
        let same = posix.loads responses s.resp_ring w in
        let r = os.load responses s.resp_ring w in
        let held : Holds ring_capacity r s.resp_tx c.resp_rx resps =
          rw (same, linked.responses_shared) linked.responses_held in
        let (result, held') = push-Holds capacity-IsPower held resp in
        let (_, here, others) =
          posix.stores responses s.resp_ring (push ring_capacity r s.resp_tx resp).1 w in
        (
          result,
          record {
            requests_shared = linked.requests_shared;
            responses_shared = linked.responses_shared;
            apart = linked.apart;
            requests_held =
                rw
                  (others requests (v.mapped c.req_ring)
                    (λ e. linked.apart (e ∙ linked.responses_shared)))
                  linked.requests_held;
            responses_held = rw (sym linked.responses_shared, here) held';
          },
        )

    pub pop_response-Linked :
        ((pop_response os c w).0 ≡ (take_oldest resps).0)
        × Linked
            (pop_response os c w).1
            s
            (v.look (pop_response os c w).2)
            reqs
            (take_oldest resps).1
    unfolding pop_response
    pop_response-Linked =
        let same = posix.loads responses c.resp_ring w in
        let r = os.load responses c.resp_ring w in
        let held : Holds ring_capacity r s.resp_tx c.resp_rx resps =
          rw same linked.responses_held in
        let (result, held') = pop-Holds capacity-IsPower held in
        let (_, here, others) =
          posix.stores responses c.resp_ring (pop ring_capacity r c.resp_rx).1 w in
        (
          result,
          record {
            requests_shared = linked.requests_shared;
            responses_shared = linked.responses_shared;
            apart = linked.apart;
            requests_held =
                rw (others requests (v.mapped c.req_ring) linked.apart) linked.requests_held;
            responses_held = rw here held';
          },
        )
