-- ===== src/Shm/Tests.antt =====
-- The startup on a concrete system.
use atlas_io.Protocol.{IoOp, IoPriority, IoRequest, new_request, ok_response}
use atlas_io.Channel as Channel
use atlas_io.Channel.{ServiceChannel}
use atlas_io.Shm.Messages.{poll_request, pop_response, send_response}
use atlas_io.Shm.Link.{Connected-Linked}
use atlas_io.Shm.Refine.{Represents, Represents-refines}
use atlas_io.Shm.Exchange.{answers_to, answers_to-map}
use atlas_io.Base.{none, List, map, ℕ, ◌∷◌, ◌≡◌, refl, some, arith, ◌==◌, if◌then◌else◌, false, []}
use atlas_io.Protocol.Names.{requests, segment_name, shm_req_name}
use atlas_io.Shm.{ok, err, other, of_errno, timeout_joining}
use atlas_io.Shm.ClientSide.{create, prepare, connect}
use atlas_io.Shm.ServiceSide.{join}
use atlas_io.Shm.Laws.{enoent}
use atlas_io.Shm.Startup.{JoinsIn, Meets, create-Meets, create_others_stay, connect-Connected}
use atlas_io.Shm.Timeout.{create_timeout}
use atlas_io.Shm.Connect.{Connected}
use atlas_io.Shm.Directory.{name_eq_refl}
use atlas_io.Shm.InMemory.{Objects, memory_os, memory_view, memory_os-IsPosix, no_segments}

-- The service registers instance 7 in the fourth sleep.
abbrev register_late : ℕ → Objects → Objects
register_late j w = if j == 3 then (join memory_os 7 w).1 else w

register_late-JoinsIn : JoinsIn memory_os memory_view memory_os-IsPosix 3 7 register_late
register_late-JoinsIn = record {
  joins = λ w. refl;
  idle = λ j w ne.
      let other : (j == 3) ≡ false = ground arith in
      rw other (record { linked = λ n. refl; content = λ s p. refl });
}

-- The client of instance 8 is already there.
abbrev with_eight : Objects
with_eight = (prepare memory_os 8 no_segments).1

create-Meets_example :
    Meets memory_os memory_view memory_os-IsPosix 7 (create memory_os register_late 7 with_eight)
create-Meets_example =
    create-Meets memory_os memory_view memory_os-IsPosix 3 7 register_late with_eight (omega arith)
      register_late-JoinsIn (omega arith)

connect-Connected_example :
    (p : _) × (w1 : Objects) × (prepare memory_os 7 with_eight ≡ (ok p, w1))
    × (s : _) × (w2 : Objects) × (join memory_os 7 w1 ≡ (ok s, w2))
    × (c : _) × (w3 : Objects) × (connect memory_os (λ _ w. w) p w2 ≡ (ok c, w3))
    × Connected memory_os memory_view memory_os-IsPosix c s (memory_view.look w3)
connect-Connected_example =
    connect-Connected memory_os memory_view memory_os-IsPosix 7 (λ _ w. w) with_eight (omega arith)

-- A service that has registered the instance before, and does nothing now.
create_timeout_example :
    (create memory_os (λ _ w. w) 8 (join memory_os 8 with_eight).1).0
    ≡ err (other (timeout_joining (of_errno enoent)))
create_timeout_example =
    create_timeout memory_os memory_view memory_os-IsPosix 8 (λ _ w. w)
      (join memory_os 8 with_eight).1 (omega arith) (λ j w gone. gone)

-- A request ring of instance 8.
abbrev stale : Objects
stale = record no_segments { names = (shm_req_name 8, 0) ∷ [] }

stale-linked : (memory_view.look stale).linked (segment_name requests 8) ≡ some 0
stale-linked = ground (arith, name_eq_refl (shm_req_name 8))

create_others_stay_example :
    ((memory_view.look (create memory_os register_late 7 stale).1).linked (segment_name requests 8)
      ≡ some 0)
    × ((memory_view.look (create memory_os register_late 7 stale).1).content requests 0
        ≡ (memory_view.look stale).content requests 0)
create_others_stay_example =
    create_others_stay memory_os memory_view memory_os-IsPosix 3 7 8 0 requests register_late stale
      (omega arith) (omega arith) (λ e. omega (arith, e)) register_late-JoinsIn (omega arith)
      stale-linked

-- What the startup of instance 7 gives.
abbrev ends :
    (p : _) × (w1 : Objects) × (prepare memory_os 7 with_eight ≡ (ok p, w1))
    × (s : _) × (w2 : Objects) × (join memory_os 7 w1 ≡ (ok s, w2))
    × (c : _) × (w3 : Objects) × (connect memory_os (λ _ w. w) p w2 ≡ (ok c, w3))
    × Connected memory_os memory_view memory_os-IsPosix c s (memory_view.look w3)
ends =
    connect-Connected memory_os memory_view memory_os-IsPosix 7 (λ _ w. w) with_eight (omega arith)

abbrev two_requests : List IoRequest
two_requests =
    new_request 1 IoOp.read IoPriority.high ∷ new_request 2 IoOp.sync IoPriority.critical ∷ []

answers_to-map_example :
    answers_to memory_os (λ req. ok_response req.id) 2 ends.6 two_requests (ends.3, ends.7)
    ≡ some (map (λ req. ok_response req.id) two_requests)
unfolding ok_response
answers_to-map_example =
    answers_to-map memory_os memory_view memory_os-IsPosix (λ req. ok_response req.id) ends.6 ends.3
      ends.7 two_requests 0 (λ req. refl) ends.9

abbrev fresh_channel : ServiceChannel
fresh_channel = record { instance_id = ends.3.instance_id; requests = []; sent = [] }

fresh_channel-Represents :
    Represents memory_os memory_view memory_os-IsPosix fresh_channel ends.6 ends.3
      (memory_view.look ends.7)
fresh_channel-Represents = record {
  taken = [];
  pending = [];
  sent = refl;
  linked =
      Connected-Linked memory_os memory_view memory_os-IsPosix ends.6 ends.3
        (memory_view.look ends.7) ends.9;
  instance_id = refl;
}

abbrev client_pops : ℕ → Objects → Objects
client_pops i w = (pop_response memory_os ends.6 w).2

Represents-refines_example :
    (((poll_request memory_os ends.3 ends.7).0 ≡ none)
      × Represents memory_os memory_view memory_os-IsPosix fresh_channel ends.6
          (poll_request memory_os ends.3 ends.7).1
          (memory_view.look (poll_request memory_os ends.3 ends.7).2))
    × ((c' : _) × (s' : _) × (w' : Objects) × (send_response memory_os client_pops 1 0 ends.3
            (ok_response 5)
            ends.7
          ≡ some (s', w'))
        × Represents memory_os memory_view memory_os-IsPosix
            (Channel.send_response fresh_channel (ok_response 5))
            c'
            s'
            (memory_view.look w'))
unfolding fresh_channel-Represents
Represents-refines_example =
    Represents-refines memory_os memory_view memory_os-IsPosix fresh_channel ends.6 ends.3 ends.7
      (ok_response 5) 0 client_pops fresh_channel-Represents (λ w. refl)
