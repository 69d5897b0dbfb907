-- ===== src/Evidence/Service/Journal.antt =====
-- An abstract view of app/evidence/service.py: a function from request identifiers to records, with
-- no references and no store, and the operations of the service on it. Requests that overlap are
-- sequences of commands in any order.
use infra_steward_gateway.Core.{
  ℕ, ◌+◌, String, ◌==◌, Option, none, some, List, [], ◌∷◌, map, if◌then◌else◌,
}
use infra_steward_gateway.Dict.{Dict, lookup}
use infra_steward_gateway.Value.{Value}
use infra_steward_gateway.Runtime.{Host}
use infra_steward_gateway.World.{World}
use infra_steward_gateway.Evidence.Models.{
  EvidenceEventType, EvidenceEvent, EvidenceRecord, workflow_started, workflow_completed,
}
use infra_steward_gateway.Evidence.Producer.{Ingester}
use infra_steward_gateway.Evidence.Service.{
  Start, Final, started_details, completed_details, with_event, fresh, closed, start_record,
  add_event, finalize, get_record,
}

-- What a request asks of the service, by its identifier.
pub data Command : Type 0 where
  opened : String → Start → Command
  noted : String → EvidenceEventType → Dict Value → Command
  ended : String → Final → Command

abbrev pub target : Command → String
target (opened id a) = id
target (noted id type details) = id
target (ended id a) = id

-- The abstract state: the records on file, and the readings of the clock.
pub record Journal : Type 0 where
  pub on_file : String → Option EvidenceRecord
  pub ticks : ℕ

-- What the service shows of a world.
abbrev pub view : World → Journal
view w = record { on_file = λ k. get_record k w; ticks = w.ticks }

module _ (host : Host) where
  -- A record after a command of its request, at time `t`. There has to be one, unless the command
  -- opens it.
  abbrev pub revise : Command → ℕ → Option EvidenceRecord → Option EvidenceRecord
  revise (opened id a) t _ =
      some (with_event workflow_started (started_details a) (host.utcnow t) (fresh a id))
  revise (noted id type details) t none = none
  revise (noted id type details) t (some r) = some (with_event type details (host.utcnow t) r)
  revise (ended id a) t none = none
  revise (ended id a) t (some r) =
      some (with_event workflow_completed (completed_details a) (host.utcnow t) (closed a r))

  -- Only a command that is carried out reads the clock.
  abbrev pub later : Option EvidenceRecord → ℕ → ℕ
  later none t = t
  later (some r) t = t + 1

  unfoldable pub enter : Command → Journal → Journal
  enter c j =
      let now = revise c j.ticks (j.on_file (target c)) in
      record {
        on_file = λ k. if target c == k then now else j.on_file k;
        ticks = later now j.ticks;
      }

  unfoldable pub enter_all : List Command → Journal → Journal
  enter_all [] j = j
  enter_all (c ∷ cs) j = enter_all cs (enter c j)

  -- The service carries a command out for a caller that holds the record on file, as the engine does.
  module _ (producer : Option Ingester) where
    abbrev pub with_record : Option ℕ → (ℕ → World → World) → World → World
    with_record none f w = w
    with_record (some ref) f w = f ref w

    abbrev pub perform : Command → World → World
    perform (opened id a) w = (start_record host (record a { request_id = some id }) w).1
    perform (noted id type details) w =
        with_record (lookup id w.evidence.store) (λ ref v. (add_event host ref type details v).1) w
    perform (ended id a) w =
        with_record (lookup id w.evidence.store) (λ ref v. (finalize host producer ref a v).1) w

    unfoldable pub perform_all : List Command → World → World
    perform_all [] w = w
    perform_all (c ∷ cs) w = perform_all cs (perform c w)

-- A record without its times.
abbrev pub untimed_event : EvidenceEvent → EvidenceEventType × Dict Value
untimed_event e = (e.event_type, e.details)

abbrev pub untimed : EvidenceRecord → EvidenceRecord × List (EvidenceEventType × Dict Value)
untimed r = (record r { events = [] }, map untimed_event r.events)

abbrev pub untimed_file :
    Option EvidenceRecord → Option (EvidenceRecord × List (EvidenceEventType × Dict Value))
untimed_file none = none
untimed_file (some r) = some (untimed r)

-- The commands of one request, in their order.
unfoldable pub commands_of : String → List Command → List Command
commands_of k [] = []
commands_of k (c ∷ cs) = let rest = commands_of k cs in if target c == k then c ∷ rest else rest
