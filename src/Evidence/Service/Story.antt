-- ===== src/Evidence/Service/Story.antt =====
-- The order in which a request uses app/evidence/service.py: its record is opened, events are noted,
-- and at the end it may be closed; and the record that this leaves.
use infra_steward_gateway.Core.{ℕ, String, List, [], ◌∷◌, ◌++◌}
use infra_steward_gateway.Dict.{Dict}
use infra_steward_gateway.Value.{Value}
use infra_steward_gateway.Runtime.{Host}
use infra_steward_gateway.Evidence.Models.{
  EvidenceEventType, EvidenceRecord, workflow_started, workflow_completed,
}
use infra_steward_gateway.Evidence.Service.{
  Start, Final, started_details, completed_details, with_event, fresh, closed,
}
use infra_steward_gateway.Evidence.Service.Journal.{Command, opened, noted, ended}

pub data Phase : Type 0 where
  open_record closed_record : Phase

-- What a request has asked of the service so far, whether its record is closed, and the record, whose
-- events may have any times.
pub data Story (host : Host) (id : String) : List Command → Phase → EvidenceRecord → Type 0 where
  opens :
      (a : Start) (t : ℕ)
      → Story host id
          (opened id a ∷ [])
          open_record
          (with_event workflow_started (started_details a) (host.utcnow t) (fresh a id))
  notes :
      {cs : List Command} {r : EvidenceRecord} (type : EvidenceEventType) (details : Dict Value)
      (t : ℕ)
      → Story host id cs open_record r
      → Story host id
          (cs ++ noted id type details ∷ [])
          open_record
          (with_event type details (host.utcnow t) r)
  ends :
      {cs : List Command} {r : EvidenceRecord} (a : Final) (t : ℕ)
      → Story host id cs open_record r
      → Story host id
          (cs ++ ended id a ∷ [])
          closed_record
          (with_event workflow_completed (completed_details a) (host.utcnow t) (closed a r))
