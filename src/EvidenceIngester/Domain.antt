-- ===== src/EvidenceIngester/Domain.antt =====
-- go/evidence_ingester/domain/evidence.go. An event type is a string there, and a timestamp the time
-- that was parsed, or that `time.Now` told.
use infra_steward_gateway.Core.{ℕ, String, Bool, Option, none, List, [], ◌∷◌, ◌++◌}
use infra_steward_gateway.Dict.{Dict}
use infra_steward_gateway.Value.{Value}

pub record EvidenceEvent : Type 0 where
  pub timestamp : ℕ
  pub event_type : String
  pub details : Dict Value

pub record EvidenceRecord : Type 0 where
  pub request_id : String
  pub tenant_id : String
  pub scenario : Option String
  pub report_id : Option String
  pub report_type : Option String
  pub jurisdiction : Option String
  pub regime : Option String
  pub policy_suite_version : Option String
  pub policies_applied : List String
  pub decision_outcome : Option String
  pub provider_name : Option String
  pub provider_mode : Option String
  pub redaction_applied : Option Bool
  pub risk_level : Option String
  pub input_hash : Option String
  pub output_hash : Option String
  pub events : List EvidenceEvent
  pub status : String

abbrev pub new_evidence_record : String → String → EvidenceRecord
new_evidence_record request_id tenant_id = record {
  request_id = request_id;
  tenant_id = tenant_id;
  scenario = none;
  report_id = none;
  report_type = none;
  jurisdiction = none;
  regime = none;
  policy_suite_version = none;
  policies_applied = [];
  decision_outcome = none;
  provider_name = none;
  provider_mode = none;
  redaction_applied = none;
  risk_level = none;
  input_hash = none;
  output_hash = none;
  events = [];
  status = "in_progress";
}

-- `AddEvent`, at a reading of the clock; the details are a map.
unfoldable pub add_event : ℕ → String → Dict Value → EvidenceRecord → EvidenceRecord
add_event now event_type details r = record r {
  events = r.events ++ record { timestamp = now; event_type = event_type; details = details } ∷ [];
}

-- The event types that have a name.
abbrev pub event_types : List String
event_types =
    "WORKFLOW_STARTED" ∷ "POLICY_EVALUATED" ∷ "PROVIDER_SELECTED" ∷ "PROVIDER_FAILED"
    ∷ "WORKFLOW_COMPLETED" ∷ []
