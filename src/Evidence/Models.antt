-- ===== src/Evidence/Models.antt =====
-- app/evidence/models.py
use infra_steward_gateway.Core.{ℕ, String, Bool, Option, none, List, []}
use infra_steward_gateway.Dict.{Dict}
use infra_steward_gateway.Value.{Value}
use infra_steward_gateway.Exec.{Result, ok, err}

pub data EvidenceEventType : Type 0 where
  workflow_started policy_evaluated provider_selected provider_failed : EvidenceEventType
  provider_fallback_applied provider_fallback_blocked workflow_completed : EvidenceEventType

pub record EvidenceEvent : Type 0 where
  pub timestamp : ℕ
  pub event_type : EvidenceEventType
  pub details : Dict Value

pub record EvidenceRecord : Type 0 where
  pub request_id : String
  pub tenant_id : String
  pub scenario : Option String
  pub report_id : Option String
  pub report_type : Option String
  pub jurisdiction : Option String
  pub regime : Option String
  pub policy_suite_version : Option String
  pub policies_applied : List String
  pub decision_outcome : Option String
  pub provider_name : Option String
  pub provider_mode : Option String
  pub redaction_applied : Option Bool
  pub risk_level : Option String
  pub input_hash : Option String
  pub output_hash : Option String
  pub events : List EvidenceEvent
  pub status : String

-- The fields that have a default, at their defaults.
abbrev pub new_record : String → String → EvidenceRecord
new_record request_id tenant_id = record {
  request_id = request_id;
  tenant_id = tenant_id;
  scenario = none;
  report_id = none;
  report_type = none;
  jurisdiction = none;
  regime = none;
  policy_suite_version = none;
  policies_applied = [];
  decision_outcome = none;
  provider_name = none;
  provider_mode = none;
  redaction_applied = none;
  risk_level = none;
  input_hash = none;
  output_hash = none;
  events = [];
  status = "in_progress";
}

-- `json.loads(self.json())`; what reads and writes JSON are the arguments.
unfoldable pub serializable_dict :
    (EvidenceRecord → Result String) → (String → Result Value) → EvidenceRecord → Result Value
serializable_dict json loads r = elim (json r) [ err e ↦ err e | ok s ↦ loads s ]
