-- ===== src/Supervisory.antt =====
-- app/supervisory/service.py, and the counters of app/observability/metrics.py, which are a library's
-- objects: an increment is a call in the trace.
use infra_steward_gateway.Core.{
  String, Bool, true, Option, none, some, List, [], ◌∷◌, if◌then◌else◌,
}
use infra_steward_gateway.PyStr.{truthy, sorted, concat}
use infra_steward_gateway.Dict.{Dict, keys}
use infra_steward_gateway.Value.{Value, obj, text, bool, optional, text_list, entries, object}
use infra_steward_gateway.Exec.{
  Exec, Result, ok, raise_result, attribute_error, lift, modify, pure, ◌>>=◌, ◌>>◌,
}
use infra_steward_gateway.Workflow.RequestMetadata.{RequestMetadata}
use infra_steward_gateway.World.{World, log, counted, submitted}
use infra_steward_gateway.Providers.Stubs.{type_name}

-- `scenario or "unknown"`
abbrev pub scenario_label : Option String → String
scenario_label none = "unknown"
scenario_label (some s) = if truthy s then s else "unknown"

-- The labels of the governance counters: tenant, scenario, and an outcome under its label's name.
abbrev pub labels : RequestMetadata → String → String → Dict String
labels metadata outcome_label outcome =
    ("tenant_id", metadata.tenant_id)
    ∷ ("scenario", scenario_label metadata.scenario)
    ∷ (outcome_label, outcome)
    ∷ []

abbrev pub supervisory_submission : RequestMetadata → String → Dict String
supervisory_submission metadata = labels metadata "submission_status"

pub record SupervisoryReportingService : Type 0 where
  pub endpoint_label : String

unfoldable pub default_service : SupervisoryReportingService
default_service = record { endpoint_label = "stub-supervisory-endpoint" }

-- The acknowledgement, a dict with these five keys.
pub record Ack : Type 0 where
  pub endpoint : String
  pub accepted : Bool
  pub tenant_id : String
  pub report_id : Option String
  pub payload_keys : List String

unfoldable pub ack_value : Ack → Value
unfolding object
ack_value a = object (
    ("endpoint", text a.endpoint)
    ∷ ("accepted", bool a.accepted)
    ∷ ("tenant_id", text a.tenant_id)
    ∷ ("report_id", optional a.report_id)
    ∷ ("payload_keys", text_list a.payload_keys)
    ∷ [])

-- `sorted(enriched_payload.keys())`; only a dict has keys
unfoldable pub payload_keys : Value → Result (List String)
unfolding entries
payload_keys (obj fields) = ok (sorted (keys (entries fields)))
payload_keys v =
    raise_result attribute_error
      (concat ("'" ∷ type_name v ∷ "' object has no attribute 'keys'" ∷ []))

-- The submission is logged and counted before the acknowledgement is built.
unfoldable pub submit_report :
    SupervisoryReportingService → RequestMetadata → Value → Exec World Ack
submit_report service metadata enriched_payload = do
  modify (log (submitted service.endpoint_label metadata))
  modify (
      log (
        counted "gateway_supervisory_submissions_total"
          (supervisory_submission metadata "accepted")))
  sorted_keys ← lift (payload_keys enriched_payload)
  pure (record {
    endpoint = service.endpoint_label;
    accepted = true;
    tenant_id = metadata.tenant_id;
    report_id = metadata.report_id;
    payload_keys = sorted_keys;
  })
