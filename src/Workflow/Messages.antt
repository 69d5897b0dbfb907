-- ===== src/Workflow/Messages.antt =====
-- app/workflow/engine.py: what `process_report` reads of a request, and the event payloads, details
-- and labels up to the policy decision.
use infra_steward_gateway.Core.{ℕ, String, Option, none, some, [], ◌∷◌, if◌then◌else◌}
use infra_steward_gateway.PyStr.{truthy}
use infra_steward_gateway.Dict.{Dict}
use infra_steward_gateway.Value.{Value, bool, text, optional, text_list, object}
use infra_steward_gateway.Exec.{Result, ok, raise_result, key_error}
use infra_steward_gateway.Runtime.{Host}
use infra_steward_gateway.World.{World, log, counted}
use infra_steward_gateway.Tenants.{TenantContext}
use infra_steward_gateway.Policy.{PolicyDecision}
use infra_steward_gateway.Evidence.Service.{Start}
use infra_steward_gateway.Supervisory.{labels}
use infra_steward_gateway.Workflow.RequestMetadata.{RequestMetadata, Request}
use infra_steward_gateway.Workflow.Events.{EventPayload}

abbrev pub Response : Type 0
Response = Dict Value

-- The local variables of `process_report` when the policy has been evaluated.
pub record Run : Type 0 where
  pub request_id : String
  pub metadata : RequestMetadata
  pub evidence : ℕ
  pub decision : PolicyDecision
  pub payload : Value
  pub response : Response

-- `request["tenant_id"]`
abbrev pub required_tenant : Request → Result String
required_tenant r = elim r.tenant_id [ none ↦ raise_result key_error "tenant_id" | some t ↦ ok t ]

-- `request.get("jurisdiction") or tenant_context.jurisdiction`
abbrev pub effective_jurisdiction : Option String → String → String
effective_jurisdiction none home = home
effective_jurisdiction (some j) home = if truthy j then j else home

abbrev pub metadata_of : String → TenantContext → Request → RequestMetadata
metadata_of id context r = record {
  request_id = id;
  tenant_id = context.tenant_id;
  scenario = r.scenario;
  report_id = r.report_id;
  report_type = r.report_type;
  jurisdiction = some (effective_jurisdiction r.jurisdiction context.jurisdiction);
  regime = r.regime;
  user_id = r.user_id;
}

abbrev pub tenant_resolved : String → TenantContext → EventPayload
tenant_resolved id context =
    ("request_id", text id)
    ∷ ("tenant_id", text context.tenant_id)
    ∷ ("display_name", text context.display_name)
    ∷ ("policy_scope", text context.policy_scope)
    ∷ ("jurisdiction", text context.jurisdiction)
    ∷ []

abbrev pub start_arguments : RequestMetadata → Start
start_arguments m = record {
  tenant_id = m.tenant_id;
  scenario = m.scenario;
  report_id = m.report_id;
  report_type = m.report_type;
  jurisdiction = m.jurisdiction;
  regime = m.regime;
  policy_suite_version = none;
  request_id = some m.request_id;
}

abbrev pub policy_details : PolicyDecision → Dict Value
policy_details d =
    ("allowed", bool d.allowed)
    ∷ ("reason", text d.reason)
    ∷ ("policies_applied", text_list d.policies_applied)
    ∷ ("policy_suite_version", optional d.policy_suite_version)
    ∷ []

abbrev pub policy_event : String → RequestMetadata → PolicyDecision → EventPayload
policy_event id m d =
    ("request_id", text id)
    ∷ ("tenant_id", text m.tenant_id)
    ∷ ("allowed", bool d.allowed)
    ∷ ("selected_provider", optional d.selected_provider)
    ∷ ("reason", text d.reason)
    ∷ []

abbrev pub policy_label : PolicyDecision → String
policy_label d = if d.allowed then "allowed" else "denied"

abbrev pub completed_event : String → String → EventPayload
completed_event id status = ("request_id", text id) ∷ ("status", text status) ∷ []

-- A counter of app/observability/metrics.py is incremented.
abbrev pub count_policy : RequestMetadata → String → World → World
count_policy m outcome =
    log (counted "gateway_policy_outcomes_total" (labels m "policy_outcome" outcome))

abbrev pub count_provider : RequestMetadata → String → World → World
count_provider m status =
    log (counted "gateway_provider_outcomes_total" (labels m "provider_status" status))

module _ (host : Host) where
  -- `decision.dict()`, with the timestamp in ISO form
  abbrev pub decision_value : PolicyDecision → Value
  decision_value d = object (
      ("allowed", bool d.allowed)
      ∷ ("reason", text d.reason)
      ∷ ("tenant_id", text d.tenant_id)
      ∷ ("policies_applied", text_list d.policies_applied)
      ∷ ("policy_suite_version", optional d.policy_suite_version)
      ∷ ("selected_provider", optional d.selected_provider)
      ∷ ("timestamp", text (host.isoformat d.timestamp))
      ∷ [])

  abbrev pub base_response : String → RequestMetadata → PolicyDecision → Response
  base_response id m d =
      ("request_id", text id)
      ∷ ("tenant_id", text m.tenant_id)
      ∷ ("policy_decision", decision_value d)
      ∷ []
