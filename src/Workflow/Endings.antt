-- ===== src/Workflow/Endings.antt =====
-- app/workflow/engine.py: the event payloads, the evidence details, the arguments of `finalize` and
-- the response fields of each way in which `process_report` ends.
use infra_steward_gateway.Core.{String, Option, none, some, [], ◌∷◌}
use infra_steward_gateway.PyStr.{concat, show_option}
use infra_steward_gateway.Dict.{Dict}
use infra_steward_gateway.Value.{Value, null, bool, text, optional}
use infra_steward_gateway.Exec.{Exc}
use infra_steward_gateway.Runtime.{Host, str_exc}
use infra_steward_gateway.Providers.Base.{
  Provider, EnrichmentClass, show_class, FallbackStrategy, show_strategy,
}
use infra_steward_gateway.Evidence.Service.{Final}
use infra_steward_gateway.Supervisory.{Ack, ack_value}
use infra_steward_gateway.Workflow.Events.{EventPayload}
use infra_steward_gateway.Workflow.Messages.{Response, Run}

-- the branch `if not decision.allowed`
abbrev pub denied_final : Final
denied_final = record {
  status = "blocked";
  decision_outcome = some "denied";
  input_hash = none;
  output_hash = none;
  provider_name = none;
  provider_mode = none;
}

abbrev pub denied_response : Response
denied_response = ("provider_used", null) ∷ ("status", text "blocked") ∷ ("result", null) ∷ []

abbrev pub provider_event : Run → Provider → Option String → Dict Value
provider_event run provider name =
    ("provider", text provider.class_name) ∷ ("provider_name", optional name) ∷ []

abbrev pub selected_event : Run → Provider → Option String → EventPayload
selected_event run provider name =
    ("request_id", text run.request_id)
    ∷ ("tenant_id", text run.metadata.tenant_id)
    ∷ provider_event run provider name

abbrev pub selected_details : Run → Provider → Option String → Dict Value
selected_details run provider name =
    ("provider", text provider.class_name)
    ∷ ("provider_name", optional name)
    ∷ ("provider_mode", text "stub")
    ∷ []

abbrev pub submitted_event : Run → Ack → EventPayload
submitted_event run ack =
    ("request_id", text run.request_id)
    ∷ ("tenant_id", text run.metadata.tenant_id)
    ∷ ("endpoint", text ack.endpoint)
    ∷ ("accepted", bool ack.accepted)
    ∷ []

-- the arguments of `finalize` where a provider was selected
abbrev pub provider_final : String → String → String → Option String → Option String → Final
provider_final status outcome input_hash output_hash name = record {
  status = status;
  decision_outcome = some outcome;
  input_hash = some input_hash;
  output_hash = output_hash;
  provider_name = name;
  provider_mode = some "stub";
}

abbrev pub completed_response : Provider → Value → Ack → Response
completed_response provider enrichment ack =
    ("provider_used", text provider.class_name)
    ∷ ("status", text "completed")
    ∷ ("result", enrichment)
    ∷ ("supervisory_submission", ack_value ack)
    ∷ []

abbrev pub class_text : Option EnrichmentClass → Option String
class_text none = none
class_text (some c) = some (show_class c)

abbrev pub blocked_details : Provider → Option String → Dict Value
blocked_details provider name =
    (
      "reason",
      text (
          concat (
            "Provider "
            ∷ show_option name
            ∷ " of class "
            ∷ show_option (class_text provider.enrichment_class)
            ∷ " failed; strategy FAIL_CLOSED requires blocking the request rather than "
            ∷ "silently omitting the enrichment."
            ∷ [])),
    )
    ∷ []

abbrev pub applied_details : FallbackStrategy → Dict Value
applied_details strategy =
    ("strategy", text (show_strategy strategy))
    ∷ ("note", text "Enrichment omitted for this request; primary payload flows through unchanged.")
    ∷ []

module _ (host : Host) where
  abbrev pub failed_details : Exc → Provider → FallbackStrategy → Dict Value
  failed_details exc provider strategy =
      ("error", text (str_exc host exc))
      ∷ ("enrichment_class", optional (class_text provider.enrichment_class))
      ∷ ("fallback_strategy", text (show_strategy strategy))
      ∷ []

  abbrev pub blocked_event : Run → Exc → EventPayload
  blocked_event run exc =
      ("request_id", text run.request_id)
      ∷ ("tenant_id", text run.metadata.tenant_id)
      ∷ ("reason", text "provider_failed_fail_closed")
      ∷ ("error", text (str_exc host exc))
      ∷ []

  abbrev pub fallback_event : Run → Exc → EventPayload
  fallback_event run exc =
      ("request_id", text run.request_id)
      ∷ ("tenant_id", text run.metadata.tenant_id)
      ∷ ("error", text (str_exc host exc))
      ∷ []

  abbrev pub blocked_response : Provider → Exc → FallbackStrategy → Response
  blocked_response provider exc strategy =
      ("provider_used", text provider.class_name)
      ∷ ("status", text "blocked_provider_failure")
      ∷ ("result", null)
      ∷ ("error", text (str_exc host exc))
      ∷ ("fallback_strategy", text (show_strategy strategy))
      ∷ []

  abbrev pub fallback_response : Provider → Exc → FallbackStrategy → Response
  fallback_response provider exc strategy =
      ("provider_used", text provider.class_name)
      ∷ ("status", text "fallback")
      ∷ ("error", text (str_exc host exc))
      ∷ ("fallback_strategy", text (show_strategy strategy))
      ∷ []
