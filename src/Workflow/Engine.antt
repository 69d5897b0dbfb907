-- ===== src/Workflow/Engine.antt =====
-- app/workflow/engine.py: `process_report`, in parts that follow the order of the source.
pub mod Single
pub mod Steps
pub mod Opening
pub mod Judged
pub mod Outcome
pub mod Routed
pub mod Processed
pub mod Attempts
pub mod Account
pub mod Completed
pub mod Ended
pub mod Accounted
pub mod Guarantees
pub mod Overlapped
pub mod Shaped
pub mod Sequence
pub mod Totality
use infra_steward_gateway.Core.{
  ℕ, String, Bool, true, false, Option, none, some, List, [], ◌∷◌, get_or, if◌then◌else◌,
}
use infra_steward_gateway.Dict.{Dict, update}
use infra_steward_gateway.Value.{Value, object}
use infra_steward_gateway.Exec.{
  Exec, Exc, Result, ok, err, lift, calls, modify, pure, try_except, ◌>>=◌, ◌>>◌,
}
use infra_steward_gateway.Runtime.{Host}
use infra_steward_gateway.World.{World, log, now, draw, enriched}
use infra_steward_gateway.Tenants.{resolve}
use infra_steward_gateway.Policy.{PolicyDecision, evaluate}
use infra_steward_gateway.Providers.Base.{Provider, FallbackStrategy, drop_and_signal, fail_closed}
use infra_steward_gateway.Providers.Registry.{get, lookup_name}
use infra_steward_gateway.Evidence.Models.{
  policy_evaluated, provider_selected, provider_failed, provider_fallback_applied,
  provider_fallback_blocked,
}
use infra_steward_gateway.Evidence.Service.{start_record, add_event, finalize}
use infra_steward_gateway.Supervisory.{submit_report}
use infra_steward_gateway.Workflow.RequestMetadata.{RequestMetadata, Request}
use infra_steward_gateway.Workflow.Events.{EventPayload, publish}
use infra_steward_gateway.Workflow.Setup.{WorkflowEngine}
use infra_steward_gateway.Workflow.Messages.{
  Run, Response, required_tenant, effective_jurisdiction, metadata_of, tenant_resolved,
  start_arguments, policy_details, policy_event, policy_label, completed_event, count_policy,
  count_provider, decision_value, base_response,
}
use infra_steward_gateway.Workflow.Endings.{
  denied_final, denied_response, provider_event, selected_event, selected_details, submitted_event,
  provider_final, completed_response, class_text, blocked_details, applied_details, failed_details,
  blocked_event, fallback_event, blocked_response, fallback_response,
}

module _ (host : Host) where
  abbrev hashed : Result String → Result String
  hashed (err e) = err e
  hashed (ok s) = ok (host.sha256_hex s)

  -- `_sha256_hash`
  unfoldable pub sha256_hash : Value → Result String
  sha256_hash data_value = hashed (host.json_dumps data_value)

  module _ (engine : WorkflowEngine) where
    abbrev pub publish_event : String → EventPayload → World → World
    publish_event = publish engine.event_bus

    unfoldable pub deny : Run → Exec World Response
    deny run = do
      modify (count_provider run.metadata "none")
      finalize host engine.producer run.evidence denied_final
      modify (publish_event "workflow.completed" (completed_event run.request_id "blocked"))
      pure (update run.response denied_response)

    -- `await selected_provider.generate_enrichment(metadata, payload)`
    unfoldable pub call_provider : Provider → RequestMetadata → Value → Exec World Value
    call_provider provider metadata payload = do
      modify (log (enriched provider.class_name metadata payload))
      lift (provider.generate_enrichment metadata payload)

    -- the body of the `try`
    unfoldable pub attempt : Run → Provider → Option String → String → Exec World Response
    attempt run provider name input_hash = do
      enrichment ← call_provider provider run.metadata run.payload
      add_event host run.evidence provider_selected (selected_details run provider name)
      output_hash ← lift (sha256_hash enrichment)
      ack ← submit_report engine.supervisory_service run.metadata enrichment
      modify (publish_event "supervisory.submitted" (submitted_event run ack))
      finalize host engine.producer run.evidence
          (provider_final "completed" "approved" input_hash (some output_hash) name)
      modify (publish_event "workflow.completed" (completed_event run.request_id "completed"))
      modify (count_provider run.metadata "ok")
      pure (update run.response (completed_response provider enrichment ack))

    -- `if provider_strategy == FallbackStrategy.FAIL_CLOSED`, and what follows it
    unfoldable pub fall_back :
        Run → Provider → Option String → String → Exc → FallbackStrategy → Exec World Response
    fall_back run provider name input_hash exc fail_closed = do
      add_event host run.evidence provider_fallback_blocked (blocked_details provider name)
      finalize host engine.producer run.evidence (
          provider_final "blocked_provider_failure" "provider_failure_blocked" input_hash none name)
      modify (publish_event "workflow.blocked" (blocked_event host run exc))
      modify (count_provider run.metadata "blocked_fail_closed")
      pure (update run.response (blocked_response host provider exc fail_closed))
    fall_back run provider name input_hash exc drop_and_signal = do
      add_event host run.evidence provider_fallback_applied (applied_details drop_and_signal)
      finalize host engine.producer run.evidence
          (provider_final "fallback" "provider_failure" input_hash none name)
      modify (publish_event "workflow.fallback" (fallback_event host run exc))
      modify (count_provider run.metadata "fallback")
      pure (update run.response (fallback_response host provider exc drop_and_signal))

    -- `getattr(selected_provider, "fallback_strategy", DROP_AND_SIGNAL)`
    abbrev pub strategy_of : Provider → FallbackStrategy
    strategy_of provider = get_or provider.fallback_strategy drop_and_signal

    -- the `except Exception as exc`
    unfoldable pub on_failure : Run → Provider → Option String → String → Exc → Exec World Response
    on_failure run provider name input_hash exc = do
      add_event host run.evidence provider_failed
          (failed_details host exc provider (strategy_of provider))
      fall_back run provider name input_hash exc (strategy_of provider)

    -- `decision.selected_provider or self.provider_registry.default_name`
    abbrev pub provider_name_of : PolicyDecision → Option String
    provider_name_of d = lookup_name d.selected_provider engine.provider_registry.default_name

    -- the steps after an allow
    unfoldable pub route : Run → Exec World Response
    route run = do
      input_hash ← lift (sha256_hash run.payload)
      provider ← lift (get host engine.provider_registry run.decision.selected_provider)
      let name = provider_name_of run.decision
      modify (publish_event "provider.selected" (selected_event run provider name))
      try_except (attempt run provider name input_hash) (on_failure run provider name input_hash)

    -- tenant resolution, the start of the record and the policy evaluation
    unfoldable pub evaluate_request : Request → Exec World Run
    evaluate_request request = do
      request_id ← calls (draw host)
      tenant ← lift (required_tenant request)
      context ← lift (resolve host tenant)
      let metadata = metadata_of request_id context request
      modify (publish_event "tenant.resolved" (tenant_resolved request_id context))
      evidence ← calls (start_record host (start_arguments metadata))
      time ← calls (now host)
      let decision =
          evaluate engine.policy_service metadata.tenant_id metadata.scenario metadata.report_type
            metadata.jurisdiction time
      add_event host evidence policy_evaluated (policy_details decision)
      modify (count_policy metadata (policy_label decision))
      modify (publish_event "policy.evaluated" (policy_event request_id metadata decision))
      pure (record {
        request_id = request_id;
        metadata = metadata;
        evidence = evidence;
        decision = decision;
        payload = get_or request.payload (object []);
        response = base_response host request_id metadata decision;
      })

    unfoldable pub process_report : Request → Exec World Response
    process_report request = do
      run ← evaluate_request request
      if run.decision.allowed then route run else deny run
