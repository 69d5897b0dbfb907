-- ===== src/Workflow/Concurrent.antt =====
-- app/workflow/engine.py: `process_report` as a coroutine, which may be suspended before and after each
-- call that it makes. Python suspends it only at an `await` that waits, so it has fewer interleavings.
pub mod Runs
pub mod Stages
pub mod Ensures
pub mod Records
pub mod Calls
pub mod Requests
pub mod Settled
pub mod Tasks
pub mod Answers
pub mod Distinct
pub mod Counted
pub mod Tallied
pub mod Outcomes
use infra_steward_gateway.Core.{
  ℕ, String, Bool, true, false, Option, none, some, List, [], ◌∷◌, get_or, if◌then◌else◌,
}
use infra_steward_gateway.Dict.{Dict, update}
use infra_steward_gateway.Value.{Value, object}
use infra_steward_gateway.Exec.{Exc, Result, lift, calls, modify}
use infra_steward_gateway.Coroutine.{Coroutine, at_once, returns, try_except, ◌>>=◌, ◌>>◌}
use infra_steward_gateway.Runtime.{Host}
use infra_steward_gateway.World.{World, log, now, draw, enriched}
use infra_steward_gateway.Tenants.{resolve}
use infra_steward_gateway.Policy.{PolicyDecision, evaluate}
use infra_steward_gateway.Providers.Base.{Provider, FallbackStrategy, drop_and_signal, fail_closed}
use infra_steward_gateway.Providers.Registry.{get}
use infra_steward_gateway.Evidence.Models.{
  policy_evaluated, provider_selected, provider_failed, provider_fallback_applied,
  provider_fallback_blocked,
}
use infra_steward_gateway.Evidence.Service.{
  Final, start_record, add_event, require_stored, close_record, send_current,
}
use infra_steward_gateway.Supervisory.{submit_report}
use infra_steward_gateway.Workflow.RequestMetadata.{RequestMetadata, Request}
use infra_steward_gateway.Workflow.Events.{EventPayload}
use infra_steward_gateway.Workflow.Events.Steps.{publish_steps}
use infra_steward_gateway.Workflow.Setup.{WorkflowEngine}
use infra_steward_gateway.Workflow.Messages.{
  Run, Response, required_tenant, metadata_of, tenant_resolved, start_arguments, policy_details,
  policy_event, policy_label, completed_event, count_policy, count_provider, base_response,
}
use infra_steward_gateway.Workflow.Endings.{
  denied_final, denied_response, selected_event, selected_details, submitted_event, provider_final,
  completed_response, blocked_details, applied_details, failed_details, blocked_event,
  fallback_event, blocked_response, fallback_response,
}
use infra_steward_gateway.Workflow.Engine.{sha256_hash, strategy_of, provider_name_of}

module _ (host : Host) (engine : WorkflowEngine) where
  -- `await self.event_bus.publish(event_name, payload)`
  abbrev publish_event : String → EventPayload → Coroutine World (Unit {0})
  publish_event n p = publish_steps engine.event_bus n p

  -- `await self.evidence_service.finalize(...)`: it is suspended while the record is posted.
  unfoldable pub finalize_steps : ℕ → Final → Coroutine World ℕ
  finalize_steps ref a = do
    at_once (require_stored host ref)
    at_once (modify (close_record host ref a))
    at_once (modify (send_current engine.producer ref))
    returns ref

  unfoldable pub deny_steps : Run → Coroutine World Response
  deny_steps run = do
    at_once (modify (count_provider run.metadata "none"))
    finalize_steps run.evidence denied_final
    publish_event "workflow.completed" (completed_event run.request_id "blocked")
    returns (update run.response denied_response)

  -- `await selected_provider.generate_enrichment(metadata, payload)`
  unfoldable pub call_provider_steps : Provider → RequestMetadata → Value → Coroutine World Value
  call_provider_steps provider metadata payload = do
    at_once (modify (log (enriched provider.class_name metadata payload)))
    at_once (lift (provider.generate_enrichment metadata payload))

  -- the body of the `try`
  unfoldable pub attempt_steps : Run → Provider → Option String → String → Coroutine World Response
  attempt_steps run provider name input_hash = do
    enrichment ← call_provider_steps provider run.metadata run.payload
    at_once (add_event host run.evidence provider_selected (selected_details run provider name))
    output_hash ← at_once (lift (sha256_hash host enrichment))
    ack ← at_once (submit_report engine.supervisory_service run.metadata enrichment)
    publish_event "supervisory.submitted" (submitted_event run ack)
    finalize_steps run.evidence
        (provider_final "completed" "approved" input_hash (some output_hash) name)
    publish_event "workflow.completed" (completed_event run.request_id "completed")
    at_once (modify (count_provider run.metadata "ok"))
    returns (update run.response (completed_response provider enrichment ack))

  -- `if provider_strategy == FallbackStrategy.FAIL_CLOSED`, and what follows it
  unfoldable pub fall_back_steps :
      Run → Provider → Option String → String → Exc → FallbackStrategy → Coroutine World Response
  fall_back_steps run provider name input_hash exc fail_closed = do
    at_once (add_event host run.evidence provider_fallback_blocked (blocked_details provider name))
    finalize_steps run.evidence
        (provider_final "blocked_provider_failure" "provider_failure_blocked" input_hash none name)
    publish_event "workflow.blocked" (blocked_event host run exc)
    at_once (modify (count_provider run.metadata "blocked_fail_closed"))
    returns (update run.response (blocked_response host provider exc fail_closed))
  fall_back_steps run provider name input_hash exc drop_and_signal = do
    at_once
        (add_event host run.evidence provider_fallback_applied (applied_details drop_and_signal))
    finalize_steps run.evidence (provider_final "fallback" "provider_failure" input_hash none name)
    publish_event "workflow.fallback" (fallback_event host run exc)
    at_once (modify (count_provider run.metadata "fallback"))
    returns (update run.response (fallback_response host provider exc drop_and_signal))

  -- the `except Exception as exc`
  unfoldable pub on_failure_steps :
      Run → Provider → Option String → String → Exc → Coroutine World Response
  on_failure_steps run provider name input_hash exc = do
    at_once (
        add_event host run.evidence provider_failed
          (failed_details host exc provider (strategy_of host engine provider)))
    fall_back_steps run provider name input_hash exc (strategy_of host engine provider)

  -- the steps after an allow
  unfoldable pub route_steps : Run → Coroutine World Response
  route_steps run = do
    input_hash ← at_once (lift (sha256_hash host run.payload))
    provider ← at_once (lift (get host engine.provider_registry run.decision.selected_provider))
    let name = provider_name_of host engine run.decision
    publish_event "provider.selected" (selected_event run provider name)
    try_except (attempt_steps run provider name input_hash)
        (on_failure_steps run provider name input_hash)

  -- tenant resolution, the start of the record and the policy evaluation
  unfoldable pub evaluate_request_steps : Request → Coroutine World Run
  evaluate_request_steps request = do
    request_id ← at_once (calls (draw host))
    tenant ← at_once (lift (required_tenant request))
    context ← at_once (lift (resolve host tenant))
    let metadata = metadata_of request_id context request
    publish_event "tenant.resolved" (tenant_resolved request_id context)
    evidence ← at_once (calls (start_record host (start_arguments metadata)))
    time ← at_once (calls (now host))
    let decision =
        evaluate engine.policy_service metadata.tenant_id metadata.scenario metadata.report_type
          metadata.jurisdiction time
    at_once (add_event host evidence policy_evaluated (policy_details decision))
    at_once (modify (count_policy metadata (policy_label decision)))
    publish_event "policy.evaluated" (policy_event request_id metadata decision)
    returns (record {
      request_id = request_id;
      metadata = metadata;
      evidence = evidence;
      decision = decision;
      payload = get_or request.payload (object []);
      response = base_response host request_id metadata decision;
    })

  unfoldable pub process_report_steps : Request → Coroutine World Response
  process_report_steps request = do
    run ← evaluate_request_steps request
    if run.decision.allowed then route_steps run else deny_steps run
