-- ===== src/Workflow/Engine/Outcome.antt =====
-- What the parts of `process_report` after an allow leave behind: the record, the trace and the response
-- of an attempt that returns, of one that raises, and of the fallback.
use infra_steward_gateway.Core.{ℕ, ◌+◌, String, ◌≡◌, true, Option, none, some, List, [], ◌∷◌, ◌++◌}
use infra_steward_gateway.Value.{Value, null, text}
use infra_steward_gateway.Exec.{Exc, ok, err}
use infra_steward_gateway.Runtime.{Host, str_exc}
use infra_steward_gateway.World.{Call, counted, published, enriched, submitted}
use infra_steward_gateway.Providers.Base.{Provider, FallbackStrategy, drop_and_signal, fail_closed}
use infra_steward_gateway.Evidence.Models.{
  EvidenceRecord, provider_selected, provider_failed, provider_fallback_applied,
  provider_fallback_blocked,
}
use infra_steward_gateway.Evidence.Service.{Final}
use infra_steward_gateway.Supervisory.{Ack, ack_value, labels, supervisory_submission, payload_keys}
use infra_steward_gateway.Workflow.Setup.{WorkflowEngine}
use infra_steward_gateway.Workflow.Messages.{Run, Response, completed_event}
use infra_steward_gateway.Workflow.Endings.{
  selected_details, submitted_event, failed_details, blocked_details, applied_details,
  blocked_event, fallback_event,
}
use infra_steward_gateway.Workflow.Engine.{sha256_hash}
use infra_steward_gateway.Workflow.Engine.Steps.{event_at, final_at, sends}

-- The counter of provider outcomes is incremented.
abbrev pub provider_count : Run → String → Call
provider_count run status =
    counted "gateway_provider_outcomes_total" (labels run.metadata "provider_status" status)

-- What is recorded and answered at each end, written out apart from the code.
abbrev pub denied_ending : Final
denied_ending = record {
  status = "blocked";
  decision_outcome = some "denied";
  input_hash = none;
  output_hash = none;
  provider_name = none;
  provider_mode = none;
}

abbrev pub provider_ending : String → String → String → Option String → Option String → Final
provider_ending status outcome input_hash output_hash name = record {
  status = status;
  decision_outcome = some outcome;
  input_hash = some input_hash;
  output_hash = output_hash;
  provider_name = name;
  provider_mode = some "stub";
}

abbrev pub denied_answer : Response
denied_answer = ("provider_used", null) ∷ ("status", text "blocked") ∷ ("result", null) ∷ []

abbrev pub completed_answer : Provider → Value → Ack → Response
completed_answer provider enrichment ack =
    ("provider_used", text provider.class_name)
    ∷ ("status", text "completed")
    ∷ ("result", enrichment)
    ∷ ("supervisory_submission", ack_value ack)
    ∷ []

-- A request that has been routed: the engine, the local variables, the provider with the name that
-- selected it, and the hash of the payload.
pub record Routing : Type 0 where
  pub host : Host
  pub engine : WorkflowEngine
  pub run : Run
  pub provider : Provider
  pub name : Option String
  pub input_hash : String

module _ (c : Routing) where
  open c use {host, engine, run, provider, name, input_hash}

  abbrev pub provider_call : Call
  provider_call = enriched provider.class_name run.metadata run.payload

  abbrev pub submission_calls : List Call
  submission_calls =
      counted "gateway_supervisory_submissions_total"
        (supervisory_submission run.metadata "accepted")
      ∷ submitted engine.supervisory_service.endpoint_label run.metadata
      ∷ []

  -- How the body of the `try` raises: in the provider, in the hash of what it returned, or in the
  -- submission, after that has been counted.
  pub data AttemptFails (x : Exc) : Type 0 where
    raised : provider.generate_enrichment run.metadata run.payload ≡ err x → AttemptFails x
    unhashable :
        (v : Value)
        → provider.generate_enrichment run.metadata run.payload ≡ ok v
        → sha256_hash host v ≡ err x
        → AttemptFails x
    keyless :
        (v : Value) (output_hash : String)
        → provider.generate_enrichment run.metadata run.payload ≡ ok v
        → sha256_hash host v ≡ ok output_hash
        → payload_keys v ≡ err x
        → AttemptFails x

  pub record AttemptReturns : Type 0 where
    pub enrichment : Value
    pub output_hash : String
    pub keys : List String
    pub generated : provider.generate_enrichment run.metadata run.payload ≡ ok enrichment
    pub hashed : sha256_hash host enrichment ≡ ok output_hash
    pub listed : payload_keys enrichment ≡ ok keys

  abbrev pub ack_of : List String → Ack
  ack_of keys = record {
    endpoint = engine.supervisory_service.endpoint_label;
    accepted = true;
    tenant_id = run.metadata.tenant_id;
    report_id = run.metadata.report_id;
    payload_keys = keys;
  }

  abbrev pub fallen_response : Exc → FallbackStrategy → Response
  fallen_response x fail_closed =
      ("provider_used", text provider.class_name)
      ∷ ("status", text "blocked_provider_failure")
      ∷ ("result", null)
      ∷ ("error", text (str_exc host x))
      ∷ ("fallback_strategy", text "fail_closed")
      ∷ []
  fallen_response x drop_and_signal =
      ("provider_used", text provider.class_name)
      ∷ ("status", text "fallback")
      ∷ ("error", text (str_exc host x))
      ∷ ("fallback_strategy", text "drop_and_signal")
      ∷ []

  -- From a state in which the record is `r`, at time `t`, after the calls `cs`.
  module _ (r : EvidenceRecord) (t : ℕ) (cs : List Call) where
    -- After an attempt that returns.
    abbrev pub completed_record : AttemptReturns → EvidenceRecord
    completed_record a =
        final_at host (t + 1)
          (provider_ending "completed" "approved" input_hash (some a.output_hash) name)
          (event_at host t provider_selected (selected_details run provider name) r)

    abbrev pub completed_calls : AttemptReturns → List Call
    completed_calls a =
        provider_count run "ok"
        ∷ published "workflow.completed" (completed_event run.request_id "completed")
        ∷ (sends engine.producer (completed_record a)
            ++ (published "supervisory.submitted" (submitted_event run (ack_of a.keys))
                ∷ (submission_calls ++ (provider_call ∷ cs))))

    -- The record once the failure is noted.
    abbrev pub failed_record : Exc → FallbackStrategy → EvidenceRecord
    failed_record x s = event_at host t provider_failed (failed_details host x provider s) r

    -- Where the attempt raised, what it had done by then.
    abbrev pub left_record : {x : Exc} → AttemptFails x → EvidenceRecord
    left_record (raised e) = r
    left_record (unhashable v e f) =
        event_at host t provider_selected (selected_details run provider name) r
    left_record (keyless v h e f g) =
        event_at host t provider_selected (selected_details run provider name) r

    abbrev pub left_time : {x : Exc} → AttemptFails x → ℕ
    left_time (raised e) = t
    left_time (unhashable v e f) = t + 1
    left_time (keyless v h e f g) = t + 1

    abbrev pub left_calls : {x : Exc} → AttemptFails x → List Call
    left_calls (raised e) = provider_call ∷ cs
    left_calls (unhashable v e f) = provider_call ∷ cs
    left_calls (keyless v h e f g) = submission_calls ++ provider_call ∷ cs

    -- The record, the calls and the response that the strategy gives to a failure.
    abbrev pub fallen_record : Exc → FallbackStrategy → EvidenceRecord
    fallen_record x fail_closed =
        final_at host (t + 1)
          (provider_ending "blocked_provider_failure" "provider_failure_blocked" input_hash none
            name)
          (event_at host t provider_fallback_blocked (blocked_details provider name) r)
    fallen_record x drop_and_signal =
        final_at host (t + 1) (provider_ending "fallback" "provider_failure" input_hash none name)
          (event_at host t provider_fallback_applied (applied_details drop_and_signal) r)

    abbrev pub fallen_calls : Exc → FallbackStrategy → List Call
    fallen_calls x fail_closed =
        provider_count run "blocked_fail_closed"
        ∷ published "workflow.blocked" (blocked_event host run x)
        ∷ (sends engine.producer (fallen_record x fail_closed) ++ cs)
    fallen_calls x drop_and_signal =
        provider_count run "fallback"
        ∷ published "workflow.fallback" (fallback_event host run x)
        ∷ (sends engine.producer (fallen_record x drop_and_signal) ++ cs)
