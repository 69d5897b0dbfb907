-- ===== src/Workflow/Engine/Judged.antt =====
-- `process_report` up to the policy decision, and a request that is denied.
use infra_steward_gateway.Core.{ℕ, ◌+◌, String, ◌≡◌, refl, List, [], ◌∷◌, get_or}
use infra_steward_gateway.Value.{object}
use infra_steward_gateway.Exec.{ok}
use infra_steward_gateway.Exec.Ends.{Ends, Ends-pure, Ends-lift, Ends-calls, Ends-modify, Ends-bind}
use infra_steward_gateway.Runtime.{Host}
use infra_steward_gateway.World.{World, Call, draw, outline, counted, published}
use infra_steward_gateway.Tenants.{TenantContext, resolve}
use infra_steward_gateway.Policy.{PolicyDecision, evaluate}
use infra_steward_gateway.Evidence.Models.{EvidenceRecord, policy_evaluated}
use infra_steward_gateway.Supervisory.{labels}
use infra_steward_gateway.Workflow.RequestMetadata.{RequestMetadata, Request}
use infra_steward_gateway.Workflow.Setup.{WorkflowEngine}
use infra_steward_gateway.Workflow.Messages.{
  Run, required_tenant, metadata_of, tenant_resolved, start_arguments, policy_details, policy_event,
  policy_label, base_response,
}
use infra_steward_gateway.Workflow.Engine.{evaluate_request}
use infra_steward_gateway.Workflow.Engine.Steps.{
  At, At-log, At-publish, At-add_event, At-now, event_at,
}
use infra_steward_gateway.Workflow.Engine.Opening.{At-start, Before, Before-publish, start_at}

module _ (host : Host) (engine : WorkflowEngine) (request : Request) (w₀ : World)
    (context : TenantContext) where
  abbrev pub new_id : String
  new_id = host.uuid4 w₀.draws

  abbrev pub new_metadata : RequestMetadata
  new_metadata = metadata_of new_id context request

  -- The decision is made at the second reading of the clock.
  abbrev pub new_decision : PolicyDecision
  new_decision =
      evaluate engine.policy_service new_metadata.tenant_id new_metadata.scenario
        new_metadata.report_type new_metadata.jurisdiction (host.utcnow (w₀.ticks + 1))

  abbrev pub new_run : Run
  new_run = record {
    request_id = new_id;
    metadata = new_metadata;
    evidence = w₀.evidence.next;
    decision = new_decision;
    payload = get_or request.payload (object []);
    response = base_response host new_id new_metadata new_decision;
  }

  abbrev pub judged_time : ℕ
  judged_time = w₀.ticks + 1 + 1 + 1

  abbrev pub judged_record : EvidenceRecord
  judged_record =
      event_at host (w₀.ticks + 1 + 1) policy_evaluated (policy_details new_decision)
        (start_at host w₀.ticks (start_arguments new_metadata) new_id)

  -- The newest first, as everywhere.
  abbrev pub judged_calls : List Call
  judged_calls =
      published "policy.evaluated" (policy_event new_id new_metadata new_decision)
      ∷ counted "gateway_policy_outcomes_total"
          (labels new_metadata "policy_outcome" (policy_label new_decision))
      ∷ published "tenant.resolved" (tenant_resolved new_id context)
      ∷ []

  pub evaluate_request_ends :
      (name : String)
      → required_tenant request ≡ ok name
      → resolve host name ≡ ok context
      → Ends
          (evaluate_request host engine request)
          w₀
          (ok new_run)
          (At w₀ w₀.evidence.next judged_record judged_time judged_calls)
  unfolding evaluate_request outline
  evaluate_request_ends name named resolved =
      Ends-bind _
        (Ends-calls (Before w₀ []) (draw host) w₀
          (record { evidence = refl; time = refl; draws = refl; calls_made = refl }))
        λ w₁ b₁. Ends-bind _ (Ends-lift (Before w₀ []) _ _ w₁ named b₁) λ w₂ b₂.
          Ends-bind _ (Ends-lift (Before w₀ []) _ _ w₂ resolved b₂) λ w₃ b₃.
            Ends-bind _ (Ends-modify _ _ w₃ (Before-publish engine.event_bus _ _ b₃)) λ w₄ b₄.
              Ends-bind _ (At-start host w₀ (start_arguments new_metadata) new_id w₄ refl b₄)
                λ w₅ h₅. Ends-bind _ (At-now host w₅ h₅) λ w₆ h₆.
                  Ends-bind _ (At-add_event host policy_evaluated _ w₆ h₆) λ w₇ h₇.
                    Ends-bind _ (Ends-modify _ _ w₇ (At-log _ refl h₇)) λ w₈ h₈.
                      Ends-bind _ (Ends-modify _ _ w₈ (At-publish engine.event_bus _ _ h₈))
                        λ w₉ h₉. Ends-pure _ _ w₉ h₉
