-- ===== src/App/Laws.antt =====
-- The application as app/main.py wires it: its startup, its providers, and the endpoints of reports
-- and of evidence together.
use infra_steward_gateway.Core.{
  ℕ, ◌+◌, String, ◌≡◌, ◌⊎◌, inl, inr, refl, true, Option, some, [], ◌∷◌, arith,
}
use infra_steward_gateway.Dict.{lookup, insert}
use infra_steward_gateway.Value.{Value, object}
use infra_steward_gateway.Exec.{Exec, ok, lift, pure, gets, ◌>>=◌}
use infra_steward_gateway.Runtime.{Host}
use infra_steward_gateway.World.{World}
use infra_steward_gateway.Tenants.{TenantContext, resolve}
use infra_steward_gateway.Policy.{
  PolicyService, policy_service, evaluate, provider_for_tenant, tenant_provider_map,
}
use infra_steward_gateway.PyStr.{normalise}
use infra_steward_gateway.Providers.Base.{Provider}
use infra_steward_gateway.Providers.Registry.{ProviderRegistry, get, register, new_registry, find}
use infra_steward_gateway.Providers.Stubs.{stub_ai_provider, stub_ai_provider_b}
use infra_steward_gateway.Evidence.Producer.{Ingester}
use infra_steward_gateway.Supervisory.{default_service}
use infra_steward_gateway.Workflow.RequestMetadata.{ReportRequest, dict}
use infra_steward_gateway.Workflow.Events.{new_bus}
use infra_steward_gateway.Workflow.Setup.{WorkflowEngine, workflow_engine}
use infra_steward_gateway.Workflow.Messages.{Response, effective_jurisdiction}
use infra_steward_gateway.Workflow.Engine.{process_report, sha256_hash}
use infra_steward_gateway.Workflow.Engine.Judged.{new_decision}
use infra_steward_gateway.Workflow.Engine.Guarantees.{Filed, process_report-Filed}
use infra_steward_gateway.Workflow.Engine.Totality.{process_report_answers}
use infra_steward_gateway.App.{
  Reply, Framework, provider_registry, services, get_evidence, submit_report,
}

module _ (host : Host) where
  abbrev pub gateway_registry : ProviderRegistry
  gateway_registry = record {
    providers = ("stub_a", stub_ai_provider host) ∷ ("stub_b", stub_ai_provider_b host) ∷ [];
    default_name = some "stub_a";
  }

  -- The engine that the application starts with.
  abbrev pub gateway : Ingester → WorkflowEngine
  gateway producer = record {
    policy_service = policy_service "v1";
    producer = some producer;
    provider_registry = gateway_registry;
    ai_provider = stub_ai_provider host;
    supervisory_service = default_service;
    event_bus = new_bus;
  }

  -- Where the producer can be made, the startup succeeds: the engine is set, with both stubs
  -- registered, the first of them as the default, and with a bus that has no subscribers.
  pub services-gateway :
      (producer : Ingester) → services host (ok producer) ≡ some (gateway producer)
  unfolding services provider_registry register new_registry workflow_engine get find insert lookup
  services-gateway producer = refl

  provider_for_tenant-cases :
      (key : String) → (provider_for_tenant key ≡ "stub_a") ⊎ (provider_for_tenant key ≡ "stub_b")
  unfolding provider_for_tenant tenant_provider_map lookup
  provider_for_tenant-cases key = ground arith

  registered_a : get host gateway_registry (some "stub_a") ≡ ok (stub_ai_provider host)
  unfolding get find lookup
  registered_a = refl

  registered_b : get host gateway_registry (some "stub_b") ≡ ok (stub_ai_provider_b host)
  unfolding get find lookup
  registered_b = refl

  -- The provider that the policy selects is one that the application registers, whatever the
  -- request.
  pub selected_registered :
      (service : PolicyService) (name : String) (s t j : Option String) (now : ℕ)
      → (evaluate service name s t j now).allowed ≡ true
      → (p : Provider) × (get host gateway_registry
            (evaluate service name s t j now).selected_provider
          ≡ ok p)
  unfolding evaluate
  selected_registered service name s t j now allowed =
      elim (provider_for_tenant-cases (normalise name)) [
        | inl a ↦ (stub_ai_provider host, rw (allowed, a) registered_a)
        | inr b ↦ (stub_ai_provider_b host, rw (allowed, b) registered_b)
      ]

  module _ (framework : Framework) (producer : Ingester) (report : ReportRequest) (w₀ : World) where
    abbrev pub reply : ℕ → Value → Exec World Reply
    reply code content = do
      body ← lift (framework.render content)
      pure (record { status_code = code; body = body })

    -- What a POST to /reports comes to, and what a GET of its evidence then finds.
    pub record Answered : Type 0 where
      pub response : Response
      pub after : World
      pub posted :
          submit_report host framework (services host (ok producer)) report w₀
          ≡ reply 200 (object response) after
      pub filed : Filed host (gateway producer) (dict report) w₀ response after
      pub looked_up :
          get_evidence host framework (services host (ok producer)) (host.uuid4 w₀.draws) after
          ≡ reply 200 (framework.jsonable_encoder filed.left) after

    -- For the application as it is wired, a report whose tenant resolves and whose payload has a
    -- hash is always answered, with code 200 and a final status if the answer can be rendered,
    -- whatever the policy, the provider and the ingester do; and its evidence is then found under
    -- the request's identifier, closed with the status of the answer.
    pub submit_report_answered :
        (context : TenantContext) (hash : String)
        → resolve host report.tenant_id ≡ ok context
        → sha256_hash host report.payload ≡ ok hash
        → Answered
    unfolding dict submit_report get_evidence gets ◌>>=◌
    submit_report_answered context hash resolved hashed =
        let engine = gateway producer in
        let w₁ = (process_report host engine (dict report) w₀).1 in
        let d = new_decision host engine (dict report) w₀ context in
        let (answer, e) =
          process_report_answers host engine (dict report) w₀ context report.tenant_id hash refl
            resolved hashed
            (selected_registered engine.policy_service context.tenant_id report.scenario
              report.report_type
              (some (effective_jurisdiction report.jurisdiction context.jurisdiction))
              (host.utcnow (w₀.ticks + 1))) in
        let filed = process_report-Filed host engine (dict report) w₀ answer e in
        record {
          response = answer;
          after = w₁;
          posted = rw (services-gateway producer, e) refl;
          filed = filed;
          looked_up = rw (services-gateway producer, filed.found) refl;
        }
