-- ===== src/Workflow/Engine/Totality.antt =====
-- When `process_report` answers instead of raising.
use infra_steward_gateway.Core.{String, ◌≡◌, inl, inr, ap, true, [], get_or, Bool-cases}
use infra_steward_gateway.Value.{object}
use infra_steward_gateway.Exec.{ok}
use infra_steward_gateway.Exec.Ends.{Ends}
use infra_steward_gateway.Runtime.{Host}
use infra_steward_gateway.World.{World}
use infra_steward_gateway.Tenants.{TenantContext, resolve}
use infra_steward_gateway.Providers.Base.{Provider}
use infra_steward_gateway.Providers.Registry.{get}
use infra_steward_gateway.Workflow.RequestMetadata.{Request}
use infra_steward_gateway.Workflow.Setup.{WorkflowEngine}
use infra_steward_gateway.Workflow.Messages.{Response, required_tenant}
use infra_steward_gateway.Workflow.Engine.{sha256_hash, process_report}
use infra_steward_gateway.Workflow.Engine.Judged.{new_decision}
use infra_steward_gateway.Workflow.Engine.Processed.{
  process_denied, process_completed, process_fallen, routing,
}
use infra_steward_gateway.Workflow.Engine.Attempts.{attempt_cases}

module _ (host : Host) (engine : WorkflowEngine) (request : Request) (w₀ : World) where
  answered_by :
      {response : Response} {Q : World → Type 0}
      → Ends (process_report host engine request) w₀ (ok response) Q
      → (answer : Response) × ((process_report host engine request w₀).0 ≡ ok answer)
  answered_by {response} ends = (response, ap (λ p. p.0) ends.runs)

  -- A request is answered, whatever the provider does, if its tenant resolves, its payload has a
  -- hash, and, where the policy allows it, the provider that the policy selects is registered.
  pub process_report_answers :
      (context : TenantContext) (name hash : String)
      → required_tenant request ≡ ok name
      → resolve host name ≡ ok context
      → sha256_hash host (get_or request.payload (object [])) ≡ ok hash
      → ((new_decision host engine request w₀ context).allowed ≡ true
          → (provider : Provider) × (get host engine.provider_registry
                (new_decision host engine request w₀ context).selected_provider
              ≡ ok provider))
      → (answer : Response) × ((process_report host engine request w₀).0 ≡ ok answer)
  process_report_answers context name hash named resolved hashed registered =
      elim (Bool-cases (new_decision host engine request w₀ context).allowed) [
        | inr denied ↦
            answered_by (process_denied host engine request w₀ context name named resolved denied)
        | inl allowed ↦
            let (provider, found) = registered allowed in
            let routed = routing host engine request w₀ context name provider hash in
            elim (attempt_cases routed) [
              | inl a ↦ answered_by (
                  process_completed host engine request w₀ context name provider hash a named
                    resolved allowed hashed found)
              | inr (x, a) ↦ answered_by (
                  process_fallen host engine request w₀ context name provider hash a named resolved
                    allowed hashed found)
            ]
      ]
