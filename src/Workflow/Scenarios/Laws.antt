-- ===== src/Workflow/Scenarios/Laws.antt =====
-- What the demonstration scenarios of app/workflow/scenarios.py come to.
use infra_steward_gateway.Core.{get_or, String, ◌≡◌, refl, ap, true, false, some}
use infra_steward_gateway.PyStr.{normalise, member}
use infra_steward_gateway.Dict.{lookup, update, insert}
use infra_steward_gateway.Value.{Value, text, null}
use infra_steward_gateway.Exec.{ok, runtime_error, raise_result}
use infra_steward_gateway.Runtime.{Host, str_exc}
use infra_steward_gateway.World.{World, outline}
use infra_steward_gateway.Tenants.{resolve, registry, bank_alpha, bank_beta}
use infra_steward_gateway.Policy.{
  evaluate, tenant_verdict, beta_verdict, jurisdiction_verdict, jurisdiction_allowed,
  tenant_allowed_jurisdictions, provider_for_tenant, tenant_provider_map,
}
use infra_steward_gateway.Providers.Stubs.{stub_ai_provider, stub_enrichment, fails}
use infra_steward_gateway.Workflow.RequestMetadata.{RequestMetadata}
use infra_steward_gateway.Providers.Base.{show_strategy}
use infra_steward_gateway.Providers.Registry.{get}
use infra_steward_gateway.Workflow.Setup.{WorkflowEngine}
use infra_steward_gateway.Workflow.Messages.{Response}
use infra_steward_gateway.Workflow.Engine.{sha256_hash}
use infra_steward_gateway.Workflow.Engine.Judged.{new_run, new_decision}
use infra_steward_gateway.Workflow.Engine.Outcome.{raised}
use infra_steward_gateway.Workflow.Engine.Processed.{process_denied, denied_record, process_fallen}
use infra_steward_gateway.Workflow.Engine.Account.{tally, is_enrichment}
use infra_steward_gateway.Workflow.Engine.Sequence.{denied_uncalled}
use infra_steward_gateway.Workflow.Scenarios.{
  run_bank_beta_blocked, run_bank_alpha_provider_failure, beta_blocked_request,
  alpha_failure_request,
}

resolve-beta : (host : Host) → resolve host "bank_beta" ≡ ok bank_beta
unfolding resolve lookup registry normalise
resolve-beta host = refl

resolve-alpha : (host : Host) → resolve host "bank_alpha" ≡ ok bank_alpha
unfolding resolve lookup registry normalise
resolve-alpha host = refl

beta_refused :
    (host : Host) (engine : WorkflowEngine) (w₀ : World)
    → (new_decision host engine beta_blocked_request w₀ bank_beta).allowed ≡ false
unfolding evaluate tenant_verdict beta_verdict jurisdiction_verdict normalise
beta_refused host engine w₀ = refl

-- The blocked scenario is blocked from any state, with any services: its answer says so and no
-- provider is called.
pub run_bank_beta_blocked-denied :
    (host : Host) (engine : WorkflowEngine) (w₀ : World)
    → ((response : Response) × ((run_bank_beta_blocked host engine w₀).0 ≡ ok response)
        × (lookup "status" response ≡ some (text "blocked"))
        × (lookup "result" response ≡ some null))
      × (tally is_enrichment (outline (run_bank_beta_blocked host engine w₀).1.trace)
          ≡ tally is_enrichment (outline w₀.trace))
unfolding run_bank_beta_blocked lookup update insert
run_bank_beta_blocked-denied host engine w₀ =
    let ends =
      process_denied host engine beta_blocked_request w₀ bank_beta "bank_beta" refl
        (resolve-beta host) (beta_refused host engine w₀) in
    let left = denied_record host engine beta_blocked_request w₀ bank_beta "bank_beta" in
    (
      (_, ap (λ p. p.0) ends.runs, refl, refl),
      rw ends.runs (denied_uncalled host engine beta_blocked_request w₀ bank_beta left ends.holds),
    )

alpha_selected :
    (host : Host) (engine : WorkflowEngine) (w₀ : World)
    → let d = new_decision host engine alpha_failure_request w₀ bank_alpha in
      (d.allowed ≡ true) × (d.selected_provider ≡ some "stub_a")
unfolding evaluate tenant_verdict jurisdiction_verdict jurisdiction_allowed normalise lookup member
    tenant_allowed_jurisdictions provider_for_tenant tenant_provider_map
alpha_selected host engine w₀ = (refl, refl)

stub_raises :
    (host : Host) (metadata : RequestMetadata) (payload : Value)
    → metadata.scenario ≡ some "provider_failure"
    → (stub_ai_provider host).generate_enrichment metadata payload
      ≡ raise_result runtime_error "Simulated provider failure"
unfolding stub_ai_provider stub_enrichment fails
stub_raises host metadata payload e = rw e refl

-- Where the first stub is registered and the payload has a hash, the scenario of a failing provider
-- ends in the fallback from any state: the answer has the status "fallback" and the provider's error.
pub run_bank_alpha_provider_failure-fallback :
    (host : Host) (engine : WorkflowEngine) (w₀ : World) (hash : String)
    → get host engine.provider_registry (some "stub_a") ≡ ok (stub_ai_provider host)
    → sha256_hash host (get_or alpha_failure_request.payload null) ≡ ok hash
    → (response : Response) × ((run_bank_alpha_provider_failure host engine w₀).0 ≡ ok response)
      × (lookup "status" response ≡ some (text "fallback"))
      × (lookup "error" response ≡ some (text "Simulated provider failure"))
      × (lookup "fallback_strategy" response ≡ some (text "drop_and_signal"))
unfolding run_bank_alpha_provider_failure lookup update insert str_exc show_strategy
    stub_ai_provider
run_bank_alpha_provider_failure-fallback host engine w₀ hash registered hashed =
    let run = new_run host engine alpha_failure_request w₀ bank_alpha in
    let (allowed, selected) = alpha_selected host engine w₀ in
    let ends =
      process_fallen host engine alpha_failure_request w₀ bank_alpha "bank_alpha"
        (stub_ai_provider host) hash (raised (stub_raises host run.metadata run.payload refl)) refl
        (resolve-alpha host) allowed hashed (rw selected registered) in
    (_, ap (λ p. p.0) ends.runs, refl, refl, refl)
