-- ===== src/Workflow/Engine/Single.antt =====
-- app/workflow/engine.py: an engine that its constructor makes of one AI provider, with no registry.
use infra_steward_gateway.Core.{
  String, [], ◌∷◌, ◌≡◌, inr, refl, ap, ◌∙◌, true, Option, none, some, arith,
}
use infra_steward_gateway.PyStr.{normalise}
use infra_steward_gateway.Dict.{insert, lookup}
use infra_steward_gateway.Exec.{ok, raise_result, provider_not_registered_error}
use infra_steward_gateway.Exec.Ends.{Ends}
use infra_steward_gateway.Runtime.{Host}
use infra_steward_gateway.World.{World}
use infra_steward_gateway.Tenants.{TenantContext, resolve}
use infra_steward_gateway.Policy.{PolicyService, evaluate, provider_for_tenant}
use infra_steward_gateway.Providers.Base.{Provider}
use infra_steward_gateway.Providers.Registry.{
  new_registry, register, get, find, not_registered_message,
}
use infra_steward_gateway.Evidence.Producer.{Ingester}
use infra_steward_gateway.Supervisory.{SupervisoryReportingService}
use infra_steward_gateway.Workflow.RequestMetadata.{Request}
use infra_steward_gateway.Workflow.Events.{EventBus}
use infra_steward_gateway.Workflow.Setup.{WorkflowEngine, workflow_engine}
use infra_steward_gateway.Workflow.Messages.{required_tenant}
use infra_steward_gateway.Workflow.Engine.{sha256_hash, process_report}
use infra_steward_gateway.Workflow.Engine.Steps.{At}
use infra_steward_gateway.Workflow.Engine.Judged.{
  new_run, new_decision, new_metadata, judged_record, judged_time, judged_calls,
}
use infra_steward_gateway.Workflow.Engine.Processed.{process_unrouted}

module _ (host : Host) (policy : PolicyService) (producer : Option Ingester) (provider : Provider)
    (supervisory : Option SupervisoryReportingService) (bus : Option EventBus) where
  made_with_one :
      (engine : WorkflowEngine)
      → workflow_engine host policy producer (some provider) none supervisory bus ≡ ok engine
      → (engine.provider_registry.providers ≡ ("stub_a", provider) ∷ [])
        × (engine.provider_registry.default_name ≡ some "stub_a")
  unfolding workflow_engine register new_registry insert
  made_with_one engine made = ground arith

  module _ (engine : WorkflowEngine) where
    get_stub_b :
        workflow_engine host policy producer (some provider) none supervisory bus ≡ ok engine
        → get host engine.provider_registry (some "stub_b")
          ≡ raise_result provider_not_registered_error
              (not_registered_message host engine.provider_registry (some "stub_b"))
    unfolding get find lookup
    get_stub_b made = rw (made_with_one engine made).0 refl

    module _ (request : Request) (w₀ : World) (context : TenantContext) where
      selected :
          (new_decision host engine request w₀ context).allowed ≡ true
          → provider_for_tenant (normalise (new_metadata host engine request w₀ context).tenant_id)
            ≡ "stub_b"
          → (new_decision host engine request w₀ context).selected_provider ≡ some "stub_b"
      unfolding evaluate
      selected allowed p = rw (allowed, p) refl

      -- An engine that is made of one AI provider has it under the name "stub_a" alone. A request
      -- that the policy allows, for a tenant whose requests go to "stub_b", then raises that the
      -- provider is not registered, although the engine has a provider: the evaluation is counted
      -- and published by then, and the record that was opened stays in progress and is never sent.
      pub single_provider_stranded :
          (name hash : String)
          → workflow_engine host policy producer (some provider) none supervisory bus ≡ ok engine
          → required_tenant request ≡ ok name
          → resolve host name ≡ ok context
          → (new_decision host engine request w₀ context).allowed ≡ true
          → provider_for_tenant (normalise (new_metadata host engine request w₀ context).tenant_id)
            ≡ "stub_b"
          → sha256_hash host (new_run host engine request w₀ context).payload ≡ ok hash
          → Ends
              (process_report host engine request)
              w₀
              (raise_result provider_not_registered_error
                (not_registered_message host engine.provider_registry (some "stub_b")))
              (At w₀ w₀.evidence.next
                (judged_record host engine request w₀ context)
                (judged_time host engine request w₀ context)
                (judged_calls host engine request w₀ context))
      single_provider_stranded name hash made named resolved allowed b hashed =
          process_unrouted host engine request w₀ context name _ named resolved allowed (
            inr (
              hash,
              hashed,
              ap (get host engine.provider_registry) (selected allowed b) ∙ get_stub_b made,
            ))
