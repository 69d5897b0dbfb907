-- ===== src/Workflow/Setup.antt =====
-- app/workflow/engine.py: the engine's services and its constructor.
use infra_steward_gateway.Core.{Option, none, some, get_or}
use infra_steward_gateway.Exec.{Result, ok, err, raise_result, value_error}
use infra_steward_gateway.Runtime.{Host}
use infra_steward_gateway.Policy.{PolicyService}
use infra_steward_gateway.Providers.Base.{Provider}
use infra_steward_gateway.Providers.Registry.{ProviderRegistry, new_registry, register, get}
use infra_steward_gateway.Evidence.Producer.{Ingester}
use infra_steward_gateway.Supervisory.{SupervisoryReportingService, default_service}
use infra_steward_gateway.Workflow.Events.{EventBus, new_bus}

-- The evidence service is its producer here, and its records in the world.
pub record WorkflowEngine : Type 0 where
  pub policy_service : PolicyService
  pub producer : Option Ingester
  pub provider_registry : ProviderRegistry
  pub ai_provider : Provider
  pub supervisory_service : SupervisoryReportingService
  pub event_bus : EventBus

module _ (host : Host) where
  -- `__init__`; the services that are optional there get their defaults
  unfoldable pub workflow_engine :
      PolicyService
      → Option Ingester
      → Option Provider
      → Option ProviderRegistry
      → Option SupervisoryReportingService
      → Option EventBus
      → Result WorkflowEngine
  workflow_engine policy producer ai_provider registry supervisory bus =
      let with_registry : ProviderRegistry → Provider → WorkflowEngine = λ r p. record {
        policy_service = policy;
        producer = producer;
        provider_registry = r;
        ai_provider = p;
        supervisory_service = get_or supervisory default_service;
        event_bus = get_or bus new_bus;
      } in
      elim registry [
        | none ↦ elim ai_provider [
          | none ↦
              raise_result value_error
                "WorkflowEngine requires either an ai_provider or a provider_registry"
          | some p ↦ elim (register "stub_a" p (new_registry (some "stub_a"))) [
            | err e ↦ err e
            | ok r ↦ ok (with_registry r p)
          ]
        ]
        | some r ↦ elim ai_provider [
          | some p ↦ ok (with_registry r p)
          | none ↦ elim (get host r r.default_name) [
            | err e ↦ err e
            | ok p ↦ ok (with_registry r p)
          ]
        ]
      ]
