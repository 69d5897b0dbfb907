-- ===== src/App.antt =====
-- app/main.py: the services that the application makes at startup, and the endpoints that use them.
-- The services are all set or all None, so the engine stands for them.
pub mod Laws
pub mod Status
pub mod Middleware
pub mod Served
pub mod Startup
use infra_steward_gateway.Core.{ℕ, String, Option, none, some, List, [], ◌∷◌}
use infra_steward_gateway.Dict.{Dict}
use infra_steward_gateway.Value.{Value, text, object}
use infra_steward_gateway.Exec.{Exec, Result, ok, err, lift, gets, pure, ◌>>=◌}
use infra_steward_gateway.Runtime.{Host}
use infra_steward_gateway.World.{World, Call}
use infra_steward_gateway.Policy.{policy_service}
use infra_steward_gateway.Providers.Registry.{ProviderRegistry, new_registry, register}
use infra_steward_gateway.Providers.Stubs.{stub_ai_provider, stub_ai_provider_b}
use infra_steward_gateway.Evidence.Models.{EvidenceRecord}
use infra_steward_gateway.Evidence.Producer.{Ingester}
use infra_steward_gateway.Evidence.Service.{get_record}
use infra_steward_gateway.Supervisory.{default_service}
use infra_steward_gateway.Workflow.RequestMetadata.{ReportRequest, dict}
use infra_steward_gateway.Workflow.Events.{new_bus}
use infra_steward_gateway.Workflow.Setup.{WorkflowEngine, workflow_engine}
use infra_steward_gateway.Workflow.Messages.{Response}
use infra_steward_gateway.Workflow.Engine.{process_report}
use infra_steward_gateway.Workflow.Scenarios.{
  run_bank_alpha_compliant, run_bank_beta_blocked, run_bank_alpha_provider_failure,
}

-- The answer to an HTTP request.
pub record Reply : Type 0 where
  pub status_code : ℕ
  pub body : String

-- What the web framework does: `JSONResponse` renders its content as JSON, or raises, and
-- `jsonable_encoder` makes a value of a record. `generate_latest` of the Prometheus client prints the
-- metrics as they are after the calls so far.
pub record Framework : Type 0 where
  pub render : Value → Result String
  pub jsonable_encoder : EvidenceRecord → Value
  pub generate_latest : List Call → String

-- `except Exception: ... = None`
abbrev unless_raised : {A : Type 0} → Result A → Option A
unless_raised (ok a) = some a
unless_raised (err e) = none

module _ (host : Host) where
  unfoldable pub provider_registry : Result ProviderRegistry
  provider_registry =
      elim (register "stub_a" (stub_ai_provider host) (new_registry (some "stub_a"))) [
        | err e ↦ err e
        | ok r ↦ register "stub_b" (stub_ai_provider_b host) r
      ]

  -- The `try` at startup; the argument is what `EvidenceProducer(settings)` returns or raises.
  unfoldable pub services : Result Ingester → Option WorkflowEngine
  unfolding provider_registry
  services (err e) = none
  services (ok producer) = elim provider_registry [
    | err e ↦ none
    | ok r ↦ unless_raised (
        workflow_engine host (policy_service "v1") (some producer) none (some r)
          (some default_service) (some new_bus))
  ]

  module _ (framework : Framework) where
    -- `return JSONResponse(...)`
    json_response : ℕ → Value → Exec World Reply
    json_response code content = do
      body ← lift (framework.render content)
      pure (record { status_code = code; body = body })

    abbrev error_content : String → Value
    error_content message = object (("error", text message) ∷ [])

    unfoldable pub get_evidence : Option WorkflowEngine → String → Exec World Reply
    unfolding json_response
    get_evidence none request_id =
        json_response 500 (error_content "Evidence service not initialized")
    get_evidence (some engine) request_id = do
      found ← gets (get_record request_id)
      elim found [
        | none ↦ json_response 404 (error_content "Record not found")
        | some r ↦ json_response 200 (framework.jsonable_encoder r)
      ]

    unfoldable pub submit_report : Option WorkflowEngine → ReportRequest → Exec World Reply
    unfolding json_response
    submit_report none report_request =
        json_response 500 (error_content "Workflow engine not initialized")
    submit_report (some engine) report_request = do
      result ← process_report host engine (dict report_request)
      json_response 200 (object result)

    -- the body that the three endpoints under /scenarios share
    run_scenario : (WorkflowEngine → Exec World Response) → Option WorkflowEngine → Exec World Reply
    unfolding json_response
    run_scenario run none = json_response 500 (error_content "Scenario runner not initialized")
    run_scenario run (some engine) = do result ← run engine; json_response 200 (object result)

    unfoldable pub scenario_bank_alpha_compliant : Option WorkflowEngine → Exec World Reply
    unfolding run_scenario
    scenario_bank_alpha_compliant = run_scenario (run_bank_alpha_compliant host)

    unfoldable pub scenario_bank_beta_blocked : Option WorkflowEngine → Exec World Reply
    unfolding run_scenario
    scenario_bank_beta_blocked = run_scenario (run_bank_beta_blocked host)

    unfoldable pub scenario_bank_alpha_provider_failure : Option WorkflowEngine → Exec World Reply
    unfolding run_scenario
    scenario_bank_alpha_provider_failure = run_scenario (run_bank_alpha_provider_failure host)
