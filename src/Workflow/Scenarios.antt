-- ===== src/Workflow/Scenarios.antt =====
-- app/workflow/scenarios.py: the three demonstration requests, with fixed contents.
pub mod Laws
use infra_steward_gateway.Core.{String, Bool, true, Option, none, some, List, [], ◌∷◌}
use infra_steward_gateway.Dict.{Dict}
use infra_steward_gateway.Value.{Value, text, bool, object}
use infra_steward_gateway.Exec.{Exec}
use infra_steward_gateway.Runtime.{Host}
use infra_steward_gateway.World.{World}
use infra_steward_gateway.Workflow.RequestMetadata.{Request}
use infra_steward_gateway.Workflow.Setup.{WorkflowEngine}
use infra_steward_gateway.Workflow.Messages.{Response}
use infra_steward_gateway.Workflow.Engine.{process_report}

abbrev pub scenario_alpha_compliant : String
scenario_alpha_compliant = "reporting"

abbrev pub scenario_beta_blocked : String
scenario_beta_blocked = "reporting"

abbrev pub scenario_alpha_provider_failure : String
scenario_alpha_provider_failure = "provider_failure"

-- A request with the keys that the three dicts have.
abbrev standard_request : String → String → String → Dict Value → Request
standard_request tenant_id scenario report_id payload = record {
  tenant_id = some tenant_id;
  scenario = some scenario;
  report_id = some report_id;
  report_type = some "standard";
  jurisdiction = none;
  regime = none;
  user_id = none;
  payload = some (object payload);
}

abbrev pub alpha_compliant_request : Request
alpha_compliant_request =
    standard_request "bank_alpha" scenario_alpha_compliant "alpha-compliant-1"
      (("text", text "demo compliant report") ∷ [])

abbrev pub beta_blocked_request : Request
beta_blocked_request =
    standard_request "bank_beta" scenario_beta_blocked "beta-blocked-1"
      (("text", text "demo blocked report") ∷ [])

abbrev pub alpha_failure_request : Request
alpha_failure_request =
    standard_request "bank_alpha" scenario_alpha_provider_failure "alpha-failure-1"
      (("text", text "demo provider failure") ∷ ("provider_failure", bool true) ∷ [])

-- `ScenarioRunner`, which is its engine
module _ (host : Host) (workflow_engine : WorkflowEngine) where
  unfoldable pub run_bank_alpha_compliant : Exec World Response
  run_bank_alpha_compliant = process_report host workflow_engine alpha_compliant_request

  unfoldable pub run_bank_beta_blocked : Exec World Response
  run_bank_beta_blocked = process_report host workflow_engine beta_blocked_request

  unfoldable pub run_bank_alpha_provider_failure : Exec World Response
  run_bank_alpha_provider_failure = process_report host workflow_engine alpha_failure_request
