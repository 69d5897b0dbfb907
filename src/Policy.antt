-- ===== src/Policy.antt =====
-- app/policy/models.py and app/policy/service.py
pub mod Bundle
pub mod Laws
pub mod Rules
use infra_steward_gateway.Core.{
  ℕ, String, Bool, true, false, not, ◌&&◌, ◌==◌, Option, none, some, List, [], ◌∷◌, ◌++◌, get_or,
  if◌then◌else◌,
}
use infra_steward_gateway.PyStr.{normalise, member, concat, show_option}
use infra_steward_gateway.Dict.{Dict, lookup}
use infra_steward_gateway.Value.{Value}

-- The models of a tenant and of a rule; pydantic refuses an empty `tenant_id` and an empty `id`. The
-- service has its rules written out, so neither is in use.
pub record Tenant : Type 0 where
  pub tenant_id : String
  pub name : String
  pub metadata : Option (Dict Value)

pub record PolicyRule : Type 0 where
  pub id : String
  pub name : String
  pub description : Option String
  pub conditions : Dict Value

pub record PolicyDecision : Type 0 where
  pub allowed : Bool
  pub reason : String
  pub tenant_id : String
  pub policies_applied : List String
  pub policy_suite_version : Option String
  pub selected_provider : Option String
  pub timestamp : ℕ

-- `_policies` of a tenant: the lists under the keys "allowed_scenarios" and "blocked_report_types".
abbrev pub Bundle : Type 0
Bundle = Dict (Dict (List String))

pub record PolicyService : Type 0 where
  pub policy_suite_version : String
  pub policies : Bundle

abbrev pub default_provider_name : String
default_provider_name = "stub_a"

unfoldable pub tenant_provider_map : Dict String
tenant_provider_map =
    ("bank_alpha", "stub_a")
    ∷ ("bank_beta", "stub_b")
    ∷ ("bank_mars", "stub_a")
    ∷ ("bank_neptune", "stub_b")
    ∷ []

unfoldable pub tenant_allowed_jurisdictions : Dict (List String)
tenant_allowed_jurisdictions =
    ("bank_alpha", "EU" ∷ [])
    ∷ ("bank_beta", "EU" ∷ [])
    ∷ ("bank_mars", "US" ∷ [])
    ∷ ("bank_neptune", "APAC" ∷ [])
    ∷ []

unfoldable pub load_policies : Bundle
load_policies =
    ("bank_alpha", ("allowed_scenarios", "*" ∷ []) ∷ [])
    ∷ (
      "bank_beta",
      ("allowed_scenarios", "analysis" ∷ [])
          ∷ ("blocked_report_types", "sensitive" ∷ "confidential" ∷ [])
          ∷ [],
    )
    ∷ []

-- `PolicyService(policy_suite_version)`; the default version is "v1"
unfoldable pub policy_service : String → PolicyService
policy_service version = record { policy_suite_version = version; policies = load_policies }

unfoldable pub provider_for_tenant : String → String
unfolding tenant_provider_map lookup
provider_for_tenant tenant_id_lower =
    get_or (lookup tenant_id_lower tenant_provider_map) default_provider_name

unfoldable pub jurisdiction_allowed : String → Option String → Bool
unfolding tenant_allowed_jurisdictions lookup member
jurisdiction_allowed tenant_id_lower none = true
jurisdiction_allowed tenant_id_lower (some jurisdiction) =
    elim (lookup tenant_id_lower tenant_allowed_jurisdictions) [
      | none ↦ true
      | some allowed ↦ member jurisdiction allowed
    ]

-- What the branches on the tenant leave in `policies_applied`, `allowed` and `reason`.
pub record Verdict : Type 0 where
  pub policies_applied : List String
  pub allowed : Bool
  pub reason : String

abbrev pub scenario_refused : Option String → Bool
scenario_refused none = false
scenario_refused (some scenario) = not (scenario == "analysis")

abbrev pub report_type_refused : Option String → Bool
report_type_refused none = false
report_type_refused (some report_type) = member report_type ("sensitive" ∷ "confidential" ∷ [])

-- The three tests of the branch of bank_beta, in turn.
unfoldable pub beta_verdict : Option String → Option String → Verdict
unfolding member
beta_verdict scenario report_type =
    let applied : List String = "bank_beta_policy" ∷ [] in
    let start : Verdict = record {
      policies_applied = applied;
      allowed = true;
      reason = "Tenant policy default allow";
    } in
    let by_scenario : Verdict =
      if scenario_refused scenario
      then record start {
        allowed = false;
        reason = concat ("Bank Beta does not allow scenario '" ∷ show_option scenario ∷ "'" ∷ []);
      }
      else start in
    let by_type : Verdict =
      if report_type_refused report_type
      then record by_scenario {
        allowed = false;
        reason = concat ("Bank Beta blocks report type '" ∷ show_option report_type ∷ "'" ∷ []);
      }
      else by_scenario in
    if by_type.allowed
    then record by_type { reason = "Bank Beta allows requested scenario/report type" }
    else by_type

unfoldable pub tenant_verdict : String → String → Option String → Option String → Verdict
tenant_verdict tenant_id tenant_id_lower scenario report_type =
    if tenant_id_lower == "bank_alpha"
    then record {
      policies_applied = "bank_alpha_policy" ∷ [];
      allowed = true;
      reason = "Bank Alpha allows all scenarios";
    }
    else if tenant_id_lower == "bank_beta"
    then beta_verdict scenario report_type
    else if tenant_id_lower == "bank_mars"
    then record {
      policies_applied = "bank_mars_policy" ∷ [];
      allowed = true;
      reason = "Bank Mars allows all scenarios";
    }
    else if tenant_id_lower == "bank_neptune"
    then record {
      policies_applied = "bank_neptune_policy" ∷ [];
      allowed = true;
      reason = "Bank Neptune allows all scenarios";
    }
    else record {
      policies_applied = "default_policy" ∷ [];
      allowed = false;
      reason = concat ("No policy defined for tenant '" ∷ tenant_id ∷ "'" ∷ []);
    }

-- The jurisdiction check, which runs last and can override an allow.
unfoldable pub jurisdiction_verdict : String → String → Option String → Verdict → Verdict
jurisdiction_verdict tenant_id tenant_id_lower jurisdiction v =
    if v.allowed && not (jurisdiction_allowed tenant_id_lower jurisdiction)
    then record {
      policies_applied = v.policies_applied ++ "jurisdiction_policy" ∷ [];
      allowed = false;
      reason = concat (
          "Tenant '"
          ∷ tenant_id
          ∷ "' is not permitted to submit from jurisdiction '"
          ∷ show_option jurisdiction
          ∷ "'"
          ∷ []);
    }
    else v

-- `evaluate`; the last argument is what `datetime.utcnow()` returns
unfoldable pub evaluate :
    PolicyService → String → Option String → Option String → Option String → ℕ → PolicyDecision
evaluate service tenant_id scenario report_type jurisdiction now =
    let tenant_id_lower = normalise tenant_id in
    let v =
      jurisdiction_verdict tenant_id tenant_id_lower jurisdiction
        (tenant_verdict tenant_id tenant_id_lower scenario report_type) in
    record {
      allowed = v.allowed;
      reason = v.reason;
      tenant_id = tenant_id;
      policies_applied = v.policies_applied;
      policy_suite_version = some service.policy_suite_version;
      selected_provider = if v.allowed then some (provider_for_tenant tenant_id_lower) else none;
      timestamp = now;
    }
