-- ===== src/Tenants.antt =====
-- app/tenants/models.py and app/tenants/context_manager.py: the first step of a request resolves the
-- raw tenant identifier.
pub mod Laws
use infra_steward_gateway.Core.{String, ◌==◌, Option, none, some, List, [], ◌∷◌, if◌then◌else◌}
use infra_steward_gateway.PyStr.{truthy, normalise, sorted, concat}
use infra_steward_gateway.Dict.{Dict, lookup, keys}
use infra_steward_gateway.Exec.{Result, ok, raise_result, unknown_tenant_error}
use infra_steward_gateway.Runtime.{Host, show_list}

pub record TenantContext : Type 0 where
  pub tenant_id : String
  pub display_name : String
  pub policy_scope : String
  pub jurisdiction : String

abbrev pub bank_alpha : TenantContext
bank_alpha = record {
  tenant_id = "bank_alpha";
  display_name = "Bank Alpha";
  policy_scope = "bank_alpha_policy";
  jurisdiction = "EU";
}

abbrev pub bank_beta : TenantContext
bank_beta = record {
  tenant_id = "bank_beta";
  display_name = "Bank Beta";
  policy_scope = "bank_beta_policy";
  jurisdiction = "EU";
}

abbrev pub bank_mars : TenantContext
bank_mars = record {
  tenant_id = "bank_mars";
  display_name = "Bank Mars";
  policy_scope = "bank_mars_policy";
  jurisdiction = "US";
}

abbrev pub bank_neptune : TenantContext
bank_neptune = record {
  tenant_id = "bank_neptune";
  display_name = "Bank Neptune";
  policy_scope = "bank_neptune_policy";
  jurisdiction = "APAC";
}

unfoldable pub registry : Dict TenantContext
registry =
    ("bank_alpha", bank_alpha)
    ∷ ("bank_beta", bank_beta)
    ∷ ("bank_mars", bank_mars)
    ∷ ("bank_neptune", bank_neptune)
    ∷ []

unfoldable pub known_tenants : List String
unfolding registry
known_tenants = sorted (keys registry)

module _ (host : Host) where
  unknown_tenant_message : String → String
  unknown_tenant_message tenant_id =
      concat
        ("Unknown tenant '" ∷ tenant_id ∷ "'; known tenants: " ∷ show_list host known_tenants ∷ [])

  unfoldable pub resolve : String → Result TenantContext
  unfolding unknown_tenant_message
  resolve tenant_id =
      if truthy tenant_id
      then (elim (lookup (normalise tenant_id) registry) [
        | none ↦ raise_result unknown_tenant_error (unknown_tenant_message tenant_id)
        | some context ↦ ok context
      ])
      else raise_result unknown_tenant_error "tenant_id must be a non-empty string"
