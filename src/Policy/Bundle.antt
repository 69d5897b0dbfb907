-- ===== src/Policy/Bundle.antt =====
-- app/policy/service.py: the bundle that `_load_policies` builds, read as rules, against `evaluate`,
-- which does not read it.
use infra_steward_gateway.Core.{
  ℕ, String, ◌≡◌, ◌⊎◌, inl, inr, Bool, not, ◌&&◌, ◌||◌, none, some, List, [], ◌∷◌, get_or, arith,
  eq_iff,
}
use infra_steward_gateway.PyStr.{normalise, member}
use infra_steward_gateway.Dict.{Dict, lookup}
use infra_steward_gateway.Policy.{
  load_policies, policy_service, evaluate, tenant_verdict, beta_verdict, jurisdiction_verdict,
  jurisdiction_allowed,
}

-- What the entry of a tenant permits: its scenarios, "*" for all, but none of its blocked types.
abbrev pub permitted : Dict (List String) → String → String → Bool
permitted entry scenario report_type =
    let scenarios = get_or (lookup "allowed_scenarios" entry) [] in
    (member "*" scenarios || member scenario scenarios)
    && not (member report_type (get_or (lookup "blocked_report_types" entry) []))

abbrev alpha_entry : Dict (List String)
alpha_entry = ("allowed_scenarios", "*" ∷ []) ∷ []

abbrev beta_entry : Dict (List String)
beta_entry =
    ("allowed_scenarios", "analysis" ∷ [])
    ∷ ("blocked_report_types", "sensitive" ∷ "confidential" ∷ [])
    ∷ []

load_policies_cases :
    (key : String) (entry : Dict (List String))
    → lookup key load_policies ≡ some entry
    → ((key ≡ "bank_alpha") × (entry ≡ alpha_entry)) ⊎ ((key ≡ "bank_beta") × (entry ≡ beta_entry))
unfolding load_policies lookup
load_policies_cases key entry found =
    ground (arith, eq_iff "bank_alpha" key, eq_iff "bank_beta" key)

module _ (name scenario report_type : String) where
  allows : String → Bool
  allows key =
      (jurisdiction_verdict name key none
        (tenant_verdict name key (some scenario) (some report_type))).allowed

  allows_alpha : allows "bank_alpha" ≡ permitted alpha_entry scenario report_type
  unfolding allows jurisdiction_verdict jurisdiction_allowed tenant_verdict lookup member
  allows_alpha = ground arith

  allows_beta : allows "bank_beta" ≡ permitted beta_entry scenario report_type
  unfolding allows jurisdiction_verdict jurisdiction_allowed tenant_verdict beta_verdict lookup
      member
  allows_beta = ground (
    arith,
    eq_iff scenario "analysis",
    eq_iff report_type "sensitive",
    eq_iff report_type "confidential",
  )

  -- For each tenant that has an entry in the bundle, a request that names a scenario and a report type
  -- and no jurisdiction is allowed exactly when the entry permits them.
  pub evaluate-permitted :
      (version : String) (now : ℕ) (entry : Dict (List String))
      → lookup (normalise name) (policy_service version).policies ≡ some entry
      → (evaluate (policy_service version) name (some scenario) (some report_type) none now).allowed
        ≡ permitted entry scenario report_type
  unfolding evaluate policy_service allows
  evaluate-permitted version now entry found =
      elim (load_policies_cases (normalise name) entry found) [
        | inl (key, e) ↦ rw (key, e) allows_alpha
        | inr (key, e) ↦ rw (key, e) allows_beta
      ]
