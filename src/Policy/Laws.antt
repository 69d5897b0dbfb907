-- ===== src/Policy/Laws.antt =====
-- `PolicyService.evaluate` against the table of rules.
use infra_steward_gateway.Core.{
  ℕ, String, ◌≡◌, ◌↔◌, ◌⊎◌, inl, inr, refl, true, false, Option, none, some, [], ◌∷◌, arith,
  if◌then◌else◌,
}
use infra_steward_gateway.Dict.{lookup}
use infra_steward_gateway.PyStr.{normalise}
use infra_steward_gateway.Tenants.{TenantContext}
use infra_steward_gateway.Tenants.Laws.{IsTenant}
use infra_steward_gateway.Policy.{
  PolicyService, PolicyDecision, evaluate, jurisdiction_verdict, jurisdiction_allowed,
}
use infra_steward_gateway.Policy.Rules.{
  Rule, rules, IsFrom, Content, Follows, Follows-cases, alpha_rule, beta_rule, mars_rule,
  neptune_rule,
}

module _ (service : PolicyService) (name : String) (s t j : Option String) (now : ℕ) where
  abbrev decision : PolicyDecision
  decision = evaluate service name s t j now

  -- The decision for a tenant that has a row.
  pub record Decided (r : Rule) : Type 0 where
    pub verdict : (decision.allowed ≡ true) ↔ (Content r s t × IsFrom r.home j)
    pub provider : decision.selected_provider ≡ (if decision.allowed then some r.provider else none)
    pub trail :
        ((decision.policies_applied ≡ r.policy ∷ [])
          × ((decision.allowed ≡ true) ⊎ ¬ Content r s t))
        ⊎ ((decision.policies_applied ≡ r.policy ∷ "jurisdiction_policy" ∷ [])
            × Content r s t
            × ¬ IsFrom r.home j)

  Follows-Decided : (r : Rule) → Follows (normalise name) r → Decided r
  unfolding evaluate jurisdiction_verdict
  Follows-Decided r f = record {
    verdict = ground (arith, f.content name s t, f.jurisdiction j);
    provider = ground (arith, f.provider);
    trail = ground (arith, f.content name s t, f.jurisdiction j, f.policy name s t);
  }

  -- A tenant with a row is allowed exactly when the row permits its content and the request comes
  -- from the home jurisdiction or names none; it is then routed to the row's provider, and to none
  -- if it is denied. The trail names the row's policy, and the jurisdiction policy after it exactly
  -- when the jurisdiction alone is the reason for a denial.
  pub evaluate-Decided : {r : Rule} → lookup (normalise name) rules ≡ some r → Decided r
  evaluate-Decided {r} h = elim (Follows-cases (normalise name)) [
    | inl (q, found, f) ↦ let same : q ≡ r = ground arith in rw same at (Follows-Decided q f)
    | inr (missed, _) ↦ absurd (ground arith)
  ]

  -- A name without a row is denied whatever else the request says, with no provider, by the default
  -- policy alone.
  pub evaluate-default :
      lookup (normalise name) rules ≡ none
      → (decision.allowed ≡ false)
        × (decision.selected_provider ≡ none)
        × (decision.policies_applied ≡ "default_policy" ∷ [])
  unfolding evaluate jurisdiction_verdict
  evaluate-default h = elim (Follows-cases (normalise name)) [
    | inl (q, found, f) ↦ absurd (ground arith)
    | inr (missed, denies) ↦ ground (arith, denies name s t)
  ]

-- A tenant's context agrees with its row.
pub IsTenant-rule :
    {c : TenantContext}
    → IsTenant c
    → (r : Rule) × (lookup (normalise c.tenant_id) rules ≡ some r)
      × (r.policy ≡ c.policy_scope)
      × (r.home ≡ c.jurisdiction)
unfolding lookup rules normalise
IsTenant-rule (inl e) = rw e (alpha_rule, refl, refl, refl)
IsTenant-rule (inr (inl e)) = rw e (beta_rule, refl, refl, refl)
IsTenant-rule (inr (inr (inl e))) = rw e (mars_rule, refl, refl, refl)
IsTenant-rule (inr (inr (inr e))) = rw e (neptune_rule, refl, refl, refl)

-- A resolved tenant is judged by the policy that its context names, never by the default policy, and
-- a request from its home jurisdiction is never denied for the jurisdiction.
pub evaluate_home :
    (service : PolicyService) (c : TenantContext) (s t : Option String) (now : ℕ)
    → IsTenant c
    → (evaluate service c.tenant_id s t (some c.jurisdiction) now).policies_applied
      ≡ c.policy_scope ∷ []
evaluate_home service c s t now h =
    let (r, found, policy, home) = IsTenant-rule h in
    let d = evaluate-Decided service c.tenant_id s t (some c.jurisdiction) now found in
    elim d.trail [ inl (p, _) ↦ rw (p, policy) | inr (_, _, away) ↦ absurd (away (inr (rw home))) ]

-- Naming a jurisdiction only narrows what is allowed: what is allowed from somewhere is allowed when
-- no jurisdiction is named, with the same reason, trail and provider.
pub evaluate_narrows :
    (service : PolicyService) (name : String) (s t j : Option String) (now : ℕ)
    → (evaluate service name s t j now).allowed ≡ true
    → evaluate service name s t j now ≡ evaluate service name s t none now
unfolding evaluate jurisdiction_verdict jurisdiction_allowed
evaluate_narrows service name s t j now h = ground arith
