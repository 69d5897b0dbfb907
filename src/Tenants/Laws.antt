-- ===== src/Tenants/Laws.antt =====
-- Which texts name a tenant, and what they resolve to.
use infra_steward_gateway.Core.{
  String, ◌≡◌, ◌↔◌, ◌⊎◌, inl, inr, refl, sym, true, some, arith, Bool-cases, Option-cases, eq_iff,
}
use infra_steward_gateway.PyStr.{truthy, normalise}
use infra_steward_gateway.Dict.{lookup}
use infra_steward_gateway.Exec.{ok}
use infra_steward_gateway.Runtime.{Host}
use infra_steward_gateway.Tenants.{
  TenantContext, registry, resolve, bank_alpha, bank_beta, bank_mars, bank_neptune,
}

-- The four tenants.
abbrev pub IsTenant : TenantContext → Type 0
IsTenant c = (c ≡ bank_alpha) ⊎ (c ≡ bank_beta) ⊎ (c ≡ bank_mars) ⊎ (c ≡ bank_neptune)

pub lookup-registry :
    (k : String) {c : TenantContext} → lookup k registry ≡ some c → IsTenant c × (c.tenant_id ≡ k)
unfolding lookup registry
lookup-registry k h = ground (
  arith,
  eq_iff "bank_alpha" k,
  eq_iff "bank_beta" k,
  eq_iff "bank_mars" k,
  eq_iff "bank_neptune" k,
)

pub lookup-registry_self : {c : TenantContext} → IsTenant c → lookup c.tenant_id registry ≡ some c
unfolding lookup registry
lookup-registry_self (inl e) = rw e
lookup-registry_self (inr (inl e)) = rw e
lookup-registry_self (inr (inr (inl e))) = rw e
lookup-registry_self (inr (inr (inr e))) = rw e

-- The identifier of a tenant is a name, and its own canonical form.
pub IsTenant-normalise :
    {c : TenantContext}
    → IsTenant c
    → (truthy c.tenant_id ≡ true) × (normalise c.tenant_id ≡ c.tenant_id)
unfolding normalise
IsTenant-normalise (inl e) = rw e (refl, refl)
IsTenant-normalise (inr (inl e)) = rw e (refl, refl)
IsTenant-normalise (inr (inr (inl e))) = rw e (refl, refl)
IsTenant-normalise (inr (inr (inr e))) = rw e (refl, refl)

module _ (host : Host) where
  -- A name resolves exactly when it is not empty and its canonical form is the identifier of one of
  -- the four tenants, and then to that tenant.
  pub resolve-eq-ok_iff :
      (name : String) (c : TenantContext)
      → (resolve host name ≡ ok c)
        ↔ ((truthy name ≡ true) × IsTenant c × (c.tenant_id ≡ normalise name))
  unfolding resolve
  resolve-eq-ok_iff name c = (
    λ h. elim (Bool-cases (truthy name)) [
      | inl t ↦ elim (Option-cases (lookup (normalise name) registry)) [
        | inl missed ↦ ground arith
        | inr (d, found) ↦
            let same : d ≡ c = ground arith in
            let (tenant, key) = lookup-registry (normalise name) found in
            rw (← same) (t, tenant, key)
      ]
      | inr f ↦ ground arith
    ],
    λ h. rw (h.0, ← h.2, lookup-registry_self h.1),
  )

  -- Resolving is stable: the tenant's own identifier resolves to the same context, and every
  -- spelling that resolves to it does so through that identifier.
  pub resolve-canonical :
      (name : String) (c : TenantContext)
      → resolve host name ≡ ok c
      → (resolve host c.tenant_id ≡ ok c) × (resolve host (normalise name) ≡ ok c)
  resolve-canonical name c h =
      let (_, tenant, key) = (resolve-eq-ok_iff name c).0 h in
      let (t, same) = IsTenant-normalise tenant in
      let again : resolve host c.tenant_id ≡ ok c =
        (resolve-eq-ok_iff c.tenant_id c).1 (t, tenant, sym same) in
      (again, rw (← key) again)
