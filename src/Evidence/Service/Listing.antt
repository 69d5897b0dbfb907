-- ===== src/Evidence/Service/Listing.antt =====
-- `list_records` of app/evidence/service.py with and without a tenant.
use mathlib.Core.List.{Mem, filter, mem-filter}
use mathlib.Core.Logic.{ite}
use infra_steward_gateway.Core.{
  String, ◌≡◌, ◌↔◌, refl, ap, ◌∙◌, Bool, true, false, some, none, List, [], ◌∷◌, ◌==◌, eq_iff,
  if◌then◌else◌, map,
}
use infra_steward_gateway.Dict.{values}
use infra_steward_gateway.World.{World}
use infra_steward_gateway.Evidence.Models.{EvidenceRecord}
use infra_steward_gateway.Evidence.Service.{of_tenant, list_records}

abbrev pub decided : (b : Bool) → Dec (b ≡ true)
decided true = yes refl
decided false = no (λ e. absurd (cc))

pub if-ite {ℓ} :
    {A : Type ℓ} (b : Bool) (x y : A) → (if b then x else y) ≡ ite {C = A} (decided b) x y
if-ite true x y = refl
if-ite false x y = refl

of_tenant-filter :
    (tenant : String) (rs : List EvidenceRecord)
    → of_tenant tenant rs
      ≡ filter {p = λ (r : EvidenceRecord). (r.tenant_id == tenant) ≡ true}
          (λ r. decided (r.tenant_id == tenant))
          rs
unfolding of_tenant
of_tenant-filter tenant [] = refl
of_tenant-filter tenant (r ∷ rs) =
    ap (λ rest. if r.tenant_id == tenant then r ∷ rest else rest) (of_tenant-filter tenant rs)
    ∙ if-ite (r.tenant_id == tenant) _ _

-- A list for a tenant has the records of that tenant among all records, and no other record: a
-- caller that lists by tenant never sees the evidence of another.
pub list_records-tenant :
    (tenant : String) (w : World) (r : EvidenceRecord)
    → Mem r (list_records (some tenant) w) ↔ (Mem r (list_records none w) × (r.tenant_id ≡ tenant))
unfolding list_records
list_records-tenant tenant w r =
    let all = map w.evidence.objects (values w.evidence.store) in
    let found =
      mem-filter {p = λ (s : EvidenceRecord). (s.tenant_id == tenant) ≡ true}
        (λ s. decided (s.tenant_id == tenant)) {l = all} {x = r} in
    let same = eq_iff r.tenant_id tenant in
    rw (of_tenant-filter tenant all)
      (λ m. ((found.0 m).0, same.0 (found.0 m).1), λ h. found.1 (h.0, same.1 h.1))
