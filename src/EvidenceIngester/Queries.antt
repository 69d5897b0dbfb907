-- ===== src/EvidenceIngester/Queries.antt =====
-- What the ingester lists, in whatever order the map is visited.
use mathlib.Core.List.{Mem, Perm, filter, mem-filter}
use mathlib.Core.List.Perm
use infra_steward_gateway.Core.{
  String, ◌≡◌, ◌↔◌, ◌⊎◌, refl, ap, ◌∙◌, Bool, true, false, not, ◌&&◌, Option, none, some, List, [],
  ◌∷◌, arith, eq_iff, if◌then◌else◌,
}
use infra_steward_gateway.PyStr.{truthy}
use infra_steward_gateway.Dict.{values}
use infra_steward_gateway.Evidence.Service.Listing.{decided, if-ite}
use infra_steward_gateway.EvidenceIngester.Domain.{EvidenceRecord}
use infra_steward_gateway.EvidenceIngester.Storage.{query, has_tenant, has_scenario}
use infra_steward_gateway.EvidenceIngester.Handlers.{
  EvidenceRequest, EvidenceHandler, many, pointer, handle_query,
}

truthy_iff : (t : String) → (truthy t ≡ false) ↔ (t ≡ "")
truthy_iff String.[] = (λ e. refl, λ e. refl)
truthy_iff (String.◌∷◌ c s) = (λ e. absurd (cc), λ e. absurd (cc))

module _ (t : String) (r : EvidenceRecord) where
  has_tenant_iff : (has_tenant (pointer t) r ≡ true) ↔ ((t ≡ "") ⊎ (r.tenant_id ≡ t))
  has_tenant_iff = ground (arith, eq_iff r.tenant_id t, truthy_iff t)

  has_scenario_iff : (has_scenario (pointer t) r ≡ true) ↔ ((t ≡ "") ⊎ (r.scenario ≡ some t))
  has_scenario_iff =
      elim r.scenario
        as (λ o.
          (has_scenario (pointer t) (record r { scenario = o }) ≡ true)
          ↔ ((t ≡ "") ⊎ (o ≡ some t))) [
            | none ↦ ground (arith, truthy_iff t)
            | some x ↦ ground (arith, eq_iff x t, truthy_iff t)
          ]

merged :
    (a b : Bool) (x y : List EvidenceRecord)
    → (if not a then x else if not b then x else y) ≡ (if a && b then y else x)
merged true true x y = refl
merged true false x y = refl
merged false b x y = refl

module _ (t s : Option String) where
  matches : EvidenceRecord → Bool
  matches r = has_tenant t r && has_scenario s r

  query-filter :
      (rs : List EvidenceRecord)
      → query t s rs
        ≡ filter {p = λ (r : EvidenceRecord). matches r ≡ true} (λ r. decided (matches r)) rs
  unfolding query matches
  query-filter [] = refl
  query-filter (r ∷ rs) =
      merged (has_tenant t r) (has_scenario s r) (query t s rs) (r ∷ query t s rs)
      ∙ ap (λ rest. if matches r then r ∷ rest else rest) (query-filter rs)
      ∙ if-ite (matches r) _ _

  Mem-query :
      (rs : List EvidenceRecord) (r : EvidenceRecord)
      → Mem r (query t s rs) ↔ (Mem r rs × (has_tenant t r ≡ true) × (has_scenario s r ≡ true))
  unfolding matches
  Mem-query rs r =
      let found =
        mem-filter {p = λ (x : EvidenceRecord). matches x ≡ true} (λ x. decided (matches x))
          {l = rs} {x = r} in
      rw (query-filter rs) (
        λ m. ((found.0 m).0, ground (arith, (found.0 m).1), ground (arith, (found.0 m).1)),
        λ (m, a, b). found.1 (m, ground (arith, a, b)),
      )

module _ (decode : String → Option EvidenceRecord)
    (iterate : List EvidenceRecord → List EvidenceRecord)
    (visits : (rs : List EvidenceRecord) → Perm (iterate rs) rs) where
  -- A GET of the list is answered with records, each of which is stored and matches the tenant and the
  -- scenario that are asked for, an empty one asking for nothing; and every stored record that matches
  -- is among them, in whatever order the map is visited.
  pub Mem-handle_query :
      (q : EvidenceRequest) (h : EvidenceHandler)
      → q.method ≡ "GET"
      → (rs : List EvidenceRecord) × (handle_query decode iterate q h
          ≡ record { code = 200; content = many rs })
        × ((r : EvidenceRecord)
            → Mem r rs ↔ (
                Mem r (values h.storage)
                × ((q.tenant_id ≡ "") ⊎ (r.tenant_id ≡ q.tenant_id))
                × ((q.scenario ≡ "") ⊎ (r.scenario ≡ some q.scenario))))
  unfolding handle_query
  Mem-handle_query q h get = (
    query (pointer q.tenant_id) (pointer q.scenario) (iterate (values h.storage)),
    rw get refl,
    λ r.
        let listed =
          Mem-query (pointer q.tenant_id) (pointer q.scenario) (iterate (values h.storage)) r in
        let visited = Perm.mem_iff {a = r} (visits (values h.storage)) in
        let tenant = has_tenant_iff q.tenant_id r in
        let scenario = has_scenario_iff q.scenario r in
        (
          λ m. let (there, a, b) = listed.0 m in (visited.0 there, tenant.0 a, scenario.0 b),
          λ (there, a, b). listed.1 (visited.1 there, tenant.1 a, scenario.1 b),
        ),
  )
