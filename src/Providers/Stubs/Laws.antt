-- ===== src/Providers/Stubs/Laws.antt =====
-- When the stub providers fail, and what the risk scorer returns.
use infra_steward_gateway.Core.{
  ℕ, ◌%◌, ◌<◌, ◌≤◌, String, ◌≡◌, ◌≢◌, ◌↔◌, inl, inr, refl, sym, Bool, true, false, some, arith,
  Bool-cases, eq_iff, ltb, Option-cases,
}
use infra_steward_gateway.Dict.{lookup}
use infra_steward_gateway.Value.{Value, obj, text, int, pos, Fields, entries, fields, object}
use infra_steward_gateway.Exec.{Result, ok, err}
use infra_steward_gateway.Runtime.{Host}
use infra_steward_gateway.Workflow.RequestMetadata.{RequestMetadata}
use infra_steward_gateway.Providers.Stubs.{
  flag, fails, stub_enrichment, stub_b_enrichment, risk_enrichment, risk_score, risk_band,
  unless_failing, payload_size,
}

module _ (metadata : RequestMetadata) (payload : Value) where
  -- No failure is asked for: not by the scenario, and the payload is a dict that has no such flag, or
  -- one that counts as false.
  abbrev pub IsHealthy : Type 0
  IsHealthy =
      (metadata.scenario ≢ some "provider_failure") × (flag "provider_failure" payload ≡ ok false)

  fails_iff : (fails metadata payload ≡ ok false) ↔ IsHealthy
  unfolding fails
  fails_iff = elim (Option-cases metadata.scenario) [
    | inl e ↦ ground (arith, e)
    | inr (s, e) ↦ ground (arith, e, eq_iff s "provider_failure")
  ]

  -- What the guard of a stub lets through.
  returns_iff :
      (r : Result Bool) (message : String) (v : Value)
      → ((w : Value) × (unless_failing r message v ≡ ok w)) ↔ (r ≡ ok false)
  returns_iff (ok true) message v = (λ (w, e). absurd (cc), λ e. absurd (cc))
  returns_iff (ok false) message v = (λ _. refl, λ _. (v, refl))
  returns_iff (err x) message v = (λ (w, e). absurd (cc), λ e. absurd (cc))

  -- Each of the three stubs returns exactly when no failure is asked for, and raises otherwise.
  pub stub-returns_iff :
      (host : Host)
      → (((v : Value) × (stub_enrichment host metadata payload ≡ ok v)) ↔ IsHealthy)
        × (((v : Value) × (stub_b_enrichment host metadata payload ≡ ok v)) ↔ IsHealthy)
        × (((v : Value) × (risk_enrichment host metadata payload ≡ ok v)) ↔ IsHealthy)
  unfolding stub_enrichment stub_b_enrichment risk_enrichment
  stub-returns_iff host =
      let asked = fails metadata payload in
      let exactly : (message : String) (v : Value)
          → ((w : Value) × (unless_failing asked message v ≡ ok w)) ↔ IsHealthy =
        λ message v. (
          λ h. fails_iff.0 ((returns_iff asked message v).0 h),
          λ h. (returns_iff asked message v).1 (fails_iff.1 h),
        ) in
      (exactly _ _, exactly _ _, exactly _ _)

ltb_yes : (a b : ℕ) → ltb a b ≡ true → a < b
ltb_yes a b h = ground arith

ltb_no : (a b : ℕ) → ltb a b ≡ false → b ≤ a
ltb_no a b h = ground arith

-- A band says where a score lies.
abbrev Lies : String → ℕ → Type 0
Lies band score =
    ((band ≡ "low") ↔ (score < 33))
    × ((band ≡ "high") ↔ (67 ≤ score))
    × ((band ≡ "medium") ↔ ((33 ≤ score) × (score < 67)))

Lies-low : (score : ℕ) → score < 33 → Lies "low" score
Lies-low score h = ground (arith, h, eq_iff "low" "high", eq_iff "low" "medium")

Lies-medium : (score : ℕ) → 33 ≤ score → score < 67 → Lies "medium" score
Lies-medium score g h = ground (arith, g, h, eq_iff "medium" "low", eq_iff "medium" "high")

Lies-high : (score : ℕ) → 67 ≤ score → Lies "high" score
Lies-high score h = ground (arith, h, eq_iff "high" "low", eq_iff "high" "medium")

risk_bands : (host : Host) (score : ℕ) → Lies (risk_band host score) score
risk_bands host score = elim (Bool-cases (ltb score 33)) [
  | inl low ↦ rw low (Lies-low score (ltb_yes score 33 low))
  | inr not_low ↦ elim (Bool-cases (ltb score 67)) [
    | inl medium ↦
        rw (not_low, medium) (Lies-medium score (ltb_no score 33 not_low) (ltb_yes score 67 medium))
    | inr high ↦ rw (not_low, high) (Lies-high score (ltb_no score 67 high))
  ]
]

risk_score-bounded :
    (host : Host) (payload : Value)
    → (risk_score host payload ≡ payload_size host payload % 100) × (risk_score host payload < 100)
risk_score-bounded host payload =
    let below : payload_size host payload % 100 < 100 = omega arith in ground (arith, below)

guard-eq-ok :
    (r : Result Bool) (message : String) (u v : Value) → unless_failing r message u ≡ ok v → u ≡ v
guard-eq-ok (ok true) message u v e = absurd (cc)
guard-eq-ok (ok false) message u v e = cc
guard-eq-ok (err x) message u v e = absurd (cc)

-- What the risk scorer returns is a dict with a score below 100, the length of the payload's text
-- modulo 100, and a band that is low exactly below 33, high exactly from 67 on, and else medium.
pub risk_enrichment-bounded :
    (host : Host) (metadata : RequestMetadata) (payload v : Value)
    → risk_enrichment host metadata payload ≡ ok v
    → (score : ℕ) × (band : String) × (f : Fields) × (v ≡ obj f)
      × (lookup "risk_score" (entries f) ≡ some (int (pos score)))
      × (lookup "risk_band" (entries f) ≡ some (text band))
      × (score ≡ payload_size host payload % 100)
      × (score < 100)
      × ((band ≡ "low") ↔ (score < 33))
      × ((band ≡ "high") ↔ (67 ≤ score))
      × ((band ≡ "medium") ↔ ((33 ≤ score) × (score < 67)))
unfolding risk_enrichment object fields entries lookup
risk_enrichment-bounded host metadata payload v e =
    let score = risk_score host payload in
    let (same, below) = risk_score-bounded host payload in
    (
      score,
      risk_band host score,
      _,
      sym (guard-eq-ok (fails metadata payload) _ _ v e),
      refl,
      refl,
      same,
      below,
      (risk_bands host score).0,
      (risk_bands host score).1,
      (risk_bands host score).2,
    )
