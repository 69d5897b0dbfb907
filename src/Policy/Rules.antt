-- ===== src/Policy/Rules.antt =====
-- The rules of the policy service as a table, apart from the code that applies them: a row for each
-- tenant, and what a row permits.
use infra_steward_gateway.Core.{
  String, ◌≡◌, ◌≢◌, ◌↔◌, ◌⊎◌, inl, inr, refl, Bool, true, false, Option, none, some, [], ◌∷◌, ◌==◌,
  arith, eq_iff, Bool-cases,
}
use infra_steward_gateway.Dict.{Dict, lookup}
use infra_steward_gateway.PyStr.{member}
use infra_steward_gateway.Policy.{
  scenario_refused, report_type_refused, jurisdiction_allowed, beta_verdict, tenant_verdict,
  provider_for_tenant,
}

pub record Rule : Type 0 where
  pub policy : String
  pub home : String
  pub analysis_only : Bool
  pub provider : String

abbrev pub alpha_rule : Rule
alpha_rule = record {
  policy = "bank_alpha_policy";
  home = "EU";
  analysis_only = false;
  provider = "stub_a";
}

abbrev pub beta_rule : Rule
beta_rule = record {
  policy = "bank_beta_policy";
  home = "EU";
  analysis_only = true;
  provider = "stub_b";
}

abbrev pub mars_rule : Rule
mars_rule = record {
  policy = "bank_mars_policy";
  home = "US";
  analysis_only = false;
  provider = "stub_a";
}

abbrev pub neptune_rule : Rule
neptune_rule = record {
  policy = "bank_neptune_policy";
  home = "APAC";
  analysis_only = false;
  provider = "stub_b";
}

unfoldable pub rules : Dict Rule
rules =
    ("bank_alpha", alpha_rule)
    ∷ ("bank_beta", beta_rule)
    ∷ ("bank_mars", mars_rule)
    ∷ ("bank_neptune", neptune_rule)
    ∷ []

-- A request comes from the jurisdiction, or names none.
abbrev pub IsFrom : String → Option String → Type 0
IsFrom home j = (j ≡ none) ⊎ (j ≡ some home)

-- The content that a tenant restricted to analysis may submit.
abbrev pub IsAnalysis : Option String → Option String → Type 0
IsAnalysis scenario report_type =
    ((scenario ≡ none) ⊎ (scenario ≡ some "analysis"))
    × (report_type ≢ some "sensitive")
    × (report_type ≢ some "confidential")

abbrev pub Content : Rule → Option String → Option String → Type 0
Content r scenario report_type = (r.analysis_only ≡ false) ⊎ IsAnalysis scenario report_type

scenario_refused_iff :
    (s : Option String) → (scenario_refused s ≡ false) ↔ ((s ≡ none) ⊎ (s ≡ some "analysis"))
scenario_refused_iff none = ground arith
scenario_refused_iff (some s) = ground (arith, eq_iff s "analysis")

report_type_refused_iff :
    (t : Option String)
    → (report_type_refused t ≡ false) ↔ ((t ≢ some "sensitive") × (t ≢ some "confidential"))
unfolding member
report_type_refused_iff none = ground arith
report_type_refused_iff (some t) = ground (arith, eq_iff t "sensitive", eq_iff t "confidential")

beta_verdict_iff : (s t : Option String) → ((beta_verdict s t).allowed ≡ true) ↔ IsAnalysis s t
unfolding beta_verdict
beta_verdict_iff s t = ground (arith, scenario_refused_iff s, report_type_refused_iff t)

beta_verdict_policy :
    (s t : Option String) → (beta_verdict s t).policies_applied ≡ "bank_beta_policy" ∷ []
unfolding beta_verdict
beta_verdict_policy s t = ground arith

member_one : (j home : String) → (member j (home ∷ []) ≡ true) ↔ IsFrom home (some j)
unfolding member
member_one j home = ground (arith, eq_iff j home)

-- What the code computes for a tenant, by the tenant's row.
pub record Follows (key : String) (r : Rule) : Type 0 where
  pub provider : provider_for_tenant key ≡ r.provider
  pub jurisdiction : (j : Option String) → (jurisdiction_allowed key j ≡ true) ↔ IsFrom r.home j
  pub content :
      (name : String) (s t : Option String)
      → ((tenant_verdict name key s t).allowed ≡ true) ↔ Content r s t
  pub policy :
      (name : String) (s t : Option String)
      → (tenant_verdict name key s t).policies_applied ≡ r.policy ∷ []

Follows-alpha : Follows "bank_alpha" alpha_rule
unfolding provider_for_tenant jurisdiction_allowed tenant_verdict
Follows-alpha = record {
  provider = refl;
  jurisdiction = elim [ none ↦ ground arith | some j ↦ member_one j "EU" ];
  content = λ name s t. ground arith;
  policy = λ name s t. refl;
}

Follows-beta : Follows "bank_beta" beta_rule
unfolding provider_for_tenant jurisdiction_allowed tenant_verdict
Follows-beta = record {
  provider = refl;
  jurisdiction = elim [ none ↦ ground arith | some j ↦ member_one j "EU" ];
  content = λ name s t. ground (arith, beta_verdict_iff s t);
  policy = λ name s t. beta_verdict_policy s t;
}

Follows-mars : Follows "bank_mars" mars_rule
unfolding provider_for_tenant jurisdiction_allowed tenant_verdict
Follows-mars = record {
  provider = refl;
  jurisdiction = elim [ none ↦ ground arith | some j ↦ member_one j "US" ];
  content = λ name s t. ground arith;
  policy = λ name s t. refl;
}

Follows-neptune : Follows "bank_neptune" neptune_rule
unfolding provider_for_tenant jurisdiction_allowed tenant_verdict
Follows-neptune = record {
  provider = refl;
  jurisdiction = elim [ none ↦ ground arith | some j ↦ member_one j "APAC" ];
  content = λ name s t. ground arith;
  policy = λ name s t. refl;
}

-- A key is one of the four, with its row followed, or it has no row and is denied by default.
pub Follows-cases :
    (key : String)
    → ((r : Rule) × (lookup key rules ≡ some r) × Follows key r)
      ⊎ ((lookup key rules ≡ none)
          × ((name : String) (s t : Option String)
              → ((tenant_verdict name key s t).allowed ≡ false)
                × ((tenant_verdict name key s t).policies_applied ≡ "default_policy" ∷ [])))
unfolding lookup rules tenant_verdict
Follows-cases key = elim (Bool-cases (key == "bank_alpha")) [
  | inl a ↦ rw ((eq_iff key "bank_alpha").0 a) (inl (_, refl, Follows-alpha))
  | inr a ↦ elim (Bool-cases (key == "bank_beta")) [
    | inl b ↦ rw ((eq_iff key "bank_beta").0 b) (inl (_, refl, Follows-beta))
    | inr b ↦ elim (Bool-cases (key == "bank_mars")) [
      | inl m ↦ rw ((eq_iff key "bank_mars").0 m) (inl (_, refl, Follows-mars))
      | inr m ↦ elim (Bool-cases (key == "bank_neptune")) [
        | inl n ↦ rw ((eq_iff key "bank_neptune").0 n) (inl (_, refl, Follows-neptune))
        | inr n ↦ inr (
          ground (
            arith,
            eq_iff key "bank_alpha",
            eq_iff "bank_alpha" key,
            eq_iff key "bank_beta",
            eq_iff "bank_beta" key,
            eq_iff key "bank_mars",
            eq_iff "bank_mars" key,
            eq_iff key "bank_neptune",
            eq_iff "bank_neptune" key,
          ),
          λ name s t. rw (a, b, m, n) (refl, refl),
        )
      ]
    ]
  ]
]
