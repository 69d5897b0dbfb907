-- ===== src/Workflow/Engine/Attempts.antt =====
-- The two ways in which the body of the `try` ends.
use infra_steward_gateway.Core.{◌≡◌, ◌⊎◌, inl, inr, refl}
use infra_steward_gateway.Exec.{Exc, Result, ok, err}
use infra_steward_gateway.Supervisory.{payload_keys}
use infra_steward_gateway.Workflow.Engine.{sha256_hash}
use infra_steward_gateway.Workflow.Engine.Outcome.{
  Routing, AttemptFails, AttemptReturns, raised, unhashable, keyless,
}

pub Result-cases {ℓ} :
    {A : Type ℓ} (r : Result A) → ((a : A) × (r ≡ ok a)) ⊎ ((x : Exc) × (r ≡ err x))
Result-cases (ok a) = inl (a, refl)
Result-cases (err x) = inr (x, refl)

-- The attempt of a routed request returns or raises.
pub attempt_cases : (c : Routing) → AttemptReturns c ⊎ ((x : Exc) × AttemptFails c x)
attempt_cases c =
    elim (Result-cases (c.provider.generate_enrichment c.run.metadata c.run.payload)) [
      | inr (x, e) ↦ inr (x, raised e)
      | inl (v, e) ↦ elim (Result-cases (sha256_hash c.host v)) [
        | inr (x, f) ↦ inr (x, unhashable v e f)
        | inl (output_hash, f) ↦ elim (Result-cases (payload_keys v)) [
          | inr (x, g) ↦ inr (x, keyless v output_hash e f g)
          | inl (keys, g) ↦ inl (record {
            enrichment = v;
            output_hash = output_hash;
            keys = keys;
            generated = e;
            hashed = f;
            listed = g;
          })
        ]
      ]
    ]
