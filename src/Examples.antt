-- ===== src/Examples.antt =====
-- Concrete services, requests and worlds, on which the theorems are applied.
pub mod Requests
pub mod Processed
pub mod Services
pub mod Application
pub mod Concurrent
pub mod Served
pub mod Ingested
pub mod Schedules
pub mod Traffic
use infra_steward_gateway.Core.{
  ℕ, ◌-◌, nat_eq, if◌then◌else◌, zero, suc, ◌%◌, ◌≡◌, ◌≢◌, ◌≤◌, refl, ap, String, Bool, true, false,
  Option, none, some, List, [], ◌∷◌, inl, inr, eq_iff, arith,
}
use infra_steward_gateway.PyStr.{concat, normalise, lower}
use infra_steward_gateway.Dict.{update, lookup}
use infra_steward_gateway.Value.{
  Value, null, bool, int, float, text, arr, obj, other, entries, object,
}
use infra_steward_gateway.Exec.{Exc, Result, ok, raise_result, type_error}
use infra_steward_gateway.Runtime.{Host}
use infra_steward_gateway.World.{World, initial}
use infra_steward_gateway.Tenants.{TenantContext, resolve, registry, bank_alpha, bank_beta}
use infra_steward_gateway.Evidence.Producer.{Ingester}
use infra_steward_gateway.App.Laws.{gateway}
use infra_steward_gateway.Workflow.Setup.{WorkflowEngine}

abbrev pub sample_uuid : ℕ → String
sample_uuid zero = "request-0"
sample_uuid (suc zero) = "request-1"
sample_uuid _ = "request-n"

abbrev pub sample_dumps : Value → Result String
sample_dumps (other name) = raise_result type_error "not JSON serializable"
sample_dumps (text s) = ok s
sample_dumps _ = ok "{}"

-- A microsecond passes from one reading of the clock to the next.
abbrev pub sample_host : Host
sample_host = record {
  uuid4 = sample_uuid;
  utcnow = λ n. n;
  time = λ n. n;
  float_sub = λ a b. a - b;
  str_int = λ n. if nat_eq n 200 then "200" else if nat_eq n 404 then "404" else "500";
  isoformat = λ t. "2026-01-01T00:00:00";
  json_dumps = sample_dumps;
  sha256_hex = λ s. concat ("sha256:" ∷ s ∷ []);
  str_value = λ v. "{'text': 'demo'}";
  repr = λ s. concat ("'" ∷ s ∷ "'" ∷ []);
}

-- An ingester that refuses every record.
abbrev pub sample_ingester : Ingester
sample_ingester = record {
  json = λ r. ok r.request_id;
  loads = λ s. ok (object (("request_id", text s) ∷ []));
  post = λ path payload. ok 503;
  aclose = ok tt;
  raise_for_status = λ code. raise_result type_error "503 Service Unavailable";
}

abbrev pub sample_gateway : WorkflowEngine
sample_gateway = gateway sample_host sample_ingester

pub resolves-alpha : resolve sample_host "bank_alpha" ≡ ok bank_alpha
unfolding resolve lookup registry normalise
resolves-alpha = refl

pub resolves-beta : resolve sample_host " Bank_Beta " ≡ ok bank_beta
unfolding resolve lookup registry normalise
resolves-beta = refl

-- No identifier drawn after the first is the first one.
pub sample_uuid-later : (n : ℕ) → 1 ≤ n → "request-0" ≢ sample_uuid n
sample_uuid-later zero h = absurd (omega (arith, h))
sample_uuid-later (suc zero) h = λ e. ground (arith, eq_iff "request-0" "request-1", e)
sample_uuid-later (suc (suc n)) h = λ e. ground (arith, eq_iff "request-0" "request-n", e)
