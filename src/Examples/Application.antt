-- ===== src/Examples/Application.antt =====
-- The theorems on the evidence service, the stubs, the application and the scenarios, at concrete
-- values.
use mathlib.Core.List.{Mem}
use infra_steward_gateway.Core.{ℕ, ◌%◌, ◌≡◌, ◌<◌, ◌≤◌, ◌↔◌, refl, String, none, some, [], arith}
use infra_steward_gateway.PyStr.{concat}
use infra_steward_gateway.Dict.{lookup, insert}
use infra_steward_gateway.Value.{Value, object, text, obj, int, pos, entries, fields, Fields}
use infra_steward_gateway.Exec.{ok, ◌>>=◌, modify, pure}
use infra_steward_gateway.World.{World, initial}
use infra_steward_gateway.Tenants.{bank_beta}
use infra_steward_gateway.Providers.Stubs.{
  flag, stub_enrichment, stub_b_enrichment, risk_enrichment, fails, payload_size,
}
use infra_steward_gateway.Providers.Stubs.Laws.{
  IsHealthy, stub-returns_iff, risk_enrichment-bounded,
}
use infra_steward_gateway.Evidence.Models.{policy_evaluated}
use infra_steward_gateway.Evidence.Service.{
  list_records, Start, start_record, add_event, finalize, save, append_event, require_stored,
}
use infra_steward_gateway.Evidence.Service.Listing.{list_records-tenant}
use infra_steward_gateway.Evidence.Service.Invariant.{
  IsConsistent, Grows, started, evented, finalized, Reach, here, next, Reach-keeps,
  initial-IsConsistent,
}
use infra_steward_gateway.Workflow.RequestMetadata.{RequestMetadata, ReportRequest}
use infra_steward_gateway.Workflow.Endings.{denied_final}
use infra_steward_gateway.Workflow.Engine.{sha256_hash}
use infra_steward_gateway.App.{Framework}
use infra_steward_gateway.App.Laws.{Answered, submit_report_answered}
use infra_steward_gateway.Examples.{sample_host, sample_ingester, resolves-beta}

abbrev pub sample_start : Start
sample_start = record {
  tenant_id = "bank_alpha";
  scenario = none;
  report_id = none;
  report_type = none;
  jurisdiction = none;
  regime = none;
  policy_suite_version = none;
  request_id = some "request-0";
}

abbrev one_record : World
one_record = (start_record sample_host sample_start initial).1

-- The record is started, gets an event, and is closed.
abbrev closed_record : World
closed_record =
    (finalize sample_host none 0 denied_final
      (add_event sample_host 0 policy_evaluated [] one_record).1).1

exists_one : 0 < one_record.evidence.next
unfolding start_record save
exists_one = omega arith

exists_after : 0 < (add_event sample_host 0 policy_evaluated [] one_record).1.evidence.next
unfolding start_record save add_event append_event require_stored ◌>>=◌ modify pure lookup insert
exists_after = omega arith

reaches_closed : Reach sample_host initial closed_record
reaches_closed =
    next
      (next (next here (started sample_start initial))
        (evented 0 policy_evaluated [] one_record exists_one))
      (finalized none 0 denied_final _ exists_after)

Reach-keeps_example :
    IsConsistent closed_record.evidence × Grows initial.evidence closed_record.evidence
Reach-keeps_example = Reach-keeps sample_host initial-IsConsistent reaches_closed

abbrev sample_metadata : RequestMetadata
sample_metadata = record {
  request_id = "request-0";
  tenant_id = "bank_alpha";
  scenario = some "reporting";
  report_id = none;
  report_type = none;
  jurisdiction = some "EU";
  regime = none;
  user_id = none;
}

abbrev empty_payload : Value
empty_payload = object []

stub-returns_iff_example :
    (((v : Value) × (stub_enrichment sample_host sample_metadata empty_payload ≡ ok v))
      ↔ IsHealthy sample_metadata empty_payload)
    × (((v : Value) × (stub_b_enrichment sample_host sample_metadata empty_payload ≡ ok v))
        ↔ IsHealthy sample_metadata empty_payload)
    × (((v : Value) × (risk_enrichment sample_host sample_metadata empty_payload ≡ ok v))
        ↔ IsHealthy sample_metadata empty_payload)
stub-returns_iff_example = stub-returns_iff sample_metadata empty_payload sample_host

risk_returns : (v : Value) × (risk_enrichment sample_host sample_metadata empty_payload ≡ ok v)
unfolding risk_enrichment fails object fields flag lookup entries
risk_returns = (_, refl)

risk_enrichment-bounded_example :
    (score : ℕ) × (band : String) × (f : Fields) × (risk_returns.0 ≡ obj f)
    × (lookup "risk_score" (entries f) ≡ some (int (pos score)))
    × (lookup "risk_band" (entries f) ≡ some (text band))
    × (score ≡ payload_size sample_host empty_payload % 100)
    × (score < 100)
    × ((band ≡ "low") ↔ (score < 33))
    × ((band ≡ "high") ↔ (67 ≤ score))
    × ((band ≡ "medium") ↔ ((33 ≤ score) × (score < 67)))
risk_enrichment-bounded_example =
    risk_enrichment-bounded sample_host sample_metadata empty_payload risk_returns.0 risk_returns.1

abbrev pub sample_framework : Framework
sample_framework = record {
  render = λ v. ok "{}";
  jsonable_encoder = λ r. text r.request_id;
  generate_latest = λ cs. "metrics";
}

abbrev pub sample_report : ReportRequest
sample_report = record {
  tenant_id = " Bank_Beta ";
  scenario = some "analysis";
  report_id = none;
  report_type = some "standard";
  jurisdiction = none;
  regime = none;
  payload = object [];
}

pub empty_hashed : sha256_hash sample_host sample_report.payload ≡ ok "sha256:{}"
unfolding sha256_hash object fields concat
empty_hashed = refl

submit_report_answered_example :
    Answered sample_host sample_framework sample_ingester sample_report initial
submit_report_answered_example =
    submit_report_answered sample_host sample_framework sample_ingester sample_report initial
      bank_beta "sha256:{}" resolves-beta empty_hashed

list_records-tenant_example :
    Mem (one_record.evidence.objects 0) (list_records (some "bank_alpha") one_record) ↔ (
      Mem (one_record.evidence.objects 0) (list_records none one_record)
      × ((one_record.evidence.objects 0).tenant_id ≡ "bank_alpha"))
list_records-tenant_example =
    list_records-tenant "bank_alpha" one_record (one_record.evidence.objects 0)
