-- ===== src/Examples/Ingested.antt =====
-- The theorems on the evidence ingester, at concrete values.
use mathlib.Core.List.{Mem}
use mathlib.Core.List.Perm
use infra_steward_gateway.Core.{
  ◌≡◌, ◌↔◌, ◌⊎◌, ◌∷◌, refl, ap, ◌∙◌, String, Option, none, some, List, [], ◌==◌, arith, eq_iff,
  if◌then◌else◌,
}
use infra_steward_gateway.Dict.{values}
use infra_steward_gateway.World.{initial}
use infra_steward_gateway.Tenants.{bank_beta}
use infra_steward_gateway.Evidence.Models.{EvidenceRecord}
use infra_steward_gateway.Evidence.Models.{serializable_dict}
use infra_steward_gateway.Evidence.Service.{get_record}
use infra_steward_gateway.Workflow.Engine.{process_report}
use infra_steward_gateway.Workflow.Engine.Processed.{process_denied, denied_record}
use infra_steward_gateway.Workflow.Engine.Guarantees.{At-get_record}
use infra_steward_gateway.EvidenceIngester.Domain.{EvidenceRecord as StoredRecord}
use infra_steward_gateway.EvidenceIngester.Paths.{contains_slash}
use infra_steward_gateway.EvidenceIngester.Handlers.{
  EvidenceRequest, EvidenceHandler, one, many, serve_evidence, handle_query,
}
use infra_steward_gateway.EvidenceIngester.Queries.{Mem-handle_query}
use infra_steward_gateway.EvidenceIngester.Laws.{IsAddressable, get_request, post_request, get-post}
use infra_steward_gateway.EvidenceIngester.Deliveries.{Carried, Ingested, process_report-Ingested}
use infra_steward_gateway.Examples.{sample_host, sample_ingester, sample_gateway, resolves-beta}
use infra_steward_gateway.Examples.Requests.{beta_request, beta_response, beta_answers, beta_denied}

abbrev pub stored_beta : StoredRecord
stored_beta = record {
  request_id = "request-0";
  tenant_id = "bank_beta";
  scenario = none;
  report_id = none;
  report_type = none;
  jurisdiction = none;
  regime = none;
  policy_suite_version = none;
  policies_applied = [];
  decision_outcome = none;
  provider_name = none;
  provider_mode = none;
  redaction_applied = none;
  risk_level = none;
  input_hash = none;
  output_hash = none;
  events = [];
  status = "blocked";
}

abbrev pub sample_decode : String → Option StoredRecord
sample_decode body = if body == "{}" then some stored_beta else none

abbrev pub sample_iterate : List StoredRecord → List StoredRecord
sample_iterate rs = rs

abbrev empty_handler : EvidenceHandler
empty_handler = record { storage = []; ingester_events_total = 0 }

addressable : IsAddressable "request-0"
unfolding contains_slash
addressable =
    (ground (arith, eq_iff "request-0" ""), refl, ground (arith, eq_iff "request-0" "events"))

get-post_example :
    let (response, next) =
      serve_evidence sample_decode sample_iterate (post_request "{}") empty_handler in
    (response.code ≡ 202)
    × ((serve_evidence sample_decode sample_iterate (get_request "request-0") next).0 ≡ (
        if stored_beta.request_id == "request-0"
        then record { code = 200; content = one stored_beta }
        else (serve_evidence sample_decode sample_iterate
            (get_request "request-0")
            empty_handler).0))
get-post_example =
    get-post sample_decode sample_iterate "{}" stored_beta empty_handler "request-0" refl
      addressable.0 addressable

denied-Carried :
    Carried sample_decode sample_iterate
      (λ v. "{}")
      sample_ingester
      (denied_record sample_host sample_gateway beta_request initial bank_beta " Bank_Beta ")
unfolding serializable_dict
denied-Carried = record {
  value = _;
  stored = stored_beta;
  serialized = refl;
  decoded = refl;
  same_id = refl;
  same_tenant = refl;
  same_status = refl;
}

denied_found :
    get_record "request-0" (process_report sample_host sample_gateway beta_request initial).1
    ≡ some (denied_record sample_host sample_gateway beta_request initial bank_beta " Bank_Beta ")
denied_found =
    let denied =
      process_denied sample_host sample_gateway beta_request initial bank_beta " Bank_Beta " refl
        resolves-beta beta_denied in
    ap (λ p. get_record "request-0" p.1) denied.runs ∙ At-get_record "request-0" denied.holds refl

beta-Carried :
    (r : EvidenceRecord)
    → get_record "request-0" (process_report sample_host sample_gateway beta_request initial).1
      ≡ some r
    → Carried sample_decode sample_iterate (λ v. "{}") sample_ingester r
beta-Carried r found =
    let same : r
        ≡ denied_record sample_host sample_gateway beta_request initial bank_beta " Bank_Beta " =
      cc (found, denied_found) in
    rw same denied-Carried

process_report-Ingested_example :
    Ingested sample_decode sample_iterate
      (λ v. "{}")
      sample_ingester
      sample_host
      sample_gateway
      beta_request
      initial
      empty_handler
      beta_response
      (process_report sample_host sample_gateway beta_request initial).1
process_report-Ingested_example =
    process_report-Ingested sample_decode sample_iterate (λ v. "{}") sample_ingester sample_host
      sample_gateway beta_request initial empty_handler beta_response refl beta_answers addressable
      beta-Carried

abbrev list_request : EvidenceRequest
list_request = record {
  method = "GET";
  path = "/evidence/";
  tenant_id = "bank_beta";
  scenario = "";
  body = "";
}

abbrev one_stored : EvidenceHandler
one_stored = record { storage = ("request-0", stored_beta) ∷ []; ingester_events_total = 1 }

Mem-handle_query_example :
    (rs : List StoredRecord) × (handle_query sample_decode sample_iterate list_request one_stored
      ≡ record { code = 200; content = many rs })
    × ((r : StoredRecord)
        → Mem r rs ↔ (
            Mem r (values one_stored.storage)
            × ((list_request.tenant_id ≡ "") ⊎ (r.tenant_id ≡ list_request.tenant_id))
            × ((list_request.scenario ≡ "") ⊎ (r.scenario ≡ some list_request.scenario))))
Mem-handle_query_example =
    Mem-handle_query sample_decode sample_iterate (λ rs. Perm.refl rs) list_request one_stored refl
