-- ===== src/Examples/Requests.antt =====
-- The requests of the demonstration scenarios and variations of them, and what the theorems need of
-- them.
use infra_steward_gateway.Core.{◌≡◌, refl, ap, true, false, none, some, [], ◌∷◌, get_or}
use infra_steward_gateway.PyStr.{normalise, member, sorted, concat}
use infra_steward_gateway.Dict.{update, lookup, keys}
use infra_steward_gateway.Value.{Value, object, other, fields, entries}
use infra_steward_gateway.Exec.{Exc, ok, raise_result, runtime_error, type_error}
use infra_steward_gateway.World.{World, initial}
use infra_steward_gateway.Tenants.{bank_alpha, bank_beta}
use infra_steward_gateway.Policy.{
  evaluate, tenant_verdict, beta_verdict, jurisdiction_verdict, jurisdiction_allowed,
  tenant_allowed_jurisdictions, provider_for_tenant, tenant_provider_map,
}
use infra_steward_gateway.Providers.Registry.{get, find}
use infra_steward_gateway.Providers.Stubs.{stub_ai_provider, stub_enrichment, fails}
use infra_steward_gateway.Supervisory.{payload_keys}
use infra_steward_gateway.Workflow.RequestMetadata.{Request}
use infra_steward_gateway.Workflow.Messages.{Response}
use infra_steward_gateway.Workflow.Engine.Outcome.{denied_answer}
use infra_steward_gateway.Workflow.Scenarios.{
  alpha_compliant_request, beta_blocked_request, alpha_failure_request,
}
use infra_steward_gateway.Workflow.Engine.{process_report, sha256_hash}
use infra_steward_gateway.Workflow.Engine.Judged.{new_run, new_decision}
use infra_steward_gateway.Workflow.Engine.Outcome.{Routing, AttemptReturns, AttemptFails, raised}
use infra_steward_gateway.Workflow.Engine.Processed.{process_denied, routing}
use infra_steward_gateway.Workflow.Engine.Sequence.{draws-process_report}
use infra_steward_gateway.Examples.{sample_host, sample_gateway, resolves-beta}

abbrev pub beta_request : Request
beta_request = record beta_blocked_request { tenant_id = some " Bank_Beta " }

pub beta_denied :
    (new_decision sample_host sample_gateway beta_request initial bank_beta).allowed ≡ false
unfolding evaluate tenant_verdict beta_verdict jurisdiction_verdict normalise
beta_denied = refl

pub alpha_allowed :
    (new_decision sample_host sample_gateway alpha_compliant_request initial bank_alpha).allowed
    ≡ true
unfolding evaluate tenant_verdict jurisdiction_verdict jurisdiction_allowed normalise lookup member
    tenant_allowed_jurisdictions
alpha_allowed = refl

pub failure_allowed :
    (new_decision sample_host sample_gateway alpha_failure_request initial bank_alpha).allowed
    ≡ true
unfolding evaluate tenant_verdict jurisdiction_verdict jurisdiction_allowed normalise lookup member
    tenant_allowed_jurisdictions
failure_allowed = refl

pub alpha_registered :
    get sample_host sample_gateway.provider_registry
      (new_decision sample_host sample_gateway alpha_compliant_request initial
        bank_alpha).selected_provider
    ≡ ok (stub_ai_provider sample_host)
unfolding get find lookup evaluate tenant_verdict jurisdiction_verdict jurisdiction_allowed
    normalise member tenant_allowed_jurisdictions provider_for_tenant tenant_provider_map
alpha_registered = refl

pub failure_registered :
    get sample_host sample_gateway.provider_registry
      (new_decision sample_host sample_gateway alpha_failure_request initial
        bank_alpha).selected_provider
    ≡ ok (stub_ai_provider sample_host)
unfolding get find lookup evaluate tenant_verdict jurisdiction_verdict jurisdiction_allowed
    normalise member tenant_allowed_jurisdictions provider_for_tenant tenant_provider_map
failure_registered = refl

pub alpha_hashed :
    sha256_hash sample_host (get_or alpha_compliant_request.payload (object [])) ≡ ok "sha256:{}"
unfolding sha256_hash object fields concat
alpha_hashed = refl

pub failure_hashed :
    sha256_hash sample_host (get_or alpha_failure_request.payload (object [])) ≡ ok "sha256:{}"
unfolding sha256_hash object fields concat
failure_hashed = refl

abbrev pub alpha_routing : Routing
alpha_routing =
    routing sample_host sample_gateway alpha_compliant_request initial bank_alpha "bank_alpha"
      (stub_ai_provider sample_host) "sha256:{}"

pub alpha_generates :
    (v : Value) × (alpha_routing.provider.generate_enrichment alpha_routing.run.metadata
        alpha_routing.run.payload
      ≡ ok v)
    × (sha256_hash sample_host v ≡ ok "sha256:{}")
    × (payload_keys v ≡ ok ("enrichment" ∷ "report_id" ∷ "result" ∷ "scenario" ∷ "tenant_id" ∷ []))
unfolding stub_ai_provider stub_enrichment fails object fields entries lookup sha256_hash concat
    payload_keys sorted keys
alpha_generates = (_, refl, refl, refl)

abbrev pub alpha_returns : AttemptReturns alpha_routing
alpha_returns = record {
  enrichment = alpha_generates.0;
  output_hash = "sha256:{}";
  keys = "enrichment" ∷ "report_id" ∷ "result" ∷ "scenario" ∷ "tenant_id" ∷ [];
  generated = alpha_generates.1;
  hashed = alpha_generates.2;
  listed = alpha_generates.3;
}

abbrev pub simulated : Exc
simulated = record { class = runtime_error; message = "Simulated provider failure" }

abbrev pub failure_routing : Routing
failure_routing =
    routing sample_host sample_gateway alpha_failure_request initial bank_alpha "bank_alpha"
      (stub_ai_provider sample_host) "sha256:{}"

pub failure_raises : AttemptFails failure_routing simulated
unfolding stub_ai_provider stub_enrichment fails
failure_raises = raised refl

abbrev pub foreign_request : Request
foreign_request = record alpha_compliant_request { jurisdiction = some "US" }

abbrev pub unhashable_request : Request
unhashable_request = record alpha_compliant_request { payload = some (other "datetime") }

pub unhashable_allowed :
    (new_decision sample_host sample_gateway unhashable_request initial bank_alpha).allowed ≡ true
unfolding evaluate tenant_verdict jurisdiction_verdict jurisdiction_allowed normalise lookup member
    tenant_allowed_jurisdictions
unhashable_allowed = refl

pub unhashable_raises :
    sha256_hash sample_host (other "datetime") ≡ raise_result type_error "not JSON serializable"
unfolding sha256_hash
unhashable_raises = refl

abbrev pub nameless_request : Request
nameless_request = record alpha_compliant_request { tenant_id = none }

abbrev pub after_first : World
after_first = (process_report sample_host sample_gateway alpha_compliant_request initial).1

abbrev pub beta_response : Response
beta_response =
    update (new_run sample_host sample_gateway beta_request initial bank_beta).response
      denied_answer

pub beta_answers :
    (process_report sample_host sample_gateway beta_request initial).0 ≡ ok beta_response
beta_answers =
    ap (λ p. p.0)
      (process_denied sample_host sample_gateway beta_request initial bank_beta " Bank_Beta " refl
        resolves-beta beta_denied).runs

pub first_draws : after_first.draws ≡ 1
first_draws = draws-process_report sample_host sample_gateway alpha_compliant_request initial
