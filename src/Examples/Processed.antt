-- ===== src/Examples/Processed.antt =====
-- The theorems on requests, at concrete ones.
use infra_steward_gateway.Core.{◌+◌, ◌≡◌, ◌≤◌, refl, ap, [], inl, eq_iff, arith}
use infra_steward_gateway.Dict.{update}
use infra_steward_gateway.Exec.{ok, raise_result, key_error, type_error}
use infra_steward_gateway.World.{initial, outline}
use infra_steward_gateway.Tenants.{bank_alpha, bank_beta}
use infra_steward_gateway.Providers.Stubs.{stub_ai_provider}
use infra_steward_gateway.Workflow.Messages.{Response}
use infra_steward_gateway.Workflow.Engine.Outcome.{denied_answer, completed_answer}
use infra_steward_gateway.Workflow.Scenarios.{alpha_compliant_request, alpha_failure_request}
use infra_steward_gateway.Workflow.Engine.{process_report, strategy_of}
use infra_steward_gateway.Workflow.Engine.Judged.{new_run}
use infra_steward_gateway.Workflow.Engine.Outcome.{ack_of, fallen_response}
use infra_steward_gateway.Workflow.Engine.Processed.{
  process_denied, process_completed, process_fallen, process_unresolved, process_unrouted,
}
use infra_steward_gateway.Evidence.Service.{get_record}
use infra_steward_gateway.Evidence.Service.Invariant.{initial-IsConsistent}
use infra_steward_gateway.Workflow.Engine.Account.{
  tally, policy_outcome, provider_outcome, is_enrichment,
}
use infra_steward_gateway.Workflow.Engine.Guarantees.{
  Filed, process_report-Filed, process_report-IsConsistent, process_report_counted,
}
use infra_steward_gateway.Workflow.Engine.Sequence.{
  here, next, Served-keeps, process_report_elsewhere,
}
use infra_steward_gateway.Workflow.Engine.Totality.{process_report_answers}
use infra_steward_gateway.Workflow.Engine.Shaped.{Shaped, process_report-Shaped}
use infra_steward_gateway.Examples.{
  sample_host, sample_gateway, resolves-alpha, resolves-beta, sample_uuid-later,
}
use infra_steward_gateway.Examples.Requests.{
  beta_request, beta_denied, alpha_allowed, failure_allowed, alpha_registered, failure_registered,
  alpha_hashed, failure_hashed, alpha_routing, alpha_returns, simulated, failure_routing,
  failure_raises, foreign_request, unhashable_request, unhashable_allowed, unhashable_raises,
  nameless_request, after_first, beta_response, beta_answers, first_draws,
}

process_denied_example :
    (process_report sample_host sample_gateway beta_request initial).0 ≡ ok beta_response
process_denied_example =
    ap (λ p. p.0)
      (process_denied sample_host sample_gateway beta_request initial bank_beta " Bank_Beta " refl
        resolves-beta beta_denied).runs

process_completed_example :
    (process_report sample_host sample_gateway alpha_compliant_request initial).0
    ≡ ok (
        update alpha_routing.run.response (
          completed_answer
            (stub_ai_provider sample_host)
            alpha_returns.enrichment
            (ack_of alpha_routing alpha_returns.keys)))
process_completed_example =
    ap (λ p. p.0)
      (process_completed sample_host sample_gateway alpha_compliant_request initial bank_alpha
        "bank_alpha" (stub_ai_provider sample_host) "sha256:{}" alpha_returns refl resolves-alpha
        alpha_allowed alpha_hashed alpha_registered).runs

process_fallen_example :
    (process_report sample_host sample_gateway alpha_failure_request initial).0
    ≡ ok (
        update failure_routing.run.response (
          fallen_response failure_routing simulated
            (strategy_of sample_host sample_gateway (stub_ai_provider sample_host))))
process_fallen_example =
    ap (λ p. p.0)
      (process_fallen sample_host sample_gateway alpha_failure_request initial bank_alpha
        "bank_alpha" (stub_ai_provider sample_host) "sha256:{}" failure_raises refl resolves-alpha
        failure_allowed failure_hashed failure_registered).runs

process_unresolved_example :
    (process_report sample_host sample_gateway nameless_request initial).0
    ≡ raise_result key_error "tenant_id"
process_unresolved_example =
    ap (λ p. p.0)
      (process_unresolved sample_host sample_gateway nameless_request initial
        (record { class = key_error; message = "tenant_id" }) (inl refl)).runs

process_unrouted_example :
    (process_report sample_host sample_gateway unhashable_request initial).0
    ≡ raise_result type_error "not JSON serializable"
process_unrouted_example =
    ap (λ p. p.0)
      (process_unrouted sample_host sample_gateway unhashable_request initial bank_alpha
        "bank_alpha" (record { class = type_error; message = "not JSON serializable" }) refl
        resolves-alpha unhashable_allowed (inl unhashable_raises)).runs

process_report-Filed_example :
    Filed sample_host sample_gateway beta_request initial beta_response
      (process_report sample_host sample_gateway beta_request initial).1
process_report-Filed_example =
    process_report-Filed sample_host sample_gateway beta_request initial beta_response beta_answers

process_report_counted_example :
    let after = outline (process_report sample_host sample_gateway beta_request initial).1.trace in
    (tally policy_outcome after ≡ 1 + tally policy_outcome (outline []))
    × (tally provider_outcome after ≡ 1 + tally provider_outcome (outline []))
    × (tally is_enrichment after ≤ 1 + tally is_enrichment (outline []))
process_report_counted_example =
    process_report_counted sample_host sample_gateway beta_request initial beta_response
      beta_answers

Served-keeps_example :
    get_record "request-0" (process_report sample_host sample_gateway beta_request after_first).1
    ≡ get_record "request-0" after_first
Served-keeps_example =
    Served-keeps sample_host sample_gateway "request-0"
      (process_report-IsConsistent sample_host sample_gateway alpha_compliant_request initial
        initial-IsConsistent)
      (λ n h. sample_uuid-later n (omega (arith, first_draws, h))) (next beta_request here)

process_report_elsewhere_example :
    ((process_report sample_host sample_gateway foreign_request initial).0
      ≡ ok (
          update
            (new_run sample_host sample_gateway foreign_request initial bank_alpha).response
            denied_answer))
    × (tally is_enrichment
          (outline (process_report sample_host sample_gateway foreign_request initial).1.trace)
        ≡ tally is_enrichment (outline []))
process_report_elsewhere_example =
    process_report_elsewhere sample_host sample_gateway foreign_request initial bank_alpha
      "bank_alpha" "US" refl resolves-alpha refl refl (λ e. ground (arith, eq_iff "US" "EU", e))

process_report_answers_example :
    (answer : Response) × ((process_report sample_host sample_gateway alpha_compliant_request
        initial).0
      ≡ ok answer)
process_report_answers_example =
    process_report_answers sample_host sample_gateway alpha_compliant_request initial bank_alpha
      "bank_alpha" "sha256:{}" refl resolves-alpha alpha_hashed
      (λ h. (stub_ai_provider sample_host, alpha_registered))

process_report-Shaped_example :
    Shaped sample_host sample_gateway beta_request initial beta_response
      (process_report sample_host sample_gateway beta_request initial).1
process_report-Shaped_example =
    process_report-Shaped sample_host sample_gateway beta_request initial beta_response beta_answers
