-- ===== src/Examples/Served.antt =====
-- The theorems on metrics, on the middleware, on an engine with a single provider and on the bundle
-- of policies, at concrete values.
use infra_steward_gateway.Core.{ℕ, ◌+◌, ◌≡◌, ap, refl, String, true, none, some, List, [], ◌∷◌}
use infra_steward_gateway.PyStr.{normalise, member}
use infra_steward_gateway.Dict.{Dict, lookup, insert}
use infra_steward_gateway.Exec.{
  Exec, Result, ok, value_error, raise_result, provider_not_registered_error,
}
use infra_steward_gateway.World.{World, initial, outline, counted, observed}
use infra_steward_gateway.Metrics.{is_undeclared}
use infra_steward_gateway.Tenants.{bank_beta}
use infra_steward_gateway.Policy.{
  policy_service, load_policies, evaluate, tenant_verdict, beta_verdict, jurisdiction_verdict,
  jurisdiction_allowed, tenant_allowed_jurisdictions, provider_for_tenant, tenant_provider_map,
}
use infra_steward_gateway.Policy.Bundle.{permitted, evaluate-permitted}
use infra_steward_gateway.Providers.Registry.{new_registry, register, not_registered_message}
use infra_steward_gateway.Providers.Stubs.{stub_ai_provider}
use infra_steward_gateway.Workflow.RequestMetadata.{ReportRequest, dict}
use infra_steward_gateway.Workflow.Setup.{WorkflowEngine, workflow_engine}
use infra_steward_gateway.Workflow.Engine.{process_report}
use infra_steward_gateway.Workflow.Engine.Account.{tally}
use infra_steward_gateway.Workflow.Engine.Judged.{new_decision, new_metadata}
use infra_steward_gateway.Workflow.Engine.Single.{single_provider_stranded}
use infra_steward_gateway.Config.{default_settings}
use infra_steward_gateway.Evidence.Producer.{Ingester, evidence_producer}
use infra_steward_gateway.App.{
  Reply, services, submit_report, get_evidence, scenario_bank_alpha_compliant,
  scenario_bank_beta_blocked, scenario_bank_alpha_provider_failure,
}
use infra_steward_gateway.App.Startup.{IsUnavailable, startup-IsUnavailable}
use infra_steward_gateway.App.Middleware.{HttpRequest, request_metrics_middleware}
use infra_steward_gateway.App.Served.{
  counted_status, is_request, is_latency, request_metrics_middleware-transparent,
  submit_report_metered,
}
use infra_steward_gateway.Examples.{sample_host, sample_gateway, resolves-beta}
use infra_steward_gateway.Examples.Application.{sample_framework, sample_report, empty_hashed}

abbrev post_reports : HttpRequest
post_reports = record { method = "POST"; path = "/reports" }

abbrev post_handler : Exec World Reply
post_handler = submit_report sample_host sample_framework (some sample_gateway) sample_report

request_metrics_middleware-transparent_example :
    let (r, v) = post_handler (record initial { times = 1 }) in
    request_metrics_middleware sample_host post_reports post_handler initial ≡ (
      r,
      record v {
        times = v.times + 1;
        trace =
            counted "gateway_requests_total" (
              ("method", "POST")
              ∷ ("endpoint", "/reports")
              ∷ ("status", counted_status sample_host r)
              ∷ [])
            ∷ observed "gateway_request_latency_seconds"
                (("method", "POST") ∷ ("endpoint", "/reports") ∷ [])
                (sample_host.float_sub (sample_host.time v.times) (sample_host.time 0))
            ∷ v.trace;
      },
    )
request_metrics_middleware-transparent_example =
    request_metrics_middleware-transparent sample_host post_reports post_handler initial

submit_report_metered_example :
    let after =
      outline (request_metrics_middleware sample_host post_reports post_handler initial).1.trace in
    (tally is_request after ≡ 1 + tally is_request (outline []))
    × (tally is_latency after ≡ 1 + tally is_latency (outline []))
    × (tally is_undeclared after ≡ tally is_undeclared (outline []))
submit_report_metered_example =
    submit_report_metered sample_host sample_framework sample_gateway post_reports sample_report
      initial

abbrev single_engine : WorkflowEngine
single_engine = record sample_gateway {
  producer = none;
  ai_provider = stub_ai_provider sample_host;
  provider_registry = record {
    providers = ("stub_a", stub_ai_provider sample_host) ∷ [];
    default_name = some "stub_a";
  };
}

single_made :
    workflow_engine sample_host
      (policy_service "v1")
      none
      (some (stub_ai_provider sample_host))
      none
      none
      none
    ≡ ok single_engine
unfolding workflow_engine register new_registry insert
single_made = refl

single_allowed :
    (new_decision sample_host single_engine (dict sample_report) initial bank_beta).allowed ≡ true
unfolding evaluate tenant_verdict beta_verdict jurisdiction_verdict jurisdiction_allowed normalise
    lookup member tenant_allowed_jurisdictions dict
single_allowed = refl

single_routes :
    provider_for_tenant (
      normalise
        (new_metadata sample_host single_engine (dict sample_report) initial bank_beta).tenant_id)
    ≡ "stub_b"
unfolding provider_for_tenant tenant_provider_map lookup normalise
single_routes = refl

single_provider_stranded_example :
    (process_report sample_host single_engine (dict sample_report) initial).0
    ≡ raise_result provider_not_registered_error
        (not_registered_message sample_host single_engine.provider_registry (some "stub_b"))
unfolding dict
single_provider_stranded_example =
    ap (λ p. p.0)
      (single_provider_stranded sample_host (policy_service "v1") none
        (stub_ai_provider sample_host) none none single_engine (dict sample_report) initial
        bank_beta " Bank_Beta " "sha256:{}" single_made refl resolves-beta single_allowed
        single_routes empty_hashed).runs

abbrev beta_entry : Dict (List String)
beta_entry =
    ("allowed_scenarios", "analysis" ∷ [])
    ∷ ("blocked_report_types", "sensitive" ∷ "confidential" ∷ [])
    ∷ []

beta_found : lookup (normalise " Bank_Beta ") (policy_service "v1").policies ≡ some beta_entry
unfolding lookup normalise policy_service load_policies
beta_found = refl

evaluate-permitted_example :
    (evaluate
      (policy_service "v1")
      " Bank_Beta "
      (some "analysis")
      (some "sensitive")
      none
      0).allowed
    ≡ permitted beta_entry "analysis" "sensitive"
evaluate-permitted_example =
    evaluate-permitted " Bank_Beta " "analysis" "sensitive" "v1" 0 beta_entry beta_found

abbrev no_client : String → ℕ → Result Ingester
no_client uri timeout = raise_result value_error "Invalid URL"

startup-IsUnavailable_example :
    let engine = services sample_host (evidence_producer no_client default_settings) in
    ((report : ReportRequest)
      → IsUnavailable sample_host sample_framework "Workflow engine not initialized"
          (submit_report sample_host sample_framework engine report))
    × ((id : String)
        → IsUnavailable sample_host sample_framework "Evidence service not initialized"
            (get_evidence sample_host sample_framework engine id))
    × IsUnavailable sample_host sample_framework "Scenario runner not initialized"
        (scenario_bank_alpha_compliant sample_host sample_framework engine)
    × IsUnavailable sample_host sample_framework "Scenario runner not initialized"
        (scenario_bank_beta_blocked sample_host sample_framework engine)
    × IsUnavailable sample_host sample_framework "Scenario runner not initialized"
        (scenario_bank_alpha_provider_failure sample_host sample_framework engine)
startup-IsUnavailable_example =
    startup-IsUnavailable sample_host sample_framework no_client default_settings
      (record { class = value_error; message = "Invalid URL" }) refl
