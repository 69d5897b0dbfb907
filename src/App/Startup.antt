-- ===== src/App/Startup.antt =====
-- app/main.py where the services do not start.
use infra_steward_gateway.Core.{ℕ, String, ◌≡◌, refl, [], ◌∷◌}
use infra_steward_gateway.Value.{text, object}
use infra_steward_gateway.Exec.{Exec, Exc, Result, ok, err, continue, lift, pure, ◌>>=◌}
use infra_steward_gateway.Runtime.{Host}
use infra_steward_gateway.Config.{Settings, thirty_seconds}
use infra_steward_gateway.World.{World}
use infra_steward_gateway.Evidence.Producer.{Ingester, evidence_producer}
use infra_steward_gateway.Workflow.RequestMetadata.{ReportRequest}
use infra_steward_gateway.App.{
  Reply, Framework, services, json_response, submit_report, get_evidence, run_scenario,
  scenario_bank_alpha_compliant, scenario_bank_beta_blocked, scenario_bank_alpha_provider_failure,
}

-- The reply of status 500 that `JSONResponse` makes of what its content renders to. It raises what the
-- rendering raises.
abbrev pub error_reply : Result String → Result Reply
error_reply (ok body) = ok (record { status_code = 500; body = body })
error_reply (err x) = err x

module _ (host : Host) (framework : Framework) where
  -- An endpoint that changes nothing and answers with the status 500 and the message, as JSON under
  -- the key "error".
  abbrev pub IsUnavailable : String → Exec World Reply → Type 0
  IsUnavailable message m =
      (w : World)
      → m w ≡ (error_reply (framework.render (object (("error", text message) ∷ []))), w)

  by_rendering :
      (rendered : Result String) (w : World)
      → continue rendered (λ body. pure (record { status_code = 500; body = body })) w
        ≡ (error_reply rendered, w)
  unfolding continue pure
  by_rendering (ok body) w = refl
  by_rendering (err x) w = refl

  json_response-IsUnavailable :
      (message : String)
      → IsUnavailable message
          (json_response host framework 500 (object (("error", text message) ∷ [])))
  unfolding json_response lift ◌>>=◌
  json_response-IsUnavailable message w =
      by_rendering (framework.render (object (("error", text message) ∷ []))) w

  -- Where the HTTP client of the evidence producer cannot be made, no service is there, and every
  -- endpoint that needs one changes nothing and returns a reply with the status 500, whose body is the
  -- JSON of an error that names what is not initialized. It raises only if that error cannot be
  -- rendered.
  pub startup-IsUnavailable :
      (async_client : String → ℕ → Result Ingester) (settings : Settings) (x : Exc)
      → async_client settings.evidence_ingester_uri thirty_seconds ≡ err x
      → let engine = services host (evidence_producer async_client settings) in
        ((report : ReportRequest)
          → IsUnavailable "Workflow engine not initialized"
              (submit_report host framework engine report))
        × ((id : String)
            → IsUnavailable "Evidence service not initialized"
                (get_evidence host framework engine id))
        × IsUnavailable "Scenario runner not initialized"
            (scenario_bank_alpha_compliant host framework engine)
        × IsUnavailable "Scenario runner not initialized"
            (scenario_bank_beta_blocked host framework engine)
        × IsUnavailable "Scenario runner not initialized"
            (scenario_bank_alpha_provider_failure host framework engine)
  unfolding evidence_producer services submit_report get_evidence scenario_bank_alpha_compliant
      scenario_bank_beta_blocked scenario_bank_alpha_provider_failure run_scenario
  startup-IsUnavailable async_client settings x failed = rw failed (
    λ report. json_response-IsUnavailable _,
    λ id. json_response-IsUnavailable _,
    json_response-IsUnavailable _,
    json_response-IsUnavailable _,
    json_response-IsUnavailable _,
  )
