-- ===== src/App/Served.antt =====
-- What the metrics middleware of app/main.py makes of the handler that it stands round, and of reports.
use infra_steward_gateway.Core.{
  ℕ, ◌+◌, String, ◌≡◌, refl, ap, ◌∙◌, Bool, true, false, ◌==◌, [], ◌∷◌, some, arith, eq_iff,
}
use infra_steward_gateway.Value.{Value, object}
use infra_steward_gateway.Dict.{keys}
use infra_steward_gateway.Exec.{
  Exec, Result, ok, err, lift, pure, calls, modify, continue, recover, try_except, ◌>>=◌,
}
use infra_steward_gateway.Runtime.{Host}
use infra_steward_gateway.Metrics.{is_misplaced, is_undeclared, fits, same_texts}
use infra_steward_gateway.World.{World, Call, counted, observed, time, outline}
use infra_steward_gateway.Workflow.RequestMetadata.{ReportRequest, dict}
use infra_steward_gateway.Workflow.Setup.{WorkflowEngine}
use infra_steward_gateway.Workflow.Messages.{Response}
use infra_steward_gateway.Workflow.Engine.{process_report}
use infra_steward_gateway.Workflow.Engine.Account.{tally, is_counter}
use infra_steward_gateway.Workflow.Engine.Guarantees.{process_report_without}
use infra_steward_gateway.App.{Reply, Framework, json_response, submit_report}
use infra_steward_gateway.App.Middleware.{
  HttpRequest, count_response, count_failure, request_metrics_middleware,
}

-- A gateway request is counted; a request's latency is observed.
abbrev pub is_request : Call → Bool
is_request = is_counter "gateway_requests_total"

abbrev pub is_latency : Call → Bool
is_latency (observed name labels value) = name == "gateway_request_latency_seconds"
is_latency _ = false

is_request_misplaced : (c : Call) → is_request c ≡ true → is_misplaced c ≡ true
unfolding is_misplaced fits
is_request_misplaced (counted n l) e = rw ((eq_iff n "gateway_requests_total").0 e) refl
is_request_misplaced _ e = absurd (cc)

is_latency_misplaced : (c : Call) → is_latency c ≡ true → is_misplaced c ≡ true
unfolding is_misplaced
is_latency_misplaced (observed n l x) e = refl
is_latency_misplaced _ e = absurd (cc)

is_undeclared_misplaced : (c : Call) → is_undeclared c ≡ true → is_misplaced c ≡ true
unfolding is_misplaced is_undeclared fits
is_undeclared_misplaced (counted n l) e = ground arith
is_undeclared_misplaced (observed n l x) e = refl
is_undeclared_misplaced _ e = absurd (cc)

module _ (host : Host) where
  -- The status under which a request is counted.
  abbrev pub counted_status : Result Reply → String
  counted_status (ok reply) = host.str_int reply.status_code
  counted_status (err x) = "500"

  -- The request is timed, from `start_time` to the next reading of `time.time()`, and counted.
  abbrev pub metered : HttpRequest → String → ℕ → World → World
  metered request status start_time v = record v {
    times = v.times + 1;
    trace =
        counted "gateway_requests_total"
          (("method", request.method) ∷ ("endpoint", request.path) ∷ ("status", status) ∷ [])
        ∷ observed "gateway_request_latency_seconds"
            (("method", request.method) ∷ ("endpoint", request.path) ∷ [])
            (host.float_sub (host.time v.times) start_time)
        ∷ v.trace;
  }

  after_call :
      (request : HttpRequest) (start_time : ℕ) (r : Result Reply) (v : World)
      → let c = continue r (count_response host request start_time) v in
        recover (count_failure host request start_time) c.0 c.1
        ≡ (r, metered request (counted_status r) start_time v)
  unfolding continue recover count_response count_failure modify pure lift ◌>>=◌
  after_call request start_time (ok reply) v = refl
  after_call request start_time (err x) v = refl

  -- The middleware reads the clock before the handler and once after it. It hands on what the handler
  -- returns or raises, and leaves what the handler left, but that the time between the two readings has
  -- been observed once as the latency of the method and the path, and after it one request counted for
  -- them, under the status of the reply, or under 500 where the handler raises.
  pub request_metrics_middleware-transparent :
      (request : HttpRequest) (call_next : Exec World Reply) (w : World)
      → let (r, v) = call_next (record w { times = w.times + 1 }) in
        request_metrics_middleware host request call_next w ≡ (
          r,
          record v {
            times = v.times + 1;
            trace =
                counted "gateway_requests_total" (
                  ("method", request.method)
                  ∷ ("endpoint", request.path)
                  ∷ ("status", counted_status r)
                  ∷ [])
                ∷ observed "gateway_request_latency_seconds"
                    (("method", request.method) ∷ ("endpoint", request.path) ∷ [])
                    (host.float_sub (host.time v.times) (host.time w.times))
                ∷ v.trace;
          },
        )
  unfolding request_metrics_middleware calls try_except ◌>>=◌
  request_metrics_middleware-transparent request call_next w =
      let (start_time, w₁) = time host w in
      after_call request start_time (call_next w₁).0 (call_next w₁).1

  module _ (framework : Framework) (engine : WorkflowEngine) where
    rendered : ℕ → String → Exec World Reply
    rendered code body = pure (record { status_code = code; body = body })

    after_json :
        (code : ℕ) (content : Value) (v : World)
        → (json_response host framework code content v).1 ≡ v
    unfolding json_response ◌>>=◌ lift continue pure rendered
    after_json code content v =
        elim (framework.render content) as (λ r. (continue r (rendered code) v).1 ≡ v) [
          | ok body ↦ refl
          | err x ↦ refl
        ]

    after_result :
        (r : Result Response) (v : World)
        → (continue r (λ result. json_response host framework 200 (object result)) v).1 ≡ v
    unfolding continue
    after_result (ok result) v = after_json 200 (object result) v
    after_result (err x) v = refl

    -- The rendering of an answer adds nothing to the state.
    submit_report_after :
        (report : ReportRequest) (w : World)
        → (submit_report host framework (some engine) report w).1
          ≡ (process_report host engine (dict report) w).1
    unfolding submit_report ◌>>=◌
    submit_report_after report w =
        let p = process_report host engine (dict report) w in after_result p.0 p.1

    handler_without :
        (f : Call → Bool)
        → ((c : Call) → f c ≡ true → is_misplaced c ≡ true)
        → (report : ReportRequest) (w : World)
        → tally f (outline (submit_report host framework (some engine) report w).1.trace)
          ≡ tally f (outline w.trace)
    handler_without f within report w =
        ap (λ (v : World). tally f (outline v.trace)) (submit_report_after report w)
        ∙ process_report_without host engine (dict report) w f within

    -- A request is metered by one count, one observation, and no metric that is not declared.
    metered_once :
        (request : HttpRequest) (status : String) (start_time : ℕ) (v : World)
        → let before = outline v.trace in
          let after = outline (metered request status start_time v).trace in
          (tally is_request after ≡ 1 + tally is_request before)
          × (tally is_latency after ≡ 1 + tally is_latency before)
          × (tally is_undeclared after ≡ tally is_undeclared before)
    unfolding tally is_undeclared outline fits same_texts keys
    metered_once request status start_time v = (omega arith, omega arith, omega arith)

    -- Whatever a report comes to, a denial, a failure or an exception: its HTTP request is counted once
    -- as a gateway request and timed once in the latency histogram, and every metric that is called for
    -- it, by the middleware or by the engine, is a declared one, called with the labels that it
    -- declares, in their order.
    pub submit_report_metered :
        (request : HttpRequest) (report : ReportRequest) (w : World)
        → let before = outline w.trace in
          let after =
            outline
              (request_metrics_middleware host request
                (submit_report host framework (some engine) report)
                w).1.trace in
          (tally is_request after ≡ 1 + tally is_request before)
          × (tally is_latency after ≡ 1 + tally is_latency before)
          × (tally is_undeclared after ≡ tally is_undeclared before)
    submit_report_metered request report w =
        let handler = submit_report host framework (some engine) report in
        let w₁ : World = record w { times = w.times + 1 } in
        let reply = handler w₁ in
        let (requests, latencies, undeclared) =
          metered_once request (counted_status reply.0) (host.time w.times) reply.1 in
        rw (request_metrics_middleware-transparent request handler w) (
          requests ∙ ap (λ n. 1 + n) (handler_without is_request is_request_misplaced report w₁),
          latencies ∙ ap (λ n. 1 + n) (handler_without is_latency is_latency_misplaced report w₁),
          undeclared ∙ handler_without is_undeclared is_undeclared_misplaced report w₁,
        )
