-- ===== src/App/Middleware.antt =====
-- app/main.py: `request_metrics_middleware`, round the handler of every HTTP request, without its two
-- log lines.
use infra_steward_gateway.Core.{ℕ, String, [], ◌∷◌}
use infra_steward_gateway.Dict.{Dict}
use infra_steward_gateway.Exec.{Exec, Exc, err, calls, lift, modify, pure, try_except, ◌>>=◌, ◌>>◌}
use infra_steward_gateway.Runtime.{Host}
use infra_steward_gateway.World.{World, log, time, counted, observed}
use infra_steward_gateway.App.{Reply}

-- What the middleware reads of an HTTP request: `request.method` and `request.url.path`.
pub record HttpRequest : Type 0 where
  pub method : String
  pub path : String

abbrev pub latency_labels : HttpRequest → Dict String
latency_labels r = ("method", r.method) ∷ ("endpoint", r.path) ∷ []

abbrev pub request_labels : HttpRequest → String → Dict String
request_labels r status = ("method", r.method) ∷ ("endpoint", r.path) ∷ ("status", status) ∷ []

module _ (host : Host) where
  -- The latency is observed and the request counted.
  abbrev pub record_metrics : HttpRequest → String → ℕ → World → World
  record_metrics request status start_time w =
      let (now, v) = time host w in
      log (counted "gateway_requests_total" (request_labels request status)) (
        log
          (observed "gateway_request_latency_seconds" (latency_labels request)
            (host.float_sub now start_time))
          v)

  -- the rest of the `try`, and its `except`
  unfoldable pub count_response : HttpRequest → ℕ → Reply → Exec World Reply
  count_response request start_time response = do
    modify (record_metrics request (host.str_int response.status_code) start_time)
    pure response

  unfoldable pub count_failure : HttpRequest → ℕ → Exc → Exec World Reply
  count_failure request start_time exc = do
    modify (record_metrics request "500" start_time)
    lift (err exc)

  unfoldable pub request_metrics_middleware : HttpRequest → Exec World Reply → Exec World Reply
  unfolding count_response count_failure
  request_metrics_middleware request call_next = do
    start_time ← calls (time host)
    try_except (call_next >>= count_response request start_time) (count_failure request start_time)
