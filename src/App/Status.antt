-- ===== src/App/Status.antt =====
-- app/main.py: the endpoints that tell of the service itself, and the options of its server.
use infra_steward_gateway.Core.{ℕ, String, Bool, ◌==◌, [], ◌∷◌}
use infra_steward_gateway.PyStr.{lower}
use infra_steward_gateway.Value.{text, float, object}
use infra_steward_gateway.Exec.{Exec, calls, gets, pure, ◌>>=◌}
use infra_steward_gateway.Runtime.{Host}
use infra_steward_gateway.Config.{Settings}
use infra_steward_gateway.World.{World, time}
use infra_steward_gateway.App.{Reply, Framework, json_response}

-- `__version__`
abbrev pub version : String
version = "0.1.0"

-- The arguments of `uvicorn.run`.
pub record ServerOptions : Type 0 where
  pub app : String
  pub host : String
  pub port : ℕ
  pub reload : Bool
  pub log_level : String

unfoldable pub server_options : Settings → ServerOptions
unfolding lower
server_options settings = record {
  app = "app.main:app";
  host = settings.host;
  port = settings.port;
  reload = settings.environment == "development";
  log_level = lower settings.log_level;
}

module _ (host : Host) (framework : Framework) where
  -- The startup time is the reading of `time.time()` when the module was loaded.
  unfoldable pub health : ℕ → Exec World Reply
  unfolding json_response
  health startup_time = do
    now ← calls (time host)
    json_response host framework 200 (
        object (
          ("status", text "healthy")
          ∷ ("version", text version)
          ∷ ("uptime_seconds", float (host.float_sub now startup_time))
          ∷ []))

  unfoldable pub info : Settings → ℕ → Exec World Reply
  unfolding json_response
  info settings startup_time = do
    now ← calls (time host)
    json_response host framework 200 (
        object (
          ("service", text "InfraSteward Gateway")
          ∷ ("version", text version)
          ∷ ("environment", text settings.environment)
          ∷ ("log_level", text settings.log_level)
          ∷ ("uptime_seconds", float (host.float_sub now startup_time))
          ∷ []))

  unfoldable pub metrics : Exec World Reply
  metrics = do
    body ← gets (λ w. framework.generate_latest w.trace)
    pure (record { status_code = 200; body = body })

  unfoldable pub root : Exec World Reply
  unfolding json_response
  root = json_response host framework 200 (
      object (
        ("service", text "InfraSteward Gateway")
        ∷ ("version", text version)
        ∷ (
          "endpoints",
          object (
              ("health", text "/health")
              ∷ ("info", text "/info")
              ∷ ("metrics", text "/metrics")
              ∷ ("reports", text "/reports (POST)")
              ∷ []),
        )
        ∷ []))
