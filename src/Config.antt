-- ===== src/Config.antt =====
-- app/config.py. What pydantic reads from the environment overrides the defaults.
use infra_steward_gateway.Core.{ℕ, String, Bool, true, Option, none, [], ◌∷◌}
use infra_steward_gateway.PyStr.{concat}
use infra_steward_gateway.Runtime.{Host}

-- `30.0`, as the bit pattern of the float
abbrev pub thirty_seconds : ℕ
thirty_seconds = 0x403e000000000000

pub record Settings : Type 0 where
  pub host : String
  pub port : ℕ
  pub environment : String
  pub log_level : String
  pub tenant_default : Option String
  pub policy_default_strict : Bool
  pub provider_default : String
  pub provider_timeout_seconds : ℕ
  pub evidence_ingester_uri : String
  pub metrics_enabled : Bool

-- `Settings()` where the environment sets nothing
unfoldable pub default_settings : Settings
default_settings = record {
  host = "127.0.0.1";
  port = 8000;
  environment = "development";
  log_level = "INFO";
  tenant_default = none;
  policy_default_strict = true;
  provider_default = "stub";
  provider_timeout_seconds = thirty_seconds;
  evidence_ingester_uri = "http://localhost:8081";
  metrics_enabled = true;
}

-- `__str__`
unfoldable pub show_settings : Host → Settings → String
show_settings runtime s = concat (
    "Settings(host="
    ∷ s.host
    ∷ ", port="
    ∷ runtime.str_int s.port
    ∷ ", environment="
    ∷ s.environment
    ∷ ", provider="
    ∷ s.provider_default
    ∷ ")"
    ∷ [])
