-- ===== src/EvidenceIngester/Status.antt =====
-- go/evidence_ingester/main.go: the handlers that tell of the ingester itself, and what is registered
-- for which paths. A JSON answer is the value that is handed to the encoder. `time.Since(startTime)`
-- in seconds, the current time as text, and `fmt`'s decimal numbers are arguments.
use infra_steward_gateway.Core.{
  not, ◌==◌, ℕ, ◌-◌, ◌^◌, String, Option, none, some, List, [], ◌∷◌, ltb, if◌then◌else◌,
}
use infra_steward_gateway.PyStr.{concat}
use infra_steward_gateway.Dict.{Dict, lookup, keys}
use infra_steward_gateway.Value.{Value, ℤ, pos, negsuc, text, object}
use infra_steward_gateway.EvidenceIngester.Domain.{EvidenceRecord}
use infra_steward_gateway.EvidenceIngester.Handlers.{
  http_error, strings, EvidenceRequest, EvidenceResponse, EvidenceHandler, handle_events,
  serve_prefix,
}

abbrev pub ingester_version : String
ingester_version = "0.1.0"

abbrev pub default_port : ℕ
default_port = 8081

pub record HealthResponse : Type 0 where
  pub status : String
  pub version : String
  pub uptime_seconds : ℕ
  pub timestamp : String

pub record InfoResponse : Type 0 where
  pub service : String
  pub version : String
  pub port : ℕ
  pub uptime_seconds : ℕ

abbrev pub health_handler : ℕ → String → HealthResponse
health_handler uptime now = record {
  status = "healthy";
  version = ingester_version;
  uptime_seconds = uptime;
  timestamp = now;
}

abbrev pub info_handler : ℕ → InfoResponse
info_handler uptime = record {
  service = "InfraSteward Evidence Ingester";
  version = ingester_version;
  port = default_port;
  uptime_seconds = uptime;
}

unfoldable pub root_handler : Value
unfolding object
root_handler = object (
    ("service", text "InfraSteward Evidence Ingester")
    ∷ ("version", text ingester_version)
    ∷ (
      "endpoints",
      object (
          ("health", text "/health")
          ∷ ("info", text "/info")
          ∷ ("metrics", text "/metrics")
          ∷ ("evidence_events_post", text "/evidence/events")
          ∷ ("evidence_get_by_request", text "/evidence/{request_id}")
          ∷ ("evidence_query", text "/evidence?tenant_id=...&scenario=...")
          ∷ []),
    )
    ∷ [])

-- The value of the 64 bits of an `int64`.
unfoldable pub signed : ℕ → ℤ
signed bits = if ltb bits (2 ^ 63) then pos bits else negsuc (2 ^ 64 - 1 - bits)

unfoldable pub metrics_handler : (ℤ → String) → EvidenceHandler → String
unfolding signed
metrics_handler decimal h = concat (
    "# HELP ingester_events_total Total number of events received\n"
    ∷ "# TYPE ingester_events_total counter\n"
    ∷ "ingester_events_total "
    ∷ decimal (signed h.ingester_events_total)
    ∷ "\n\n"
    ∷ "# HELP ingester_response_latency_seconds Response latency in seconds\n"
    ∷ "# TYPE ingester_response_latency_seconds histogram\n"
    ∷ "ingester_response_latency_seconds_bucket{le=\"+Inf\"} 0\n"
    ∷ "ingester_response_latency_seconds_sum 0\n"
    ∷ "ingester_response_latency_seconds_count 0\n"
    ∷ [])

-- A placeholder, which is registered for no path.
abbrev pub evidence_events_handler : EvidenceRequest → EvidenceResponse
evidence_events_handler r =
    if not (r.method == "POST") then http_error "method not allowed" 405 else record {
      code = 202;
      content = strings (("status", "accepted") ∷ ("message", "event queued for processing") ∷ []);
    }

-- `NewEvidenceHandler` with a new storage, when the counter is 0
unfoldable pub new_evidence_handler : EvidenceHandler
new_evidence_handler = record { storage = []; ingester_events_total = 0 }

pub data Route : Type 0 where
  to_root to_health to_info to_metrics to_events to_evidence : Route

-- What is registered for which pattern.
unfoldable pub routes : Dict Route
routes =
    ("/", to_root)
    ∷ ("/health", to_health)
    ∷ ("/info", to_info)
    ∷ ("/metrics", to_metrics)
    ∷ ("/evidence/events", to_events)
    ∷ ("/evidence/", to_evidence)
    ∷ []

pub data Answer : Type 0 where
  evidence_answer : EvidenceResponse → Answer
  health_answer : HealthResponse → Answer
  info_answer : InfoResponse → Answer
  json_answer : Value → Answer
  text_answer : String → Answer
  not_found : Answer

-- What the ingester takes from Go: the decoder, the order of a map, the pattern among those registered
-- that `ServeMux` takes for a path, the time since the start, the current time, and decimal numbers.
pub record GoRuntime : Type 0 where
  pub decode : String → Option EvidenceRecord
  pub iterate : List EvidenceRecord → List EvidenceRecord
  pub pattern : List String → String → Option String
  pub uptime : ℕ
  pub now : String
  pub decimal : ℤ → String

abbrev pub route_of : Option String → Option Route
route_of none = none
route_of (some p) = lookup p routes

module _ (go : GoRuntime) where
  unfoldable pub serve_route : Route → EvidenceRequest → EvidenceHandler → Answer × EvidenceHandler
  unfolding handle_events
  serve_route to_root r h = (json_answer root_handler, h)
  serve_route to_health r h = (health_answer (health_handler go.uptime go.now), h)
  serve_route to_info r h = (info_answer (info_handler go.uptime), h)
  serve_route to_metrics r h = (text_answer (metrics_handler go.decimal h), h)
  serve_route to_events r h =
      let (response, next) = handle_events go.decode go.iterate r h in
      (evidence_answer response, next)
  serve_route to_evidence r h =
      let (response, next) = serve_prefix go.decode go.iterate r h in
      (evidence_answer response, next)

  abbrev pub chosen : Option Route → EvidenceRequest → EvidenceHandler → Answer × EvidenceHandler
  chosen none r h = (not_found, h)
  chosen (some route) r h = serve_route route r h

  unfoldable pub serve : EvidenceRequest → EvidenceHandler → Answer × EvidenceHandler
  serve r h = chosen (route_of (go.pattern (keys routes) r.path)) r h

  -- Requests that come one after the other; the locks make each call of the storage one step.
  unfoldable pub serve_all : List EvidenceRequest → EvidenceHandler → List Answer × EvidenceHandler
  unfolding serve
  serve_all [] h = ([], h)
  serve_all (r ∷ rs) h =
      let (answer, next) = serve r h in
      let (answers, last) = serve_all rs next in (answer ∷ answers, last)
