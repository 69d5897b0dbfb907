-- ===== src/EvidenceIngester/Handlers.antt =====
-- go/evidence_ingester/handlers/evidence.go, and the routes of main.go to these handlers. A JSON answer
-- is what is handed to the encoder; the decoder is Go's and a parameter.
use infra_steward_gateway.Core.{
  ℕ, ◌+◌, ◌%◌, ◌^◌, String, ◌&&◌, ◌||◌, not, ◌==◌, Option, none, some, List, [], ◌∷◌, if◌then◌else◌,
}
use infra_steward_gateway.PyStr.{truthy}
use infra_steward_gateway.Dict.{Dict, values}
use infra_steward_gateway.EvidenceIngester.Domain.{EvidenceRecord}
use infra_steward_gateway.EvidenceIngester.Storage.{MemoryStorage, store, get, query}
use infra_steward_gateway.EvidenceIngester.Paths.{trim_prefix, has_suffix, contains_slash}

-- What the handlers read of a request; a query parameter that is not given is empty.
pub record EvidenceRequest : Type 0 where
  pub method : String
  pub path : String
  pub tenant_id : String
  pub scenario : String
  pub body : String

pub data Content : Type 0 where
  error : String → Content
  strings : Dict String → Content
  one : EvidenceRecord → Content
  -- a slice; an empty one comes from `Query` as a nil slice, which the encoder writes as null
  many : List EvidenceRecord → Content

pub record EvidenceResponse : Type 0 where
  pub code : ℕ
  pub content : Content

-- The storage, and the counter, whose 64 bits wrap around.
pub record EvidenceHandler : Type 0 where
  pub storage : MemoryStorage
  pub ingester_events_total : ℕ

abbrev pub http_error : String → ℕ → EvidenceResponse
http_error message code = record { code = code; content = error message }

-- `nil` unless the parameter is given
abbrev pub pointer : String → Option String
pointer s = if truthy s then some s else none

abbrev pub accept : EvidenceRecord → EvidenceHandler → EvidenceResponse × EvidenceHandler
accept r h = (
  record {
    code = 202;
    content = strings (("status", "accepted") ∷ ("message", "evidence record stored") ∷ []);
  },
  record {
    storage = store r h.storage;
    ingester_events_total = (h.ingester_events_total + 1) % 2 ^ 64;
  },
)

abbrev pub handle_record :
    Option EvidenceRecord → EvidenceHandler → EvidenceResponse × EvidenceHandler
handle_record none h = (http_error "invalid JSON" 400, h)
handle_record (some r) h =
    if r.request_id == "" then (http_error "request_id is required" 400, h) else accept r h

abbrev pub found_record : Option EvidenceRecord → EvidenceResponse
found_record none = http_error "record not found" 404
found_record (some r) = record { code = 200; content = one r }

-- `decode` is Go's JSON decoder, and `iterate` the order in which `range` visits the values of a map.
module _ (decode : String → Option EvidenceRecord)
    (iterate : List EvidenceRecord → List EvidenceRecord) where
  unfoldable pub handle_events :
      EvidenceRequest → EvidenceHandler → EvidenceResponse × EvidenceHandler
  handle_events r h =
      if not (r.method == "POST")
      then (http_error "method not allowed" 405, h)
      else handle_record (decode r.body) h

  unfoldable pub handle_get_by_id : EvidenceRequest → EvidenceHandler → EvidenceResponse
  unfolding trim_prefix contains_slash get
  handle_get_by_id r h =
      if not (r.method == "GET")
      then http_error "method not allowed" 405
      else let path = trim_prefix r.path "/evidence/" in
        if path == "" || contains_slash path
        then http_error "invalid request ID" 400
        else found_record (get path h.storage)

  unfoldable pub handle_query : EvidenceRequest → EvidenceHandler → EvidenceResponse
  unfolding query values
  handle_query r h =
      if not (r.method == "GET") then http_error "method not allowed" 405 else record {
        code = 200;
        content =
            many (query (pointer r.tenant_id) (pointer r.scenario) (iterate (values h.storage)));
      }

  -- The function that is registered for "/evidence/".
  abbrev pub serve_prefix : EvidenceRequest → EvidenceHandler → EvidenceResponse × EvidenceHandler
  serve_prefix r h =
      if r.method == "GET" && has_suffix r.path "/evidence/"
      then (handle_query r h, h)
      else (handle_get_by_id r h, h)

  -- What answers to the paths that begin with "/evidence/": "/evidence/events" alone has a handler of
  -- its own.
  unfoldable pub serve_evidence :
      EvidenceRequest → EvidenceHandler → EvidenceResponse × EvidenceHandler
  unfolding has_suffix handle_events handle_query handle_get_by_id
  serve_evidence r h = if r.path == "/evidence/events" then handle_events r h else serve_prefix r h
