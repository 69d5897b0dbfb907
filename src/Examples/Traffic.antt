-- ===== src/Examples/Traffic.antt =====
-- The theorems on the ingester's own endpoints and timestamps, at concrete values.
use infra_steward_gateway.Core.{
  ℕ, ◌+◌, ◌%◌, ◌^◌, String, ◌≡◌, refl, ◌==◌, ◌&&◌, Option, none, some, is_some, List, [], ◌∷◌,
  if◌then◌else◌, arith, eq_iff,
}
use infra_steward_gateway.PyStr.{member}
use infra_steward_gateway.EvidenceIngester.Paths.{after}
use infra_steward_gateway.EvidenceIngester.Handlers.{EvidenceRequest}
use infra_steward_gateway.EvidenceIngester.Laws.{get_request, post_request}
use infra_steward_gateway.EvidenceIngester.Status.{GoRuntime, new_evidence_handler, serve_all}
use infra_steward_gateway.EvidenceIngester.Counted.{
  IsSound, accepted, serve_all-IsSound, new_evidence_handler-IsSound,
}
use infra_steward_gateway.EvidenceIngester.Timestamps.{rfc3339_nano, unmarshal_json, marshal_json}
use infra_steward_gateway.EvidenceIngester.Timestamps.Laws.{
  is_plain, IsWritable, unmarshal_json-marshal_json,
}
use infra_steward_gateway.Examples.Ingested.{sample_decode, sample_iterate}

abbrev sample_pattern : List String → String → Option String
sample_pattern patterns path =
    if member path patterns
    then some path
    else if is_some (after "/evidence/" path)
    then some "/evidence/"
    else some "/"

abbrev sample_go : GoRuntime
sample_go = record {
  decode = sample_decode;
  iterate = sample_iterate;
  pattern = sample_pattern;
  uptime = 0;
  now = "2026-01-01T00:00:00Z";
  decimal = λ n. "1";
}

abbrev metrics_request : EvidenceRequest
metrics_request = record (get_request "") { path = "/metrics" }

-- A record, a body that does not decode, the record again, and two questions.
abbrev traffic : List EvidenceRequest
traffic =
    post_request "{}"
    ∷ post_request "["
    ∷ post_request "{}"
    ∷ get_request "request-0"
    ∷ metrics_request
    ∷ []

serve_all-IsSound_example :
    IsSound (serve_all sample_go traffic new_evidence_handler).1
    × ((serve_all sample_go traffic new_evidence_handler).1.ingester_events_total
        ≡ (new_evidence_handler.ingester_events_total
            + accepted (serve_all sample_go traffic new_evidence_handler).0)
          % 2 ^ 64)
serve_all-IsSound_example =
    serve_all-IsSound sample_go traffic new_evidence_handler new_evidence_handler-IsSound

abbrev one_stamp : String
one_stamp = "2026-01-01T00:00:00Z"

abbrev sample_parse : String → String → Option ℕ
sample_parse layout s = if layout == rfc3339_nano && s == one_stamp then some 7 else none

abbrev sample_format : String → ℕ → String
sample_format layout t = one_stamp

one_stamp-IsWritable : IsWritable sample_parse sample_format 7
unfolding is_plain
one_stamp-IsWritable = record {
  again = refl;
  plain = refl;
  filled = λ e. ground (arith, eq_iff one_stamp "", e);
  stamp = λ e. ground (arith, eq_iff one_stamp "null", e);
}

unmarshal_json-marshal_json_example :
    unmarshal_json sample_parse (marshal_json sample_format 7) 0 ≡ some 7
unmarshal_json-marshal_json_example =
    unmarshal_json-marshal_json sample_parse sample_format 7 0 one_stamp-IsWritable
