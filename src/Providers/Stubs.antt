-- ===== src/Providers/Stubs.antt =====
-- app/providers/stub.py, stub_b.py and stub_risk_scorer.py
pub mod Laws
use Prim.Native.String.{count}
use infra_steward_gateway.Core.{
  ℕ, ◌%◌, String, Bool, true, false, Option, none, some, List, [], ◌∷◌, ◌==◌, leb, ltb,
  if◌then◌else◌,
}
use infra_steward_gateway.PyStr.{truthy, concat}
use infra_steward_gateway.Dict.{Dict, lookup}
use infra_steward_gateway.Value.{
  Value, obj, text, int, pos, optional, object, entries, is_true, null, bool, float, arr, other,
}
use infra_steward_gateway.Exec.{Result, ok, err, raise_result, runtime_error, attribute_error}
use infra_steward_gateway.Runtime.{Host}
use infra_steward_gateway.Workflow.RequestMetadata.{RequestMetadata}
use infra_steward_gateway.Providers.Base.{
  Provider, narrative, risk_classification, drop_and_signal, fail_closed,
}

abbrev found_true : Option Value → Bool
found_true none = false
found_true (some v) = is_true v

-- `type(v).__name__`
unfoldable pub type_name : Value → String
type_name null = "NoneType"
type_name (bool _) = "bool"
type_name (int _) = "int"
type_name (float _) = "float"
type_name (text _) = "str"
type_name (arr _) = "list"
type_name (obj _) = "dict"
type_name (other class) = class

-- `payload.get(key)` taken as a truth value; only a dict has the method
unfoldable pub flag : String → Value → Result Bool
unfolding lookup entries is_true type_name concat
flag key (obj fields) = ok (found_true (lookup key (entries fields)))
flag key v =
    raise_result attribute_error
      (concat ("'" ∷ type_name v ∷ "' object has no attribute 'get'" ∷ []))

abbrev pub is_scenario : String → Option String → Bool
is_scenario name none = false
is_scenario name (some s) = s == name

-- `metadata.scenario == "provider_failure" or payload.get("provider_failure")`
unfoldable pub fails : RequestMetadata → Value → Result Bool
unfolding flag
fails metadata payload =
    if is_scenario "provider_failure" metadata.scenario
    then ok true
    else flag "provider_failure" payload

-- The guard that each stub begins with: raise if the request asks for a failure.
abbrev pub unless_failing : Result Bool → String → Value → Result Value
unless_failing (err e) message v = err e
unless_failing (ok true) message v = raise_result runtime_error message
unless_failing (ok false) message v = ok v

-- `f"{prefix}{tenant_id}"`, and the scenario after it if there is one
unfoldable pub summary : String → RequestMetadata → String
unfolding concat
summary prefix metadata =
    let base : String = concat (prefix ∷ metadata.tenant_id ∷ []) in
    elim metadata.scenario [
      | none ↦ base
      | some s ↦ if truthy s then concat (base ∷ ", scenario " ∷ s ∷ []) else base
    ]

module _ (host : Host) where
  -- `len(str(payload))`
  abbrev pub payload_size : Value → ℕ
  payload_size payload = count (host.str_value payload)

  abbrev result_of : String → Value → Value
  result_of summary payload =
      object (("summary", text summary) ∷ ("payload_size", int (pos (payload_size payload))) ∷ [])

  unfoldable pub stub_enrichment : RequestMetadata → Value → Result Value
  unfolding fails summary
  stub_enrichment metadata payload =
      unless_failing (fails metadata payload) "Simulated provider failure" (
        object (
          ("enrichment", text "stubbed")
          ∷ ("tenant_id", text metadata.tenant_id)
          ∷ ("scenario", optional metadata.scenario)
          ∷ ("report_id", optional metadata.report_id)
          ∷ ("result", result_of (summary "Stub enrichment for tenant " metadata) payload)
          ∷ []))

  unfoldable pub stub_b_enrichment : RequestMetadata → Value → Result Value
  unfolding fails summary
  stub_b_enrichment metadata payload =
      unless_failing (fails metadata payload) "Simulated provider failure (provider B)" (
        object (
          ("enrichment", text "stubbed_b")
          ∷ ("tenant_id", text metadata.tenant_id)
          ∷ ("scenario", optional metadata.scenario)
          ∷ ("report_id", optional metadata.report_id)
          ∷ ("provider_variant", text "B")
          ∷ ("result", result_of (summary "Stub-B enrichment for tenant " metadata) payload)
          ∷ []))

  abbrev pub min : ℕ → ℕ → ℕ
  min a b = if leb a b then a else b

  abbrev pub risk_score : Value → ℕ
  risk_score payload = min (payload_size payload % 100) 99

  abbrev pub risk_band : ℕ → String
  risk_band score = if ltb score 33 then "low" else if ltb score 67 then "medium" else "high"

  unfoldable pub risk_enrichment : RequestMetadata → Value → Result Value
  unfolding fails
  risk_enrichment metadata payload =
      let score = risk_score payload in
      unless_failing (fails metadata payload) "Simulated risk scorer failure" (
        object (
          ("enrichment", text "risk_classification")
          ∷ ("tenant_id", text metadata.tenant_id)
          ∷ ("scenario", optional metadata.scenario)
          ∷ ("report_id", optional metadata.report_id)
          ∷ ("risk_score", int (pos score))
          ∷ ("risk_band", text (risk_band score))
          ∷ []))

  unfoldable pub stub_ai_provider : Provider
  unfolding stub_enrichment
  stub_ai_provider = record {
    class_name = "StubAIProvider";
    enrichment_class = some narrative;
    fallback_strategy = some drop_and_signal;
    generate_enrichment = stub_enrichment;
  }

  unfoldable pub stub_ai_provider_b : Provider
  unfolding stub_b_enrichment
  stub_ai_provider_b = record {
    class_name = "StubAIProviderB";
    enrichment_class = some narrative;
    fallback_strategy = some drop_and_signal;
    generate_enrichment = stub_b_enrichment;
  }

  unfoldable pub stub_risk_scorer : Provider
  unfolding risk_enrichment
  stub_risk_scorer = record {
    class_name = "StubRiskScorer";
    enrichment_class = some risk_classification;
    fallback_strategy = some fail_closed;
    generate_enrichment = risk_enrichment;
  }
