-- ===== src/Metrics.antt =====
-- app/observability/metrics.py: the metrics that are declared, and whether a call of a metric fits its
-- declaration. The Prometheus client raises on labels that a metric does not have.
use infra_steward_gateway.Core.{String, Bool, true, false, not, ◌&&◌, ◌||◌, ◌==◌, List, [], ◌∷◌}
use infra_steward_gateway.Dict.{Dict, keys}
use infra_steward_gateway.World.{Call, counted, observed}

pub data MetricKind : Type 0 where
  counter histogram : MetricKind

pub record Metric : Type 0 where
  pub kind : MetricKind
  pub name : String
  pub documentation : String
  pub labelnames : List String

abbrev pub gateway_requests_total : Metric
gateway_requests_total = record {
  kind = counter;
  name = "gateway_requests_total";
  documentation = "Total number of gateway requests";
  labelnames = "method" ∷ "endpoint" ∷ "status" ∷ [];
}

abbrev pub gateway_request_latency_seconds : Metric
gateway_request_latency_seconds = record {
  kind = histogram;
  name = "gateway_request_latency_seconds";
  documentation = "Gateway request latency in seconds";
  labelnames = "method" ∷ "endpoint" ∷ [];
}

abbrev pub gateway_policy_outcomes_total : Metric
gateway_policy_outcomes_total = record {
  kind = counter;
  name = "gateway_policy_outcomes_total";
  documentation = "Policy decision outcomes by tenant and scenario";
  labelnames = "tenant_id" ∷ "scenario" ∷ "policy_outcome" ∷ [];
}

abbrev pub gateway_provider_outcomes_total : Metric
gateway_provider_outcomes_total = record {
  kind = counter;
  name = "gateway_provider_outcomes_total";
  documentation = "AI provider outcomes by tenant and scenario";
  labelnames = "tenant_id" ∷ "scenario" ∷ "provider_status" ∷ [];
}

abbrev pub gateway_supervisory_submissions_total : Metric
gateway_supervisory_submissions_total = record {
  kind = counter;
  name = "gateway_supervisory_submissions_total";
  documentation = "Reports forwarded to the supervisory / tax reporting service";
  labelnames = "tenant_id" ∷ "scenario" ∷ "submission_status" ∷ [];
}

-- The counters of governance, under which requests are accounted for by tenant.
abbrev pub governance_counters : List Metric
governance_counters =
    gateway_policy_outcomes_total ∷ gateway_provider_outcomes_total
    ∷ gateway_supervisory_submissions_total ∷ []

unfoldable pub same_texts : List String → List String → Bool
same_texts [] [] = true
same_texts (x ∷ xs) (y ∷ ys) = x == y && same_texts xs ys
same_texts _ _ = false

-- An increment of one of some counters, with the labels that it declares, in their order.
unfoldable pub fits : List Metric → String → Dict String → Bool
unfolding same_texts keys
fits [] name labels = false
fits (m ∷ ms) name labels =
    (m.name == name && same_texts (keys labels) m.labelnames) || fits ms name labels

-- A metric is called, and it is not one of the governance counters with the labels that it declares.
unfoldable pub is_misplaced : Call → Bool
unfolding fits
is_misplaced (counted name labels) = not (fits governance_counters name labels)
is_misplaced (observed name labels value) = true
is_misplaced _ = false

abbrev pub declared_counters : List Metric
declared_counters = gateway_requests_total ∷ governance_counters

abbrev pub declared_histograms : List Metric
declared_histograms = gateway_request_latency_seconds ∷ []

-- A metric is called that is not declared as such, or with other labels than it declares.
unfoldable pub is_undeclared : Call → Bool
unfolding fits
is_undeclared (counted name labels) = not (fits declared_counters name labels)
is_undeclared (observed name labels value) = not (fits declared_histograms name labels)
is_undeclared _ = false
