-- ===== src/Providers/Base.antt =====
-- app/providers/enrichment_class.py and app/providers/base.py
use infra_steward_gateway.Core.{String, Option}
use infra_steward_gateway.Exec.{Result}
use infra_steward_gateway.Value.{Value}
use infra_steward_gateway.Workflow.RequestMetadata.{RequestMetadata}

pub data EnrichmentClass : Type 0 where
  narrative risk_classification structured_enrichment redaction translation : EnrichmentClass

pub data FallbackStrategy : Type 0 where
  drop_and_signal fail_closed : FallbackStrategy

-- `str(c)` of a `StrEnum` member is its value.
unfoldable pub show_class : EnrichmentClass → String
show_class narrative = "narrative"
show_class risk_classification = "risk_classification"
show_class structured_enrichment = "structured_enrichment"
show_class redaction = "redaction"
show_class translation = "translation"

unfoldable pub show_strategy : FallbackStrategy → String
show_strategy drop_and_signal = "drop_and_signal"
show_strategy fail_closed = "fail_closed"

-- Any object with the method may be registered, so a declaration may be missing; the engine reads
-- both with `getattr` and a default. The enrichment returns a value or raises.
pub record Provider : Type 0 where
  pub class_name : String
  pub enrichment_class : Option EnrichmentClass
  pub fallback_strategy : Option FallbackStrategy
  pub generate_enrichment : RequestMetadata → Value → Result Value
