-- ===== src/Lib.antt =====
-- The InfraSteward gateway: a service that takes reports from the banks that are its tenants, decides
-- by policy whether a report may be enriched by an AI provider, has it enriched and submitted, and
-- keeps an evidence record of each request.
--
-- One request (`WorkflowEngine.process_report`) goes through the parts in this order: the tenant is
-- resolved (app/tenants), an evidence record is started (app/evidence), the policy is evaluated
-- (app/policy), a provider is looked up and called (app/providers), the enrichment is submitted
-- (app/supervisory), and the record is closed and sent to the ingester. On the way events are
-- published on a bus (app/workflow/events.py) and counters incremented (app/observability). Where the
-- provider or the submission raises, the provider's fallback strategy decides how the request ends.
-- app/main.py wires the parts and has the HTTP endpoints. The ingester to which the records are sent is
-- a service of its own (go/evidence_ingester), which stores them and answers queries.
--
-- Files and what they model:
--   Core, Exec, Exec/Ends: shared names; calls that change state and may raise, and rules for them.
--   PyStr, Dict, Value, Runtime: what the code uses of Python's str, dict and JSON values; the
--     parameters for the clock, uuid4, hashing, json.dumps and repr.
--   World: the shared state: the store of records behind references, the clock, the trace of calls.
--   Tenants: app/tenants/models.py and app/tenants/context_manager.py.
--   Config, Metrics: app/config.py and app/observability/metrics.py.
--   Policy, Policy/Rules: app/policy/service.py and models.py; a table of rules apart from the code.
--   Providers/Base, Providers/Registry, Providers/Stubs: app/providers (base.py and
--     enrichment_class.py; registry.py; stub.py, stub_b.py and stub_risk_scorer.py).
--   Evidence/Models, Evidence/Service, Evidence/Producer: app/evidence (models.py; service.py, with
--     `start_record`, `add_event`, `finalize`, `get_record`, `list_records`; producer.py).
--     Evidence/Service/Journal is an abstract view of the service, and commands of requests that
--     overlap.
--   Supervisory: app/supervisory/service.py.
--   Workflow/RequestMetadata, Workflow/Events: app/workflow/request_metadata.py and events.py.
--     Workflow/Events/Overlap is `publish` with subscribers that overlap.
--   Workflow/Setup, Workflow/Messages, Workflow/Endings, Workflow/Engine: app/workflow/engine.py: the
--     constructor; the dicts that `process_report` builds, up to the decision and after it; its steps,
--     as `evaluate_request`, `deny`, `route`, `attempt`, `on_failure` and `fall_back`, composed by
--     `process_report`.
--   Coroutine, Coroutine/Pool: calls that may be suspended between their steps; tasks of an event loop,
--     with rules in Coroutine/Runs, Coroutine/Counts, Coroutine/Totals and Coroutine/Completion.
--     Workflow/Concurrent and Workflow/Events/Steps have `process_report` and `publish` as such calls,
--     for requests that are processed at the same time.
--   Workflow/Scenarios: app/workflow/scenarios.py.
--   App, App/Status, App/Middleware: app/main.py: the startup and the endpoints for evidence, reports
--     and scenarios; the endpoints for health, info and metrics; the metrics middleware.
--   EvidenceIngester/Domain, EvidenceIngester/Timestamps, EvidenceIngester/Storage,
--     EvidenceIngester/Paths, EvidenceIngester/Handlers, EvidenceIngester/Status: go/evidence_ingester:
--     domain/evidence.go, with the JSON form of timestamps apart; storage/memory.go; what is used of
--     Go's strings; handlers/evidence.go; the other handlers of main.go and its routes.
--   The other files, and those under Workflow/Engine, state and prove what is listed below; Examples
--     applies it to concrete services and requests.
--
-- Correspondence: in Workflow/Engine an awaited call runs to its end before the next step. In
-- Workflow/Concurrent other requests may take steps before and after each call that a request
-- makes, which is more than Python allows; Journal and Overlap interleave the evidence service's
-- commands and the subscribers of one publication. A state that code mutates is passed explicitly.
-- An exception is a value of `Result`; what was written before it stays. A mutable evidence record
-- is an object behind a reference, shared by the engine and the store. The trace lists, newest
-- first, the calls of metrics, publications, deliveries, provider calls, submissions and sends. No
-- definition uses fuel: every recursion is on a list, a text, a value or a coroutine.
--
-- Not modelled: the HTTP client, the web framework, the Prometheus client, pydantic, Python's json,
-- and Go's JSON decoder, time formats and ServeMux, which are parameters where the code relies on
-- them, so also what the environment sets; logging other than the calls in the trace; subscribers
-- of the event bus whose outcome depends on more than the payload, or that change it. Texts are
-- sequences of Unicode scalar values, without lone surrogates; a float is its bit pattern.
pub mod Core
pub mod PyStr
pub mod Dict
pub mod Value
pub mod Exec
pub mod Coroutine
pub mod Runtime
pub mod Config
pub mod Metrics
pub mod Workflow
pub mod App
pub mod EvidenceIngester
pub mod Examples
pub mod Tenants
pub mod Policy
pub mod Providers
pub mod Evidence
pub mod World
pub mod Supervisory
