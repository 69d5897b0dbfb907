-- ===== src/Examples/Schedules.antt =====
-- The theorems on requests that alternate, at three requests and a schedule of their steps.
use infra_steward_gateway.Core.{
  ◌<◌, ◌≤◌, ◌+◌, ℕ, zero, suc, String, ◌≡◌, ◌≢◌, refl, ap, ◌∙◌, sym, none, some, List, [], ◌∷◌, map,
  All, arith,
}
use infra_steward_gateway.Dict.{lookup, insert}
use infra_steward_gateway.Coroutine.{Coroutine}
use infra_steward_gateway.Coroutine.Pool.{Turns, take_turns, take_turns-Turns}
use infra_steward_gateway.Runtime.{Host}
use infra_steward_gateway.World.{World, initial, outline}
use infra_steward_gateway.Evidence.Models.{EvidenceRecord}
use infra_steward_gateway.Evidence.Service.{start_record, save, get_record}
use infra_steward_gateway.Evidence.Service.Invariant.{
  IsConsistent, Reach-keeps, here, next, started, initial-IsConsistent,
}
use infra_steward_gateway.Examples.Application.{sample_start}
use infra_steward_gateway.Workflow.RequestMetadata.{Request}
use infra_steward_gateway.Workflow.Setup.{WorkflowEngine}
use infra_steward_gateway.Workflow.Messages.{Response}
use infra_steward_gateway.Workflow.Scenarios.{alpha_compliant_request, alpha_failure_request}
use infra_steward_gateway.Workflow.Concurrent.{process_report_steps}
use infra_steward_gateway.Workflow.Concurrent.Answers.{
  AllOnFile, process_reports-OnFile, process_reports_spare,
}
use infra_steward_gateway.Workflow.Concurrent.Distinct.{answers, Pairwise, process_reports_distinct}
use infra_steward_gateway.Coroutine.Completion.{IsFinished, finish_tasks}
use infra_steward_gateway.Workflow.Engine.Account.{tally, policy_outcome, provider_outcome}
use infra_steward_gateway.Workflow.Concurrent.Outcomes.{length, process_reports_counted}
use infra_steward_gateway.App.Laws.{gateway}
use infra_steward_gateway.Examples.{sample_host, sample_ingester}
use infra_steward_gateway.Examples.Requests.{beta_request}

-- An identifier for each draw.
unfoldable unary : ℕ → String
unary zero = "r"
unary (suc n) = String.◌∷◌ "r" (unary n)

count : String → ℕ
count String.[] = 0
count (String.◌∷◌ c s) = suc (count s)

count-unary : (n : ℕ) → count (unary n) ≡ suc n
unfolding count unary
count-unary zero = refl
count-unary (suc n) = ap suc (count-unary n)

unary-injective : (m n : ℕ) → unary m ≡ unary n → m ≡ n
unary-injective m n e = omega (arith, sym (count-unary m) ∙ ap count e ∙ count-unary n)

abbrev unary_host : Host
unary_host = record sample_host { uuid4 = unary }

abbrev unary_gateway : WorkflowEngine
unary_gateway = gateway unary_host sample_ingester

abbrev three_requests : List Request
three_requests = alpha_compliant_request ∷ beta_request ∷ alpha_failure_request ∷ []

-- The requests take their steps in turn, and the second is always one step ahead.
abbrev rounds : ℕ → List ℕ
rounds zero = 1 ∷ []
rounds (suc n) = 1 ∷ 0 ∷ 2 ∷ rounds n

abbrev three_tasks : List (Coroutine World Response)
three_tasks = map (process_report_steps unary_host unary_gateway) three_requests

abbrev later : ℕ → List (Coroutine World Response) × World
later n = take_turns (rounds n) three_tasks initial

abbrev scheduled : (n : ℕ) → Turns three_tasks initial (later n).0 (later n).1
scheduled n = take_turns-Turns (rounds n) three_tasks initial

process_reports-OnFile_example : AllOnFile unary_host three_requests (later 30).0 (later 30).1
process_reports-OnFile_example =
    process_reports-OnFile unary_host unary-injective unary_gateway three_requests initial
      (later 30).0 (later 30).1 (scheduled 30)

process_reports_distinct_example :
    Pairwise (λ a b. lookup "request_id" a ≢ lookup "request_id" b) (answers (later 30).0)
process_reports_distinct_example =
    process_reports_distinct unary_host unary-injective unary_gateway three_requests initial
      (later 30).0 (later 30).1 (scheduled 30)

-- A record is on file, under the first identifier.
abbrev earlier : World
earlier = (start_record unary_host (record sample_start { request_id = none }) initial).1

abbrev earlier_record : EvidenceRecord
earlier_record = earlier.evidence.objects 0

earlier-IsConsistent : IsConsistent earlier.evidence
earlier-IsConsistent =
    (Reach-keeps unary_host initial-IsConsistent (next here (started _ initial))).0

earlier_found : get_record (unary 0) earlier ≡ some earlier_record
unfolding get_record start_record save insert lookup unary
earlier_found = refl

drawn_once : 0 < earlier.draws
unfolding start_record save
drawn_once = omega arith

process_reports_spare_example :
    get_record (unary 0) (take_turns (rounds 30) three_tasks earlier).1 ≡ some earlier_record
process_reports_spare_example =
    process_reports_spare unary_host unary-injective unary_gateway three_requests earlier
      (take_turns (rounds 30) three_tasks earlier).0 (take_turns (rounds 30) three_tasks earlier).1
      (take_turns-Turns (rounds 30) three_tasks earlier) earlier-IsConsistent 0 earlier_record
      drawn_once earlier_found

-- Some steps that bring the requests to their ends.
abbrev ended :
    (ds : List (Coroutine World Response)) × (v : World) × Turns three_tasks initial ds v
    × All IsFinished ds
ended = finish_tasks three_tasks initial

process_reports_counted_example :
    let policies = λ (u : World). tally policy_outcome (outline u.trace) in
    let providers = λ (u : World). tally provider_outcome (outline u.trace) in
    (policies initial + length (answers ended.0) ≤ policies ended.1)
    × (policies ended.1 ≤ policies initial + length three_requests)
    × (providers initial + length (answers ended.0) ≤ providers ended.1)
    × (providers ended.1 ≤ providers initial + length three_requests)
process_reports_counted_example =
    process_reports_counted unary_host unary_gateway three_requests initial ended.0 ended.1 ended.2
      ended.3
