-- ===== src/Workflow/Concurrent/Outcomes.antt =====
-- The governance counters when overlapping requests are all done.
use infra_steward_gateway.Core.{
  ℕ, ◌+◌, ◌≤◌, ◌≡◌, refl, ap, ◌∙◌, Bool, List, [], ◌∷◌, map, All, arith,
}
use infra_steward_gateway.Exec.{ok, err}
use infra_steward_gateway.Coroutine.{Coroutine, finished, step}
use infra_steward_gateway.Coroutine.Pool.{Turn, taken, passed, Turns, here, next}
use infra_steward_gateway.Coroutine.Completion.{IsFinished}
use infra_steward_gateway.Coroutine.Totals.{Total, no_task, one_task, Total-Turns}
use infra_steward_gateway.Runtime.{Host}
use infra_steward_gateway.World.{World, Call, outline}
use infra_steward_gateway.Workflow.RequestMetadata.{Request}
use infra_steward_gateway.Workflow.Setup.{WorkflowEngine}
use infra_steward_gateway.Workflow.Messages.{Response}
use infra_steward_gateway.Workflow.Engine.Account.{tally, policy_outcome, provider_outcome}
use infra_steward_gateway.Workflow.Concurrent.{process_report_steps}
use infra_steward_gateway.Workflow.Concurrent.Distinct.{answers}
use infra_steward_gateway.Workflow.Concurrent.Counted.{IsOutcome, measure}
use infra_steward_gateway.Workflow.Concurrent.Tallied.{Once, process_report-Counts}

unfoldable pub length : {A : Type 0} → List A → ℕ
length [] = 0
length (x ∷ xs) = length xs + 1

length-map : {A B : Type 0} (f : A → B) (xs : List A) → length (map f xs) ≡ length xs
unfolding length
length-map f [] = refl
length-map f (x ∷ xs) = ap (λ n. n + 1) (length-map f xs)

-- No task comes or goes.
module _ {S A : Type 0} where
  length-Turn : {cs ds : List (Coroutine S A)} {s t : S} → Turn cs s ds t → length ds ≡ length cs
  unfolding length
  length-Turn (taken f k cs s) = refl
  length-Turn (passed c turn) = ap (λ n. n + 1) (length-Turn turn)

  length-Turns : {cs ds : List (Coroutine S A)} {s t : S} → Turns cs s ds t → length ds ≡ length cs
  length-Turns here = refl
  length-Turns (next turns turn) = length-Turn turn ∙ length-Turns turns

policy_outcome-IsOutcome : IsOutcome policy_outcome 1 0
unfolding tally
policy_outcome-IsOutcome = record {
  of_policy = λ l cs. omega arith;
  of_provider = λ l cs. omega arith;
  of_submission = λ l. refl;
  of_published = λ n p. refl;
  of_enriched = λ c m v. refl;
  of_submitted = λ n m. refl;
  of_sent = λ r. refl;
}

provider_outcome-IsOutcome : IsOutcome provider_outcome 0 1
unfolding tally
provider_outcome-IsOutcome = record {
  of_policy = λ l cs. omega arith;
  of_provider = λ l cs. omega arith;
  of_submission = λ l. refl;
  of_published = λ n p. refl;
  of_enriched = λ c m v. refl;
  of_submitted = λ n m. refl;
  of_sent = λ r. refl;
}

module _ (f : Call → Bool) where
  Total-finished :
      {n : ℕ} {cs : List (Coroutine World Response)}
      → Total (measure f) (Once 1) n cs
      → All IsFinished cs
      → (length (answers cs) ≤ n) × (n ≤ length cs)
  unfolding answers length
  Total-finished no_task done = (omega arith, omega arith)
  Total-finished (one_task i (finished (ok a)) counts rest) (_, done) =
      let (low, high) = Total-finished rest done in
      (omega (arith, low, counts.told), omega (arith, high, counts.told))
  Total-finished (one_task i (finished (err e)) counts rest) (_, done) =
      let (low, high) = Total-finished rest done in
      (omega (arith, low, counts.told), omega (arith, high, counts.told))
  Total-finished (one_task i (step g k) counts rest) (no_way, done) = absurd no_way

  module _ (host : Host) (engine : WorkflowEngine) {policy provider : ℕ}
      (is : IsOutcome f policy provider) (single : policy + provider ≡ 1) where
    Total-start :
        (requests : List Request)
        → Total (measure f) (Once 1) 0 (map (process_report_steps host engine) requests)
    Total-start [] = no_task
    Total-start (request ∷ requests) =
        one_task 0 _ (rw (← single) (process_report-Counts is host engine request))
          (Total-start requests)

    counted_once :
        (requests : List Request) (w : World) (ds : List (Coroutine World Response)) (v : World)
        → Turns (map (process_report_steps host engine) requests) w ds v
        → All IsFinished ds
        → let before = tally f (outline w.trace) in
          let after = tally f (outline v.trace) in
          (before + length (answers ds) ≤ after) × (after ≤ before + length requests)
    unfolding measure
    counted_once requests w ds v turns done =
        let (j, e, total) = Total-Turns (measure f) (Once 1) turns (Total-start requests) in
        let (low, high) = Total-finished total done in
        let same = length-Turns turns ∙ length-map (process_report_steps host engine) requests in
        (omega (arith, e, low), omega (arith, e, high, same))

module _ (host : Host) (engine : WorkflowEngine) where
  -- When overlapping requests are all done, however their steps alternated: the policy outcomes and the
  -- provider outcomes have each been counted at least once for every response and at most once for
  -- every request, so exactly once for each where all have returned a response.
  pub process_reports_counted :
      (requests : List Request) (w : World) (ds : List (Coroutine World Response)) (v : World)
      → Turns (map (process_report_steps host engine) requests) w ds v
      → All IsFinished ds
      → let policies = λ (u : World). tally policy_outcome (outline u.trace) in
        let providers = λ (u : World). tally provider_outcome (outline u.trace) in
        (policies w + length (answers ds) ≤ policies v)
        × (policies v ≤ policies w + length requests)
        × (providers w + length (answers ds) ≤ providers v)
        × (providers v ≤ providers w + length requests)
  process_reports_counted requests w ds v turns done =
      let (a, b) =
        counted_once policy_outcome host engine policy_outcome-IsOutcome (omega arith) requests w ds
          v turns done in
      let (c, d) =
        counted_once provider_outcome host engine provider_outcome-IsOutcome (omega arith) requests
          w ds v turns done in
      (a, b, c, d)
