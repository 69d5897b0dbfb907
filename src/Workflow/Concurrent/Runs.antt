-- ===== src/Workflow/Concurrent/Runs.antt =====
-- The coroutine of a request, when nothing interrupts it, does what `process_report` does.
use infra_steward_gateway.Core.{ℕ, String, ◌≡◌, Option}
use infra_steward_gateway.Value.{Value}
use infra_steward_gateway.Exec.{Exc}
use infra_steward_gateway.Coroutine.{run}
use infra_steward_gateway.Coroutine.Runs.{
  Runs, Runs-at_once, Runs-returns, Runs-bind, Runs-try_except, Runs-if,
}
use infra_steward_gateway.Runtime.{Host}
use infra_steward_gateway.World.{World}
use infra_steward_gateway.Providers.Base.{Provider, FallbackStrategy, drop_and_signal, fail_closed}
use infra_steward_gateway.Evidence.Service.{Final, finalize}
use infra_steward_gateway.Workflow.RequestMetadata.{RequestMetadata, Request}
use infra_steward_gateway.Workflow.Events.Steps.{publish-Runs}
use infra_steward_gateway.Workflow.Setup.{WorkflowEngine}
use infra_steward_gateway.Workflow.Messages.{Run}
use infra_steward_gateway.Workflow.Engine.{
  deny, call_provider, attempt, fall_back, on_failure, route, evaluate_request, process_report,
}
use infra_steward_gateway.Workflow.Concurrent.{
  finalize_steps, deny_steps, call_provider_steps, attempt_steps, fall_back_steps, on_failure_steps,
  route_steps, evaluate_request_steps, process_report_steps,
}

module _ (host : Host) (engine : WorkflowEngine) where
  finalize-Runs :
      (ref : ℕ) (a : Final)
      → Runs (finalize_steps host engine ref a) (finalize host engine.producer ref a)
  unfolding finalize_steps finalize
  finalize-Runs ref a =
      Runs-bind (Runs-at_once _)
        λ _. Runs-bind (Runs-at_once _) λ _. Runs-bind (Runs-at_once _) λ _. Runs-returns ref

  deny-Runs : (r : Run) → Runs (deny_steps host engine r) (deny host engine r)
  unfolding deny_steps deny
  deny-Runs r =
      Runs-bind (Runs-at_once _)
        λ _. Runs-bind (finalize-Runs _ _) λ _. Runs-bind (publish-Runs _ _ _) λ _. Runs-returns _

  call_provider-Runs :
      (provider : Provider) (metadata : RequestMetadata) (payload : Value)
      → Runs
          (call_provider_steps host engine provider metadata payload)
          (call_provider host engine provider metadata payload)
  unfolding call_provider_steps call_provider
  call_provider-Runs provider metadata payload = Runs-bind (Runs-at_once _) λ _. Runs-at_once _

  module _ (r : Run) (provider : Provider) (name : Option String) (input_hash : String) where
    attempt-Runs :
        Runs
          (attempt_steps host engine r provider name input_hash)
          (attempt host engine r provider name input_hash)
    unfolding attempt_steps attempt
    attempt-Runs = Runs-bind (call_provider-Runs _ _ _) λ _. Runs-bind (Runs-at_once _) λ _.
        Runs-bind (Runs-at_once _) λ _. Runs-bind (Runs-at_once _) λ _.
          Runs-bind (publish-Runs _ _ _) λ _.
            Runs-bind (finalize-Runs _ _) λ _.
              Runs-bind (publish-Runs _ _ _) λ _. Runs-bind (Runs-at_once _) λ _. Runs-returns _

    fall_back-Runs :
        (exc : Exc) (s : FallbackStrategy)
        → Runs
            (fall_back_steps host engine r provider name input_hash exc s)
            (fall_back host engine r provider name input_hash exc s)
    unfolding fall_back_steps fall_back
    fall_back-Runs exc fail_closed = Runs-bind (Runs-at_once _) λ _.
        Runs-bind (finalize-Runs _ _)
          λ _. Runs-bind (publish-Runs _ _ _) λ _. Runs-bind (Runs-at_once _) λ _. Runs-returns _
    fall_back-Runs exc drop_and_signal = Runs-bind (Runs-at_once _) λ _.
        Runs-bind (finalize-Runs _ _)
          λ _. Runs-bind (publish-Runs _ _ _) λ _. Runs-bind (Runs-at_once _) λ _. Runs-returns _

    on_failure-Runs :
        (exc : Exc)
        → Runs
            (on_failure_steps host engine r provider name input_hash exc)
            (on_failure host engine r provider name input_hash exc)
    unfolding on_failure_steps on_failure
    on_failure-Runs exc = Runs-bind (Runs-at_once _) λ _. fall_back-Runs exc _

  route-Runs : (r : Run) → Runs (route_steps host engine r) (route host engine r)
  unfolding route_steps route
  route-Runs r = Runs-bind (Runs-at_once _) λ _. Runs-bind (Runs-at_once _) λ _.
      Runs-bind (publish-Runs _ _ _)
        λ _. Runs-try_except (attempt-Runs r _ _ _) (on_failure-Runs r _ _ _)

  evaluate_request-Runs :
      (request : Request)
      → Runs (evaluate_request_steps host engine request) (evaluate_request host engine request)
  unfolding evaluate_request_steps evaluate_request
  evaluate_request-Runs request = Runs-bind (Runs-at_once _) λ _. Runs-bind (Runs-at_once _) λ _.
      Runs-bind (Runs-at_once _) λ _. Runs-bind (publish-Runs _ _ _) λ _.
        Runs-bind (Runs-at_once _) λ _. Runs-bind (Runs-at_once _) λ _.
          Runs-bind (Runs-at_once _)
            λ _. Runs-bind (Runs-at_once _) λ _. Runs-bind (publish-Runs _ _ _) λ _. Runs-returns _

  process_report-Runs :
      (request : Request)
      → Runs (process_report_steps host engine request) (process_report host engine request)
  unfolding process_report_steps process_report
  process_report-Runs request =
      Runs-bind (evaluate_request-Runs request)
        λ r. Runs-if r.decision.allowed (route-Runs r) (deny-Runs r)

  -- When nothing interrupts it, the coroutine of a request has the result and leaves the state that
  -- `process_report` has and leaves, from any state.
  pub run-process_report_steps :
      (request : Request) (w : World)
      → run (process_report_steps host engine request) w ≡ process_report host engine request w
  run-process_report_steps request = (process_report-Runs request).same
