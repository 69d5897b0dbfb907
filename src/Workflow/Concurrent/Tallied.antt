-- ===== src/Workflow/Concurrent/Tallied.antt =====
-- How often a request increments a governance counter, whatever other requests do between its steps.
use infra_steward_gateway.Core.{ℕ, ◌+◌, ◌≤◌, String, ◌≡◌, refl, Bool, Option, arith}
use infra_steward_gateway.Exec.{Exc, ok, err, modify}
use infra_steward_gateway.Coroutine.{at_once, returns, ◌>>◌}
use infra_steward_gateway.Coroutine.Counts.{
  Tells, Counts, Counts-returns, Counts-try_except, Counts-if, Counts-bind, Counts-then,
}
use infra_steward_gateway.Runtime.{Host}
use infra_steward_gateway.World.{Call}
use infra_steward_gateway.Providers.Base.{Provider, FallbackStrategy, drop_and_signal, fail_closed}
use infra_steward_gateway.Evidence.Service.{Final}
use infra_steward_gateway.Workflow.RequestMetadata.{Request}
use infra_steward_gateway.Workflow.Events.{EventPayload}
use infra_steward_gateway.Workflow.Events.Steps.{publish_steps}
use infra_steward_gateway.Workflow.Setup.{WorkflowEngine}
use infra_steward_gateway.Workflow.Messages.{Run, Response, metadata_of, count_provider}
use infra_steward_gateway.Workflow.Concurrent.{
  finalize_steps, deny_steps, attempt_steps, fall_back_steps, on_failure_steps, route_steps,
  evaluate_request_steps, process_report_steps,
}
use infra_steward_gateway.Workflow.Endings.{denied_final}
use infra_steward_gateway.Workflow.Engine.{strategy_of}
use infra_steward_gateway.Workflow.Concurrent.Counted.{
  IsOutcome, measure, publish_still, finalize_still, add_event_still, submit_report_still,
  call_provider_still, lift_still, draw_still, now_still, start_record_still, count_policy_adds,
  count_provider_adds,
}

-- A response comes with `n`, and an exception with at most `n`.
abbrev pub Once : {A : Type 0} → ℕ → Tells A
Once n j (ok a) = j ≡ n
Once n j (err e) = j ≤ n

-- A response comes with `n`, and an exception with `m`.
abbrev Either : {A : Type 0} → ℕ → ℕ → Tells A
Either n m j (ok a) = j ≡ n
Either n m j (err e) = j ≡ m

module _ {f : Call → Bool} {policy provider : ℕ} (is : IsOutcome f policy provider) (host : Host)
    (engine : WorkflowEngine) where
  abbrev both : ℕ
  both = policy + provider

  evaluate-Counts :
      (request : Request)
      → Counts (measure f) 0 (evaluate_request_steps host engine request) (Once policy)
  unfolding evaluate_request_steps
  evaluate-Counts request =
      Counts-then (measure f) (draw_still f host engine is)
        (λ id.
          Counts-then (measure f) (lift_still f host engine is _)
            (λ t.
              Counts-then (measure f) (lift_still f host engine is _)
                (λ context.
                  Counts-then (measure f) (publish_still f host engine is _ _)
                    (λ _.
                      Counts-then (measure f) (start_record_still f host engine is _)
                        (λ ref.
                          Counts-then (measure f) (now_still f host engine is)
                            (λ time.
                              Counts-then (measure f) (add_event_still f host engine is ref _ _)
                                (λ _.
                                  Counts-bind (measure f)
                                    (count_policy_adds f host engine is
                                      (metadata_of id context request) _)
                                    (λ _ j e.
                                      Counts-then (measure f) (publish_still f host engine is _ _)
                                        (λ _. Counts-returns (measure f) _ (omega (arith, e)))
                                        (λ x. omega (arith, e)))
                                    (λ x j e. absurd e))
                                (λ x. omega arith))
                            (λ x. omega arith))
                        (λ x. omega arith))
                    (λ x. omega arith))
                (λ x. omega arith))
            (λ x. omega arith))
        (λ x. omega arith)

  deny-Counts : (run : Run) → Counts (measure f) policy (deny_steps host engine run) (Once both)
  unfolding deny_steps
  deny-Counts run =
      Counts-bind (measure f) (count_provider_adds f host engine is run.metadata "none")
        (λ _ j e.
          Counts-then (measure f) (finalize_still f host engine is run.evidence denied_final)
            (λ _.
              Counts-then (measure f) (publish_still f host engine is _ _)
                (λ _. Counts-returns (measure f) _ e) (λ x. omega (arith, e)))
            (λ x. omega (arith, e)))
        (λ x j e. absurd e)

  -- What follows the evidence of a fallback.
  ended-Counts :
      (run : Run) (a : Final) (n : String) (p : EventPayload) (status : String)
      (response : Response)
      → Counts
          (measure f)
          policy
          (do
            finalize_steps host engine run.evidence a
            publish_steps engine.event_bus n p
            at_once (modify (count_provider run.metadata status))
            returns response)
          (Once both)
  ended-Counts run a n p status response =
      Counts-then (measure f) (finalize_still f host engine is run.evidence a)
        (λ _.
          Counts-then (measure f) (publish_still f host engine is n p)
            (λ _.
              Counts-bind (measure f) (count_provider_adds f host engine is run.metadata status)
                (λ _ j e. Counts-returns (measure f) response e) (λ x j e. absurd e))
            (λ x. omega arith))
        (λ x. omega arith)

  module _ (run : Run) (provider_of : Provider) (name : Option String) (input_hash : String) where
    -- Where it raises, the provider's outcome has not been counted.
    attempt-Counts :
        Counts
          (measure f)
          policy
          (attempt_steps host engine run provider_of name input_hash)
          (Either both policy)
    unfolding attempt_steps
    attempt-Counts =
        Counts-then (measure f)
          (call_provider_still f host engine is provider_of run.metadata run.payload)
          (λ enrichment.
            Counts-then (measure f) (add_event_still f host engine is run.evidence _ _)
              (λ _.
                Counts-then (measure f) (lift_still f host engine is _)
                  (λ output_hash.
                    Counts-then (measure f)
                      (submit_report_still f host engine is run.metadata enrichment)
                      (λ ack.
                        Counts-then (measure f) (publish_still f host engine is _ _)
                          (λ _.
                            Counts-then (measure f) (finalize_still f host engine is run.evidence _)
                              (λ _.
                                Counts-then (measure f) (publish_still f host engine is _ _)
                                  (λ _.
                                    Counts-bind (measure f)
                                      (count_provider_adds f host engine is run.metadata "ok")
                                      (λ _ j e. Counts-returns (measure f) _ e) (λ x j e. absurd e))
                                  (λ x. refl))
                              (λ x. refl))
                          (λ x. refl))
                      (λ x. refl))
                  (λ x. refl))
              (λ x. refl))
          (λ x. refl)

    fall_back-Counts :
        (exc : Exc) (strategy : FallbackStrategy)
        → Counts
            (measure f)
            policy
            (fall_back_steps host engine run provider_of name input_hash exc strategy)
            (Once both)
    unfolding fall_back_steps
    fall_back-Counts exc fail_closed =
        Counts-then (measure f) (add_event_still f host engine is run.evidence _ _)
          (λ _. ended-Counts run _ _ _ _ _) (λ x. omega arith)
    fall_back-Counts exc drop_and_signal =
        Counts-then (measure f) (add_event_still f host engine is run.evidence _ _)
          (λ _. ended-Counts run _ _ _ _ _) (λ x. omega arith)

    on_failure-Counts :
        (exc : Exc)
        → Counts
            (measure f)
            policy
            (on_failure_steps host engine run provider_of name input_hash exc)
            (Once both)
    unfolding on_failure_steps
    on_failure-Counts exc =
        Counts-then (measure f) (add_event_still f host engine is run.evidence _ _)
          (λ _. fall_back-Counts exc (strategy_of host engine provider_of)) (λ x. omega arith)

  route-Counts : (run : Run) → Counts (measure f) policy (route_steps host engine run) (Once both)
  unfolding route_steps
  route-Counts run =
      Counts-then (measure f) (lift_still f host engine is _)
        (λ input_hash.
          Counts-then (measure f) (lift_still f host engine is _)
            (λ provider_of.
              Counts-then (measure f) (publish_still f host engine is _ _)
                (λ _.
                  Counts-try_except (measure f) (attempt-Counts run provider_of _ input_hash)
                    (λ a j e. e) (λ x j e. rw e (on_failure-Counts run provider_of _ input_hash x)))
                (λ x. omega arith))
            (λ x. omega arith))
        (λ x. omega arith)

  pub process_report-Counts :
      (request : Request)
      → Counts (measure f) 0 (process_report_steps host engine request) (Once (policy + provider))
  unfolding process_report_steps
  process_report-Counts request =
      Counts-bind (measure f) (evaluate-Counts request)
        (λ run j e.
          rw e (Counts-if (measure f) run.decision.allowed (route-Counts run) (deny-Counts run)))
        (λ x j e. omega (arith, e))
