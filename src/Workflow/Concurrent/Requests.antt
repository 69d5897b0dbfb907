-- ===== src/Workflow/Concurrent/Requests.antt =====
-- What a request comes to, whatever other requests do between its steps: one lemma for each part of
-- the engine's coroutine.
use infra_steward_gateway.Core.{ℕ, String, ◌≡◌, refl, inl, inr, Option, some}
use infra_steward_gateway.Dict.{lookup, insert, update}
use infra_steward_gateway.Value.{text}
use infra_steward_gateway.Exec.{Exc, Result, ok, err, modify}
use infra_steward_gateway.Coroutine.{at_once, returns, ◌>>◌}
use infra_steward_gateway.Runtime.{Host}
use infra_steward_gateway.Providers.Base.{Provider, FallbackStrategy, drop_and_signal, fail_closed}
use infra_steward_gateway.Workflow.Events.{EventPayload}
use infra_steward_gateway.Workflow.Events.Steps.{publish_steps}
use infra_steward_gateway.Workflow.Setup.{WorkflowEngine}
use infra_steward_gateway.Workflow.Messages.{Run, Response, base_response, count_provider}
use infra_steward_gateway.Workflow.Engine.Account.{IsFinalStatus}
use infra_steward_gateway.Workflow.Concurrent.{
  deny_steps, attempt_steps, fall_back_steps, on_failure_steps, route_steps,
}
use infra_steward_gateway.Workflow.Concurrent.Stages.{Stage}
use infra_steward_gateway.Workflow.Concurrent.Ensures.{
  Oks, Ensures, Ensures-returns, Ensures-try_except, Ensures-weaken, Ensures-bind, Ensures-then,
  Ensures-modify, Ensures-lift,
}
use infra_steward_gateway.Workflow.Concurrent.Records.{IsOpen, IsClosed, add_event_steps}
use infra_steward_gateway.Workflow.Concurrent.Calls.{
  publish_keeps, finalize_settles, submit_report_keeps, call_provider_keeps,
}

module _ (host : Host) where
  -- A request of a tenant is answered: its record is closed, and the response shows with what status,
  -- and the record's identifier and tenant.
  pub data IsAnswered (tenant : String) (response : Response) : Stage → Type 0 where
    is_answered :
        {id status : String} {ref : ℕ} {o : Stage}
        → IsFinalStatus status
        → IsClosed host id ref tenant status o
        → lookup "status" response ≡ some (text status)
        → lookup "request_id" response ≡ some (text id)
        → lookup "tenant_id" response ≡ some (text tenant)
        → IsAnswered tenant response o

  module _ (run : Run) where
    abbrev pub Open : Stage → Type 0
    Open = IsOpen host run.request_id run.evidence run.metadata.tenant_id

    abbrev pub Closed : String → Stage → Type 0
    Closed = IsClosed host run.request_id run.evidence run.metadata.tenant_id

    -- Where the provider, or what follows it, raises, the record is still open.
    abbrev pub Tried : Result Response → Stage → Type 0
    Tried (ok response) o = IsAnswered run.metadata.tenant_id response o
    Tried (err e) o = Open o

module _ (host : Host) (engine : WorkflowEngine) where
  -- The policy has been evaluated.
  module _ (run : Run)
      (base : run.response ≡ base_response host run.request_id run.metadata run.decision) where
    pub deny_answers :
        {o : Stage}
        → (Open host run) o
        → Ensures host o (deny_steps host engine run) (Oks (IsAnswered host run.metadata.tenant_id))
    unfolding deny_steps update insert lookup
    deny_answers h =
        Ensures-then host (Ensures-modify host (Open host run) _ (λ w. (refl, refl)) h) λ _ p i.
          Ensures-then host (finalize_settles host engine run.evidence _ i) λ _ q j.
            Ensures-then host (publish_keeps host engine (Closed host run "blocked") _ _ j) λ _ s k.
              Ensures-returns host _
                (is_answered (inr (inl refl)) k (rw base refl) (rw base refl) (rw base refl))

    -- What follows `finalize` where a provider was asked.
    announce_answers :
        {o : Stage} (status n outcome : String) (p : EventPayload) (response : Response)
        → IsFinalStatus status
        → Closed host run status o
        → lookup "status" response ≡ some (text status)
        → lookup "request_id" response ≡ some (text run.request_id)
        → lookup "tenant_id" response ≡ some (text run.metadata.tenant_id)
        → Ensures host o
            (do
              publish_steps engine.event_bus n p
              at_once (modify (count_provider run.metadata outcome))
              returns response)
            (Oks (IsAnswered host run.metadata.tenant_id))
    announce_answers status n outcome p response final h shown named owned =
        Ensures-then host (publish_keeps host engine (Closed host run status) n p h) λ _ q i.
          Ensures-then host (Ensures-modify host (Closed host run status) _ (λ w. (refl, refl)) i)
            λ _ s j. Ensures-returns host response (is_answered final j shown named owned)

    Oks-Tried :
        (r : Result Response) (o : Stage)
        → Oks (IsAnswered host run.metadata.tenant_id) r o
        → (Tried host run) r o
    Oks-Tried (ok response) o h = h
    Oks-Tried (err e) o h = absurd h

    module _ (provider : Provider) (name : Option String) (input_hash : String) where
      attempt_answers :
          {o : Stage}
          → (Open host run) o
          → Ensures host o (attempt_steps host engine run provider name input_hash) (Tried host run)
      unfolding attempt_steps update insert lookup
      attempt_answers h =
          Ensures-bind host (call_provider_keeps host engine (Open host run) _ _ _ h)
            (λ enrichment o₁ h₁. Ensures-then host (add_event_steps host _ _ h₁) λ _ o₂ h₂.
              Ensures-bind host (Ensures-lift host {Q = λ _. (Open host run)} _ h₂)
                (λ output_hash o₃ h₃.
                  Ensures-bind host (submit_report_keeps host engine (Open host run) _ _ h₃)
                    (λ ack o₄ h₄.
                      Ensures-then host (publish_keeps host engine (Open host run) _ _ h₄)
                        λ _ o₅ h₅.
                          Ensures-then host (finalize_settles host engine run.evidence _ h₅)
                            λ _ o₆ h₆.
                              Ensures-weaken host
                                (announce_answers "completed" "workflow.completed" "ok" _ _
                                  (inl refl) h₆ (rw base refl) (rw base refl) (rw base refl))
                                Oks-Tried)
                    (λ e p i. i))
                (λ e p i. i))
            (λ e p i. i)

      fall_back_answers :
          {o : Stage} (exc : Exc) (s : FallbackStrategy)
          → (Open host run) o
          → Ensures host o
              (fall_back_steps host engine run provider name input_hash exc s)
              (Oks (IsAnswered host run.metadata.tenant_id))
      unfolding fall_back_steps update insert lookup
      fall_back_answers exc fail_closed h = Ensures-then host (add_event_steps host _ _ h) λ _ p i.
          Ensures-then host (finalize_settles host engine run.evidence _ i) λ _ q j.
            announce_answers "blocked_provider_failure" _ _ _ _ (inr (inr (inr refl))) j
              (rw base refl) (rw base refl) (rw base refl)
      fall_back_answers exc drop_and_signal h =
          Ensures-then host (add_event_steps host _ _ h) λ _ p i.
            Ensures-then host (finalize_settles host engine run.evidence _ i) λ _ q j.
              announce_answers "fallback" _ _ _ _ (inr (inr (inl refl))) j (rw base refl)
                (rw base refl) (rw base refl)

      on_failure_answers :
          {o : Stage} (exc : Exc)
          → (Open host run) o
          → Ensures host o
              (on_failure_steps host engine run provider name input_hash exc)
              (Oks (IsAnswered host run.metadata.tenant_id))
      unfolding on_failure_steps
      on_failure_answers exc h =
          Ensures-then host (add_event_steps host _ _ h) λ _ p i. fall_back_answers exc _ i

    pub route_answers :
        {o : Stage}
        → (Open host run) o
        → Ensures host o (route_steps host engine run) (Tried host run)
    unfolding route_steps
    route_answers h =
        Ensures-bind host (Ensures-lift host {Q = λ _. (Open host run)} _ h)
          (λ input_hash p i.
            Ensures-bind host (Ensures-lift host {Q = λ _. (Open host run)} _ i)
              (λ provider q j.
                Ensures-then host (publish_keeps host engine (Open host run) _ _ j) λ _ s k.
                  Ensures-try_except host (attempt_answers provider _ input_hash k)
                    (λ response t l. l)
                    λ exc t l.
                      Ensures-weaken host (on_failure_answers provider _ input_hash exc l)
                        Oks-Tried)
              (λ e q j. j))
          (λ e p i. i)
