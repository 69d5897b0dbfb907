-- ===== src/Workflow/Engine/Processed.antt =====
-- `process_report` as a whole, on each of its ways to end.
use infra_steward_gateway.Core.{
  ℕ, ◌+◌, String, ◌≡◌, ◌⊎◌, inl, inr, refl, true, false, List, [], ◌∷◌, ◌++◌,
}
use infra_steward_gateway.Dict.{update}
use infra_steward_gateway.Exec.{Exc, ok, err, calls}
use infra_steward_gateway.Exec.Ends.{
  Ends, Ends-calls, Ends-lift, Ends-bind, Ends-raise, Ends-then, Ends-else, Ends-try_ok,
  Ends-try_err,
}
use infra_steward_gateway.Runtime.{Host}
use infra_steward_gateway.World.{World, Call, published, draw}
use infra_steward_gateway.Tenants.{TenantContext, resolve}
use infra_steward_gateway.Providers.Base.{Provider}
use infra_steward_gateway.Providers.Registry.{get}
use infra_steward_gateway.Evidence.Models.{EvidenceRecord}
use infra_steward_gateway.Workflow.RequestMetadata.{Request}
use infra_steward_gateway.Workflow.Setup.{WorkflowEngine}
use infra_steward_gateway.Workflow.Messages.{Run, required_tenant, completed_event}
use infra_steward_gateway.Workflow.Endings.{selected_event}
use infra_steward_gateway.Workflow.Engine.{
  sha256_hash, evaluate_request, route, provider_name_of, strategy_of, process_report,
}
use infra_steward_gateway.Workflow.Engine.Steps.{At, At-announce, At-lift, final_at, sends}
use infra_steward_gateway.Workflow.Engine.Opening.{Before}
use infra_steward_gateway.Workflow.Engine.Judged.{
  new_run, new_decision, judged_record, judged_time, judged_calls, evaluate_request_ends,
}
use infra_steward_gateway.Workflow.Engine.Outcome.{
  Routing, denied_ending, denied_answer, completed_answer, provider_count, ack_of, AttemptFails,
  AttemptReturns, completed_record, completed_calls, left_record, left_time, left_calls,
  failed_record, fallen_record, fallen_calls, fallen_response,
}
use infra_steward_gateway.Workflow.Engine.Routed.{
  deny_ends, attempt_returns, attempt_raises, on_failure_ends,
}

module _ (host : Host) (engine : WorkflowEngine) (request : Request) (w₀ : World) where
  -- A request that names no tenant, or one that does not resolve, raises. Nothing has happened by
  -- then but the draw of an identifier: no record, no call.
  pub process_unresolved :
      (x : Exc)
      → (required_tenant request ≡ err x)
        ⊎ ((name : String) × (required_tenant request ≡ ok name) × (resolve host name ≡ err x))
      → Ends (process_report host engine request) w₀ (err x) (Before w₀ [])
  unfolding process_report evaluate_request
  process_unresolved x (inl e) =
      Ends-raise _ (Ends-bind _ drawn λ w₁ b₁. Ends-raise _ (Ends-lift _ _ _ w₁ e b₁))
    where
      drawn : Ends (calls (draw host)) w₀ (ok (host.uuid4 w₀.draws)) (Before w₀ [])
      drawn =
          Ends-calls (Before w₀ []) (draw host) w₀
            (record { evidence = refl; time = refl; draws = refl; calls_made = refl })
  process_unresolved x (inr (name, e, f)) = Ends-raise _ (
      Ends-bind _ drawn λ w₁ b₁.
        Ends-bind _ (Ends-lift (Before w₀ []) _ _ w₁ e b₁)
          λ w₂ b₂. Ends-raise _ (Ends-lift _ _ _ w₂ f b₂))
    where
      drawn : Ends (calls (draw host)) w₀ (ok (host.uuid4 w₀.draws)) (Before w₀ [])
      drawn =
          Ends-calls (Before w₀ []) (draw host) w₀
            (record { evidence = refl; time = refl; draws = refl; calls_made = refl })

  module _ (context : TenantContext) (name : String) where
    abbrev run : Run
    run = new_run host engine request w₀ context

    abbrev Judged : World → Type 0
    Judged =
        At w₀ w₀.evidence.next (judged_record host engine request w₀ context)
          (judged_time host engine request w₀ context) (judged_calls host engine request w₀ context)

    abbrev pub denied_record : EvidenceRecord
    denied_record =
        final_at host (judged_time host engine request w₀ context) denied_ending
          (judged_record host engine request w₀ context)

    -- A request whose tenant resolves and which the policy denies is answered with the status
    -- "blocked" and no result. Its record has the start, the evaluation and the completion, and is
    -- closed as denied; no provider has been called and nothing submitted.
    pub process_denied :
        required_tenant request ≡ ok name
        → resolve host name ≡ ok context
        → (new_decision host engine request w₀ context).allowed ≡ false
        → Ends (process_report host engine request) w₀ (ok (update run.response denied_answer)) (
            At w₀ w₀.evidence.next denied_record (judged_time host engine request w₀ context + 1) (
              published "workflow.completed" (completed_event run.request_id "blocked")
              ∷ (sends engine.producer denied_record
                  ++ (provider_count run "none" ∷ judged_calls host engine request w₀ context))))
    unfolding process_report
    process_denied named resolved denied =
        Ends-bind _ (evaluate_request_ends host engine request w₀ context name named resolved)
          λ w₁ h₁. Ends-else _ _ _ denied (deny_ends host engine run w₁ h₁)

    -- The routing of an allowed request, and the calls before its provider is called.
    module _ (provider : Provider) (hash : String) where
      abbrev pub routing : Routing
      routing = record {
        host = host;
        engine = engine;
        run = run;
        provider = provider;
        name = provider_name_of host engine run.decision;
        input_hash = hash;
      }

      abbrev pub routed_calls : List Call
      routed_calls =
          published "provider.selected" (selected_event run provider routing.name)
          ∷ judged_calls host engine request w₀ context

      abbrev before_record : EvidenceRecord
      before_record = judged_record host engine request w₀ context

      abbrev before_time : ℕ
      before_time = judged_time host engine request w₀ context

      -- A request whose tenant resolves, which the policy allows, whose payload has a hash and
      -- whose selected provider is registered and returns a dict that has a hash: it is answered
      -- with the status "completed", the enrichment and the acknowledgement of its submission. Its
      -- record has the selection after the evaluation and is closed as approved with both hashes.
      -- The calls are the provider's, the submission's, its publication, the sending of the closed
      -- record, the publication of the end and one provider outcome, in this order.
      pub process_completed :
          (a : AttemptReturns routing)
          → required_tenant request ≡ ok name
          → resolve host name ≡ ok context
          → run.decision.allowed ≡ true
          → sha256_hash host run.payload ≡ ok hash
          → get host engine.provider_registry run.decision.selected_provider ≡ ok provider
          → Ends
              (process_report host engine request)
              w₀
              (ok (
                update run.response
                  (completed_answer provider a.enrichment (ack_of routing a.keys))))
              (At w₀ w₀.evidence.next
                (completed_record routing before_record before_time routed_calls a)
                (before_time + 1 + 1)
                (completed_calls routing before_record before_time routed_calls a))
      unfolding process_report route
      process_completed a named resolved allowed hashed registered =
          Ends-bind _ (evaluate_request_ends host engine request w₀ context name named resolved)
            λ w₁ h₁. Ends-then _ _ _ allowed (
              Ends-bind _ (At-lift _ _ w₁ hashed h₁) λ w₂ h₂.
                Ends-bind _ (At-lift _ _ w₂ registered h₂) λ w₃ h₃.
                  Ends-bind _ (At-announce engine.event_bus _ _ w₃ h₃)
                    λ w₄ h₄. Ends-try_ok _ (attempt_returns routing w₄ a h₄))

      -- A request whose tenant resolves, which the policy allows, whose payload has a hash and
      -- whose selected provider is registered, and where the provider, the hash of what it returned
      -- or the submission raises: it is answered as the provider's strategy says, with the status
      -- "blocked_provider_failure" and no result or with the status "fallback", and with the error.
      -- Its record keeps what the attempt had written, has the failure and the strategy's event
      -- after it, and is closed with that status; the calls of the attempt stay in the trace.
      pub process_fallen :
          {x : Exc} (a : AttemptFails routing x)
          → required_tenant request ≡ ok name
          → resolve host name ≡ ok context
          → run.decision.allowed ≡ true
          → sha256_hash host run.payload ≡ ok hash
          → get host engine.provider_registry run.decision.selected_provider ≡ ok provider
          → let s = strategy_of host engine provider in
            let left = left_record routing before_record before_time routed_calls a in
            let time = left_time routing before_record before_time routed_calls a in
            let made = left_calls routing before_record before_time routed_calls a in
            let noted = failed_record routing left time made x s in
            Ends
              (process_report host engine request)
              w₀
              (ok (update run.response (fallen_response routing x s)))
              (At w₀ w₀.evidence.next
                (fallen_record routing noted (time + 1) made x s)
                (time + 1 + 1 + 1)
                (fallen_calls routing noted (time + 1) made x s))
      unfolding process_report route
      process_fallen {x} a named resolved allowed hashed registered =
          Ends-bind _ (evaluate_request_ends host engine request w₀ context name named resolved)
            λ w₁ h₁. Ends-then _ _ _ allowed (
              Ends-bind _ (At-lift _ _ w₁ hashed h₁) λ w₂ h₂.
                Ends-bind _ (At-lift _ _ w₂ registered h₂) λ w₃ h₃.
                  Ends-bind _ (At-announce engine.event_bus _ _ w₃ h₃) λ w₄ h₄.
                    Ends-try_err _ (attempt_raises routing w₄ a h₄)
                      λ w₅ h₅. on_failure_ends routing w₅ x h₅)

    -- An allowed request whose payload has no hash, or whose provider is not registered, raises
    -- after the evaluation: its record stays as the evaluation left it, in progress and never sent.
    pub process_unrouted :
        (x : Exc)
        → required_tenant request ≡ ok name
        → resolve host name ≡ ok context
        → run.decision.allowed ≡ true
        → (sha256_hash host run.payload ≡ err x)
          ⊎ ((hash : String) × (sha256_hash host run.payload ≡ ok hash)
              × (get host engine.provider_registry run.decision.selected_provider ≡ err x))
        → Ends (process_report host engine request) w₀ (err x) Judged
    unfolding process_report route
    process_unrouted x named resolved allowed (inl e) =
        Ends-bind _ (evaluate_request_ends host engine request w₀ context name named resolved)
          λ w₁ h₁. Ends-then _ _ _ allowed (Ends-raise _ (At-lift _ _ w₁ e h₁))
    process_unrouted x named resolved allowed (inr (hash, e, f)) =
        Ends-bind _ (evaluate_request_ends host engine request w₀ context name named resolved)
          λ w₁ h₁.
            Ends-then _ _ _ allowed
              (Ends-bind _ (At-lift _ _ w₁ e h₁) λ w₂ h₂. Ends-raise _ (At-lift _ _ w₂ f h₂))
