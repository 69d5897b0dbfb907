-- ===== src/Workflow/Engine/Routed.antt =====
-- The parts of `process_report` after the policy decision: what each leaves in the record, in the
-- trace and in the response, from any state in which the request's record is `r`.
use infra_steward_gateway.Core.{ℕ, ◌+◌, String, ◌≡◌, refl, some, List, ◌∷◌, ◌++◌}
use infra_steward_gateway.Dict.{update}
use infra_steward_gateway.Value.{Value}
use infra_steward_gateway.Exec.{Exc, Result, ok, err}
use infra_steward_gateway.Exec.Ends.{Ends, Ends-pure, Ends-bind, Ends-raise}
use infra_steward_gateway.Runtime.{Host}
use infra_steward_gateway.World.{World, Call, outline, published}
use infra_steward_gateway.Providers.Base.{
  show_strategy, FallbackStrategy, drop_and_signal, fail_closed,
}
use infra_steward_gateway.Evidence.Models.{
  EvidenceRecord, provider_selected, provider_failed, provider_fallback_applied,
  provider_fallback_blocked,
}
use infra_steward_gateway.Supervisory.{submit_report, payload_keys}
use infra_steward_gateway.Workflow.Setup.{WorkflowEngine}
use infra_steward_gateway.Workflow.Messages.{Run, completed_event}
use infra_steward_gateway.Workflow.Endings.{
  selected_details, provider_final, completed_response, blocked_details, applied_details,
  denied_final, denied_response,
}
use infra_steward_gateway.Workflow.Engine.{
  deny, call_provider, attempt, strategy_of, fall_back, on_failure,
}
use infra_steward_gateway.Workflow.Engine.Outcome.{
  Routing, provider_count, provider_call, submission_calls, ack_of, AttemptFails, raised,
  unhashable, keyless, AttemptReturns, completed_record, completed_calls, left_record, left_time,
  left_calls, failed_record, fallen_record, fallen_calls, fallen_response,
}
use infra_steward_gateway.Workflow.Engine.Steps.{
  At, At-call, At-lift, At-announce, At-add_event, At-finalize, final_at, sends,
}

module _ (host : Host) (engine : WorkflowEngine) (run : Run) where
  pub deny_ends :
      {w₀ : World} {r : EvidenceRecord} {t : ℕ} {cs : List Call} (w : World)
      → At w₀ run.evidence r t cs w
      → let last = final_at host t denied_final r in
        Ends (deny host engine run) w (ok (update run.response denied_response)) (
          At w₀ run.evidence last (t + 1) (
            published "workflow.completed" (completed_event run.request_id "blocked")
            ∷ (sends engine.producer last ++ (provider_count run "none" ∷ cs))))
  unfolding deny outline
  deny_ends w h₀ = Ends-bind _ (At-call (provider_count run "none") w refl h₀) λ w₁ h₁.
      Ends-bind _ (At-finalize host engine.producer denied_final w₁ h₁)
        λ w₂ h₂. Ends-bind _ (At-announce engine.event_bus _ _ w₂ h₂) λ w₃ h₃. Ends-pure _ _ w₃ h₃

module _ (c : Routing) where
  open c use {host, engine, run, provider, name, input_hash}

  module _ {w₀ : World} {r : EvidenceRecord} {t : ℕ} {cs : List Call} where
    submit_report_ends :
        (enrichment : Value) (w : World) (keys : List String)
        → payload_keys enrichment ≡ ok keys
        → At w₀ run.evidence r t cs w
        → Ends
            (submit_report engine.supervisory_service run.metadata enrichment)
            w
            (ok (ack_of c keys))
            (At w₀ run.evidence r t (submission_calls c ++ cs))
    unfolding submit_report outline
    submit_report_ends enrichment w keys e h₀ = Ends-bind _ (At-call _ w refl h₀) λ w₁ h₁.
        Ends-bind _ (At-call _ w₁ refl h₁)
          λ w₂ h₂. Ends-bind _ (At-lift _ _ w₂ e h₂) λ w₃ h₃. Ends-pure _ _ w₃ h₃

    submit_report_raises :
        (enrichment : Value) (w : World) (x : Exc)
        → payload_keys enrichment ≡ err x
        → At w₀ run.evidence r t cs w
        → Ends
            (submit_report engine.supervisory_service run.metadata enrichment)
            w
            (err x)
            (At w₀ run.evidence r t (submission_calls c ++ cs))
    unfolding submit_report outline
    submit_report_raises enrichment w x e h₀ =
        Ends-bind _ (At-call _ w refl h₀)
          λ w₁ h₁. Ends-bind _ (At-call _ w₁ refl h₁) λ w₂ h₂. Ends-raise _ (At-lift _ _ w₂ e h₂)

    called :
        {q : Result Value} (w : World)
        → provider.generate_enrichment run.metadata run.payload ≡ q
        → At w₀ run.evidence r t cs w
        → Ends
            (call_provider host engine provider run.metadata run.payload)
            w
            q
            (At w₀ run.evidence r t (provider_call c ∷ cs))
    unfolding call_provider outline
    called w e h₀ = Ends-bind _ (At-call (provider_call c) w refl h₀) λ u k. At-lift _ _ u e k

  module _ {w₀ : World} {r : EvidenceRecord} {t : ℕ} {cs : List Call} (w : World) where
    pub attempt_returns :
        (a : AttemptReturns c)
        → At w₀ run.evidence r t cs w
        → Ends
            (attempt host engine run provider name input_hash)
            w
            (ok (update run.response (completed_response provider a.enrichment (ack_of c a.keys))))
            (At w₀ run.evidence
              (completed_record c r t cs a)
              (t + 1 + 1)
              (completed_calls c r t cs a))
    unfolding attempt outline
    attempt_returns a h₀ = Ends-bind _ (called w a.generated h₀) λ w₁ h₁.
        Ends-bind _ (At-add_event host provider_selected (selected_details run provider name) w₁ h₁)
          λ w₂ h₂. Ends-bind _ (At-lift _ _ w₂ a.hashed h₂) λ w₃ h₃.
            Ends-bind _ (submit_report_ends a.enrichment w₃ a.keys a.listed h₃) λ w₄ h₄.
              Ends-bind _ (At-announce engine.event_bus _ _ w₄ h₄) λ w₅ h₅.
                Ends-bind _
                  (At-finalize host engine.producer
                    (provider_final "completed" "approved" input_hash (some a.output_hash) name) w₅
                    h₅)
                  λ w₆ h₆. Ends-bind _ (At-announce engine.event_bus _ _ w₆ h₆) λ w₇ h₇.
                    Ends-bind _ (At-call (provider_count run "ok") w₇ refl h₇)
                      λ w₈ h₈. Ends-pure _ _ w₈ h₈

    pub attempt_raises :
        {x : Exc} (a : AttemptFails c x)
        → At w₀ run.evidence r t cs w
        → Ends (attempt host engine run provider name input_hash) w (err x) (
            At w₀ run.evidence
              (left_record c r t cs a)
              (left_time c r t cs a)
              (left_calls c r t cs a))
    unfolding attempt
    attempt_raises (raised e) h₀ = Ends-raise _ (called w e h₀)
    attempt_raises (unhashable v e f) h₀ = Ends-bind _ (called w e h₀) λ w₁ h₁.
        Ends-bind _ (At-add_event host provider_selected (selected_details run provider name) w₁ h₁)
          λ w₂ h₂. Ends-raise _ (At-lift _ _ w₂ f h₂)
    attempt_raises (keyless v o e f g) h₀ = Ends-bind _ (called w e h₀) λ w₁ h₁.
        Ends-bind _ (At-add_event host provider_selected (selected_details run provider name) w₁ h₁)
          λ w₂ h₂.
            Ends-bind _ (At-lift _ _ w₂ f h₂)
              λ w₃ h₃. Ends-raise _ (submit_report_raises v w₃ _ g h₃)

    fall_back_ends :
        (x : Exc) (s : FallbackStrategy)
        → At w₀ run.evidence r t cs w
        → Ends
            (fall_back host engine run provider name input_hash x s)
            w
            (ok (update run.response (fallen_response c x s)))
            (At w₀ run.evidence
              (fallen_record c r t cs x s)
              (t + 1 + 1)
              (fallen_calls c r t cs x s))
    unfolding fall_back outline show_strategy
    fall_back_ends x fail_closed h₀ =
        Ends-bind _
          (At-add_event host provider_fallback_blocked (blocked_details provider name) w h₀)
          λ w₁ h₁. Ends-bind _ (At-finalize host engine.producer _ w₁ h₁) λ w₂ h₂.
            Ends-bind _ (At-announce engine.event_bus _ _ w₂ h₂) λ w₃ h₃.
              Ends-bind _ (At-call (provider_count run "blocked_fail_closed") w₃ refl h₃)
                λ w₄ h₄. Ends-pure _ _ w₄ h₄
    fall_back_ends x drop_and_signal h₀ =
        Ends-bind _
          (At-add_event host provider_fallback_applied (applied_details drop_and_signal) w h₀)
          λ w₁ h₁. Ends-bind _ (At-finalize host engine.producer _ w₁ h₁) λ w₂ h₂.
            Ends-bind _ (At-announce engine.event_bus _ _ w₂ h₂) λ w₃ h₃.
              Ends-bind _ (At-call (provider_count run "fallback") w₃ refl h₃)
                λ w₄ h₄. Ends-pure _ _ w₄ h₄

  module _ {w₀ : World} {r : EvidenceRecord} {t : ℕ} {cs : List Call} (w : World) where
    pub on_failure_ends :
        (x : Exc)
        → At w₀ run.evidence r t cs w
        → let s = strategy_of host engine provider in
          let noted = failed_record c r t cs x s in
          Ends
            (on_failure host engine run provider name input_hash x)
            w
            (ok (update run.response (fallen_response c x s)))
            (At w₀ run.evidence
              (fallen_record c noted (t + 1) cs x s)
              (t + 1 + 1 + 1)
              (fallen_calls c noted (t + 1) cs x s))
    unfolding on_failure
    on_failure_ends x h₀ =
        Ends-bind _ (At-add_event host provider_failed _ w h₀) λ w₁ h₁. fall_back_ends w₁ x _ h₁
