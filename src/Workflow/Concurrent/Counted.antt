-- ===== src/Workflow/Concurrent/Counted.antt =====
-- The governance counters while requests overlap: the steps of a request that leave a counter alone.
use infra_steward_gateway.Core.{
  ℕ, ◌+◌, String, ◌≡◌, refl, ap, ◌∙◌, Bool, false, Option, none, some, List, [], ◌∷◌, arith,
}
use infra_steward_gateway.Dict.{Dict}
use infra_steward_gateway.Value.{Value}
use infra_steward_gateway.Exec
use infra_steward_gateway.Exec.{Exec, Exc, Result, ok, err, calls, lift, modify, pure, continue}
use infra_steward_gateway.Coroutine.{at_once}
use infra_steward_gateway.Coroutine.Counts.{
  Stays, Reaches, Counts, Counts-at_once, Counts-returns, Counts-still, Counts-then,
}
use infra_steward_gateway.Runtime.{Host}
use infra_steward_gateway.World.{
  World, Call, outline, counted, published, enriched, submitted, sent, draw, now,
}
use infra_steward_gateway.Providers.Base.{Provider}
use infra_steward_gateway.Supervisory.{labels, submit_report, supervisory_submission}
use infra_steward_gateway.Evidence.Models.{EvidenceEventType, EvidenceRecord}
use infra_steward_gateway.Evidence.Producer.{Ingester}
use infra_steward_gateway.Evidence.Service.{
  Start, Final, start_record, add_event, append_event, require_stored, close_record, send_current,
  send_if, save,
}
use infra_steward_gateway.Workflow.RequestMetadata.{RequestMetadata}
use infra_steward_gateway.Workflow.Events.{
  EventPayload, EventHandler, handlers_of, safe_invoke, log_results,
}
use infra_steward_gateway.Workflow.Events.Steps.{gather_steps, notify_steps, publish_steps}
use infra_steward_gateway.Workflow.Events.Laws.{
  safe_invoke-IsQuiet, log_results-IsQuiet, send_record-IsQuiet,
}
use infra_steward_gateway.Workflow.Setup.{WorkflowEngine}
use infra_steward_gateway.Workflow.Messages.{count_policy, count_provider}
use infra_steward_gateway.Workflow.Engine.Account.{tally}
use infra_steward_gateway.Workflow.Concurrent.{finalize_steps, call_provider_steps}

-- A test of calls that passes increments of the outcome counters only, by as much as `policy` and
-- `provider` tell.
pub record IsOutcome (f : Call → Bool) (policy provider : ℕ) : Type 0 where
  pub of_policy :
      (l : Dict String) (cs : List Call)
      → tally f (counted "gateway_policy_outcomes_total" l ∷ cs) ≡ tally f cs + policy
  pub of_provider :
      (l : Dict String) (cs : List Call)
      → tally f (counted "gateway_provider_outcomes_total" l ∷ cs) ≡ tally f cs + provider
  pub of_submission :
      (l : Dict String) → f (counted "gateway_supervisory_submissions_total" l) ≡ false
  pub of_published : (n : String) (p : EventPayload) → f (published n p) ≡ false
  pub of_enriched : (c : String) (m : RequestMetadata) (v : Value) → f (enriched c m v) ≡ false
  pub of_submitted : (n : String) (m : RequestMetadata) → f (submitted n m) ≡ false
  pub of_sent : (r : EvidenceRecord) → f (sent r) ≡ false

module _ (f : Call → Bool) where
  unfoldable pub measure : World → ℕ
  measure w = tally f (outline w.trace)

  measure-outline : (v w : World) → outline v.trace ≡ outline w.trace → measure v ≡ measure w
  unfolding measure
  measure-outline v w e = ap (tally f) e

  measure_skip : (c : Call) (w : World) → f c ≡ false → tally f (c ∷ outline w.trace) ≡ measure w
  unfolding measure tally
  measure_skip c w e = rw e refl

  module _ (host : Host) (engine : WorkflowEngine) {policy provider : ℕ}
      (is : IsOutcome f policy provider) where
    gather_still :
        {i : ℕ} (hs : List EventHandler) (n : String) (p : EventPayload)
        → Counts measure i (gather_steps hs n p) (Stays i)
    unfolding gather_steps calls
    gather_still [] n p = Counts-returns measure [] refl
    gather_still (h ∷ hs) n p =
        Counts-then measure
          (Counts-still measure (calls (safe_invoke h n p))
            λ w. measure-outline _ _ (safe_invoke-IsQuiet h n p w).calls)
          (λ r.
            Counts-then measure (gather_still hs n p) (λ rs. Counts-returns measure _ refl)
              (λ e. refl))
          (λ e. refl)

    notify_still :
        {i : ℕ} (hs : List EventHandler) (n : String) (p : EventPayload)
        → Counts measure i (notify_steps hs n p) (Stays i)
    unfolding notify_steps modify
    notify_still [] n p = Counts-returns measure tt refl
    notify_still (h ∷ hs) n p =
        Counts-then measure (gather_still (h ∷ hs) n p)
          (λ rs.
            Counts-still measure (modify (log_results n rs))
              λ w. measure-outline _ _ (log_results-IsQuiet n rs w).calls)
          (λ e. refl)

    pub publish_still :
        {i : ℕ} (n : String) (p : EventPayload)
        → Counts measure i (publish_steps engine.event_bus n p) (Stays i)
    unfolding publish_steps modify outline measure
    publish_still n p =
        Counts-then measure
          (Counts-still measure _ λ w. measure_skip (published n p) w (is.of_published n p))
          (λ _. notify_still (handlers_of engine.event_bus n) n p) (λ e. refl)

    send_still :
        (producer : Option Ingester) (r : EvidenceRecord) (w : World)
        → measure (send_if producer r w) ≡ measure w
    unfolding measure outline
    send_still none r w = refl
    send_still (some ingester) r w =
        ap (tally f) (send_record-IsQuiet ingester r w).calls
        ∙ measure_skip (sent r) w (is.of_sent r)

    pub finalize_still :
        {i : ℕ} (ref : ℕ) (a : Final)
        → Counts measure i (finalize_steps host engine ref a) (Stays i)
    unfolding finalize_steps require_stored close_record save send_current modify measure
    finalize_still ref a =
        Counts-then measure (Counts-still measure (require_stored host ref) λ w. refl)
          (λ _.
            Counts-then measure (Counts-still measure (modify (close_record host ref a)) λ w. refl)
              (λ _.
                Counts-then measure
                  (Counts-still measure (modify (send_current engine.producer ref))
                    λ w. send_still engine.producer (w.evidence.objects ref) w)
                  (λ _. Counts-returns measure ref refl) (λ e. refl))
              (λ e. refl))
          (λ e. refl)

    pub add_event_still :
        {i : ℕ} (ref : ℕ) (type : EvidenceEventType) (details : Dict Value)
        → Counts measure i (at_once (add_event host ref type details)) (Stays i)
    unfolding add_event append_event require_stored save modify pure continue Exec.◌>>=◌ measure
    add_event_still ref type details =
        Counts-still measure (add_event host ref type details) λ w. ground arith

    pub submit_report_still :
        {i : ℕ} (m : RequestMetadata) (v : Value)
        → Counts measure i (at_once (submit_report engine.supervisory_service m v)) (Stays i)
    unfolding submit_report modify lift pure continue Exec.◌>>=◌ outline measure tally
    submit_report_still m v =
        Counts-still measure (submit_report engine.supervisory_service m v) λ w. ground (
          arith,
          is.of_submission (supervisory_submission m "accepted"),
          is.of_submitted engine.supervisory_service.endpoint_label m,
        )

    pub call_provider_still :
        {i : ℕ} (p : Provider) (m : RequestMetadata) (v : Value)
        → Counts measure i (call_provider_steps host engine p m v) (Stays i)
    unfolding call_provider_steps modify lift outline measure
    call_provider_still p m v =
        Counts-then measure
          (Counts-still measure _
            λ w. measure_skip (enriched p.class_name m v) w (is.of_enriched p.class_name m v))
          (λ _. Counts-still measure _ λ w. refl) (λ e. refl)

    pub lift_still :
        {A : Type 0} {i : ℕ} (r : Result A) → Counts measure i (at_once (lift r)) (Stays i)
    unfolding lift
    lift_still r = Counts-still measure (lift r) λ w. refl

    pub draw_still : {i : ℕ} → Counts measure i (at_once (calls (draw host))) (Stays i)
    unfolding calls measure
    draw_still = Counts-still measure (calls (draw host)) λ w. refl

    pub now_still : {i : ℕ} → Counts measure i (at_once (calls (now host))) (Stays i)
    unfolding calls measure
    now_still = Counts-still measure (calls (now host)) λ w. refl

    pub start_record_still :
        {i : ℕ} (a : Start) → Counts measure i (at_once (calls (start_record host a))) (Stays i)
    unfolding calls start_record save measure
    start_record_still a = Counts-still measure (calls (start_record host a)) λ w. ground arith

    pub count_policy_adds :
        {i : ℕ} (m : RequestMetadata) (outcome : String)
        → Counts measure i (at_once (modify (count_policy m outcome))) (Reaches (i + policy))
    unfolding modify outline measure
    count_policy_adds m outcome =
        Counts-at_once measure _
          λ w. (policy, is.of_policy (labels m "policy_outcome" outcome) (outline w.trace), refl)

    pub count_provider_adds :
        {i : ℕ} (m : RequestMetadata) (status : String)
        → Counts measure i (at_once (modify (count_provider m status))) (Reaches (i + provider))
    unfolding modify outline measure
    count_provider_adds m status =
        Counts-at_once measure _ λ w.
          (provider, is.of_provider (labels m "provider_status" status) (outline w.trace), refl)
