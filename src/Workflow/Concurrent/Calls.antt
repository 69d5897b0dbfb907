-- ===== src/Workflow/Concurrent/Calls.antt =====
-- The calls of a request on the other parts of the gateway, whatever other requests do between its
-- steps: each leaves the request its stage, but `finalize`, which closes its record.
use infra_steward_gateway.Core.{ℕ, String, refl, List, [], ◌∷◌, arith}
use infra_steward_gateway.Value.{Value}
use infra_steward_gateway.Exec
use infra_steward_gateway.Exec.{Exc, Result, ok, err, calls, lift, modify, pure, continue}
use infra_steward_gateway.Coroutine.{at_once}
use infra_steward_gateway.Runtime.{Host}
use infra_steward_gateway.Providers.Base.{Provider}
use infra_steward_gateway.Supervisory.{submit_report}
use infra_steward_gateway.Evidence.Service.{Final, send_current}
use infra_steward_gateway.Evidence.Service.Laws.{send_if-evidence}
use infra_steward_gateway.Workflow.RequestMetadata.{RequestMetadata}
use infra_steward_gateway.Workflow.Events.{
  EventPayload, EventHandler, handlers_of, safe_invoke, log_results,
}
use infra_steward_gateway.Workflow.Events.Steps.{gather_steps, notify_steps, publish_steps}
use infra_steward_gateway.Workflow.Events.Laws.{safe_invoke-IsQuiet, log_results-IsQuiet}
use infra_steward_gateway.Workflow.Setup.{WorkflowEngine}
use infra_steward_gateway.Workflow.Concurrent.{finalize_steps, call_provider_steps}
use infra_steward_gateway.Workflow.Concurrent.Stages.{Stage}
use infra_steward_gateway.Workflow.Concurrent.Ensures.{
  Oks, Ensures, Ensures-returns, Ensures-then, Ensures-quiet, Ensures-modify, Ensures-lift,
}
use infra_steward_gateway.Workflow.Concurrent.Records.{
  IsOpen, IsClosed, require_stored_steps, close_record_steps,
}

module _ (host : Host) (engine : WorkflowEngine) where
  gather_keeps :
      {o : Stage} (P : Stage → Type 0) (hs : List EventHandler) (n : String) (p : EventPayload)
      → P o
      → Ensures host o (gather_steps hs n p) (Oks λ _. P)
  unfolding gather_steps calls
  gather_keeps P [] n p h = Ensures-returns host [] h
  gather_keeps P (handler ∷ hs) n p h =
      Ensures-then host
        (Ensures-quiet host {Q = Oks λ _. P} (calls (safe_invoke handler n p))
          (λ w. let q = safe_invoke-IsQuiet handler n p w in (q.evidence, q.draws)) (λ w. h))
        λ r _ i.
          Ensures-then host (gather_keeps P hs n p i) λ rs _ j. Ensures-returns host (r ∷ rs) j

  notify_keeps :
      {o : Stage} (P : Stage → Type 0) (hs : List EventHandler) (n : String) (p : EventPayload)
      → P o
      → Ensures host o (notify_steps hs n p) (Oks λ _. P)
  unfolding notify_steps
  notify_keeps P [] n p h = Ensures-returns host tt h
  notify_keeps P (handler ∷ hs) n p h =
      Ensures-then host (gather_keeps P (handler ∷ hs) n p h) λ rs _ i.
        Ensures-modify host P (log_results n rs)
          (λ w. let q = log_results-IsQuiet n rs w in (q.evidence, q.draws)) i

  pub publish_keeps :
      {o : Stage} (P : Stage → Type 0) (n : String) (p : EventPayload)
      → P o
      → Ensures host o (publish_steps engine.event_bus n p) (Oks λ _. P)
  unfolding publish_steps
  publish_keeps P n p h =
      Ensures-then host (Ensures-modify host P _ (λ w. (refl, refl)) h)
        λ _ _ i. notify_keeps P (handlers_of engine.event_bus n) n p i

  pub finalize_settles :
      {id tenant : String} {o : Stage} (ref : ℕ) (a : Final)
      → IsOpen host id ref tenant o
      → Ensures host o
          (finalize_steps host engine ref a)
          (Oks λ _ p. IsClosed host id ref tenant a.status p)
  unfolding finalize_steps send_current
  finalize_settles ref a h = Ensures-then host (require_stored_steps host h) λ _ p i.
      Ensures-then host (close_record_steps host a i) λ _ q j.
        Ensures-then host
          (Ensures-modify host (IsClosed host _ ref _ a.status) (send_current engine.producer ref)
            (λ w.
              let (e, t, d) = send_if-evidence engine.producer (w.evidence.objects ref) w in (e, d))
            j)
          λ _ s k. Ensures-returns host ref k

  pub submit_report_keeps :
      {o : Stage} (P : Stage → Type 0) (m : RequestMetadata) (v : Value)
      → P o
      → Ensures host o (at_once (submit_report engine.supervisory_service m v)) (λ _. P)
  unfolding submit_report Exec.◌>>=◌ modify lift pure continue
  submit_report_keeps P m v h =
      Ensures-quiet host (submit_report engine.supervisory_service m v) (λ w. ground arith) λ w. h

  pub call_provider_keeps :
      {o : Stage} (P : Stage → Type 0) (provider : Provider) (m : RequestMetadata) (v : Value)
      → P o
      → Ensures host o (call_provider_steps host engine provider m v) (λ _. P)
  unfolding call_provider_steps
  call_provider_keeps P provider m v h =
      Ensures-then host (Ensures-modify host P _ (λ w. (refl, refl)) h)
        λ _ p i. Ensures-lift host _ i
