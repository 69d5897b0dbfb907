-- ===== src/Workflow/Concurrent/Settled.antt =====
-- What a request comes to from its start, whatever other requests do between its steps.
use infra_steward_gateway.Core.{ℕ, String, ◌≡◌, refl, some, Option-cases, inl, inr, arith}
use infra_steward_gateway.PyStr.{normalise}
use infra_steward_gateway.Tenants.Laws.{resolve-eq-ok_iff}
use infra_steward_gateway.Exec.{Exc, Result, ok, err, calls}
use infra_steward_gateway.Runtime.{Host}
use infra_steward_gateway.World.{now}
use infra_steward_gateway.Tenants.{resolve}
use infra_steward_gateway.Workflow.RequestMetadata.{Request}
use infra_steward_gateway.Workflow.Setup.{WorkflowEngine}
use infra_steward_gateway.Workflow.Messages.{Run, Response, base_response, required_tenant}
use infra_steward_gateway.Workflow.Concurrent.{evaluate_request_steps, process_report_steps}
use infra_steward_gateway.Workflow.Concurrent.Stages.{Stage, unborn}
use infra_steward_gateway.Workflow.Concurrent.Ensures.{
  Oks, Ensures, Ensures-returns, Ensures-if, Ensures-weaken, Ensures-bind, Ensures-then,
  Ensures-quiet, Ensures-modify, Ensures-lift,
}
use infra_steward_gateway.Workflow.Concurrent.Records.{
  IsNamed, IsOpen, draw_steps, start_record_steps, add_event_steps,
}
use infra_steward_gateway.Workflow.Concurrent.Calls.{publish_keeps}
use infra_steward_gateway.Workflow.Concurrent.Requests.{
  IsAnswered, deny_answers, route_answers, Open, Tried,
}

required_tenant-eq-ok :
    (request : Request) {t : String} → required_tenant request ≡ ok t → request.tenant_id ≡ some t
required_tenant-eq-ok request e = elim (Option-cases request.tenant_id) [
  | inl i ↦ ground arith
  | inr (u, i) ↦ ground arith
]

-- The tenant that a request names.
pub record IsTenantOf (request : Request) (tenant : String) : Type 0 where
  pub name : String
  pub given : request.tenant_id ≡ some name
  pub canonical : tenant ≡ normalise name

module _ (host : Host) where
  -- An exception got out: the request has no record, or one that is open.
  pub data IsGivenUp : Stage → Type 0 where
    before_start : {id : String} {o : Stage} → IsNamed host id o → IsGivenUp o
    after_start :
        {id tenant : String} {ref : ℕ} {o : Stage} → IsOpen host id ref tenant o → IsGivenUp o

  -- What the request has come to with its result.
  pub data IsSettled (request : Request) : Result Response → Stage → Type 0 where
    is_settled :
        {tenant : String} {response : Response} {o : Stage}
        → IsTenantOf request tenant
        → IsAnswered host tenant response o
        → IsSettled request (ok response) o
    is_given_up : {e : Exc} {o : Stage} → IsGivenUp o → IsSettled request (err e) o

module _ (host : Host) (engine : WorkflowEngine) (request : Request) where
  -- The policy has been evaluated: the record is open, and the response has what it has in every case.
  record Ready (run : Run) (o : Stage) : Type 0 where
    asked : IsTenantOf request run.metadata.tenant_id
    owned : Open host run o
    base : run.response ≡ base_response host run.request_id run.metadata run.decision

  abbrev Evaluated : Result Run → Stage → Type 0
  Evaluated (ok run) o = Ready run o
  Evaluated (err e) o = IsGivenUp host o

  evaluate_request_ready :
      Ensures host unborn (evaluate_request_steps host engine request) Evaluated
  unfolding evaluate_request_steps calls
  evaluate_request_ready =
      let name = required_tenant request in
      Ensures-then host (draw_steps host) λ id o₁ h₁.
        Ensures-bind host
          (Ensures-lift host {Q = λ r p. (name ≡ r) × IsNamed host id p} name (refl, h₁))
          (λ t o₂ (named, h₂).
            Ensures-bind host
              (Ensures-lift host {Q = λ r p. (resolve host t ≡ r) × IsNamed host id p}
                (resolve host t) (refl, h₂))
              (λ context o₃ (resolved, h₃).
                let (_, tenant, key) = (resolve-eq-ok_iff host t context).0 resolved in
                let Open = IsOpen host id in
                Ensures-then host (publish_keeps host engine (IsNamed host id) _ _ h₃) λ _ o₄ h₄.
                  Ensures-then host (start_record_steps host _ h₄ refl) λ ref o₅ h₅.
                    Ensures-then host
                      (Ensures-quiet host {Q = Oks λ _. Open ref context.tenant_id}
                        (calls (now host)) (λ w. (refl, refl)) (λ w. h₅))
                      λ time o₆ h₆. Ensures-then host (add_event_steps host _ _ h₆) λ _ o₇ h₇.
                        Ensures-then host
                          (Ensures-modify host (Open ref context.tenant_id) _ (λ w. (refl, refl))
                            h₇)
                          λ _ o₈ h₈.
                            Ensures-then host
                              (publish_keeps host engine (Open ref context.tenant_id) _ _ h₈)
                              λ _ o₉ h₉. Ensures-returns host _ (record {
                                asked = record {
                                  name = t;
                                  given = required_tenant-eq-ok request named;
                                  canonical = key;
                                };
                                owned = h₉;
                                base = refl;
                              }))
              (λ e p i. before_start i.1))
          (λ e p i. before_start i.1)

  Tried-IsSettled :
      (run : Run)
      → IsTenantOf request run.metadata.tenant_id
      → (r : Result Response) (o : Stage) → Tried host run r o
      → IsSettled host request r o
  Tried-IsSettled run asked (ok response) o h = is_settled asked h
  Tried-IsSettled run asked (err e) o h = is_given_up (after_start h)

  Oks-IsSettled :
      (run : Run)
      → IsTenantOf request run.metadata.tenant_id
      → (r : Result Response) (o : Stage) → Oks (IsAnswered host run.metadata.tenant_id) r o
      → IsSettled host request r o
  Oks-IsSettled run asked (ok response) o h = is_settled asked h
  Oks-IsSettled run asked (err e) o h = absurd h

  pub process_report_settles :
      Ensures host unborn (process_report_steps host engine request) (IsSettled host request)
  unfolding process_report_steps
  process_report_settles =
      Ensures-bind host evaluate_request_ready
        (λ run o h.
          Ensures-if host run.decision.allowed
            (Ensures-weaken host (route_answers host engine run h.base h.owned)
              (Tried-IsSettled run h.asked))
            (Ensures-weaken host (deny_answers host engine run h.base h.owned)
              (Oks-IsSettled run h.asked)))
        (λ e o h. is_given_up h)
