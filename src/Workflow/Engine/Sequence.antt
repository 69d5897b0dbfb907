-- ===== src/Workflow/Engine/Sequence.antt =====
-- Requests one after the other, and the rules of the policy seen from outside.
use infra_steward_gateway.Core.{
  ℕ, ◌+◌, ◌≤◌, String, ◌≡◌, ◌≢◌, inl, inr, refl, ap, ◌∙◌, true, false, some, ◌∷◌, ◌++◌, arith,
  Bool-cases,
}
use infra_steward_gateway.PyStr.{truthy}
use infra_steward_gateway.Dict.{update}
use infra_steward_gateway.Exec.{Result, ok}
use infra_steward_gateway.Runtime.{Host}
use infra_steward_gateway.Evidence.Models.{EvidenceRecord}
use infra_steward_gateway.World.{World, outline, published}
use infra_steward_gateway.Tenants.{TenantContext, resolve}
use infra_steward_gateway.Tenants.Laws.{resolve-eq-ok_iff}
use infra_steward_gateway.Policy.Laws.{evaluate-Decided, IsTenant-rule}
use infra_steward_gateway.Evidence.Service.{get_record}
use infra_steward_gateway.Evidence.Service.Invariant.{IsConsistent}
use infra_steward_gateway.Workflow.RequestMetadata.{Request}
use infra_steward_gateway.Workflow.Setup.{WorkflowEngine}
use infra_steward_gateway.Workflow.Messages.{
  Response, required_tenant, effective_jurisdiction, completed_event,
}
use infra_steward_gateway.Workflow.Engine.Outcome.{denied_answer}
use infra_steward_gateway.Workflow.Engine.{process_report}
use infra_steward_gateway.Workflow.Engine.Steps.{At, sends}
use infra_steward_gateway.Workflow.Engine.Judged.{new_run, new_decision, judged_calls}
use infra_steward_gateway.Workflow.Engine.Outcome.{provider_count}
use infra_steward_gateway.Workflow.Engine.Processed.{process_denied, denied_record}
use infra_steward_gateway.Workflow.Engine.Account.{
  tally, is_enrichment, tally-sends, Account, untouched, abandoned, answered,
}
use infra_steward_gateway.Workflow.Engine.Accounted.{process-Account}
use infra_steward_gateway.Workflow.Engine.Guarantees.{
  process_report_isolated, process_report-IsConsistent, tally-append,
}

-- The worlds that a gateway reaches from `u` by processing requests, whatever they come to.
pub data Served (host : Host) (engine : WorkflowEngine) (u : World) : World → Type 0 where
  here : Served host engine u u
  next :
      {w : World} (request : Request)
      → Served host engine u w
      → Served host engine u (process_report host engine request w).1

module _ (host : Host) (engine : WorkflowEngine) where
  pub draws-process_report :
      (request : Request) (w : World) → (process_report host engine request w).1.draws ≡ w.draws + 1
  draws-process_report request w = by_account _ _ (process-Account host w engine request)
    where
      by_account :
          (r : Result Response) (v : World)
          → Account host w engine.producer r v
          → v.draws ≡ w.draws + 1
      by_account _ _ (untouched x v b) = b.draws
      by_account _ _ (abandoned x r t made v h id s n z cs told) = h.draws
      by_account _ _ (answered other v a) = a.at.draws

  Served-draws : {u w : World} → Served host engine u w → u.draws ≤ w.draws
  Served-draws here = omega arith
  Served-draws (next {w = w} request s) =
      omega (arith, Served-draws s, draws-process_report request w)

  Served-IsConsistent :
      {u w : World} → IsConsistent u.evidence → Served host engine u w → IsConsistent w.evidence
  Served-IsConsistent c here = c
  Served-IsConsistent c (next {w = w} request s) =
      process_report-IsConsistent host engine request w (Served-IsConsistent c s)

  -- From a consistent store, if no identifier that is still to be drawn is `k`, what is on file
  -- under `k` is the same after any number of further requests.
  pub Served-keeps :
      {u w : World} (k : String)
      → IsConsistent u.evidence
      → ((n : ℕ) → u.draws ≤ n → k ≢ host.uuid4 n)
      → Served host engine u w
      → get_record k w ≡ get_record k u
  Served-keeps k c unused here = refl
  Served-keeps {u} k c unused (next {w = w} request s) =
      process_report_isolated host engine request w k (Served-IsConsistent c s)
        (unused w.draws (Served-draws s))
      ∙ Served-keeps k c unused s

  effective-some : (j home : String) → truthy j ≡ true → effective_jurisdiction (some j) home ≡ j
  effective-some j home h = rw h

  pub denied_uncalled :
      (request : Request) (w₀ : World) (context : TenantContext) (left : EvidenceRecord) {ref t : ℕ}
      {r : EvidenceRecord} {w : World}
      → At w₀ ref r t
          (published "workflow.completed"
              (completed_event (new_run host engine request w₀ context).request_id "blocked")
            ∷ (sends engine.producer left
                ++ (provider_count (new_run host engine request w₀ context) "none"
                    ∷ judged_calls host engine request w₀ context)))
          w
      → tally is_enrichment (outline w.trace) ≡ tally is_enrichment (outline w₀.trace)
  unfolding tally
  denied_uncalled request w₀ context left h =
      let counts =
        provider_count (new_run host engine request w₀ context) "none"
        ∷ judged_calls host engine request w₀ context in
      omega (
        arith,
        ap (tally is_enrichment) h.calls_made,
        tally-append is_enrichment (sends engine.producer left ++ counts) (outline w₀.trace),
        tally-sends is_enrichment engine.producer left counts refl,
      )

  -- A request whose tenant resolves and which names a jurisdiction, one that is not empty, other
  -- than its tenant's home is denied, whatever its content: the answer is the blocked one, and no
  -- provider is called.
  pub process_report_elsewhere :
      (request : Request) (w₀ : World) (context : TenantContext) (name j : String)
      → required_tenant request ≡ ok name
      → resolve host name ≡ ok context
      → request.jurisdiction ≡ some j
      → truthy j ≡ true
      → j ≢ context.jurisdiction
      → ((process_report host engine request w₀).0
          ≡ ok (update (new_run host engine request w₀ context).response denied_answer))
        × (tally is_enrichment (outline (process_report host engine request w₀).1.trace)
            ≡ tally is_enrichment (outline w₀.trace))
  unfolding tally
  process_report_elsewhere request w₀ context name j named resolved from present away =
      let (_, tenant, _) = (resolve-eq-ok_iff host name context).0 resolved in
      let (rule, found, _, home) = IsTenant-rule tenant in
      let d = new_decision host engine request w₀ context in
      let named_j : effective_jurisdiction request.jurisdiction context.jurisdiction ≡ j =
        rw from (effective-some j context.jurisdiction present) in
      let decided =
        evaluate-Decided engine.policy_service context.tenant_id request.scenario
          request.report_type
          (some (effective_jurisdiction request.jurisdiction context.jurisdiction))
          (host.utcnow (w₀.ticks + 1)) found in
      let denied : d.allowed ≡ false = elim (Bool-cases d.allowed) [
        | inl yes_allowed ↦ elim ((decided.verdict.0 yes_allowed).1) [
          | inl absent ↦ absurd (cc)
          | inr here_home ↦ absurd (away (ground (arith, here_home, named_j, home)))
        ]
        | inr e ↦ e
      ] in
      let ends = process_denied host engine request w₀ context name named resolved denied in
      (
        ap (λ p. p.0) ends.runs,
        rw ends.runs (
            denied_uncalled request w₀ context (denied_record host engine request w₀ context name)
              ends.holds),
      )
