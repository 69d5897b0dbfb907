-- ===== src/Workflow/Engine/Guarantees.antt =====
-- `process_report` as a caller and an auditor see it, whichever way it ends.
use infra_steward_gateway.Core.{
  ℕ, ◌+◌, ◌<◌, ◌≤◌, String, ◌≡◌, ◌≢◌, inl, inr, sym, ap, ◌∙◌, Bool, true, refl, some, List, [], ◌∷◌,
  ◌++◌, arith, Bool-cases, Option-cases, eq_iff, ◌==◌,
}
use infra_steward_gateway.Dict.{lookup}
use infra_steward_gateway.Value.{text}
use infra_steward_gateway.Exec.{Result, ok}
use infra_steward_gateway.Runtime.{Host}
use infra_steward_gateway.Metrics.{is_misplaced}
use infra_steward_gateway.World.{World, Call, outline}
use infra_steward_gateway.Evidence.Models.{EvidenceRecord}
use infra_steward_gateway.Evidence.Service.{get_record}
use infra_steward_gateway.Evidence.Service.Invariant.{IsConsistent}
use infra_steward_gateway.Workflow.RequestMetadata.{Request}
use infra_steward_gateway.Workflow.Setup.{WorkflowEngine}
use infra_steward_gateway.Workflow.Messages.{Response}
use infra_steward_gateway.Workflow.Engine.{process_report}
use infra_steward_gateway.Workflow.Engine.Steps.{At}
use infra_steward_gateway.Workflow.Engine.Opening.{Before}
use infra_steward_gateway.Workflow.Engine.Account.{
  tally, policy_outcome, provider_outcome, is_enrichment, IsFinalStatus, Account, untouched,
  abandoned, answered,
}
use infra_steward_gateway.Workflow.Engine.Accounted.{process-Account}

pub tally-append :
    (f : Call → Bool) (cs ds : List Call) → tally f (cs ++ ds) ≡ tally f cs + tally f ds
unfolding tally
tally-append f [] ds = omega arith
tally-append f (c ∷ cs) ds = ground (arith, tally-append f cs ds)

tally_none :
    (f : Call → Bool)
    → ((c : Call) → f c ≡ true → is_misplaced c ≡ true)
    → (cs : List Call) → tally is_misplaced cs ≡ 0
    → tally f cs ≡ 0
unfolding tally
tally_none f within [] z = refl
tally_none f within (c ∷ cs) z = ground (arith, within c, tally_none f within cs)

-- The record that a request files under its identifier.
pub At-get_record :
    {w₀ w : World} {ref t : ℕ} {r : EvidenceRecord} {made : List Call} (id : String)
    → At w₀ ref r t made w
    → r.request_id ≡ id
    → get_record id w ≡ some r
unfolding get_record
At-get_record id h e = ground (arith, h.stored, h.object)

-- Other requests' records stay as they were.
At-others :
    {w₀ w : World} {t : ℕ} {r : EvidenceRecord} {made : List Call} (k : String)
    → IsConsistent w₀.evidence
    → At w₀ w₀.evidence.next r t made w
    → k ≢ r.request_id
    → get_record k w ≡ get_record k w₀
unfolding get_record
At-others {w₀} {w} k c h apart = elim (Option-cases (lookup k w₀.evidence.store)) [
  | inl e ↦ ground (arith, h.entries k apart)
  | inr (ref, e) ↦
      let below : ref < w₀.evidence.next = (c.entry k ref e).0 in
      let same : w.evidence.objects ref ≡ w₀.evidence.objects ref =
        h.others ref (λ i. absurd (omega (arith, below, i))) in
      ground (arith, h.entries k apart, same)
]

At-IsConsistent :
    {w₀ w : World} {t : ℕ} {r : EvidenceRecord} {made : List Call}
    → IsConsistent w₀.evidence
    → At w₀ w₀.evidence.next r t made w
    → IsConsistent w.evidence
At-IsConsistent {w₀} {w} {r = r} c h = record {
  entry = λ k ref e. elim (Bool-cases (k == r.request_id)) [
    | inl same ↦
        let id : k ≡ r.request_id = (eq_iff k r.request_id).0 same in
        let here : ref ≡ w₀.evidence.next = ground (arith, h.stored, id, e) in
        (omega (arith, here, h.next), cc (here, h.object, id))
    | inr other ↦
        let apart : k ≢ r.request_id = λ id. ground (arith, eq_iff k r.request_id) in
        let (below, filed) = c.entry k ref (cc (h.entries k apart)) in
        (
          omega (arith, below, h.next),
          cc (filed, h.others ref (λ i. absurd (omega (arith, below, i)))),
        )
  ];
}

pub untouched_get : {w₀ w : World} (k : String) → Before w₀ [] w → get_record k w ≡ get_record k w₀
unfolding get_record
untouched_get k b = rw b.evidence

pub ok_injective {ℓ} : {A : Type ℓ} {a b : A} → ok a ≡ ok b → a ≡ b
ok_injective e = cc

module _ (host : Host) (engine : WorkflowEngine) (request : Request) (w₀ : World) where
  -- What an answer tells agrees with what is on file.
  pub record Filed (response : Response) (w : World) : Type 0 where
    pub status : String
    pub left : EvidenceRecord
    pub shown : lookup "status" response ≡ some (text status)
    pub found : get_record (host.uuid4 w₀.draws) w ≡ some left
    pub closed : left.status ≡ status
    pub final : IsFinalStatus status

  -- Where `process_report` returns, its response shows one of the four final statuses, and the
  -- record on file under the request's identifier is closed with that status.
  pub process_report-Filed :
      (response : Response)
      → (process_report host engine request w₀).0 ≡ ok response
      → Filed response (process_report host engine request w₀).1
  process_report-Filed response e = by_account _ _ (process-Account host w₀ engine request) e
    where
      by_account :
          (r : Result Response) (w : World)
          → Account host w₀ engine.producer r w
          → r ≡ ok response
          → Filed response w
      by_account _ _ (untouched x w b) e = absurd (cc)
      by_account _ _ (abandoned x r t made w h id s n z cs told) e = absurd (cc)
      by_account _ _ (answered other w a) e = record {
        status = a.status;
        left = a.left;
        shown = ap (lookup "status") (sym (ok_injective e)) ∙ a.shown;
        found = At-get_record (host.uuid4 w₀.draws) a.at a.request;
        closed = a.closed;
        final = a.final;
      }

  -- From a consistent store, whatever a request comes to, what is on file under an identifier other
  -- than the request's is as it was.
  pub process_report_isolated :
      (k : String)
      → IsConsistent w₀.evidence
      → k ≢ host.uuid4 w₀.draws
      → get_record k (process_report host engine request w₀).1 ≡ get_record k w₀
  process_report_isolated k c apart = by_account _ _ (process-Account host w₀ engine request)
    where
      by_account :
          (r : Result Response) (w : World)
          → Account host w₀ engine.producer r w
          → get_record k w ≡ get_record k w₀
      by_account _ _ (untouched x w b) = untouched_get k b
      by_account _ _ (abandoned x r t made w h id s n z cs told) = At-others k c h (λ e. apart (cc))
      by_account _ _ (answered other w a) = At-others k c a.at (λ e. apart (cc (a.request)))

  -- A request keeps the store consistent, so the next one starts from a store that is.
  pub process_report-IsConsistent :
      IsConsistent w₀.evidence → IsConsistent (process_report host engine request w₀).1.evidence
  process_report-IsConsistent c = by_account _ _ (process-Account host w₀ engine request)
    where
      by_account :
          (r : Result Response) (w : World)
          → Account host w₀ engine.producer r w
          → IsConsistent w.evidence
      by_account _ _ (untouched x w b) = rw b.evidence c
      by_account _ _ (abandoned x r t made w h id s n z cs told) = At-IsConsistent c h
      by_account _ _ (answered other w a) = At-IsConsistent c a.at

  -- Each answer is counted once as a policy outcome and once as a provider outcome, and at most one
  -- provider was called for it.
  pub process_report_counted :
      (response : Response)
      → (process_report host engine request w₀).0 ≡ ok response
      → let before = outline w₀.trace in
        let after = outline (process_report host engine request w₀).1.trace in
        (tally policy_outcome after ≡ 1 + tally policy_outcome before)
        × (tally provider_outcome after ≡ 1 + tally provider_outcome before)
        × (tally is_enrichment after ≤ 1 + tally is_enrichment before)
  process_report_counted response e = by_account _ _ (process-Account host w₀ engine request) e
    where
      by_account :
          (r : Result Response) (w : World)
          → Account host w₀ engine.producer r w
          → r ≡ ok response
          → let before = outline w₀.trace in
            let after = outline w.trace in
            (tally policy_outcome after ≡ 1 + tally policy_outcome before)
            × (tally provider_outcome after ≡ 1 + tally provider_outcome before)
            × (tally is_enrichment after ≤ 1 + tally is_enrichment before)
      by_account _ _ (untouched x w b) e = absurd (cc)
      by_account _ _ (abandoned x r t made w h id s n z cs told) e = absurd (cc)
      by_account _ _ (answered other w a) e = rw a.at.calls_made (
          omega (
            arith,
            tally-append policy_outcome a.made (outline w₀.trace),
            tally-append provider_outcome a.made (outline w₀.trace),
            tally-append is_enrichment a.made (outline w₀.trace),
            a.policy_counted,
            a.provider_counted,
            a.provider_called,
          ))

  -- Of a class of calls that has none but misplaced calls of metrics, a request makes none: each metric
  -- that it calls is one of the three governance counters, with the labels that the counter declares.
  pub process_report_without :
      (f : Call → Bool)
      → ((c : Call) → f c ≡ true → is_misplaced c ≡ true)
      → tally f (outline (process_report host engine request w₀).1.trace)
        ≡ tally f (outline w₀.trace)
  process_report_without f within = by_account _ _ (process-Account host w₀ engine request)
    where
      by_calls :
          (made : List Call) (w : World)
          → outline w.trace ≡ made ++ outline w₀.trace
          → tally is_misplaced made ≡ 0
          → tally f (outline w.trace) ≡ tally f (outline w₀.trace)
      by_calls made w e z =
          rw e (omega (arith, tally-append f made (outline w₀.trace), tally_none f within made z))

      by_account :
          (r : Result Response) (w : World)
          → Account host w₀ engine.producer r w
          → tally f (outline w.trace) ≡ tally f (outline w₀.trace)
      by_account _ _ (untouched x w b) = ap (tally f) b.calls_made
      by_account _ _ (abandoned x r t made w h id s n z cs told) = by_calls made w h.calls_made z
      by_account _ _ (answered other w a) = by_calls a.made w a.at.calls_made a.well_placed
