-- ===== src/Workflow/Engine/Shaped.antt =====
-- The shape of the responses of `process_report`.
use infra_steward_gateway.Core.{String, ◌≡◌, ap, sym, ◌∙◌, some}
use infra_steward_gateway.Dict.{lookup, keys}
use infra_steward_gateway.Value.{text}
use infra_steward_gateway.Exec.{Result, ok}
use infra_steward_gateway.Runtime.{Host}
use infra_steward_gateway.World.{World}
use infra_steward_gateway.Evidence.Models.{EvidenceRecord}
use infra_steward_gateway.Evidence.Service.{get_record}
use infra_steward_gateway.Workflow.RequestMetadata.{Request}
use infra_steward_gateway.Workflow.Setup.{WorkflowEngine}
use infra_steward_gateway.Workflow.Messages.{Response}
use infra_steward_gateway.Workflow.Engine.{process_report}
use infra_steward_gateway.Workflow.Engine.Account.{
  IsFinalStatus, Account, untouched, abandoned, answered, response_keys,
}
use infra_steward_gateway.Workflow.Engine.Accounted.{process-Account}
use infra_steward_gateway.Workflow.Engine.Guarantees.{ok_injective, At-get_record}

module _ (host : Host) (engine : WorkflowEngine) (request : Request) (w₀ : World) where
  pub record Shaped (response : Response) (w : World) : Type 0 where
    pub status : String
    pub left : EvidenceRecord
    pub final : IsFinalStatus status
    pub shown : lookup "status" response ≡ some (text status)
    pub named : keys response ≡ response_keys status
    pub identified : lookup "request_id" response ≡ some (text (host.uuid4 w₀.draws))
    pub owned : lookup "tenant_id" response ≡ some (text left.tenant_id)
    pub found : get_record (host.uuid4 w₀.draws) w ≡ some left

  -- Where `process_report` returns, its status is one of the four final ones and tells what else is in
  -- the response, each once and in this order: the identifier of the request, its tenant, the policy
  -- decision, the provider used and the status; a result unless the status is "fallback"; the
  -- submission if it is "completed"; the error and the strategy if a provider failed. The identifier is
  -- the one under which the record is on file, and the tenant is the record's.
  pub process_report-Shaped :
      (response : Response)
      → (process_report host engine request w₀).0 ≡ ok response
      → Shaped response (process_report host engine request w₀).1
  process_report-Shaped response e = by_account _ _ (process-Account host w₀ engine request) e
    where
      by_account :
          (r : Result Response) (w : World)
          → Account host w₀ engine.producer r w
          → r ≡ ok response
          → Shaped response w
      by_account _ _ (untouched x w b) e = absurd (cc)
      by_account _ _ (abandoned x r t made w h id s n z cs told) e = absurd (cc)
      by_account _ _ (answered other w a) e =
          let same = sym (ok_injective e) in
          record {
            status = a.status;
            left = a.left;
            final = a.final;
            shown = ap (lookup "status") same ∙ a.shown;
            named = ap keys same ∙ a.named;
            identified = ap (lookup "request_id") same ∙ a.identified;
            owned = ap (lookup "tenant_id") same ∙ a.owned;
            found = At-get_record (host.uuid4 w₀.draws) a.at a.request;
          }
