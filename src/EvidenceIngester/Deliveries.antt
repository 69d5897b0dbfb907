-- ===== src/EvidenceIngester/Deliveries.antt =====
-- The gateway's records at the ingester: the ingester after the posts of the records that the gateway
-- sent, in the order in which it sent them.
use mathlib.Core.List.{append_assoc}
use infra_steward_gateway.Core.{
  ◌≢◌, String, ◌≡◌, refl, ap, ◌∙◌, Option, none, some, List, [], ◌∷◌, ◌++◌, eq_iff, sym,
}
use infra_steward_gateway.Dict.{lookup}
use infra_steward_gateway.Value.{Value, text}
use infra_steward_gateway.Exec.{Result, ok, err}
use infra_steward_gateway.Runtime.{Host}
use infra_steward_gateway.World.{World, Call, outline, sent, counted, observed}
use infra_steward_gateway.Evidence.Models.{EvidenceRecord, serializable_dict}
use infra_steward_gateway.Evidence.Producer.{Ingester}
use infra_steward_gateway.Evidence.Service.{get_record}
use infra_steward_gateway.Workflow.RequestMetadata.{Request}
use infra_steward_gateway.Workflow.Setup.{WorkflowEngine}
use infra_steward_gateway.Workflow.Messages.{Response}
use infra_steward_gateway.Workflow.Engine.{process_report}
use infra_steward_gateway.Workflow.Engine.Account.{
  tally, is_sent, Account, Answer, untouched, abandoned, answered,
}
use infra_steward_gateway.Workflow.Engine.Accounted.{process-Account}
use infra_steward_gateway.Workflow.Engine.Guarantees.{ok_injective, At-get_record}
use infra_steward_gateway.EvidenceIngester.Domain.{EvidenceRecord as StoredRecord}
use infra_steward_gateway.EvidenceIngester.Handlers.{EvidenceHandler, one, serve_evidence}
use infra_steward_gateway.EvidenceIngester.Laws.{IsAddressable, get_request, post_request, get-post}

-- The body of the post of a record, if the record has a JSON form.
abbrev pub body_of : (Value → String) → Result Value → Option String
body_of json (ok v) = some (json v)
body_of json (err x) = none

module _ (decode : String → Option StoredRecord)
    (iterate : List StoredRecord → List StoredRecord) where
  abbrev pub deliver : Option String → EvidenceHandler → EvidenceHandler
  deliver none h = h
  deliver (some body) h = (serve_evidence decode iterate (post_request body) h).1

  module _ (json : Value → String) (ingester : Ingester) where
    -- The newest call comes first in the trace.
    unfoldable pub ingest_all : List Call → EvidenceHandler → EvidenceHandler
    ingest_all [] h = h
    ingest_all (sent r ∷ cs) h =
        deliver (body_of json (serializable_dict ingester.json ingester.loads r)) (ingest_all cs h)
    ingest_all (_ ∷ cs) h = ingest_all cs h

    ingest_all-later :
        (later cs : List Call) (h : EvidenceHandler)
        → tally is_sent later ≡ 0
        → ingest_all (later ++ cs) h ≡ ingest_all cs h
    unfolding ingest_all tally
    ingest_all-later [] cs h e = refl
    ingest_all-later (sent r ∷ later) cs h e = absurd (cc)
    ingest_all-later (counted n l ∷ later) cs h e = ingest_all-later later cs h e
    ingest_all-later (observed n l x ∷ later) cs h e = ingest_all-later later cs h e
    ingest_all-later (_ ∷ later) cs h e = ingest_all-later later cs h e

    -- A record gets through with its identifier, tenant and status.
    pub record Carried (r : EvidenceRecord) : Type 0 where
      pub value : Value
      pub stored : StoredRecord
      pub serialized : serializable_dict ingester.json ingester.loads r ≡ ok value
      pub decoded : decode (json value) ≡ some stored
      pub same_id : stored.request_id ≡ r.request_id
      pub same_tenant : stored.tenant_id ≡ r.tenant_id
      pub same_status : stored.status ≡ r.status

    module _ (host : Host) (engine : WorkflowEngine) (request : Request) (w₀ : World)
        (h₀ : EvidenceHandler) where
      -- What the gateway and the ingester have of a request.
      pub record Ingested (response : Response) (w : World) : Type 0 where
        pub left : EvidenceRecord
        pub stored : StoredRecord
        pub found : get_record (host.uuid4 w₀.draws) w ≡ some left
        pub served :
            (serve_evidence decode iterate
              (get_request (host.uuid4 w₀.draws))
              (ingest_all (outline w.trace) h₀)).0
            ≡ record { code = 200; content = one stored }
        pub same_tenant : stored.tenant_id ≡ left.tenant_id
        pub same_status : stored.status ≡ left.status
        pub shown : lookup "status" response ≡ some (text stored.status)

      before_post : List Call → EvidenceHandler
      before_post earlier = ingest_all (earlier ++ outline w₀.trace) h₀

      ingested_trace :
          (response : Response) (w : World) (a : Answer host w₀ (some ingester) response w)
          → (carried : Carried a.left)
          → ingest_all (outline w.trace) h₀
            ≡ deliver (some (json carried.value)) (before_post a.earlier)
      unfolding ingest_all before_post
      ingested_trace response w a carried =
          ap (λ cs. ingest_all cs h₀)
            (a.at.calls_made
              ∙ ap (λ m. m ++ outline w₀.trace) a.sent_off
              ∙ append_assoc a.later _ (outline w₀.trace))
          ∙ ingest_all-later a.later _ h₀ a.sent_last
          ∙ ap (λ s. deliver (body_of json s) (before_post a.earlier)) carried.serialized

      Answer-Ingested :
          (response : Response) (w : World) (a : Answer host w₀ (some ingester) response w)
          → IsAddressable (host.uuid4 w₀.draws)
          → Carried a.left
          → Ingested response w
      Answer-Ingested response w a asked carried = record {
        left = a.left;
        stored = carried.stored;
        found = At-get_record id a.at a.request;
        served =
            ap (λ h. (serve_evidence decode iterate (get_request id) h).0)
              (ingested_trace response w a carried)
            ∙ (get-post decode iterate (json carried.value) carried.stored (before_post a.earlier)
                id carried.decoded named asked).1
            ∙ rw ((eq_iff carried.stored.request_id id).1 same) refl;
        same_tenant = carried.same_tenant;
        same_status = carried.same_status;
        shown = a.shown ∙ ap (λ s. some (text s)) (sym (carried.same_status ∙ a.closed));
      }
        where
          id : String
          id = host.uuid4 w₀.draws

          same : carried.stored.request_id ≡ id
          same = carried.same_id ∙ a.request

          named : carried.stored.request_id ≢ ""
          named e = asked.0 (sym same ∙ e)

      -- The gateway sends to this ingester, `process_report` answers, the request's identifier can be
      -- asked for in a path, and the record on file gets through with its identifier, tenant and
      -- status. Then, once the ingester has taken the records that the gateway sent, in their order and
      -- from whatever state, it serves the identifier with a record that has the tenant and the status
      -- of the one on file at the gateway, and the status is that of the gateway's answer.
      pub process_report-Ingested :
          (response : Response)
          → engine.producer ≡ some ingester
          → (process_report host engine request w₀).0 ≡ ok response
          → IsAddressable (host.uuid4 w₀.draws)
          → ((r : EvidenceRecord)
              → get_record (host.uuid4 w₀.draws) (process_report host engine request w₀).1 ≡ some r
              → Carried r)
          → Ingested response (process_report host engine request w₀).1
      process_report-Ingested response made e asked carried =
          by_account _ made _ _ (process-Account host w₀ engine request) e carried
        where
          by_account :
              (p : Option Ingester)
              → p ≡ some ingester
              → (r : Result Response) (w : World) → Account host w₀ p r w
              → r ≡ ok response
              → ((s : EvidenceRecord) → get_record (host.uuid4 w₀.draws) w ≡ some s → Carried s)
              → Ingested response w
          by_account p m _ _ (untouched x w b) e carried = absurd (cc)
          by_account p m _ _ (abandoned x r t made w h id s n z cs told) e carried = absurd (cc)
          by_account p m _ _ (answered other w a) e carried =
              let b : Answer host w₀ (some ingester) other w = rw m at a in
              rw (sym (ok_injective e))
                (Answer-Ingested other w b asked (carried b.left (At-get_record _ b.at b.request)))
