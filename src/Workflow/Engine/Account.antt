-- ===== src/Workflow/Engine/Account.antt =====
-- The counts of calls in the trace, and a type of the ends that a request can come to: nothing has
-- happened, the record is abandoned after the evaluation, or there is an answer.
use infra_steward_gateway.Core.{
  ℕ, suc, ◌≤◌, String, ◌≡◌, ◌⊎◌, refl, Bool, true, false, ◌==◌, ◌||◌, Option, none, some, List, [],
  ◌∷◌, ◌++◌, if◌then◌else◌,
}
use infra_steward_gateway.Dict.{lookup, keys}
use infra_steward_gateway.Value.{text}
use infra_steward_gateway.Exec.{Exec, Exc, Result, ok, err}
use infra_steward_gateway.Exec.Ends.{Ends}
use infra_steward_gateway.Runtime.{Host}
use infra_steward_gateway.Metrics.{is_misplaced}
use infra_steward_gateway.World.{World, Call, counted, enriched, sent}
use infra_steward_gateway.Evidence.Models.{EvidenceRecord, policy_evaluated}
use infra_steward_gateway.Evidence.Producer.{Ingester}
use infra_steward_gateway.Evidence.Service.Journal.{Command, opened, noted}
use infra_steward_gateway.Evidence.Service.Story.{Story, opens, notes, open_record, closed_record}
use infra_steward_gateway.Tenants.{TenantContext}
use infra_steward_gateway.Workflow.RequestMetadata.{Request}
use infra_steward_gateway.Workflow.Setup.{WorkflowEngine}
use infra_steward_gateway.Workflow.Messages.{Response, start_arguments, policy_details}
use infra_steward_gateway.Workflow.Engine.Judged.{new_metadata, new_decision, judged_record}
use infra_steward_gateway.Workflow.Engine.Steps.{At, sends}
use infra_steward_gateway.Workflow.Engine.Opening.{Before}

-- How many of the calls pass a test.
unfoldable pub tally : (Call → Bool) → List Call → ℕ
tally f [] = 0
tally f (c ∷ cs) = let n = tally f cs in if f c then suc n else n

abbrev pub is_counter : String → Call → Bool
is_counter name (counted n l) = n == name
is_counter name _ = false

abbrev pub is_sent : Call → Bool
is_sent (sent r) = true
is_sent _ = false

abbrev pub is_enrichment : Call → Bool
is_enrichment (enriched c m p) = true
is_enrichment _ = false

abbrev pub policy_outcome : Call → Bool
policy_outcome = is_counter "gateway_policy_outcomes_total"

abbrev pub provider_outcome : Call → Bool
provider_outcome = is_counter "gateway_provider_outcomes_total"

pub tally-sends :
    (f : Call → Bool) (producer : Option Ingester) (r : EvidenceRecord) (cs : List Call)
    → f (sent r) ≡ false
    → tally f (sends producer r ++ cs) ≡ tally f cs
unfolding tally
tally-sends f none r cs e = refl
tally-sends f (some i) r cs e = rw e

abbrev pub IsFinalStatus : String → Type 0
IsFinalStatus s =
    (s ≡ "completed") ⊎ (s ≡ "blocked") ⊎ (s ≡ "fallback") ⊎ (s ≡ "blocked_provider_failure")

-- The names in a response, by its status.
unfoldable pub response_keys : String → List String
response_keys status =
    let submission = if status == "completed" then "supervisory_submission" ∷ [] else [] in
    let result = if status == "fallback" then [] else "result" ∷ [] in
    let failure =
      if status == "fallback" || status == "blocked_provider_failure"
      then "error" ∷ "fallback_strategy" ∷ []
      else [] in
    "request_id"
    ∷ "tenant_id"
    ∷ "policy_decision"
    ∷ "provider_used"
    ∷ "status"
    ∷ (result ++ (submission ++ failure))

module _ (host : Host) (w₀ : World) (producer : Option Ingester) where
  -- What an answer comes with: a record of the request, closed with the status that the response
  -- shows, one policy outcome and one provider outcome counted, and at most one provider called.
  pub record Answer (response : Response) (w : World) : Type 0 where
    pub status : String
    pub left : EvidenceRecord
    pub time : ℕ
    pub made : List Call
    pub at : At w₀ w₀.evidence.next left time made w
    pub request : left.request_id ≡ host.uuid4 w₀.draws
    pub shown : lookup "status" response ≡ some (text status)
    pub closed : left.status ≡ status
    pub final : IsFinalStatus status
    pub named : keys response ≡ response_keys status
    pub identified : lookup "request_id" response ≡ some (text (host.uuid4 w₀.draws))
    pub owned : lookup "tenant_id" response ≡ some (text left.tenant_id)
    pub policy_counted : tally (is_counter "gateway_policy_outcomes_total") made ≡ 1
    pub provider_counted : tally (is_counter "gateway_provider_outcomes_total") made ≡ 1
    pub provider_called : tally is_enrichment made ≤ 1
    pub well_placed : tally is_misplaced made ≡ 0
    pub later : List Call
    pub earlier : List Call
    pub sent_off : made ≡ later ++ (sends producer left ++ earlier)
    pub sent_last : tally is_sent later ≡ 0
    pub story : List Command
    pub told : Story host (host.uuid4 w₀.draws) story closed_record left

  pub data Account : Result Response → World → Type 0 where
    untouched : (x : Exc) (w : World) → Before w₀ [] w → Account (err x) w
    abandoned :
        (x : Exc) (r : EvidenceRecord) (t : ℕ) (made : List Call) (w : World)
        → At w₀ w₀.evidence.next r t made w
        → r.request_id ≡ host.uuid4 w₀.draws
        → r.status ≡ "in_progress"
        → tally is_enrichment made ≡ 0
        → tally is_misplaced made ≡ 0
        → (cs : List Command) → Story host (host.uuid4 w₀.draws) cs open_record r
        → Account (err x) w
    answered : (response : Response) (w : World) → Answer response w → Account (ok response) w

  pub Account-of :
      (m : Exec World Response) {r : Result Response} {Q : World → Type 0}
      → Ends m w₀ r Q
      → ((w : World) → Q w → Account r w)
      → Account (m w₀).0 (m w₀).1
  Account-of m h k = rw h.runs (k h.after h.holds)

module _ (host : Host) (engine : WorkflowEngine) (request : Request) (w₀ : World)
    (context : TenantContext) where
  -- What a request that reaches the decision has asked of the evidence service by then.
  abbrev pub judged_story : List Command
  judged_story =
      opened (host.uuid4 w₀.draws) (start_arguments (new_metadata host engine request w₀ context))
      ∷ noted (host.uuid4 w₀.draws) policy_evaluated
          (policy_details (new_decision host engine request w₀ context))
      ∷ []

  pub judged_Story :
      Story host
        (host.uuid4 w₀.draws)
        judged_story
        open_record
        (judged_record host engine request w₀ context)
  judged_Story =
      notes policy_evaluated _ _
        (opens (start_arguments (new_metadata host engine request w₀ context)) _)
