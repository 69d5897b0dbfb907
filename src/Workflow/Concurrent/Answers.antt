-- ===== src/Workflow/Concurrent/Answers.antt =====
-- What the answers of overlapping requests tell, and what is on file for them.
use infra_steward_gateway.Core.{
  ℕ, ◌<◌, String, ◌≡◌, refl, ◌∙◌, some, List, [], ◌∷◌, map, inl, inr, arith, Option-cases,
}
use infra_steward_gateway.PyStr.{normalise}
use infra_steward_gateway.Dict.{lookup}
use infra_steward_gateway.Value.{text}
use infra_steward_gateway.Exec.{Result, ok, err}
use infra_steward_gateway.Coroutine.{Coroutine, finished, step}
use infra_steward_gateway.Coroutine.Pool.{Turns}
use infra_steward_gateway.Runtime.{Host}
use infra_steward_gateway.World.{World}
use infra_steward_gateway.Evidence.Models.{EvidenceRecord}
use infra_steward_gateway.Evidence.Service.{get_record}
use infra_steward_gateway.Evidence.Service.Invariant.{IsConsistent}
use infra_steward_gateway.Evidence.Service.Journal.{Command}
use infra_steward_gateway.Evidence.Service.Story.{Story, closed_record}
use infra_steward_gateway.Workflow.RequestMetadata.{Request}
use infra_steward_gateway.Workflow.Setup.{WorkflowEngine}
use infra_steward_gateway.Workflow.Messages.{Response}
use infra_steward_gateway.Workflow.Engine.Account.{IsFinalStatus}
use infra_steward_gateway.Workflow.Concurrent.{process_report_steps}
use infra_steward_gateway.Workflow.Concurrent.Stages.{Stage, unborn, owner, Holds}
use infra_steward_gateway.Workflow.Concurrent.Records.{has_record}
use infra_steward_gateway.Workflow.Concurrent.Requests.{IsAnswered, is_answered}
use infra_steward_gateway.Workflow.Concurrent.Settled.{IsSettled, is_settled, IsTenantOf}
use infra_steward_gateway.Workflow.Concurrent.Tasks.{
  Sound, no_task, one_task, Sound-start, Sound-Turns, Apart-unborn,
}

get_record-some :
    (k : String) (w : World) (r : EvidenceRecord)
    → get_record k w ≡ some r
    → (ref : ℕ) × (lookup k w.evidence.store ≡ some ref) × (w.evidence.objects ref ≡ r)
unfolding get_record
get_record-some k w r e = elim (Option-cases (lookup k w.evidence.store)) [
  | inl missed ↦ ground arith
  | inr (ref, entry) ↦ (ref, entry, ground arith)
]

module _ (host : Host) where
  -- What the response of a request tells agrees with what is on file under its identifier: a record
  -- of the request's tenant, of no other request's events, closed with the status shown.
  pub record OnFile (request : Request) (response : Response) (w : World) : Type 0 where
    pub id : String
    pub name : String
    pub left : EvidenceRecord
    pub story : List Command
    pub named : request.tenant_id ≡ some name
    pub owned : left.tenant_id ≡ normalise name
    pub final : IsFinalStatus left.status
    pub found : get_record id w ≡ some left
    pub told : Story host id story closed_record left
    pub shown_id : lookup "request_id" response ≡ some (text id)
    pub shown_tenant : lookup "tenant_id" response ≡ some (text left.tenant_id)
    pub shown_status : lookup "status" response ≡ some (text left.status)

  -- Of each request whose task has returned a response.
  abbrev pub AllOnFile : List Request → List (Coroutine World Response) → World → Type 0
  AllOnFile [] [] w = Unit
  AllOnFile (request ∷ requests) (finished (ok response) ∷ cs) w =
      OnFile request response w × AllOnFile requests cs w
  AllOnFile (request ∷ requests) (_ ∷ cs) w = AllOnFile requests cs w
  AllOnFile _ _ w = ⊥

  Holds-found :
      (n ref : ℕ) (r : EvidenceRecord) (w : World)
      → Holds host (owner n ref r) w
      → get_record (host.uuid4 n) w ≡ some r
  unfolding get_record
  Holds-found n ref r w (drawn, below, object, entry) = rw (get_record, entry, object) refl

  answered-OnFile :
      {request : Request} {tenant : String} {response : Response} {o : Stage} (w : World)
      → Holds host o w
      → IsTenantOf request tenant
      → IsAnswered host tenant response o
      → OnFile request response w
  answered-OnFile w held asked
        (is_answered {ref = ref} final
          (has_record {n} {r} {cs} e own t st story)
          status
          id
          tenant) =
      record {
        id = _;
        name = asked.name;
        left = r;
        story = cs;
        named = asked.given;
        owned = t ∙ asked.canonical;
        final = rw st final;
        found = rw (← e) (Holds-found n ref r w held);
        told = story;
        shown_id = id;
        shown_tenant = rw t tenant;
        shown_status = rw st status;
      }

  Sound-OnFile :
      (w : World) {requests : List Request} {cs : List (Coroutine World Response)} {os : List Stage}
      → Sound host w requests cs os
      → AllOnFile requests cs w
  Sound-OnFile w no_task = tt
  Sound-OnFile w (one_task request (step f k) o held ensures apart sound) = Sound-OnFile w sound
  Sound-OnFile w
        (one_task {requests = others} {cs = cs} request (finished r) o held ensures apart sound) =
      by_result r ensures.told (Sound-OnFile w sound)
    where
      by_result :
          (r : Result Response)
          → IsSettled host request r o
          → AllOnFile others cs w
          → AllOnFile (request ∷ others) (finished r ∷ cs) w
      by_result (ok response) (is_settled asked answered) rest =
          (answered-OnFile w held asked answered, rest)
      by_result (err e) h rest = rest

  module _ (injective : (m n : ℕ) → host.uuid4 m ≡ host.uuid4 n → m ≡ n)
      (engine : WorkflowEngine) where
    start :
        (requests : List Request) (w : World)
        → Sound host w requests
            (map (process_report_steps host engine) requests)
            (map (λ (request : Request). unborn) requests)
    start = Sound-start host injective engine

    -- However the steps of any requests alternate, from any state, whether or not all of them are done,
    -- and where no identifier is drawn twice: for each request that has returned a response, the record
    -- on file under the identifier shown is the request's tenant's, made by its own commands alone, and
    -- closed with the status shown, which is one of the four final ones; the response shows the
    -- record's tenant.
    pub process_reports-OnFile :
        (requests : List Request) (w : World) (ds : List (Coroutine World Response)) (v : World)
        → Turns (map (process_report_steps host engine) requests) w ds v
        → AllOnFile requests ds v
    process_reports-OnFile requests w ds v turns =
        Sound-OnFile v (Sound-Turns host injective turns (start requests w)).sound

    -- However the steps of any requests alternate, from a consistent store, and where no identifier is
    -- drawn twice: a record that was on file under an identifier drawn before is still on file,
    -- unchanged.
    pub process_reports_spare :
        (requests : List Request) (w : World) (ds : List (Coroutine World Response)) (v : World)
        → Turns (map (process_report_steps host engine) requests) w ds v
        → IsConsistent w.evidence
        → (n : ℕ) (r : EvidenceRecord) → n < w.draws
        → get_record (host.uuid4 n) w ≡ some r
        → get_record (host.uuid4 n) v ≡ some r
    process_reports_spare requests w ds v turns consistent n r drawn found =
        let moved = Sound-Turns host injective turns (start requests w) in
        let (ref, entry, object) = get_record-some (host.uuid4 n) w r found in
        let (below, _) = consistent.entry (host.uuid4 n) ref entry in
        let (held, _) =
          moved.outside (owner n ref r) (drawn, below, object, entry)
            (Apart-unborn (owner n ref r) requests) in
        Holds-found n ref r v held
