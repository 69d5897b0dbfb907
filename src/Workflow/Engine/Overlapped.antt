-- ===== src/Workflow/Engine/Overlapped.antt =====
-- What a request leaves on file when other requests overlap with it: the requests' commands to the
-- evidence service in any interleaving.
use infra_steward_gateway.Core.{String, ◌≡◌, ap, sym, ◌∙◌, Option, some, List, []}
use infra_steward_gateway.Exec.{Exc, Result, ok, err}
use infra_steward_gateway.Runtime.{Host}
use infra_steward_gateway.World.{World}
use infra_steward_gateway.Evidence.Models.{EvidenceRecord}
use infra_steward_gateway.Evidence.Producer.{Ingester}
use infra_steward_gateway.Evidence.Service.{get_record}
use infra_steward_gateway.Evidence.Service.Journal.{
  Command, Journal, perform_all, view, untimed_file, commands_of,
}
use infra_steward_gateway.Evidence.Service.Invariant.{IsConsistent}
use infra_steward_gateway.Evidence.Service.Refinement.{perform_all_refines}
use infra_steward_gateway.Evidence.Service.Interleaving.{perform_all_own}
use infra_steward_gateway.Evidence.Service.Story.{Story, Phase, open_record, closed_record}
use infra_steward_gateway.Evidence.Service.Told.{enter_all-Story}
use infra_steward_gateway.Workflow.RequestMetadata.{Request}
use infra_steward_gateway.Workflow.Setup.{WorkflowEngine}
use infra_steward_gateway.Workflow.Messages.{Response}
use infra_steward_gateway.Workflow.Engine.{process_report}
use infra_steward_gateway.Workflow.Engine.Account.{Account, untouched, abandoned, answered}
use infra_steward_gateway.Workflow.Engine.Accounted.{process-Account}
use infra_steward_gateway.Workflow.Engine.Guarantees.{At-get_record, untouched_get}

module _ (host : Host) (id : String) where
  -- What a request asks of the evidence service, by its result: nothing at all, or a story whose record
  -- is closed where there is a response and open where an exception got out.
  pub data Asked : Result Response → List Command → Type 0 where
    asked_nothing : (x : Exc) → Asked (err x) []
    left_open :
        {cs : List Command} {r : EvidenceRecord} (x : Exc)
        → Story host id cs open_record r
        → Asked (err x) cs
    closed_off :
        {cs : List Command} {r : EvidenceRecord} (response : Response)
        → Story host id cs closed_record r
        → Asked (ok response) cs

module _ (host : Host) (w₀ : World) (consistent : IsConsistent w₀.evidence) where
  -- Commands among which those of a request are a story leave the story's record.
  perform_all-Story :
      {id : String} {cs : List Command} {phase : Phase} {r : EvidenceRecord} (w : World)
      → Story host id cs phase r
      → get_record id w ≡ some r
      → (p : Option Ingester) (ds : List Command) → commands_of id ds ≡ cs
      → untimed_file (get_record id (perform_all host p ds w₀)) ≡ untimed_file (get_record id w)
  perform_all-Story {id} {cs} w story found p ds own =
      perform_all_own host p p id ds w₀ consistent
      ∙ ap (λ es. untimed_file (get_record id (perform_all host p es w₀))) own
      ∙ ap (λ (j : Journal). untimed_file (j.on_file id))
          (perform_all_refines host p cs w₀ consistent)
      ∙ enter_all-Story host story (view w₀)
      ∙ ap untimed_file (sym found)

  -- Commands none of which is the request's leave what was on file.
  perform_all-others :
      (id : String) (p : Option Ingester) (ds : List Command)
      → commands_of id ds ≡ []
      → untimed_file (get_record id (perform_all host p ds w₀)) ≡ untimed_file (get_record id w₀)
  unfolding perform_all
  perform_all-others id p ds own =
      perform_all_own host p p id ds w₀ consistent
      ∙ ap (λ es. untimed_file (get_record id (perform_all host p es w₀))) own

  module _ (engine : WorkflowEngine) (request : Request) where
    -- From a consistent store, there are commands to the evidence service, all of this request: none
    -- where nothing came of it, and else the opening of its record and the events noted on it, with
    -- its closing at the end exactly where there is a response. Whatever sequence of commands is
    -- carried out from the same store, if those of this request in it are these, in this order, then
    -- what is on file for it is, but for the times, what `process_report` leaves: whatever other
    -- requests ask before, between and after them, and whatever the ingesters answer.
    pub process_report_overlapped :
        let id = host.uuid4 w₀.draws in
        let (r, w) = process_report host engine request w₀ in
        (cs : List Command) × Asked host id r cs
        × ((p : Option Ingester) (ds : List Command)
            → commands_of id ds ≡ cs
            → untimed_file (get_record id (perform_all host p ds w₀))
              ≡ untimed_file (get_record id w))
    process_report_overlapped = by_account _ _ (process-Account host w₀ engine request)
      where
        by_account :
            (r : Result Response) (w : World)
            → Account host w₀ engine.producer r w
            → (cs : List Command) × Asked host (host.uuid4 w₀.draws) r cs
              × ((p : Option Ingester) (ds : List Command)
                  → commands_of (host.uuid4 w₀.draws) ds ≡ cs
                  → untimed_file (get_record (host.uuid4 w₀.draws) (perform_all host p ds w₀))
                    ≡ untimed_file (get_record (host.uuid4 w₀.draws) w))
        by_account _ _ (untouched x w b) = (
          [],
          asked_nothing x,
          λ p ds own. perform_all-others _ p ds own ∙ ap untimed_file (sym (untouched_get _ b)),
        )
        by_account _ _ (abandoned x r t made w h same s n z cs told) =
            (cs, left_open x told, perform_all-Story w told (At-get_record _ h same))
        by_account _ _ (answered response w a) = (
          a.story,
          closed_off response a.told,
          perform_all-Story w a.told (At-get_record _ a.at a.request),
        )
