-- ===== src/Examples/Concurrent.antt =====
-- The theorems on overlapping requests and overlapping subscribers, at concrete values.
use infra_steward_gateway.Core.{Option, ◌≡◌, some, List, [], ◌∷◌}
use infra_steward_gateway.World.{World, initial}
use infra_steward_gateway.Evidence.Models.{policy_evaluated}
use infra_steward_gateway.Evidence.Service.{get_record}
use infra_steward_gateway.Evidence.Service.Journal.{
  Command, opened, noted, ended, view, enter_all, perform_all, untimed_file, commands_of,
}
use infra_steward_gateway.Evidence.Service.Invariant.{initial-IsConsistent}
use infra_steward_gateway.Evidence.Service.Refinement.{perform_all_refines}
use infra_steward_gateway.Workflow.Endings.{denied_final}
use infra_steward_gateway.Workflow.Events.{publish}
use infra_steward_gateway.Workflow.Events.Overlap.{Publishes}
use infra_steward_gateway.Workflow.Events.Schedules.{SameButOrder, Publishes-publish}
use infra_steward_gateway.Evidence.Producer.{Ingester}
use infra_steward_gateway.Workflow.Engine.{process_report}
use infra_steward_gateway.Workflow.Engine.Overlapped.{Asked, process_report_overlapped}
use infra_steward_gateway.Examples.Requests.{beta_request}
use infra_steward_gateway.Examples.{sample_host, sample_ingester, sample_gateway}
use infra_steward_gateway.Examples.Services.{busy_bus}
use infra_steward_gateway.Examples.Application.{sample_start}

-- Two requests whose commands alternate.
abbrev overlapping : List Command
overlapping =
    opened "request-0" sample_start
    ∷ opened "request-1" sample_start
    ∷ noted "request-0" policy_evaluated []
    ∷ ended "request-1" denied_final
    ∷ ended "request-0" denied_final
    ∷ []

perform_all_refines_example :
    view (perform_all sample_host (some sample_ingester) overlapping initial)
    ≡ enter_all sample_host overlapping (view initial)
perform_all_refines_example =
    perform_all_refines sample_host (some sample_ingester) overlapping initial initial-IsConsistent

Publishes-publish_example :
    Publishes "workflow.completed" [] busy_bus initial
      (publish busy_bus "workflow.completed" [] initial)
    × ((v : World)
        → Publishes "workflow.completed" [] busy_bus initial v
        → SameButOrder v (publish busy_bus "workflow.completed" [] initial))
Publishes-publish_example = Publishes-publish "workflow.completed" [] busy_bus initial

process_report_overlapped_example :
    (cs : List Command) × Asked sample_host "request-0"
      (process_report sample_host sample_gateway beta_request initial).0
      cs
    × ((p : Option Ingester) (ds : List Command)
        → commands_of "request-0" ds ≡ cs
        → untimed_file (get_record "request-0" (perform_all sample_host p ds initial))
          ≡ untimed_file (
              get_record "request-0"
                (process_report sample_host sample_gateway beta_request initial).1))
process_report_overlapped_example =
    process_report_overlapped sample_host initial initial-IsConsistent sample_gateway beta_request
