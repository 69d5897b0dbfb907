-- ===== src/Workflow/Events/Steps.antt =====
-- app/workflow/events.py: `publish` as a coroutine, which may be suspended before and after each of
-- the subscribers.
use infra_steward_gateway.Core.{String, Option, List, [], ◌∷◌}
use infra_steward_gateway.Exec
use infra_steward_gateway.Exec.{Exc, calls, modify, continue, pure}
use infra_steward_gateway.Coroutine.{Coroutine, at_once, returns, ◌>>=◌, ◌>>◌}
use infra_steward_gateway.Coroutine.Runs.{Runs, Runs-at_once, Runs-returns, Runs-bind}
use infra_steward_gateway.World.{World, log, published}
use infra_steward_gateway.Workflow.Events.{
  EventPayload, EventHandler, EventBus, handlers_of, safe_invoke, gather, log_results, notify,
  publish,
}

unfoldable pub gather_steps :
    List EventHandler → String → EventPayload → Coroutine World (List (Option Exc))
gather_steps [] event_name payload = returns []
gather_steps (h ∷ hs) event_name payload = do
  r ← at_once (calls (safe_invoke h event_name payload))
  rs ← gather_steps hs event_name payload
  returns (r ∷ rs)

unfoldable pub notify_steps : List EventHandler → String → EventPayload → Coroutine World (Unit {0})
unfolding gather_steps
notify_steps [] event_name payload = returns tt
notify_steps (h ∷ hs) event_name payload = do
  results ← gather_steps (h ∷ hs) event_name payload
  at_once (modify (log_results event_name results))

unfoldable pub publish_steps : EventBus → String → EventPayload → Coroutine World (Unit {0})
unfolding notify_steps
publish_steps bus event_name payload = do
  at_once (modify (log (published event_name payload)))
  notify_steps (handlers_of bus event_name) event_name payload

gather-Runs :
    (hs : List EventHandler) (n : String) (p : EventPayload)
    → Runs (gather_steps hs n p) (calls (gather hs n p))
unfolding gather_steps gather calls Exec.◌>>=◌ continue pure
gather-Runs [] n p = Runs-returns []
gather-Runs (h ∷ hs) n p = record {
  same =
      (Runs-bind (Runs-at_once (calls (safe_invoke h n p)))
        λ r. Runs-bind (gather-Runs hs n p) λ rs. Runs-returns (r ∷ rs)).same;
}

notify-Runs :
    (hs : List EventHandler) (n : String) (p : EventPayload)
    → Runs (notify_steps hs n p) (modify (notify hs n p))
unfolding notify_steps notify calls modify Exec.◌>>=◌ continue pure
notify-Runs [] n p = Runs-returns tt
notify-Runs (h ∷ hs) n p = record {
  same = (Runs-bind (gather-Runs (h ∷ hs) n p) λ rs. Runs-at_once (modify (log_results n rs))).same;
}

pub publish-Runs :
    (bus : EventBus) (n : String) (p : EventPayload)
    → Runs (publish_steps bus n p) (modify (publish bus n p))
unfolding publish_steps publish modify Exec.◌>>=◌ continue
publish-Runs bus n p = record {
  same =
      (Runs-bind (Runs-at_once (modify (log (published n p))))
        λ _. notify-Runs (handlers_of bus n) n p).same;
}
