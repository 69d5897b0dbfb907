-- ===== src/Workflow/Events.antt =====
-- app/workflow/events.py. A subscriber is a callback that may raise. The model takes those callbacks
-- whose outcome depends on the payload alone, and that do not change the payload, which all subscribers
-- share; what a subscriber does elsewhere is not the gateway's, so the trace has its deliveries.
-- `publish` here runs each subscriber to its end, in the order in which `gather` starts them; in Overlap
-- they run in any interleaving.
pub mod Laws
pub mod Overlap
pub mod Schedules
pub mod Steps
use infra_steward_gateway.Core.{
  String, Option, none, some, List, [], ◌∷◌, ◌++◌, get_or, if◌then◌else◌,
}
use infra_steward_gateway.PyStr.{sorted}
use infra_steward_gateway.Dict.{Dict, lookup, insert, keys}
use infra_steward_gateway.Value.{Value}
use infra_steward_gateway.Exec.{Exc}
use infra_steward_gateway.World.{World, log, published, delivered, warned}

abbrev pub EventPayload : Type 0
EventPayload = Dict Value

-- A callback by its name: on a payload `none` if it returns, `some` if it raises
pub record EventHandler : Type 0 where
  pub name : String
  pub reaction : EventPayload → Option Exc

pub record EventBus : Type 0 where
  pub subscribers : Dict (List EventHandler)

unfoldable pub new_bus : EventBus
new_bus = record { subscribers = [] }

-- `self._subscribers.get(event_name, [])`
unfoldable pub handlers_of : EventBus → String → List EventHandler
handlers_of bus event_name = get_or (lookup event_name bus.subscribers) []

unfoldable pub subscribe : String → EventHandler → EventBus → EventBus
unfolding handlers_of
subscribe event_name handler bus = record {
  subscribers = insert event_name (handlers_of bus event_name ++ handler ∷ []) bus.subscribers;
}

unfoldable pub event_names : EventBus → List String
event_names bus = sorted (keys bus.subscribers)

-- the `except` of `_safe_invoke`: the exception is logged and returned
abbrev pub log_failure : String → Option Exc → World → World
log_failure event_name none w = w
log_failure event_name (some e) w = log (warned event_name e) w

unfoldable pub safe_invoke : EventHandler → String → EventPayload → World → Option Exc × World
safe_invoke handler event_name payload w =
    let outcome = handler.reaction payload in
    (outcome, log_failure event_name outcome (log (delivered handler.name event_name payload) w))

unfoldable pub gather :
    List EventHandler → String → EventPayload → World → List (Option Exc) × World
gather [] event_name payload w = ([], w)
gather (h ∷ hs) event_name payload w =
    let (r, v) = safe_invoke h event_name payload w in
    let (rs, u) = gather hs event_name payload v in (r ∷ rs, u)

-- the loop over the results, which logs each exception once more
unfoldable pub log_results : String → List (Option Exc) → World → World
log_results event_name [] w = w
log_results event_name (r ∷ rs) w = log_results event_name rs (log_failure event_name r w)

-- `if not handlers: return`, or else all of them and the loop over what they return
unfoldable pub notify : List EventHandler → String → EventPayload → World → World
notify [] event_name payload w = w
notify (h ∷ hs) event_name payload w =
    let (results, v) = gather (h ∷ hs) event_name payload w in log_results event_name results v

unfoldable pub publish : EventBus → String → EventPayload → World → World
unfolding notify
publish bus event_name payload w =
    notify (handlers_of bus event_name) event_name payload (log (published event_name payload) w)
