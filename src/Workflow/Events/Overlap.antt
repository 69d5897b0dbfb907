-- ===== src/Workflow/Events/Overlap.antt =====
-- app/workflow/events.py: `publish` with subscribers that overlap. `asyncio.gather` makes a task of
-- each, and a callback may be suspended any number of times, so the tasks start and return in any
-- order; `gather` hands their results back in the order of the subscribers.
use infra_steward_gateway.Core.{String, ◌≡◌, List, [], ◌∷◌, map}
use infra_steward_gateway.World.{World, log, published, delivered}
use infra_steward_gateway.Workflow.Events.{
  EventPayload, EventHandler, EventBus, handlers_of, log_failure, log_results,
}

-- The task of a subscriber: not started, in its callback, or returned.
pub data Task : Type 0 where
  waiting running returned : EventHandler → Task

abbrev pub handler_of : Task → EventHandler
handler_of (waiting h) = h
handler_of (running h) = h
handler_of (returned h) = h

module _ (event_name : String) (payload : EventPayload) where
  -- `_safe_invoke` up to the callback's start, and from its end.
  pub data Advance : Task → World → Task → World → Type 0 where
    starts :
        (h : EventHandler) (w : World)
        → Advance (waiting h) w (running h) (log (delivered h.name event_name payload) w)
    returns :
        (h : EventHandler) (w : World)
        → Advance (running h) w (returned h) (log_failure event_name (h.reaction payload) w)

  -- One of the tasks advances.
  pub data Move : List Task → World → List Task → World → Type 0 where
    first :
        {t u : Task} {v w : World} (ts : List Task) → Advance t v u w → Move (t ∷ ts) v (u ∷ ts) w
    other :
        {ts us : List Task} {v w : World} (t : Task) → Move ts v us w → Move (t ∷ ts) v (t ∷ us) w

  -- Any number of moves.
  pub data Schedule : List Task → World → List Task → World → Type 0 where
    stop : {ts : List Task} {w : World} → Schedule ts w ts w
    move :
        {ts us vs : List Task} {u v w : World}
        → Move ts u us v
        → Schedule us v vs w
        → Schedule ts u vs w

  -- `publish` under some schedule: all tasks are made, run until all have returned, and then their
  -- results are looped over.
  pub data Publishes (bus : EventBus) (w : World) : World → Type 0 where
    unheard :
        handlers_of bus event_name ≡ [] → Publishes bus w (log (published event_name payload) w)
    heard :
        (v : World)
        → Schedule
            (map waiting (handlers_of bus event_name))
            (log (published event_name payload) w)
            (map returned (handlers_of bus event_name))
            v
        → Publishes bus w (
            log_results event_name
              (map (λ (h : EventHandler). h.reaction payload) (handlers_of bus event_name))
              v)
