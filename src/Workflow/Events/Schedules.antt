-- ===== src/Workflow/Events/Schedules.antt =====
-- Publications with subscribers that overlap, against `publish`, which runs them one after the other.
use mathlib.Core.List.{Perm, perm_middle, append_assoc}
use mathlib.Core.List.Perm
use infra_steward_gateway.Core.{
  String, ◌≡◌, refl, sym, ap, ◌∙◌, Option, none, some, List, [], ◌∷◌, ◌++◌, map,
}
use infra_steward_gateway.Exec.{Exc}
use infra_steward_gateway.World.{World, Call, log, published, delivered, warned, outline}
use infra_steward_gateway.Workflow.Events.{
  EventPayload, EventHandler, EventBus, handlers_of, log_failure, log_results, safe_invoke, gather,
  notify, publish,
}
use infra_steward_gateway.Workflow.Events.Laws.{
  IsQuiet, IsQuiet-refl, IsQuiet-trans, log_failure-IsQuiet, log_results-IsQuiet,
}
use infra_steward_gateway.Workflow.Events.Overlap.{
  Task, waiting, running, returned, handler_of, Advance, starts, returns, Move, first, other,
  Schedule, stop, move, Publishes, unheard, heard,
}

-- Two worlds agree but for the order of what the trace tells of one publication.
pub record SameButOrder (u v : World) : Type 0 where
  pub evidence : u.evidence ≡ v.evidence
  pub ticks : u.ticks ≡ v.ticks
  pub draws : u.draws ≡ v.draws
  pub calls : outline u.trace ≡ outline v.trace
  pub trace : Perm u.trace v.trace

quiet_same : {o u v : World} → IsQuiet o u → IsQuiet o v → Perm u.trace v.trace → SameButOrder u v
quiet_same q r h = record {
  evidence = q.evidence ∙ sym r.evidence;
  ticks = q.ticks ∙ sym r.ticks;
  draws = q.draws ∙ sym r.draws;
  calls = q.calls ∙ sym r.calls;
  trace = h;
}

module _ (n : String) (p : EventPayload) where
  -- What is logged when a callback has returned, and what a task still has to log.
  abbrev failure_calls : Option Exc → List Call
  failure_calls none = []
  failure_calls (some e) = warned n e ∷ []

  abbrev owed_by : Task → List Call
  owed_by (waiting h) = delivered h.name n p ∷ failure_calls (h.reaction p)
  owed_by (running h) = failure_calls (h.reaction p)
  owed_by (returned h) = []

  owed : List Task → List Call
  owed [] = []
  owed (t ∷ ts) = owed_by t ++ owed ts

  -- A world from which others differ by the order of a part of the trace.
  record Agrees (ts us : List Task) (v w : World) : Type 0 where
    quiet : IsQuiet v w
    trace : Perm (owed us ++ w.trace) (owed ts ++ v.trace)
    handlers : map handler_of us ≡ map handler_of ts

  log_failure_trace :
      (r : Option Exc) (w : World) → (log_failure n r w).trace ≡ failure_calls r ++ w.trace
  log_failure_trace none w = refl
  log_failure_trace (some e) w = refl

  failure_perm :
      (r : Option Exc) (cs ds : List Call)
      → Perm (cs ++ (failure_calls r ++ ds)) ((failure_calls r ++ cs) ++ ds)
  failure_perm none cs ds = Perm.refl _
  failure_perm (some e) cs ds = perm_middle cs ds

  Advance-Agrees :
      {t u : Task} {v w : World} (ts : List Task)
      → Advance n p t v u w
      → Agrees (t ∷ ts) (u ∷ ts) v w
  unfolding owed outline
  Advance-Agrees ts (starts h v) = record {
    quiet = record { evidence = refl; ticks = refl; draws = refl; calls = refl };
    trace = perm_middle (failure_calls (h.reaction p) ++ owed ts) v.trace;
    handlers = refl;
  }
  Advance-Agrees ts (returns h v) = record {
    quiet = log_failure-IsQuiet n (h.reaction p) v;
    trace = rw (log_failure_trace (h.reaction p) v) (failure_perm (h.reaction p) (owed ts) v.trace);
    handlers = refl;
  }

  Move-Agrees : {ts us : List Task} {v w : World} → Move n p ts v us w → Agrees ts us v w
  unfolding owed
  Move-Agrees (first ts a) = Advance-Agrees ts a
  Move-Agrees {v = v} {w = w} (other {ts} {us} t m) =
      let h = Move-Agrees m in
      record {
        quiet = h.quiet;
        trace =
            rw
              (
                append_assoc (owed_by t) (owed us) w.trace,
                append_assoc (owed_by t) (owed ts) v.trace,
              )
              (Perm.append_left (owed_by t) h.trace);
        handlers = ap (λ hs. handler_of t ∷ hs) h.handlers;
      }

  Schedule-Agrees : {ts us : List Task} {v w : World} → Schedule n p ts v us w → Agrees ts us v w
  Schedule-Agrees stop = record { quiet = IsQuiet-refl _; trace = Perm.refl _; handlers = refl }
  Schedule-Agrees (move m s) =
      let h = Move-Agrees m in
      let k = Schedule-Agrees s in
      record {
        quiet = IsQuiet-trans h.quiet k.quiet;
        trace = Perm.trans k.trace h.trace;
        handlers = k.handlers ∙ h.handlers;
      }

  owed-returned : (hs : List EventHandler) → owed (map returned hs) ≡ []
  unfolding owed
  owed-returned [] = refl
  owed-returned (h ∷ hs) = owed-returned hs

  -- `gather` in the model is the schedule that runs each task to its end before the next starts.
  Schedule-other :
      {ts us : List Task} {v w : World} (t : Task)
      → Schedule n p ts v us w
      → Schedule n p (t ∷ ts) v (t ∷ us) w
  Schedule-other t stop = stop
  Schedule-other t (move m s) = move (other t m) (Schedule-other t s)

  gather-Schedule :
      (hs : List EventHandler) (w : World)
      → Schedule n p (map waiting hs) w (map returned hs) (gather hs n p w).1
  unfolding gather safe_invoke
  gather-Schedule [] w = stop
  gather-Schedule (h ∷ hs) w = move (first (map waiting hs) (starts h w)) (
      move (first (map waiting hs) (returns h (log (delivered h.name n p) w)))
        (Schedule-other (returned h) (gather-Schedule hs (safe_invoke h n p w).1)))

  gather_results :
      (hs : List EventHandler) (w : World)
      → (gather hs n p w).0 ≡ map (λ (h : EventHandler). h.reaction p) hs
  unfolding gather safe_invoke
  gather_results [] w = refl
  gather_results (h ∷ hs) w =
      ap (λ rs. h.reaction p ∷ rs) (gather_results hs (safe_invoke h n p w).1)

  log_results-perm :
      (rs : List (Option Exc)) (v w : World)
      → Perm v.trace w.trace
      → Perm (log_results n rs v).trace (log_results n rs w).trace
  unfolding log_results
  log_results-perm [] v w h = h
  log_results-perm (none ∷ rs) v w h = log_results-perm rs v w h
  log_results-perm (some e ∷ rs) v w h =
      log_results-perm rs (log (warned n e) v) (log (warned n e) w) (Perm.cons (warned n e) h)

  schedules-perm :
      (hs : List EventHandler) {ts : List Task} {u v w : World}
      → Schedule n p ts u (map returned hs) v
      → Schedule n p ts u (map returned hs) w
      → Perm v.trace w.trace
  schedules-perm hs {v = v} {w = w} a b =
      rw (owed-returned hs) at
        (Perm.trans (Schedule-Agrees a).trace (Perm.symm (Schedule-Agrees b).trace))

  notify_lem :
      (hs : List EventHandler) (w : World)
      → notify hs n p w
        ≡ log_results n (map (λ (h : EventHandler). h.reaction p) hs) (gather hs n p w).1
  unfolding notify gather log_results
  notify_lem [] w = refl
  notify_lem (h ∷ hs) w =
      ap (λ rs. log_results n rs (gather (h ∷ hs) n p w).1) (gather_results (h ∷ hs) w)

  module _ (bus : EventBus) (w : World) where
    Schedule-IsQuiet :
        (hs : List EventHandler) (rs : List (Option Exc)) {u : World}
        → Schedule n p (map waiting hs) (log (published n p) w) (map returned hs) u
        → IsQuiet (log (published n p) w) (log_results n rs u)
    Schedule-IsQuiet hs rs {u = u} s =
        IsQuiet-trans (Schedule-Agrees s).quiet (log_results-IsQuiet n rs u)

    -- Running the subscribers one after the other is one of the schedules.
    publish-Publishes : Publishes n p bus w (publish bus n p w)
    unfolding publish
    publish-Publishes =
        let hs = handlers_of bus n in
        rw (notify_lem hs (log (published n p) w))
          (heard _ (gather-Schedule hs (log (published n p) w)))

    -- However the subscribers of an event overlap, a publication leaves what it leaves where they run
    -- one after the other, which is one of the ways for it to go: the same records, clock and
    -- identifiers, the same calls of the gateway's own steps in the same order, and the same
    -- deliveries and warnings, each as often, in some order.
    pub Publishes-publish :
        Publishes n p bus w (publish bus n p w)
        × ((v : World) → Publishes n p bus w v → SameButOrder v (publish bus n p w))
    unfolding publish
    Publishes-publish = (publish-Publishes, agrees)
      where
        agrees : (v : World) → Publishes n p bus w v → SameButOrder v (publish bus n p w)
        agrees _ (unheard e) =
            rw (e, notify) (quiet_same (IsQuiet-refl _) (IsQuiet-refl _) (Perm.refl _))
        agrees _ (heard v s) =
            let hs = handlers_of bus n in
            let rs = map (λ (h : EventHandler). h.reaction p) hs in
            let mine = gather-Schedule hs (log (published n p) w) in
            rw (notify_lem hs (log (published n p) w)) (
              quiet_same (Schedule-IsQuiet hs rs s) (Schedule-IsQuiet hs rs mine)
                (log_results-perm rs v _ (schedules-perm hs s mine)))
