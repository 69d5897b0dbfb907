-- ===== src/Workflow/Events/Laws.antt =====
-- What a publication on the bus does to the world, and whom it reaches.
use infra_steward_gateway.Core.{
  String, ◌≡◌, refl, sym, ◌∙◌, ap, Option, none, some, List, [], ◌∷◌, ◌++◌, arith, ◌==◌,
  if◌then◌else◌,
}
use mathlib.Core.List.{append_assoc, reverse, reverse-cons, map}
use infra_steward_gateway.Dict.Laws.{lookup-insert}
use infra_steward_gateway.Exec.{Exc}
use infra_steward_gateway.World.{
  World, Call, log, outline, counted, observed, published, enriched, submitted, sent, delivered,
  warned, posted, printed,
}
use infra_steward_gateway.Evidence.Models.{EvidenceRecord}
use infra_steward_gateway.Evidence.Producer.{Ingester, send_record}
use infra_steward_gateway.Workflow.Events.{
  EventPayload, EventHandler, EventBus, handlers_of, subscribe, log_failure, safe_invoke, gather,
  log_results, notify, publish,
}

-- What stays of a world when only the trace grows, by calls outside the outline.
pub record IsQuiet (w v : World) : Type 0 where
  pub evidence : v.evidence ≡ w.evidence
  pub ticks : v.ticks ≡ w.ticks
  pub draws : v.draws ≡ w.draws
  pub calls : outline v.trace ≡ outline w.trace

pub IsQuiet-refl : (w : World) → IsQuiet w w
IsQuiet-refl w = record { evidence = refl; ticks = refl; draws = refl; calls = refl }

pub IsQuiet-trans : {u v w : World} → IsQuiet u v → IsQuiet v w → IsQuiet u w
IsQuiet-trans p q = record {
  evidence = cc (p.evidence, q.evidence);
  ticks = cc (p.ticks, q.ticks);
  draws = cc (p.draws, q.draws);
  calls = cc (p.calls, q.calls);
}

pub log_failure-IsQuiet : (n : String) (r : Option Exc) (w : World) → IsQuiet w (log_failure n r w)
unfolding outline
log_failure-IsQuiet n none w = IsQuiet-refl w
log_failure-IsQuiet n (some e) w = record {
  evidence = refl;
  ticks = refl;
  draws = refl;
  calls = refl;
}

pub safe_invoke-IsQuiet :
    (h : EventHandler) (n : String) (p : EventPayload) (w : World)
    → IsQuiet w (safe_invoke h n p w).1
unfolding safe_invoke outline
safe_invoke-IsQuiet h n p w =
    let first : IsQuiet w (log (delivered h.name n p) w) = record {
      evidence = refl;
      ticks = refl;
      draws = refl;
      calls = refl;
    } in
    IsQuiet-trans first (log_failure-IsQuiet n (h.reaction p) (log (delivered h.name n p) w))

gather-IsQuiet :
    (hs : List EventHandler) (n : String) (p : EventPayload) (w : World)
    → IsQuiet w (gather hs n p w).1
unfolding gather
gather-IsQuiet [] n p w = IsQuiet-refl w
gather-IsQuiet (h ∷ hs) n p w =
    IsQuiet-trans (safe_invoke-IsQuiet h n p w) (gather-IsQuiet hs n p (safe_invoke h n p w).1)

pub log_results-IsQuiet :
    (n : String) (rs : List (Option Exc)) (w : World) → IsQuiet w (log_results n rs w)
unfolding log_results
log_results-IsQuiet n [] w = IsQuiet-refl w
log_results-IsQuiet n (r ∷ rs) w =
    IsQuiet-trans (log_failure-IsQuiet n r w) (log_results-IsQuiet n rs (log_failure n r w))

notify-IsQuiet :
    (hs : List EventHandler) (n : String) (p : EventPayload) (w : World)
    → IsQuiet w (notify hs n p w)
unfolding notify
notify-IsQuiet [] n p w = IsQuiet-refl w
notify-IsQuiet (h ∷ r) n p w =
    IsQuiet-trans (gather-IsQuiet (h ∷ r) n p w) (log_results-IsQuiet n _ (gather (h ∷ r) n p w).1)

-- Publishing changes the trace alone, and its outline by the publication.
pub publish-IsQuiet :
    (bus : EventBus) (n : String) (p : EventPayload) (w : World)
    → IsQuiet (log (published n p) w) (publish bus n p w)
unfolding publish
publish-IsQuiet bus n p w = notify-IsQuiet (handlers_of bus n) n p (log (published n p) w)

-- The deliveries of a trace: subscriber, event and payload, the newest first.
unfoldable pub deliveries : List Call → List (String × String × EventPayload)
deliveries [] = []
deliveries (delivered h n p ∷ t) = (h, n, p) ∷ deliveries t
deliveries (counted _ _ ∷ t) = deliveries t
deliveries (observed _ _ _ ∷ t) = deliveries t
deliveries (published _ _ ∷ t) = deliveries t
deliveries (enriched _ _ _ ∷ t) = deliveries t
deliveries (submitted _ _ ∷ t) = deliveries t
deliveries (sent _ ∷ t) = deliveries t
deliveries (warned _ _ ∷ t) = deliveries t
deliveries (posted _ _ ∷ t) = deliveries t
deliveries (printed _ _ ∷ t) = deliveries t

-- A delivery to each handler of a list, the newest first.
abbrev pub delivery_to_each :
    List EventHandler → String → EventPayload → List (String × String × EventPayload)
delivery_to_each hs n p = reverse (map (λ (h : EventHandler). (h.name, n, p)) hs)

deliveries-log_failure :
    (n : String) (r : Option Exc) (w : World)
    → deliveries (log_failure n r w).trace ≡ deliveries w.trace
unfolding deliveries
deliveries-log_failure n none w = refl
deliveries-log_failure n (some e) w = refl

deliveries-log_results :
    (n : String) (rs : List (Option Exc)) (w : World)
    → deliveries (log_results n rs w).trace ≡ deliveries w.trace
unfolding log_results
deliveries-log_results n [] w = refl
deliveries-log_results n (r ∷ rs) w =
    deliveries-log_results n rs (log_failure n r w) ∙ deliveries-log_failure n r w

deliveries-safe_invoke :
    (h : EventHandler) (n : String) (p : EventPayload) (w : World)
    → deliveries (safe_invoke h n p w).1.trace ≡ (h.name, n, p) ∷ deliveries w.trace
unfolding safe_invoke deliveries
deliveries-safe_invoke h n p w =
    deliveries-log_failure n (h.reaction p) (log (delivered h.name n p) w)

deliveries-gather :
    (hs : List EventHandler) (n : String) (p : EventPayload) (w : World)
    → deliveries (gather hs n p w).1.trace ≡ delivery_to_each hs n p ++ deliveries w.trace
unfolding gather
deliveries-gather [] n p w = refl
deliveries-gather (h ∷ hs) n p w =
    let d : String × String × EventPayload = (h.name, n, p) in
    let before = delivery_to_each hs n p in
    deliveries-gather hs n p (safe_invoke h n p w).1
    ∙ ap (λ t. before ++ t) (deliveries-safe_invoke h n p w)
    ∙ sym (append_assoc before (d ∷ []) (deliveries w.trace))
    ∙ ap (λ t. t ++ deliveries w.trace) (sym (reverse-cons d (map _ hs)))

deliveries-notify :
    (hs : List EventHandler) (n : String) (p : EventPayload) (w : World)
    → deliveries (notify hs n p w).trace ≡ delivery_to_each hs n p ++ deliveries w.trace
unfolding notify
deliveries-notify [] n p w = refl
deliveries-notify (h ∷ r) n p w =
    deliveries-log_results n _ (gather (h ∷ r) n p w).1 ∙ deliveries-gather (h ∷ r) n p w

-- One publication delivers the payload to every subscriber of the event once, in the order of
-- subscription, whichever of them raise, and to nobody else.
pub deliveries-publish :
    (bus : EventBus) (n : String) (p : EventPayload) (w : World)
    → deliveries (publish bus n p w).trace
      ≡ delivery_to_each (handlers_of bus n) n p ++ deliveries w.trace
unfolding publish deliveries
deliveries-publish bus n p w = deliveries-notify (handlers_of bus n) n p (log (published n p) w)

-- A subscription puts the handler behind those of its event, and changes no other event's.
pub handlers_of-subscribe :
    (bus : EventBus) (n m : String) (h : EventHandler)
    → handlers_of (subscribe n h bus) m
      ≡ (if n == m then handlers_of bus n ++ h ∷ [] else handlers_of bus m)
unfolding handlers_of subscribe
handlers_of-subscribe bus n m h =
    ground (arith, lookup-insert n m (handlers_of bus n ++ h ∷ []) bus.subscribers)

-- Whatever the ingester answers, sending a record changes the trace alone, and its outline by the
-- call of the producer.
pub send_record-IsQuiet :
    (ingester : Ingester) (r : EvidenceRecord) (w : World)
    → IsQuiet (log (sent r) w) (send_record ingester r w)
unfolding send_record outline
send_record-IsQuiet ingester r w = record {
  evidence = ground arith;
  ticks = ground arith;
  draws = ground arith;
  calls = ground arith;
}
