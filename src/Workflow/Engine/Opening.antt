-- ===== src/Workflow/Engine/Opening.antt =====
-- The world before the record of a request is started, and when it is.
use infra_steward_gateway.Core.{
  ℕ, ◌+◌, String, ◌≡◌, refl, ap, ◌∙◌, some, List, ◌∷◌, ◌++◌, arith, nat_eq, Bool-cases, inl, inr,
}
use infra_steward_gateway.Dict.Laws.{lookup-insert_self, lookup-insert_ne}
use infra_steward_gateway.Exec.{ok, calls as calls_of}
use infra_steward_gateway.Exec.Ends.{Ends}
use infra_steward_gateway.Runtime.{Host}
use infra_steward_gateway.World.{World, Call, outline, published}
use infra_steward_gateway.Evidence.Models.{EvidenceRecord, workflow_started}
use infra_steward_gateway.Evidence.Service.{
  Start, save, with_event, start_record, allocate, started_details, fresh,
}
use infra_steward_gateway.Workflow.Events.{EventBus, EventPayload, publish}
use infra_steward_gateway.Workflow.Events.Laws.{publish-IsQuiet}
use infra_steward_gateway.Workflow.Engine.Steps.{At}

-- The record with which a request starts.
abbrev pub start_at : Host → ℕ → Start → String → EvidenceRecord
start_at host t a id = with_event workflow_started (started_details a) (host.utcnow t) (fresh a id)

-- The state before the record starts: nothing has changed but the trace and one identifier.
pub record Before (w₀ : World) (calls : List Call) (w : World) : Type 0 where
  pub evidence : w.evidence ≡ w₀.evidence
  pub time : w.ticks ≡ w₀.ticks
  pub draws : w.draws ≡ w₀.draws + 1
  pub calls_made : outline w.trace ≡ calls ++ outline w₀.trace

pub Before-publish :
    (bus : EventBus) (n : String) (p : EventPayload) {w₀ w : World} {calls : List Call}
    → Before w₀ calls w
    → Before w₀ (published n p ∷ calls) (publish bus n p w)
unfolding outline
Before-publish bus n p {w = w} b =
    let q = publish-IsQuiet bus n p w in
    record {
      evidence = q.evidence ∙ b.evidence;
      time = q.ticks ∙ b.time;
      draws = q.draws ∙ b.draws;
      calls_made = q.calls ∙ ap (λ cs. published n p ∷ cs) b.calls_made;
    }

At-allocate :
    (w₀ : World) {calls : List Call} (r : EvidenceRecord) (w : World) (t : ℕ)
    → Before w₀ calls w
    → At w₀ w₀.evidence.next r t calls (allocate r (record w { ticks = t })).1
unfolding save
At-allocate w₀ r w t b = record {
  object = rw b.evidence (ground arith);
  stored = rw b.evidence (lookup-insert_self r.request_id w₀.evidence.next w₀.evidence.store);
  others = λ k apart. elim (Bool-cases (nat_eq w₀.evidence.next k)) [
    | inl e ↦ absurd (apart (ground arith))
    | inr e ↦ rw (b.evidence, e)
  ];
  entries = λ k apart.
      rw b.evidence
        (lookup-insert_ne r.request_id k w₀.evidence.next w₀.evidence.store (λ e. apart (cc)));
  next = rw b.evidence;
  time = refl;
  draws = b.draws;
  calls_made = b.calls_made;
}

-- The record starts at the next free reference.
pub At-start :
    (host : Host) (w₀ : World) {calls : List Call} (a : Start) (id : String) (w : World)
    → a.request_id ≡ some id
    → Before w₀ calls w
    → Ends
        (calls_of (start_record host a))
        w
        (ok w₀.evidence.next)
        (At w₀ w₀.evidence.next (start_at host w₀.ticks a id) (w₀.ticks + 1) calls)
unfolding calls_of start_record
At-start host w₀ a id w e b = record {
  after = (allocate (start_at host w₀.ticks a id) (record w { ticks = w₀.ticks + 1 })).1;
  runs = rw (e, b.evidence, b.time);
  holds = At-allocate w₀ (start_at host w₀.ticks a id) w (w₀.ticks + 1) b;
}
