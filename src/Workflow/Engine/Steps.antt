-- ===== src/Workflow/Engine/Steps.antt =====
-- The world while one request is processed: its record, its calls, and what stays as it was.
use infra_steward_gateway.Core.{
  ℕ, ◌+◌, String, ◌≡◌, ◌≢◌, refl, ap, ◌∙◌, Option, none, some, List, [], ◌∷◌, ◌++◌, arith, nat_eq,
  Bool-cases, inl, inr,
}
use mathlib.Core.Option.{none-ne-some}
use infra_steward_gateway.Dict.{Dict, lookup}
use infra_steward_gateway.Dict.Laws.{lookup-insert_self, lookup-insert_ne}
use infra_steward_gateway.Value.{Value}
use infra_steward_gateway.Exec.{Result, ok, calls as calls_of, modify, lift}
use infra_steward_gateway.Exec.Ends.{Ends, Ends-lift, Ends-modify}
use infra_steward_gateway.Runtime.{Host}
use infra_steward_gateway.World.{World, Call, log, outline, published, sent, now}
use infra_steward_gateway.Evidence.Models.{EvidenceEventType, EvidenceRecord, workflow_completed}
use infra_steward_gateway.Evidence.Producer.{Ingester}
use infra_steward_gateway.Evidence.Service.{
  Final, save, with_event, closed, completed_details, append_event, add_event, close_record,
  send_current, send_if, finalize,
}
use infra_steward_gateway.Evidence.Service.Laws.{IsStored, add_event_stored, finalize_stored}
use infra_steward_gateway.Workflow.Events.{EventBus, EventPayload, publish}
use infra_steward_gateway.Workflow.Events.Laws.{IsQuiet, publish-IsQuiet, send_record-IsQuiet}

-- Seen from the world `w₀` in which the request arrived: its record at `ref` is `r`, the clock has
-- been read `t` times, and the calls made since are `calls`, the newest first. No other record has
-- changed.
pub record At (w₀ : World) (ref : ℕ) (r : EvidenceRecord) (t : ℕ) (calls : List Call) (w : World)
    : Type 0 where
  pub object : w.evidence.objects ref ≡ r
  pub stored : lookup r.request_id w.evidence.store ≡ some ref
  pub others : (k : ℕ) → k ≢ ref → w.evidence.objects k ≡ w₀.evidence.objects k
  pub entries :
      (k : String) → k ≢ r.request_id → lookup k w.evidence.store ≡ lookup k w₀.evidence.store
  pub next : w.evidence.next ≡ w₀.evidence.next + 1
  pub time : w.ticks ≡ t
  pub draws : w.draws ≡ w₀.draws + 1
  pub calls_made : outline w.trace ≡ calls ++ outline w₀.trace

-- The calls of the evidence service to its producer.
abbrev pub sends : Option Ingester → EvidenceRecord → List Call
sends none r = []
sends (some _) r = sent r ∷ []

-- The record after an event at the given time.
abbrev pub event_at : Host → ℕ → EvidenceEventType → Dict Value → EvidenceRecord → EvidenceRecord
event_at host t type details r = with_event type details (host.utcnow t) r

-- The record after `finalize` at the given time.
abbrev pub final_at : Host → ℕ → Final → EvidenceRecord → EvidenceRecord
final_at host t a r =
    with_event workflow_completed (completed_details a) (host.utcnow t) (closed a r)

module _ {w₀ : World} {ref : ℕ} {r : EvidenceRecord} {t : ℕ} {calls : List Call} where
  At-IsQuiet : {w v : World} → IsQuiet w v → At w₀ ref r t calls w → At w₀ ref r t calls v
  At-IsQuiet q h = record {
    object = rw q.evidence h.object;
    stored = rw q.evidence h.stored;
    others = rw q.evidence h.others;
    entries = rw q.evidence h.entries;
    next = rw q.evidence h.next;
    time = q.ticks ∙ h.time;
    draws = q.draws ∙ h.draws;
    calls_made = q.calls ∙ h.calls_made;
  }

module _ {w₀ : World} {ref : ℕ} {r : EvidenceRecord} {t : ℕ} {calls : List Call} where
  -- a call of the engine that does not touch the records
  pub At-log :
      (c : Call) {w : World}
      → outline (log c w).trace ≡ c ∷ outline w.trace
      → At w₀ ref r t calls w
      → At w₀ ref r t (c ∷ calls) (log c w)
  At-log c e h = record {
    object = h.object;
    stored = h.stored;
    others = h.others;
    entries = h.entries;
    next = h.next;
    time = h.time;
    draws = h.draws;
    calls_made = e ∙ ap (λ cs. c ∷ cs) h.calls_made;
  }

  pub At-publish :
      (bus : EventBus) (n : String) (p : EventPayload) {w : World}
      → At w₀ ref r t calls w
      → At w₀ ref r t (published n p ∷ calls) (publish bus n p w)
  unfolding outline
  At-publish bus n p {w} h = At-IsQuiet (publish-IsQuiet bus n p w) (At-log (published n p) refl h)

  At-save :
      (s : EvidenceRecord) {w : World} (u : ℕ)
      → s.request_id ≡ r.request_id
      → At w₀ ref r t calls w
      → At w₀ ref s u calls (save ref s (record w { ticks = u }))
  unfolding save
  At-save s {w} u same h = record {
    object = ground arith;
    stored = lookup-insert_self s.request_id ref w.evidence.store;
    others = λ k apart. elim (Bool-cases (nat_eq ref k)) [
      | inl e ↦ absurd (apart (ground arith))
      | inr e ↦ rw e (h.others k apart)
    ];
    entries = λ k apart.
        lookup-insert_ne s.request_id k ref w.evidence.store (λ e. apart (cc))
        ∙ h.entries k (λ e. apart (cc));
    next = h.next;
    time = refl;
    draws = h.draws;
    calls_made = h.calls_made;
  }

  At-IsStored : {w : World} → At w₀ ref r t calls w → IsStored ref w
  At-IsStored {w} h e = absurd (none-ne-some ref (cc (h.stored, h.object)))

module _ {w₀ : World} {ref : ℕ} {r : EvidenceRecord} {t : ℕ} {calls : List Call} where
  At-send_if :
      (producer : Option Ingester) (w : World)
      → At w₀ ref r t calls w
      → At w₀ ref r t (sends producer r ++ calls) (send_if producer r w)
  unfolding outline
  At-send_if none w h = h
  At-send_if (some ingester) w h =
      At-IsQuiet (send_record-IsQuiet ingester r w) (At-log (sent r) refl h)

module _ (host : Host) {w₀ : World} {ref t : ℕ} {r : EvidenceRecord} {calls : List Call} where
  -- An event is appended at the next reading of the clock.
  pub At-add_event :
      (type : EvidenceEventType) (details : Dict Value) (w : World)
      → At w₀ ref r t calls w
      → Ends
          (add_event host ref type details)
          w
          (ok ref)
          (At w₀ ref (event_at host t type details r) (t + 1) calls)
  unfolding append_event
  At-add_event type details w h = record {
    after = append_event host ref type details w;
    runs = add_event_stored host ref type details w (At-IsStored h);
    holds = rw (h.object, h.time) (At-save (event_at host t type details r) (t + 1) refl h);
  }

  At-close_record :
      (a : Final) (w : World)
      → At w₀ ref r t calls w
      → At w₀ ref (final_at host t a r) (t + 1) calls (close_record host ref a w)
  unfolding close_record
  At-close_record a w h = rw (h.object, h.time) (At-save (final_at host t a r) (t + 1) refl h)

  -- The record is closed at the next reading of the clock, and handed to the producer if there is one.
  pub At-finalize :
      (producer : Option Ingester) (a : Final) (w : World)
      → At w₀ ref r t calls w
      → Ends
          (finalize host producer ref a)
          w
          (ok ref)
          (At w₀ ref (final_at host t a r) (t + 1) (sends producer (final_at host t a r) ++ calls))
  unfolding send_current
  At-finalize producer a w h = record {
    after = send_current producer ref (close_record host ref a w);
    runs = finalize_stored host producer ref a w (At-IsStored h);
    holds =
        let done = At-close_record a w h in
        rw done.object (At-send_if producer (close_record host ref a w) done);
  }

-- The clock is read once more.
pub At-now :
    (host : Host) {w₀ : World} {ref t : ℕ} {r : EvidenceRecord} {calls : List Call} (w : World)
    → At w₀ ref r t calls w
    → Ends (calls_of (now host)) w (ok (host.utcnow t)) (At w₀ ref r (t + 1) calls)
unfolding calls_of
At-now host {t = t} w h = record {
  after = record w { ticks = t + 1 };
  runs = rw h.time;
  holds = record {
    object = h.object;
    stored = h.stored;
    others = h.others;
    entries = h.entries;
    next = h.next;
    time = refl;
    draws = h.draws;
    calls_made = h.calls_made;
  };
}

module _ {w₀ : World} {ref t : ℕ} {r : EvidenceRecord} {calls : List Call} where
  -- A call that is made as a step of its own.
  pub At-call :
      (c : Call) (w : World)
      → outline (log c w).trace ≡ c ∷ outline w.trace
      → At w₀ ref r t calls w
      → Ends (modify (log c)) w (ok tt) (At w₀ ref r t (c ∷ calls))
  At-call c w e h = Ends-modify _ (log c) w (At-log c e h)

  pub At-announce :
      (bus : EventBus) (n : String) (p : EventPayload) (w : World)
      → At w₀ ref r t calls w
      → Ends (modify (publish bus n p)) w (ok tt) (At w₀ ref r t (published n p ∷ calls))
  At-announce bus n p w h = Ends-modify _ (publish bus n p) w (At-publish bus n p h)

  -- A value computed outside the state.
  pub At-lift :
      {A : Type 0} (p q : Result A) (w : World)
      → p ≡ q
      → At w₀ ref r t calls w
      → Ends (lift p) w q (At w₀ ref r t calls)
  At-lift p q w e h = Ends-lift _ p q w e h
