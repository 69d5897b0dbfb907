-- ===== src/Workflow/Concurrent/Records.antt =====
-- The steps of a request on app/evidence/service.py, whatever other requests do between them: how they
-- take it from no record to an open one and to a closed one.
use infra_steward_gateway.Core.{ℕ, String, ◌≡◌, refl, sym, ◌∙◌, some, List, arith, inl, inr}
use infra_steward_gateway.Dict.{Dict}
use infra_steward_gateway.Dict.Laws.{lookup-insert_self, lookup-insert_ne}
use infra_steward_gateway.Value.{Value}
use infra_steward_gateway.Exec.{ok, calls, modify}
use infra_steward_gateway.Coroutine.{at_once}
use infra_steward_gateway.Runtime.{Host}
use infra_steward_gateway.World.{World, draw}
use infra_steward_gateway.Evidence.Models.{
  EvidenceEventType, EvidenceRecord, workflow_started, workflow_completed,
}
use infra_steward_gateway.Evidence.Service.{
  Start, Final, started_details, completed_details, with_event, fresh, closed, save, start_record,
  append_event, add_event, require_stored, close_record,
}
use infra_steward_gateway.Evidence.Service.Laws.{IsStored, add_event_stored}
use infra_steward_gateway.Evidence.Service.Journal.{Command}
use infra_steward_gateway.Evidence.Service.Story.{
  Story, Phase, open_record, closed_record, opens, notes, ends,
}
use infra_steward_gateway.Workflow.Concurrent.Stages.{Stage, unborn, named, owner, Holds, Keeps}
use infra_steward_gateway.Workflow.Concurrent.Ensures.{Oks, Ensures, Ensures-at_once, Keeps-IsSame}

module _ (host : Host) where
  -- The request has its identifier.
  pub data IsNamed (id : String) : Stage → Type 0 where
    is_named : {n : ℕ} → host.uuid4 n ≡ id → IsNamed id (named n)

  -- The request has a record of a tenant, in one of the phases of its story.
  pub data HasRecord (phase : Phase) (id : String) (ref : ℕ) (tenant status : String)
      : Stage → Type 0 where
    has_record :
        {n : ℕ} {r : EvidenceRecord} {cs : List Command}
        → host.uuid4 n ≡ id
        → r.request_id ≡ id
        → r.tenant_id ≡ tenant
        → r.status ≡ status
        → Story host id cs phase r
        → HasRecord phase id ref tenant status (owner n ref r)

  abbrev pub IsOpen : String → ℕ → String → Stage → Type 0
  IsOpen id ref tenant = HasRecord open_record id ref tenant "in_progress"

  abbrev pub IsClosed : String → ℕ → String → String → Stage → Type 0
  IsClosed = HasRecord closed_record

  pub draw_steps : Ensures host unborn (at_once (calls (draw host))) (Oks IsNamed)
  unfolding calls
  draw_steps = Ensures-at_once host (calls (draw host)) λ w h. (
    named w.draws,
    omega arith,
    record {
      draws = omega arith;
      next = omega arith;
      objects = λ k i j. refl;
      entries = λ k i. refl;
      numbers = λ n i. inr (sym i);
      refs = λ k i. absurd i;
    },
    is_named refl,
  )

  -- The request writes its own record.
  abbrev written : ℕ → EvidenceRecord → ℕ → World → World
  written ref s t w = save ref s (record w { ticks = t })

  module _ {n ref : ℕ} {r : EvidenceRecord} (w : World) (held : Holds host (owner n ref r) w) where
    held-IsStored : r.request_id ≡ host.uuid4 n → IsStored ref w
    held-IsStored e =
        let (drawn, below, object, entry) = held in rw (object, e, entry) (λ i. absurd (cc (i)))

    module _ (s : EvidenceRecord) (own : s.request_id ≡ host.uuid4 n) (t : ℕ) where
      written-Holds : Holds host (owner n ref s) (written ref s t w)
      unfolding save
      written-Holds =
          let (drawn, below, object, entry) = held in
          (
            drawn,
            below,
            ground arith,
            rw own (lookup-insert_self (host.uuid4 n) ref w.evidence.store),
          )

      written-Keeps : Keeps host (owner n ref r) (owner n ref s) w (written ref s t w)
      unfolding save
      written-Keeps = record {
        draws = omega arith;
        next = omega arith;
        objects = λ k below other. ground (arith, other);
        entries = λ k other.
            rw own
              (lookup-insert_ne (host.uuid4 n) k ref w.evidence.store (λ e. other n refl (sym e)));
        numbers = λ m i. inl i;
        refs = λ k i. inl i;
      }

    append_event-Holds :
        (type : EvidenceEventType) (details : Dict Value)
        → r.request_id ≡ host.uuid4 n
        → let s = with_event type details (host.utcnow w.ticks) r in
          let v = append_event host ref type details w in
          Holds host (owner n ref s) v × Keeps host (owner n ref r) (owner n ref s) w v
    unfolding append_event
    append_event-Holds type details own =
        let (drawn, below, object, entry) = held in
        rw object (written-Holds _ own _, written-Keeps _ own _)

    close_record-Holds :
        (a : Final)
        → r.request_id ≡ host.uuid4 n
        → let s =
            with_event workflow_completed
              (completed_details a)
              (host.utcnow w.ticks)
              (closed a r) in
          let v = close_record host ref a w in
          Holds host (owner n ref s) v × Keeps host (owner n ref r) (owner n ref s) w v
    unfolding close_record
    close_record-Holds a own =
        let (drawn, below, object, entry) = held in
        rw object (written-Holds _ own _, written-Keeps _ own _)

  pub start_record_steps :
      {id : String} {o : Stage} (a : Start)
      → IsNamed id o
      → a.request_id ≡ some id
      → Ensures host o
          (at_once (calls (start_record host a)))
          (Oks λ ref p. IsOpen id ref a.tenant_id p)
  unfolding calls start_record save
  start_record_steps {id} a (is_named {n} e) given =
      Ensures-at_once host (calls (start_record host a)) λ w h. rw given (
        owner n w.evidence.next
            (with_event workflow_started (started_details a) (host.utcnow w.ticks) (fresh a id)),
        (
          h,
          omega arith,
          ground arith,
          rw e (lookup-insert_self id w.evidence.next w.evidence.store),
        ),
        record {
          draws = omega arith;
          next = omega arith;
          objects = λ k below other. ground (arith, below);
          entries = λ k other.
              lookup-insert_ne id k w.evidence.next w.evidence.store
                (λ i. other n refl (sym i ∙ sym e));
          numbers = λ m i. inl i;
          refs = λ k i. inr (sym i);
        },
        has_record e refl refl refl (opens a w.ticks),
      )

  require_stored_returns :
      (ref : ℕ) (w : World) → IsStored ref w → require_stored host ref w ≡ (ok tt, w)
  unfolding require_stored
  require_stored_returns ref w stored = ground arith

  module _ {id tenant : String} {ref : ℕ} where
    pub require_stored_steps :
        {o : Stage}
        → IsOpen id ref tenant o
        → Ensures host o (at_once (require_stored host ref)) (Oks λ _ p. IsOpen id ref tenant p)
    require_stored_steps (has_record {n} {r} e own t st story) =
        Ensures-at_once host (require_stored host ref) λ w held.
          rw (require_stored_returns ref w (held-IsStored w held (own ∙ sym e))) (
            owner n ref r,
            held,
            Keeps-IsSame host (owner n ref r) w w refl refl,
            has_record e own t st story,
          )

    pub add_event_steps :
        {o : Stage} (type : EvidenceEventType) (details : Dict Value)
        → IsOpen id ref tenant o
        → Ensures host o
            (at_once (add_event host ref type details))
            (Oks λ _ p. IsOpen id ref tenant p)
    add_event_steps type details (has_record {n} {r} e own t st story) =
        Ensures-at_once host (add_event host ref type details) λ w held.
          let (h, k) = append_event-Holds w held type details (own ∙ sym e) in
          rw (add_event_stored host ref type details w (held-IsStored w held (own ∙ sym e))) (
            owner n ref (with_event type details (host.utcnow w.ticks) r),
            h,
            k,
            has_record e own t st (notes type details w.ticks story),
          )

    pub close_record_steps :
        {o : Stage} (a : Final)
        → IsOpen id ref tenant o
        → Ensures host o
            (at_once (modify (close_record host ref a)))
            (Oks λ _ p. IsClosed id ref tenant a.status p)
    unfolding modify
    close_record_steps a (has_record {n} {r} e own t st story) =
        Ensures-at_once host (modify (close_record host ref a)) λ w held.
          let (h, k) = close_record-Holds w held a (own ∙ sym e) in
          (
            owner n ref (
                with_event workflow_completed (completed_details a) (host.utcnow w.ticks)
                  (closed a r)),
            h,
            k,
            has_record e own t refl (ends a w.ticks story),
          )
