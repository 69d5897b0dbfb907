-- ===== src/Evidence/Service/Refinement.antt =====
-- The evidence service against its abstract view.
use infra_steward_gateway.Core.{
  ℕ, ◌+◌, String, ◌≡◌, ◌≢◌, refl, ap, ◌∙◌, ◌==◌, Option, none, some, List, [], ◌∷◌, arith, eq_iff,
  if◌then◌else◌, Option-cases, inl, inr,
}
use infra_steward_gateway.Dict.{Dict, lookup}
use infra_steward_gateway.Dict.Laws.{lookup-insert}
use infra_steward_gateway.Value.{Value}
use infra_steward_gateway.Runtime.{Host}
use infra_steward_gateway.World.{World, now}
use infra_steward_gateway.Evidence.Models.{
  EvidenceEventType, EvidenceRecord, workflow_started, workflow_completed,
}
use infra_steward_gateway.Evidence.Producer.{Ingester}
use infra_steward_gateway.Evidence.Service.{
  Start, Final, started_details, completed_details, with_event, fresh, closed, save, start_record,
  append_event, close_record, send_current, send_if, get_record,
}
use infra_steward_gateway.Evidence.Service.Laws.{
  IsStored, send_if-evidence, add_event_stored, finalize_stored,
}
use infra_steward_gateway.Evidence.Service.Invariant.{
  IsConsistent, started, evented, finalized, Step-keeps,
}
use infra_steward_gateway.Evidence.Service.Journal.{
  Command, opened, noted, ended, target, Journal, view, revise, enter, enter_all, perform,
  perform_all,
}

-- What is on file after an object is saved that no other request has on file.
get_record-save :
    (k : String) (ref : ℕ) (r : EvidenceRecord) (w : World)
    → ((j : ℕ) → lookup k w.evidence.store ≡ some j → r.request_id ≢ k → ref ≢ j)
    → get_record k (save ref r w) ≡ (if r.request_id == k then some r else get_record k w)
unfolding get_record save
get_record-save k ref r w apart =
    let inserted = lookup-insert r.request_id k ref w.evidence.store in
    elim (Option-cases (lookup k w.evidence.store)) [
      | inl e ↦ ground (arith, inserted, e)
      | inr (j, e) ↦ ground (arith, inserted, e, apart j e, eq_iff r.request_id k)
    ]

-- The clock and the next reference have no part in what is on file.
get_record-clock :
    (k : String) (n t : ℕ) (w : World)
    → get_record k (record w { evidence = record w.evidence { next = n }; ticks = t })
      ≡ get_record k w
unfolding get_record
get_record-clock k n t w = refl

-- What is on file under a key, by the reference that the store has for it.
on_file_none : (k : String) (w : World) → lookup k w.evidence.store ≡ none → get_record k w ≡ none
unfolding get_record
on_file_none k w e = ground (arith, e)

on_file_some :
    (k : String) (ref : ℕ) (w : World)
    → lookup k w.evidence.store ≡ some ref
    → get_record k w ≡ some (w.evidence.objects ref)
unfolding get_record
on_file_some k ref w e = ground (arith, e)

ticks-save : (ref : ℕ) (r : EvidenceRecord) (w : World) → (save ref r w).ticks ≡ w.ticks
unfolding save
ticks-save ref r w = refl

-- A view is equal to another if the records on file and the clock are.
view_ext :
    (j : Journal) (w : World)
    → ((k : String) → get_record k w ≡ j.on_file k)
    → w.ticks ≡ j.ticks
    → view w ≡ j
view_ext j w h e = λ i. record { on_file = λ k. h k i; ticks = e i }

-- Sending a record changes nothing that the view shows.
sent_view :
    (producer : Option Ingester) (r : EvidenceRecord) (w : World)
    → view (send_if producer r w) ≡ view w
unfolding get_record
sent_view producer r w =
    let same = send_if-evidence producer r w in
    λ i. record { on_file = λ k. get_record k (record w { evidence = same.0 i }); ticks = same.1 i }

module _ (host : Host) where
  opened_refines :
      (id : String) (a : Start) (w : World)
      → IsConsistent w.evidence
      → view (start_record host (record a { request_id = some id }) w).1
        ≡ enter host (opened id a) (view w)
  unfolding start_record enter
  opened_refines id a w c =
      let v = (now host w).1 in
      let r = with_event workflow_started (started_details a) (host.utcnow w.ticks) (fresh a id) in
      let u = record v { evidence = record v.evidence { next = w.evidence.next + 1 } } in
      view_ext (enter host (opened id a) (view w)) (save w.evidence.next r u)
        (λ k.
          get_record-save k w.evidence.next r u (λ j e _ same. ground (arith, c.entry k j e))
          ∙ ap (λ old. if id == k then some r else old)
              (get_record-clock k (w.evidence.next + 1) (w.ticks + 1) w))
        (ticks-save w.evidence.next r u)

  -- An object on file, changed and saved at the next reading of the clock.
  saved_refines :
      (id : String) (ref : ℕ) (r : EvidenceRecord) (w : World)
      → IsConsistent w.evidence
      → lookup id w.evidence.store ≡ some ref
      → r.request_id ≡ id
      → (k : String)
      → get_record k (save ref r (now host w).1) ≡ (if id == k then some r else get_record k w)
  saved_refines id ref r w c e same k =
      get_record-save k ref r (now host w).1
        (λ j f other this. ground (arith, c.entry id ref e, c.entry k j f))
      ∙ ap (λ i. if i == k then some r else get_record k (now host w).1) same
      ∙ ap (λ old. if id == k then some r else old)
          (get_record-clock k w.evidence.next (w.ticks + 1) w)

  -- A command for a request that has no record is refused, and changes nothing.
  missing_refines :
      (c : Command) (w : World)
      → get_record (target c) w ≡ none
      → revise host c w.ticks none ≡ none
      → view w ≡ enter host c (view w)
  unfolding enter
  missing_refines c w e f =
      view_ext (enter host c (view w)) w (λ k. ground (arith, e, f, eq_iff (target c) k))
        (rw (e, f))

  -- A command for a request that has one.
  found_refines :
      (c : Command) (ref : ℕ) (r : EvidenceRecord) (w : World)
      → IsConsistent w.evidence
      → lookup (target c) w.evidence.store ≡ some ref
      → revise host c w.ticks (some (w.evidence.objects ref)) ≡ some r
      → r.request_id ≡ target c
      → view (save ref r (now host w).1) ≡ enter host c (view w)
  unfolding enter
  found_refines c ref r w h e f same =
      let old = on_file_some (target c) ref w e in
      view_ext (enter host c (view w)) (save ref r (now host w).1)
        (λ k. saved_refines (target c) ref r w h e same k ∙ rw (old, f))
        (ticks-save ref r (now host w).1 ∙ rw (old, f))

  module _ (producer : Option Ingester) where
    noted_refines :
        (id : String) (type : EvidenceEventType) (details : Dict Value) (w : World)
        → IsConsistent w.evidence
        → view (perform host producer (noted id type details) w)
          ≡ enter host (noted id type details) (view w)
    unfolding append_event
    noted_refines id type details w c = elim (Option-cases (lookup id w.evidence.store)) [
      | inl e ↦ rw e (missing_refines (noted id type details) w (on_file_none id w e) refl)
      | inr (ref, e) ↦
          let stored : IsStored ref w = ground (arith, c.entry id ref e, e) in
          let r = with_event type details (host.utcnow w.ticks) (w.evidence.objects ref) in
          rw e (
            ap (λ p. view p.1) (add_event_stored host ref type details w stored)
            ∙ found_refines (noted id type details) ref r w c e refl (c.entry id ref e).1)
    ]

    ended_refines :
        (id : String) (a : Final) (w : World)
        → IsConsistent w.evidence
        → view (perform host producer (ended id a) w) ≡ enter host (ended id a) (view w)
    unfolding close_record send_current
    ended_refines id a w c = elim (Option-cases (lookup id w.evidence.store)) [
      | inl e ↦ rw e (missing_refines (ended id a) w (on_file_none id w e) refl)
      | inr (ref, e) ↦
          let stored : IsStored ref w = ground (arith, c.entry id ref e, e) in
          let r =
            with_event workflow_completed (completed_details a) (host.utcnow w.ticks)
              (closed a (w.evidence.objects ref)) in
          let v = close_record host ref a w in
          rw e (
            ap (λ p. view p.1) (finalize_stored host producer ref a w stored)
            ∙ sent_view producer (v.evidence.objects ref) v
            ∙ found_refines (ended id a) ref r w c e refl (c.entry id ref e).1)
    ]

    perform-IsConsistent :
        (c : Command) (w : World)
        → IsConsistent w.evidence
        → IsConsistent (perform host producer c w).evidence
    perform-IsConsistent (opened id a) w h = (Step-keeps host (started _ w) h).0
    perform-IsConsistent (noted id type details) w h =
        elim (Option-cases (lookup id w.evidence.store)) [
          | inl e ↦ rw e h
          | inr (ref, e) ↦
              rw e (Step-keeps host (evented ref type details w (h.entry id ref e).0) h).0
        ]
    perform-IsConsistent (ended id a) w h = elim (Option-cases (lookup id w.evidence.store)) [
      | inl e ↦ rw e h
      | inr (ref, e) ↦ rw e (Step-keeps host (finalized producer ref a w (h.entry id ref e).0) h).0
    ]

    perform_refines :
        (c : Command) (w : World)
        → IsConsistent w.evidence
        → view (perform host producer c w) ≡ enter host c (view w)
    perform_refines (opened id a) w h = opened_refines id a w h
    perform_refines (noted id type details) w h = noted_refines id type details w h
    perform_refines (ended id a) w h = ended_refines id a w h

    -- From a consistent store, the service does what its abstract view does: after any commands, of
    -- any requests in any order and with any ingester, the records on file and the clock are those
    -- of the journal that entered the same commands.
    pub perform_all_refines :
        (cs : List Command) (w : World)
        → IsConsistent w.evidence
        → view (perform_all host producer cs w) ≡ enter_all host cs (view w)
    unfolding perform_all enter_all
    perform_all_refines [] w h = refl
    perform_all_refines (c ∷ cs) w h =
        perform_all_refines cs (perform host producer c w) (perform-IsConsistent c w h)
        ∙ ap (enter_all host cs) (perform_refines c w h)
