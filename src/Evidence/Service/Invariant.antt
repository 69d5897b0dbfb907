-- ===== src/Evidence/Service/Invariant.antt =====
-- The records of app/evidence/service.py under sequences of calls of the service.
use infra_steward_gateway.Core.{
  ℕ, ◌<◌, ◌≤◌, String, ◌≡◌, refl, Option, some, List, [], ◌++◌, arith, eq_iff, Option-cases, inl,
  inr, Bool-cases, nat_eq,
}
use mathlib.Core.List.{append-nil, append_assoc}
use infra_steward_gateway.Dict.{Dict, lookup}
use infra_steward_gateway.Dict.Laws.{lookup-insert}
use infra_steward_gateway.Value.{Value}
use infra_steward_gateway.Runtime.{Host}
use infra_steward_gateway.Evidence.Models.{
  EvidenceEventType, workflow_completed, EvidenceEvent, EvidenceRecord,
}
use infra_steward_gateway.Evidence.Producer.{Ingester}
use infra_steward_gateway.World.{World, EvidenceStore, now, draw, initial, assign}
use infra_steward_gateway.Evidence.Service.{
  Start, Final, save, allocate, start_record, append_event, add_event, close_record, finalize,
  with_event, closed, completed_details,
}
use infra_steward_gateway.Evidence.Service.Laws.{
  send_current-evidence, add_event_stored, add_event_missing, finalize_stored, finalize_missing,
}

-- Every entry of the store refers to an existing record of that request.
pub record IsConsistent (st : EvidenceStore) : Type 0 where
  pub entry :
      (k : String) (ref : ℕ)
      → lookup k st.store ≡ some ref
      → (ref < st.next) × ((st.objects ref).request_id ≡ k)

-- What can have happened to a record that existed: it is of the same request and tenant, and events
-- were appended.
pub record IsExtended (r s : EvidenceRecord) : Type 0 where
  pub request : s.request_id ≡ r.request_id
  pub tenant : s.tenant_id ≡ r.tenant_id
  pub more : List EvidenceEvent
  pub appended : s.events ≡ r.events ++ more

pub record Grows (s t : EvidenceStore) : Type 0 where
  pub longer : s.next ≤ t.next
  pub kept : (ref : ℕ) → ref < s.next → IsExtended (s.objects ref) (t.objects ref)

IsExtended-refl : (r : EvidenceRecord) → IsExtended r r
IsExtended-refl r = record { request = refl; tenant = refl; more = []; appended = rw append-nil }

IsExtended-trans : {r s t : EvidenceRecord} → IsExtended r s → IsExtended s t → IsExtended r t
IsExtended-trans {r} p q = record {
  request = cc (p.request, q.request);
  tenant = cc (p.tenant, q.tenant);
  more = p.more ++ q.more;
  appended = rw (q.appended, p.appended) (append_assoc r.events p.more q.more);
}

Grows-refl : (s : EvidenceStore) → Grows s s
Grows-refl s = record { longer = omega arith; kept = λ ref h. IsExtended-refl _ }

Grows-trans : {r s t : EvidenceStore} → Grows r s → Grows s t → Grows r t
Grows-trans p q = record {
  longer = omega (arith, p.longer, q.longer);
  kept = λ ref h. IsExtended-trans (p.kept ref h) (q.kept ref (omega (arith, p.longer)));
}

save-IsConsistent :
    (ref : ℕ) (r : EvidenceRecord) (w : World)
    → ref < w.evidence.next
    → ((k : String) → lookup k w.evidence.store ≡ some ref → r.request_id ≡ k)
    → IsConsistent w.evidence
    → IsConsistent (save ref r w).evidence
unfolding save
save-IsConsistent ref r w lt same h = record {
  entry = λ k other e. ground (
    arith,
    lookup-insert r.request_id k ref w.evidence.store,
    eq_iff r.request_id k,
    h.entry k other,
    same k,
  );
}

assign-IsExtended :
    (ref k : ℕ) (r : EvidenceRecord) (objects : ℕ → EvidenceRecord)
    → IsExtended (objects ref) r
    → IsExtended (objects k) (assign ref r objects k)
assign-IsExtended ref k r objects h = elim (Bool-cases (nat_eq ref k)) [
  | inl same ↦ let e : ref ≡ k = ground arith in rw same (rw e at h)
  | inr other ↦ rw other (IsExtended-refl (objects k))
]

save-Grows :
    (ref : ℕ) (r : EvidenceRecord) (w : World)
    → IsExtended (w.evidence.objects ref) r
    → Grows w.evidence (save ref r w).evidence
unfolding save
save-Grows ref r w h = record {
  longer = omega arith;
  kept = λ k lt. assign-IsExtended ref k r w.evidence.objects h;
}

-- One call of an operation that changes the records, with any arguments, of an existing record.
pub data Step (host : Host) : World → World → Type 0 where
  started : (a : Start) (w : World) → Step host w (start_record host a w).1
  evented :
      (ref : ℕ) (type : EvidenceEventType) (details : Dict Value) (w : World)
      → ref < w.evidence.next
      → Step host w (add_event host ref type details w).1
  finalized :
      (producer : Option Ingester) (ref : ℕ) (a : Final) (w : World)
      → ref < w.evidence.next
      → Step host w (finalize host producer ref a w).1

pub data Reach (host : Host) (u : World) : World → Type 0 where
  here : Reach host u u
  next : {v w : World} → Reach host u v → Step host v w → Reach host u w

allocate_keeps :
    (r : EvidenceRecord) (w : World)
    → IsConsistent w.evidence
    → IsConsistent (allocate r w).1.evidence × Grows w.evidence (allocate r w).1.evidence
unfolding save
allocate_keeps r w h = (
  record {
    entry = λ k other e. ground (
      arith,
      lookup-insert r.request_id k w.evidence.next w.evidence.store,
      eq_iff r.request_id k,
      h.entry k other,
    );
  },
  record {
    longer = omega arith;
    kept = λ k lt. elim (Bool-cases (nat_eq w.evidence.next k)) [
      | inl same ↦ absurd (ground arith)
      | inr apart ↦ rw apart (IsExtended-refl _)
    ];
  },
)

module _ (host : Host) where
  append_event_keeps :
      (ref : ℕ) (type : EvidenceEventType) (details : Dict Value) (w : World)
      → ref < w.evidence.next
      → IsConsistent w.evidence
      → IsConsistent (append_event host ref type details w).evidence
        × Grows w.evidence (append_event host ref type details w).evidence
  unfolding append_event
  append_event_keeps ref type details w lt h =
      let (t, v) = now host w in
      let r = with_event type details t (w.evidence.objects ref) in
      (
        save-IsConsistent ref r v lt (λ k e. (h.entry k ref e).1) h,
        save-Grows ref r v (record { request = refl; tenant = refl; more = _; appended = refl }),
      )

  close_record_keeps :
      (ref : ℕ) (a : Final) (w : World)
      → ref < w.evidence.next
      → IsConsistent w.evidence
      → IsConsistent (close_record host ref a w).evidence
        × Grows w.evidence (close_record host ref a w).evidence
  unfolding close_record
  close_record_keeps ref a w lt h =
      let (t, v) = now host w in
      let r =
        with_event workflow_completed (completed_details a) t (closed a (w.evidence.objects ref)) in
      (
        save-IsConsistent ref r v lt (λ k e. (h.entry k ref e).1) h,
        save-Grows ref r v (record { request = refl; tenant = refl; more = _; appended = refl }),
      )

  start_record_keeps :
      (a : Start) (w : World)
      → IsConsistent w.evidence
      → IsConsistent (start_record host a w).1.evidence
        × Grows w.evidence (start_record host a w).1.evidence
  unfolding start_record
  start_record_keeps a w h = elim (Option-cases a.request_id) [
    | inl e ↦ rw e (allocate_keeps _ (now host (draw host w).1).1 h)
    | inr (id, e) ↦ rw e (allocate_keeps _ (now host w).1 h)
  ]

  pub Step-keeps :
      {w v : World}
      → Step host w v
      → IsConsistent w.evidence
      → IsConsistent v.evidence × Grows w.evidence v.evidence
  Step-keeps (started a w) h = start_record_keeps a w h
  Step-keeps (evented ref type details w lt) h =
      elim (Option-cases (lookup (w.evidence.objects ref).request_id w.evidence.store)) [
        | inl e ↦ rw (add_event_missing host ref type details w e) (h, Grows-refl w.evidence)
        | inr (k, e) ↦
            rw (add_event_stored host ref type details w (ground arith))
              (append_event_keeps ref type details w lt h)
      ]
  Step-keeps (finalized producer ref a w lt) h =
      elim (Option-cases (lookup (w.evidence.objects ref).request_id w.evidence.store)) [
        | inl e ↦ rw (finalize_missing host producer ref a w e) (h, Grows-refl w.evidence)
        | inr (k, e) ↦
            rw (finalize_stored host producer ref a w (ground arith))
              (rw send_current-evidence (close_record_keeps ref a w lt h))
      ]

  -- After any sequence of calls of the service, with any arguments, a store that was consistent is
  -- so: each entry refers to an existing record, and to one of the request that it is filed under.
  -- Every record that existed before is still of the same request and tenant, and its events are
  -- those it had, in order, with others behind them.
  pub Reach-keeps :
      {u w : World}
      → IsConsistent u.evidence
      → Reach host u w
      → IsConsistent w.evidence × Grows u.evidence w.evidence
  Reach-keeps {u} h here = (h, Grows-refl u.evidence)
  Reach-keeps h (next r st) =
      let (c, g) = Reach-keeps h r in let (d, k) = Step-keeps st c in (d, Grows-trans g k)

pub initial-IsConsistent : IsConsistent initial.evidence
unfolding lookup
initial-IsConsistent = record { entry = λ k ref e. cc }
