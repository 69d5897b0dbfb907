-- ===== src/Evidence/Service/Laws.antt =====
-- What each operation of the evidence service does to the records.
use infra_steward_gateway.Core.{
  ◌∷◌, [], sym, ◌∙◌, Option-cases, inl, inr, ℕ, ◌≡◌, ◌≢◌, refl, Option, none, some, arith,
}
use infra_steward_gateway.PyStr.{concat}
use infra_steward_gateway.Dict.{Dict, lookup}
use infra_steward_gateway.Value.{Value}
use infra_steward_gateway.Exec.{raise_result, key_error, ok, ◌>>=◌, modify, pure}
use infra_steward_gateway.Runtime.{Host}
use infra_steward_gateway.Evidence.Models.{EvidenceEventType, EvidenceRecord}
use infra_steward_gateway.Evidence.Producer.{Ingester, send_record}
use infra_steward_gateway.World.{World}
use infra_steward_gateway.Evidence.Service.{
  Final, send_if, append_event, add_event, close_record, send_current, finalize,
}

-- The record's request is in the store.
abbrev pub IsStored : ℕ → World → Type 0
IsStored ref w = lookup (w.evidence.objects ref).request_id w.evidence.store ≢ none

pub send_if-evidence :
    (producer : Option Ingester) (r : EvidenceRecord) (w : World)
    → ((send_if producer r w).evidence ≡ w.evidence)
      × ((send_if producer r w).ticks ≡ w.ticks)
      × ((send_if producer r w).draws ≡ w.draws)
unfolding send_record
send_if-evidence none r w = (refl, refl, refl)
send_if-evidence (some ingester) r w = ground arith

pub send_current-evidence :
    (producer : Option Ingester) (ref : ℕ) (w : World)
    → (send_current producer ref w).evidence ≡ w.evidence
unfolding send_current
send_current-evidence producer ref w = (send_if-evidence producer (w.evidence.objects ref) w).0

module _ (host : Host) where
  -- An event for a stored record is appended; the reference comes back.
  pub add_event_stored :
      (ref : ℕ) (type : EvidenceEventType) (details : Dict Value) (w : World)
      → IsStored ref w
      → add_event host ref type details w ≡ (ok ref, append_event host ref type details w)
  unfolding add_event ◌>>=◌ modify pure
  add_event_stored ref type details w h = ground arith

  pub finalize_stored :
      (producer : Option Ingester) (ref : ℕ) (a : Final) (w : World)
      → IsStored ref w
      → finalize host producer ref a w
        ≡ (ok ref, send_current producer ref (close_record host ref a w))
  unfolding finalize ◌>>=◌ modify pure
  finalize_stored producer ref a w h = ground arith

  pub add_event_missing :
      (ref : ℕ) (type : EvidenceEventType) (details : Dict Value) (w : World)
      → lookup (w.evidence.objects ref).request_id w.evidence.store ≡ none
      → (add_event host ref type details w).1 ≡ w
  unfolding add_event ◌>>=◌ modify pure
  add_event_missing ref type details w h = ground arith

  pub finalize_missing :
      (producer : Option Ingester) (ref : ℕ) (a : Final) (w : World)
      → lookup (w.evidence.objects ref).request_id w.evidence.store ≡ none
      → (finalize host producer ref a w).1 ≡ w
  unfolding finalize ◌>>=◌ modify pure
  finalize_missing producer ref a w h = ground arith

  finalize_refused :
      (producer : Option Ingester) (ref : ℕ) (a : Final) (w : World)
      → lookup (w.evidence.objects ref).request_id w.evidence.store ≡ none
      → finalize host producer ref a w ≡ (
        raise_result key_error (
            concat (
              "EvidenceRecord with request_id "
              ∷ (w.evidence.objects ref).request_id
              ∷ " not found"
              ∷ [])),
        w,
      )
  unfolding finalize ◌>>=◌ modify pure
  finalize_refused producer ref a w h = ground arith

  -- The ingester has no say in the evidence: for any two producers, present or not and whatever they
  -- answer, finalizing gives the same result and leaves the same records, and raises for both or for
  -- neither.
  pub finalize_whatever_producer :
      (p q : Option Ingester) (ref : ℕ) (a : Final) (w : World)
      → ((finalize host p ref a w).0 ≡ (finalize host q ref a w).0)
        × ((finalize host p ref a w).1.evidence ≡ (finalize host q ref a w).1.evidence)
  finalize_whatever_producer p q ref a w =
      elim (Option-cases (lookup (w.evidence.objects ref).request_id w.evidence.store)) [
        | inl e ↦ rw (finalize_refused p ref a w e, finalize_refused q ref a w e) (refl, refl)
        | inr (k, e) ↦
            let v = close_record host ref a w in
            let stored : IsStored ref w = ground (arith, e) in
            rw (finalize_stored p ref a w stored, finalize_stored q ref a w stored)
              (refl, send_current-evidence p ref v ∙ sym (send_current-evidence q ref v))
      ]
