-- ===== src/Evidence/Service.antt =====
-- app/evidence/service.py
pub mod Laws
pub mod Invariant
pub mod Listing
pub mod Journal
pub mod Story
pub mod Refinement
pub mod Interleaving
pub mod Told
use infra_steward_gateway.Core.{
  ℕ, ◌+◌, String, Bool, true, false, ◌==◌, Option, none, some, List, [], ◌∷◌, ◌++◌, is_some,
  if◌then◌else◌, map,
}
use infra_steward_gateway.PyStr.{concat}
use infra_steward_gateway.Dict.{Dict, lookup, insert, values}
use infra_steward_gateway.Value.{Value, text, optional}
use infra_steward_gateway.Exec.{
  Exec, Result, ok, err, raise_result, key_error, lift, calls, modify, pure, ◌>>=◌, ◌>>◌,
}
use infra_steward_gateway.Runtime.{Host}
use infra_steward_gateway.Evidence.Models.{
  EvidenceEventType, workflow_started, workflow_completed, EvidenceEvent, EvidenceRecord,
  new_record,
}
use infra_steward_gateway.Evidence.Producer.{Ingester, send_record}
use infra_steward_gateway.World.{World, now, draw, assign}

-- The arguments of `start_record`.
pub record Start : Type 0 where
  pub tenant_id : String
  pub scenario : Option String
  pub report_id : Option String
  pub report_type : Option String
  pub jurisdiction : Option String
  pub regime : Option String
  pub policy_suite_version : Option String
  pub request_id : Option String

-- The arguments of `finalize`.
pub record Final : Type 0 where
  pub status : String
  pub decision_outcome : Option String
  pub input_hash : Option String
  pub output_hash : Option String
  pub provider_name : Option String
  pub provider_mode : Option String

abbrev pub started_details : Start → Dict Value
started_details a =
    ("tenant_id", text a.tenant_id)
    ∷ ("scenario", optional a.scenario)
    ∷ ("report_id", optional a.report_id)
    ∷ ("report_type", optional a.report_type)
    ∷ []

abbrev pub completed_details : Final → Dict Value
completed_details a =
    ("status", text a.status)
    ∷ ("decision_outcome", optional a.decision_outcome)
    ∷ ("input_hash", optional a.input_hash)
    ∷ ("output_hash", optional a.output_hash)
    ∷ []

-- `record.events.append(EvidenceEvent(event_type, details))`, at a reading of the clock
abbrev pub with_event : EvidenceEventType → Dict Value → ℕ → EvidenceRecord → EvidenceRecord
with_event type details t r = record r {
  events = r.events ++ record { timestamp = t; event_type = type; details = details } ∷ [];
}

-- The new record, before its first event.
abbrev pub fresh : Start → String → EvidenceRecord
fresh a id = record (new_record id a.tenant_id) {
  scenario = a.scenario;
  report_id = a.report_id;
  report_type = a.report_type;
  jurisdiction = a.jurisdiction;
  regime = a.regime;
  policy_suite_version = a.policy_suite_version;
  status = "in_progress";
}

-- `if x is not None: field = x`
abbrev pub overwrite : Option String → Option String → Option String
overwrite none old = old
overwrite (some x) old = some x

-- The assignments of `finalize`, before its event.
abbrev pub closed : Final → EvidenceRecord → EvidenceRecord
closed a r = record r {
  status = a.status;
  decision_outcome = a.decision_outcome;
  input_hash = a.input_hash;
  output_hash = a.output_hash;
  provider_name = overwrite a.provider_name r.provider_name;
  provider_mode = overwrite a.provider_mode r.provider_mode;
}

-- The object changes, and `_store[record.request_id] = record`.
unfoldable pub save : ℕ → EvidenceRecord → World → World
save ref r w = record w {
  evidence = record w.evidence {
    objects = assign ref r w.evidence.objects;
    store = insert r.request_id ref w.evidence.store;
  };
}

abbrev pub send_if : Option Ingester → EvidenceRecord → World → World
send_if none r w = w
send_if (some ingester) r w = send_record ingester r w

-- The next reference is the new object's.
abbrev pub allocate : EvidenceRecord → World → ℕ × World
allocate r w =
    let ref = w.evidence.next in
    (ref, save ref r (record w { evidence = record w.evidence { next = ref + 1 } }))

unfoldable pub send_current : Option Ingester → ℕ → World → World
send_current producer ref w = send_if producer (w.evidence.objects ref) w

module _ (host : Host) where
  abbrev pub request_id_or_draw : Option String → World → String × World
  request_id_or_draw none w = draw host w
  request_id_or_draw (some id) w = (id, w)

  unfoldable pub start_record : Start → World → ℕ × World
  unfolding save
  start_record a w =
      let (id, v) = request_id_or_draw a.request_id w in
      let (t, u) = now host v in
      allocate (with_event workflow_started (started_details a) t (fresh a id)) u

  -- `raise KeyError` unless the record's request is in the store
  unfoldable pub require_stored : ℕ → Exec World (Unit {0})
  require_stored ref w =
      let r = w.evidence.objects ref in
      (
        if is_some (lookup r.request_id w.evidence.store)
            then ok tt
            else raise_result key_error
                (concat ("EvidenceRecord with request_id " ∷ r.request_id ∷ " not found" ∷ [])),
        w,
      )

  unfoldable pub append_event : ℕ → EvidenceEventType → Dict Value → World → World
  append_event ref type details w =
      let (t, v) = now host w in save ref (with_event type details t (v.evidence.objects ref)) v

  unfoldable pub add_event : ℕ → EvidenceEventType → Dict Value → Exec World ℕ
  unfolding require_stored
  add_event ref type details = do
    require_stored ref
    modify (append_event ref type details)
    pure ref

  unfoldable pub close_record : ℕ → Final → World → World
  close_record ref a w =
      let (t, v) = now host w in
      save ref
        (with_event workflow_completed (completed_details a) t (closed a (v.evidence.objects ref)))
        v

  unfoldable pub finalize : Option Ingester → ℕ → Final → Exec World ℕ
  unfolding require_stored
  finalize producer ref a = do
    require_stored ref
    modify (close_record ref a)
    modify (send_current producer ref)
    pure ref

-- The record that a lookup returns, as it is at that time.
unfoldable pub get_record : String → World → Option EvidenceRecord
get_record request_id w = elim (lookup request_id w.evidence.store) [
  | none ↦ none
  | some ref ↦ some (w.evidence.objects ref)
]

unfoldable pub of_tenant : String → List EvidenceRecord → List EvidenceRecord
of_tenant tenant [] = []
of_tenant tenant (r ∷ rs) =
    let rest = of_tenant tenant rs in if r.tenant_id == tenant then r ∷ rest else rest

unfoldable pub list_records : Option String → World → List EvidenceRecord
unfolding of_tenant values
list_records none w = map w.evidence.objects (values w.evidence.store)
list_records (some tenant) w = of_tenant tenant (map w.evidence.objects (values w.evidence.store))
