-- ===== src/World.antt =====
-- The state that the parts of the gateway share while requests are processed: the evidence service's
-- records, the readings of the clock and of the identifier source so far, and the calls made so far.
-- A record is a mutable object, so the service's store holds references to it, as the engine does.
use infra_steward_gateway.Core.{ℕ, ◌+◌, String, List, [], ◌∷◌, nat_eq, if◌then◌else◌}
use infra_steward_gateway.Dict.{Dict}
use infra_steward_gateway.Value.{Value}
use infra_steward_gateway.Exec.{Exc}
use infra_steward_gateway.Runtime.{Host}
use infra_steward_gateway.Evidence.Models.{EvidenceRecord, new_record}
use infra_steward_gateway.Workflow.RequestMetadata.{RequestMetadata}

pub data Call : Type 0 where
  -- a Prometheus counter, by its name and labels, is incremented
  counted : String → Dict String → Call
  -- a Prometheus histogram, by its name and labels, observes a float
  observed : String → Dict String → ℕ → Call
  -- the event bus is asked to publish an event
  published : String → Dict Value → Call
  -- a provider, by its class, is asked for an enrichment
  enriched : String → RequestMetadata → Value → Call
  -- a report is logged as submitted to an endpoint
  submitted : String → RequestMetadata → Call
  -- the producer is asked to send a record
  sent : EvidenceRecord → Call
  -- a subscriber, by its name, receives an event
  delivered : String → String → Dict Value → Call
  -- a warning about a subscriber that raised is logged
  warned : String → Exc → Call
  -- a record is posted to a path of the ingester
  posted : String → Value → Call
  -- a failure to send the record of a request is printed
  printed : String → Exc → Call

pub record EvidenceStore : Type 0 where
  -- the records that exist, by their references, which are the numbers below `next`
  pub objects : ℕ → EvidenceRecord
  pub next : ℕ
  -- `_store`
  pub store : Dict ℕ

pub record World : Type 0 where
  pub evidence : EvidenceStore
  pub ticks : ℕ
  pub draws : ℕ
  -- the readings of `time.time()`
  pub times : ℕ
  -- the newest call first
  pub trace : List Call

abbrev pub initial : World
initial = record {
  evidence = record { objects = λ _. new_record "" ""; next = 0; store = [] };
  ticks = 0;
  draws = 0;
  times = 0;
  trace = [];
}

abbrev pub log : Call → World → World
log c w = record w { trace = c ∷ w.trace }

-- `datetime.utcnow()`
abbrev pub now : Host → World → ℕ × World
now host w = (host.utcnow w.ticks, record w { ticks = w.ticks + 1 })

-- `time.time()`
abbrev pub time : Host → World → ℕ × World
time host w = (host.time w.times, record w { times = w.times + 1 })

-- `str(uuid4())`
abbrev pub draw : Host → World → String × World
draw host w = (host.uuid4 w.draws, record w { draws = w.draws + 1 })

-- What a reference points to is changed.
abbrev pub assign : ℕ → EvidenceRecord → (ℕ → EvidenceRecord) → ℕ → EvidenceRecord
assign ref r objects k = if nat_eq ref k then r else objects k

-- The calls of the gateway's own steps, without what subscribers and the ingester make of them.
unfoldable pub outline : List Call → List Call
outline [] = []
outline (counted n l ∷ t) = counted n l ∷ outline t
outline (observed n l x ∷ t) = observed n l x ∷ outline t
outline (published n p ∷ t) = published n p ∷ outline t
outline (enriched c m p ∷ t) = enriched c m p ∷ outline t
outline (submitted n m ∷ t) = submitted n m ∷ outline t
outline (sent r ∷ t) = sent r ∷ outline t
outline (_ ∷ t) = outline t
