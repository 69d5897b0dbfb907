-- ===== src/Evidence/Producer.antt =====
-- app/evidence/producer.py. The HTTP client, and what writes and reads JSON, are outside the
-- repository.
use infra_steward_gateway.Core.{ℕ, String}
use infra_steward_gateway.Value.{Value}
use infra_steward_gateway.Exec.{Exec, Result, ok, err, lift}
use infra_steward_gateway.Config.{Settings, thirty_seconds}
use infra_steward_gateway.Evidence.Models.{EvidenceRecord, serializable_dict}
use infra_steward_gateway.World.{World, log, sent, posted, printed}

pub record Ingester : Type 0 where
  -- `record.json()`
  pub json : EvidenceRecord → Result String
  -- `json.loads(s)`
  pub loads : String → Result Value
  -- `client.post(path, json=payload)`: a status code, or a transport error
  pub post : String → Value → Result ℕ
  -- `client.aclose()`
  pub aclose : Result (Unit {0})
  -- `response.raise_for_status()`
  pub raise_for_status : ℕ → Result (Unit {0})

-- `EvidenceProducer(settings)`; the argument is `httpx.AsyncClient`, of a base address and a timeout
-- in seconds, together with what answers there.
unfoldable pub evidence_producer : (String → ℕ → Result Ingester) → Settings → Result Ingester
evidence_producer async_client settings = async_client settings.evidence_ingester_uri thirty_seconds

unfoldable pub close : Ingester → Exec World (Unit {0})
close ingester = lift ingester.aclose

module _ (ingester : Ingester) (r : EvidenceRecord) where
  -- `except Exception`: the failure is printed, and the workflow goes on
  abbrev caught : {A : Type 0} → Result A → (A → World → World) → World → World
  caught (ok a) k w = k a w
  caught (err e) k w = log (printed r.request_id e) w

  unfoldable pub send_record : World → World
  send_record w =
      caught (serializable_dict ingester.json ingester.loads r)
        (λ payload v.
          caught (ingester.post "/evidence/events" payload)
            (λ code u. caught (ingester.raise_for_status code) (λ _ t. t) u)
            (log (posted "/evidence/events" payload) v))
        (log (sent r) w)
