-- ===== src/Runtime.antt =====
-- What the gateway takes from outside the repository: identifiers, the clock, hashing, and the texts
-- that Python and its libraries print for values. Everything here is a parameter of the model.
use infra_steward_gateway.Core.{ℕ, String, List, [], ◌∷◌, map}
use infra_steward_gateway.PyStr.{concat, join_comma}
use infra_steward_gateway.Value.{Value}
use infra_steward_gateway.Exec.{
  Exc, ExcClass, unknown_tenant_error, provider_not_registered_error, key_error, Result,
}

pub record Host : Type 0 where
  -- `str(uuid4())`, the n-th call
  pub uuid4 : ℕ → String
  -- `datetime.utcnow()`, the n-th call, in microseconds
  pub utcnow : ℕ → ℕ
  -- `time.time()`, the n-th call, a float by its bit pattern
  pub time : ℕ → ℕ
  -- `a - b` of floats
  pub float_sub : ℕ → ℕ → ℕ
  -- `str(n)` of an int that is not negative
  pub str_int : ℕ → String
  -- `t.isoformat()`
  pub isoformat : ℕ → String
  -- `json.dumps(data, sort_keys=True)`, which raises on a value of no JSON type
  pub json_dumps : Value → Result String
  -- `hashlib.sha256(s.encode("utf-8")).hexdigest()`
  pub sha256_hex : String → String
  -- `str(v)` of a payload
  pub str_value : Value → String
  -- `repr(s)`
  pub repr : String → String

module _ (host : Host) where
  abbrev exc_text : ExcClass → String → String
  exc_text unknown_tenant_error m = host.repr m
  exc_text provider_not_registered_error m = host.repr m
  exc_text key_error m = host.repr m
  exc_text _ m = m

  -- `str(exc)`; a `KeyError` prints the `repr` of its argument
  unfoldable pub str_exc : Exc → String
  str_exc e = exc_text e.class e.message

  -- `f"{xs}"` of a list of texts
  unfoldable pub show_list : List String → String
  show_list xs = concat ("[" ∷ join_comma (map host.repr xs) ∷ "]" ∷ [])
