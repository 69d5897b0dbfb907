-- ===== src/Value.antt =====
-- The Python values that pass through payloads, event payloads and responses.
use infra_steward_gateway.Core.{
  ℕ, zero, ◌%◌, ◌^◌, String, Bool, true, false, not, Option, none, some, List, [], ◌∷◌, nat_eq,
}
use infra_steward_gateway.Dict.{Dict}
use infra_steward_gateway.PyStr.{truthy}

-- `negsuc n` is -(n + 1).
pub data ℤ : Type 0 where
  pos : ℕ → ℤ
  negsuc : ℕ → ℤ

-- A float is its IEEE 754 bit pattern; `other` is a Python object of no JSON type, named by its class.
mutual
  pub data Value : Type 0 where
    null : Value
    bool : Bool → Value
    int : ℤ → Value
    float : ℕ → Value
    text : String → Value
    arr : Items → Value
    obj : Fields → Value
    other : String → Value

  pub data Items : Type 0 where
    nil : Items
    cons : Value → Items → Items

  pub data Fields : Type 0 where
    end : Fields
    field : String → Value → Fields → Fields

unfoldable pub fields : Dict Value → Fields
fields [] = end
fields ((k, v) ∷ d) = field k v (fields d)

unfoldable pub entries : Fields → Dict Value
entries end = []
entries (field k v f) = (k, v) ∷ entries f

-- a dict as a value
unfoldable pub object : Dict Value → Value
unfolding fields
object d = obj (fields d)

unfoldable pub texts : List String → Items
texts [] = nil
texts (s ∷ ss) = cons (text s) (texts ss)

abbrev pub text_list : List String → Value
text_list ss = arr (texts ss)

-- a value of type `str | None`
abbrev pub optional : Option String → Value
optional none = null
optional (some s) = text s

-- `bool(v)`. Both zeros of a float are false; an object of another type is taken for true.
unfoldable pub is_true : Value → Bool
is_true null = false
is_true (bool b) = b
is_true (int (pos zero)) = false
is_true (int _) = true
is_true (float bits) = not (nat_eq (bits % 2 ^ 63) 0)
is_true (text s) = truthy s
is_true (arr nil) = false
is_true (arr _) = true
is_true (obj end) = false
is_true (obj _) = true
is_true (other _) = true
