-- ===== src/EvidenceIngester/Timestamps.antt =====
-- go/evidence_ingester/domain/evidence.go: the JSON form of a timestamp. `time.Parse` and `Format` are
-- Go's and parameters; a time is an instant, which `UTC` keeps.
pub mod Laws
use Prim.Native.Char.{Char, code}
use Prim.Native.String
use infra_steward_gateway.Core.{
  ℕ, String, Bool, not, ◌&&◌, ◌||◌, ◌==◌, Option, none, some, List, [], ◌∷◌, nat_eq, if◌then◌else◌,
}
use infra_steward_gateway.PyStr.{truthy}

abbrev pub is_quote : Char → Bool
is_quote c = nat_eq (code c) 34

abbrev pub quote : String
quote = "\""

-- `strings.Trim` of quotes: at the left end, and at the right end.
unfoldable pub trim_left : String → String
trim_left String.[] = String.[]
trim_left (String.◌∷◌ c s) = if is_quote c then trim_left s else String.◌∷◌ c s

unfoldable pub trim_right : String → String
trim_right String.[] = String.[]
trim_right (String.◌∷◌ c s) =
    let rest = trim_right s in
    if is_quote c && not (truthy rest) then String.[] else String.◌∷◌ c rest

unfoldable pub trim : String → String
unfolding trim_left trim_right
trim s = trim_right (trim_left s)

abbrev pub rfc3339_nano : String
rfc3339_nano = "2006-01-02T15:04:05.999999999Z07:00"

abbrev pub rfc3339 : String
rfc3339 = "2006-01-02T15:04:05Z07:00"

abbrev pub parsers : List String
parsers = rfc3339_nano ∷ rfc3339 ∷ "2006-01-02T15:04:05.999999" ∷ "2006-01-02T15:04:05" ∷ []

-- `parse layout s` is none where `time.Parse` returns an error.
module _ (parse : String → String → Option ℕ) where
  -- the loop over the layouts
  unfoldable pub parse_first : List String → String → Option ℕ
  parse_first [] s = none
  parse_first (layout ∷ layouts) s = elim (parse layout s) [
    | some t ↦ some t
    | none ↦ parse_first layouts s
  ]

  -- `UnmarshalJSON`: the new value of the timestamp, or none for an error
  unfoldable pub unmarshal_json : String → ℕ → Option ℕ
  unfolding trim parse_first
  unmarshal_json text old =
      let str = trim text in
      if str == "" || str == "null" then some old else parse_first parsers str

-- `MarshalJSON`
unfoldable pub marshal_json : (String → ℕ → String) → ℕ → String
marshal_json format t = String.◌++◌ quote (String.◌++◌ (format rfc3339_nano t) quote)
