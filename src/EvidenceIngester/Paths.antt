-- ===== src/EvidenceIngester/Paths.antt =====
-- What the ingester uses of Go's `strings`: `TrimPrefix`, `HasSuffix` and `Contains` with "/".
pub mod Laws
use Prim.Native.Char.{Char, code}
use Prim.Native.String
use infra_steward_gateway.Core.{
  String, Bool, true, false, ◌||◌, ◌==◌, Option, none, some, get_or, nat_eq, if◌then◌else◌,
}

unfoldable pub after : String → String → Option String
after String.[] s = some s
after (String.◌∷◌ a p) String.[] = none
after (String.◌∷◌ a p) (String.◌∷◌ b s) =
    let rest = after p s in if nat_eq (code a) (code b) then rest else none

unfoldable pub trim_prefix : String → String → String
unfolding after
trim_prefix s prefix = get_or (after prefix s) s

unfoldable pub has_suffix : String → String → Bool
has_suffix String.[] suffix = String.[] == suffix
has_suffix (String.◌∷◌ c s) suffix = String.◌∷◌ c s == suffix || has_suffix s suffix

unfoldable pub contains_slash : String → Bool
contains_slash String.[] = false
contains_slash (String.◌∷◌ c s) = nat_eq (code c) 47 || contains_slash s
