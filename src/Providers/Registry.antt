-- ===== src/Providers/Registry.antt =====
-- app/providers/registry.py
pub mod Laws
use infra_steward_gateway.Core.{String, Option, none, some, List, [], ◌∷◌, if◌then◌else◌}
use infra_steward_gateway.PyStr.{truthy, sorted, concat, show_option}
use infra_steward_gateway.Dict.{Dict, lookup, insert, keys}
use infra_steward_gateway.Exec.{
  Result, ok, raise_result, value_error, provider_not_registered_error,
}
use infra_steward_gateway.Runtime.{Host, show_list}
use infra_steward_gateway.Providers.Base.{Provider}

pub record ProviderRegistry : Type 0 where
  pub providers : Dict Provider
  pub default_name : Option String

unfoldable pub new_registry : Option String → ProviderRegistry
new_registry default_name = record { providers = []; default_name = default_name }

-- the first name registered becomes the default where none was given
abbrev pub default_after : Option String → String → Option String
default_after none name = some name
default_after (some d) name = some d

unfoldable pub register : String → Provider → ProviderRegistry → Result ProviderRegistry
register name provider r =
    if truthy name
    then ok (record {
      providers = insert name provider r.providers;
      default_name = default_after r.default_name name;
    })
    else raise_result value_error "Provider name must be a non-empty string"

-- `name or default_name`
abbrev pub lookup_name : Option String → Option String → Option String
lookup_name none d = d
lookup_name (some name) d = if truthy name then some name else d

unfoldable pub find : Dict Provider → Option String → Option Provider
find providers none = none
find providers (some name) = lookup name providers

unfoldable pub names : ProviderRegistry → List String
names r = sorted (keys r.providers)

module _ (host : Host) where
  pub not_registered_message : ProviderRegistry → Option String → String
  not_registered_message r name = concat (
      "Provider '"
      ∷ show_option name
      ∷ "' is not registered; known providers: "
      ∷ show_list host (names r)
      ∷ [])

  unfoldable pub get : ProviderRegistry → Option String → Result Provider
  unfolding not_registered_message find
  get r name =
      let wanted = lookup_name name r.default_name in
      elim (find r.providers wanted) [
        | none ↦ raise_result provider_not_registered_error (not_registered_message r wanted)
        | some provider ↦ ok provider
      ]
