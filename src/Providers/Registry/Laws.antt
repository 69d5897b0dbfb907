-- ===== src/Providers/Registry/Laws.antt =====
-- Registering a provider and getting it back.
use infra_steward_gateway.Core.{
  String, ◌≡◌, ◌≢◌, ◌↔◌, ◌⊎◌, refl, get_or, if◌then◌else◌, ◌==◌, Option, none, some, arith, eq_iff,
}
use infra_steward_gateway.PyStr.{truthy}
use infra_steward_gateway.Dict.{insert}
use infra_steward_gateway.Dict.Laws.{lookup-insert}
use infra_steward_gateway.Exec.{ok}
use infra_steward_gateway.Runtime.{Host}
use infra_steward_gateway.Providers.Base.{Provider}
use infra_steward_gateway.Providers.Registry.{ProviderRegistry, register, get, find, lookup_name}

module _ (host : Host) where
  -- `get` answers with the provider registered under the name asked for, the default's name where
  -- none is asked for.
  pub get-eq-ok :
      (r : ProviderRegistry) (name : Option String) (p : Provider)
      → (get host r name ≡ ok p) ↔ (find r.providers (lookup_name name r.default_name) ≡ some p)
  unfolding get
  get-eq-ok r name p = ground arith

  find-insert :
      (name w : String) (p : Provider) (r : ProviderRegistry)
      → find (insert name p r.providers) (some w)
        ≡ (if name == w then some p else find r.providers (some w))
  unfolding find
  find-insert name w p r = lookup-insert name w p r.providers

  register-eq-ok :
      (name : String) (p : Provider) (r s : ProviderRegistry)
      → register name p r ≡ ok s
      → (s.providers ≡ insert name p r.providers)
        × (s.default_name ≡ some (get_or r.default_name name))
  unfolding register
  register-eq-ok name p r s h = ground arith

  -- The name that a request means where there is a default.
  abbrev pub meant : Option String → String → String
  meant none d = d
  meant (some name) d = if truthy name then name else d

  lookup_name-some :
      (asked : Option String) (d : String) → lookup_name asked (some d) ≡ some (meant asked d)
  lookup_name-some none d = refl
  lookup_name-some (some name) d = ground arith

  -- After a registration that succeeds, the default is the one set before, or else the new name; and
  -- a request gets the new provider exactly when it means the new name, and otherwise what was
  -- registered before under the name that it means.
  pub get-register :
      (name : String) (p : Provider) (r s : ProviderRegistry) (asked : Option String) (q : Provider)
      → register name p r ≡ ok s
      → let wanted = meant asked (get_or r.default_name name) in
        (s.default_name ≡ some (get_or r.default_name name))
        × ((get host s asked ≡ ok q) ↔ (
            ((wanted ≡ name) × (p ≡ q))
            ⊎ ((wanted ≢ name) × (find r.providers (some wanted) ≡ some q))))
  get-register name p r s asked q h =
      let d = get_or r.default_name name in
      let w = meant asked d in
      let (providers, default) = register-eq-ok name p r s h in
      let found : find s.providers (lookup_name asked s.default_name)
          ≡ (if name == w then some p else find r.providers (some w)) =
        rw (providers, default, lookup_name-some) (find-insert name w p r) in
      (default, ground (arith, get-eq-ok s asked q, found, eq_iff name w))
