-- ===== src/EvidenceIngester/Storage.antt =====
-- go/evidence_ingester/storage/memory.go. A stored record is a fresh object of its request that nothing
-- changes afterwards, so the map has the records themselves; the locks make each call one step.
use infra_steward_gateway.Core.{
  String, Bool, true, false, not, ◌==◌, Option, none, some, List, [], ◌∷◌, if◌then◌else◌,
}
use infra_steward_gateway.Dict.{Dict, lookup, insert}
use infra_steward_gateway.EvidenceIngester.Domain.{EvidenceRecord}

abbrev pub MemoryStorage : Type 0
MemoryStorage = Dict EvidenceRecord

unfoldable pub store : EvidenceRecord → MemoryStorage → MemoryStorage
store r s = insert r.request_id r s

unfoldable pub get : String → MemoryStorage → Option EvidenceRecord
get request_id s = lookup request_id s

-- The two filters of `Query`; `none` is the nil pointer.
abbrev pub has_tenant : Option String → EvidenceRecord → Bool
has_tenant none r = true
has_tenant (some t) r = r.tenant_id == t

abbrev pub text_is : Option String → String → Bool
text_is none t = false
text_is (some s) t = s == t

abbrev pub has_scenario : Option String → EvidenceRecord → Bool
has_scenario none r = true
has_scenario (some t) r = text_is r.scenario t

-- The loop of `Query`, over the records in the order in which `range` visits them. Where none fits, the
-- slice of the results stays nil, which is the empty list here.
unfoldable pub query : Option String → Option String → List EvidenceRecord → List EvidenceRecord
query tenant_id scenario [] = []
query tenant_id scenario (r ∷ rs) =
    let rest = query tenant_id scenario rs in
    if not (has_tenant tenant_id r)
    then rest
    else if not (has_scenario scenario r)
    then rest
    else r ∷ rest
