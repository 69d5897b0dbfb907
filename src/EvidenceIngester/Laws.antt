-- ===== src/EvidenceIngester/Laws.antt =====
-- What the ingester answers after it has taken requests.
use Prim.Native.String
use infra_steward_gateway.Core.{
  String, ◌≡◌, ◌≢◌, refl, false, ◌==◌, Option, some, List, arith, eq_iff, if◌then◌else◌,
}
use infra_steward_gateway.Dict.Laws.{lookup-insert}
use infra_steward_gateway.EvidenceIngester.Domain.{EvidenceRecord}
use infra_steward_gateway.EvidenceIngester.Storage.{store, get}
use infra_steward_gateway.EvidenceIngester.Paths.{contains_slash}
use infra_steward_gateway.EvidenceIngester.Paths.Laws.{
  trim_prefix-append, has_suffix-path, events_path,
}
use infra_steward_gateway.EvidenceIngester.Handlers.{
  EvidenceRequest, EvidenceHandler, one, found_record, serve_evidence, handle_events,
  handle_get_by_id,
}

-- An identifier under which a record can be asked for.
abbrev pub IsAddressable : String → Type 0
IsAddressable k = (k ≢ "") × (contains_slash k ≡ false) × (k ≢ "events")

abbrev pub get_request : String → EvidenceRequest
get_request k = record {
  method = "GET";
  path = String.◌++◌ "/evidence/" k;
  tenant_id = "";
  scenario = "";
  body = "";
}

abbrev pub post_request : String → EvidenceRequest
post_request body = record {
  method = "POST";
  path = "/evidence/events";
  tenant_id = "";
  scenario = "";
  body = body;
}

module _ (decode : String → Option EvidenceRecord)
    (iterate : List EvidenceRecord → List EvidenceRecord) where
  pub serve-get :
      (k : String) (h : EvidenceHandler)
      → IsAddressable k
      → serve_evidence decode iterate (get_request k) h ≡ (found_record (get k h.storage), h)
  unfolding serve_evidence handle_get_by_id
  serve-get k h (ne, flat, other) =
      let unequal : k == "" ≡ false = ground (arith, eq_iff k "") in
      rw
        (
          events_path k other,
          has_suffix-path "/evidence/" k ne flat,
          trim_prefix-append "/evidence/" k,
          unequal,
          flat,
        )
        refl

  pub serve-post :
      (body : String) (r : EvidenceRecord) (h : EvidenceHandler)
      → decode body ≡ some r
      → r.request_id ≢ ""
      → ((serve_evidence decode iterate (post_request body) h).0.code ≡ 202)
        × ((serve_evidence decode iterate (post_request body) h).1.storage ≡ store r h.storage)
  unfolding serve_evidence handle_events
  serve-post body r h e ne = rw e (ground (arith, eq_iff r.request_id ""))

  -- A record with an identifier that is posted is accepted. Under the identifier of the record, if it
  -- can be asked for, the ingester then answers with that record, in place of any that it had there;
  -- under every other identifier it answers as it did before.
  pub get-post :
      (body : String) (r : EvidenceRecord) (h : EvidenceHandler) (k : String)
      → decode body ≡ some r
      → r.request_id ≢ ""
      → IsAddressable k
      → let (response, next) = serve_evidence decode iterate (post_request body) h in
        (response.code ≡ 202)
        × ((serve_evidence decode iterate (get_request k) next).0 ≡ (
            if r.request_id == k
            then record { code = 200; content = one r }
            else (serve_evidence decode iterate (get_request k) h).0))
  unfolding store get
  get-post body r h k e ne asked =
      let next = (serve_evidence decode iterate (post_request body) h).1 in
      let (accepted, stored) = serve-post body r h e ne in
      (
        accepted,
        rw (serve-get k next asked, serve-get k h asked, stored)
            (ground (arith, lookup-insert r.request_id k r h.storage)),
      )
