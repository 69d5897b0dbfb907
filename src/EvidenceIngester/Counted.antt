-- ===== src/EvidenceIngester/Counted.antt =====
-- What the ingester counts and files, over any requests.
use infra_steward_gateway.Core.{
  ℕ, ◌+◌, ◌%◌, ◌^◌, ◌<◌, String, ◌≡◌, ◌≢◌, refl, Bool, true, false, ◌==◌, Option, none, some, List,
  [], ◌∷◌, nat_eq, if◌then◌else◌, arith, eq_iff, not, ◌&&◌,
}
use infra_steward_gateway.Dict.{lookup, keys}
use infra_steward_gateway.Dict.Laws.{lookup-insert}
use infra_steward_gateway.EvidenceIngester.Domain.{EvidenceRecord}
use infra_steward_gateway.EvidenceIngester.Storage.{store}
use infra_steward_gateway.EvidenceIngester.Paths.{has_suffix}
use infra_steward_gateway.EvidenceIngester.Handlers.{
  EvidenceRequest, EvidenceResponse, EvidenceHandler, accept, handle_record, handle_events,
  handle_get_by_id, handle_query, serve_prefix,
}
use infra_steward_gateway.EvidenceIngester.Status.{
  GoRuntime, Route, to_root, to_health, to_info, to_metrics, to_events, to_evidence, Answer,
  evidence_answer, health_answer, info_answer, json_answer, text_answer, not_found, routes,
  serve_route, serve, serve_all, chosen, route_of, new_evidence_handler,
}

-- How many of the answers say that a record was accepted.
unfoldable pub accepted : List Answer → ℕ
accepted [] = 0
accepted (evidence_answer r ∷ answers) =
    if nat_eq r.code 202 then accepted answers + 1 else accepted answers
accepted (_ ∷ answers) = accepted answers

-- Each record is filed under its own identifier, which is not empty, and the counter has 64 bits.
pub record IsSound (h : EvidenceHandler) : Type 0 where
  pub filed :
      (k : String) (r : EvidenceRecord)
      → lookup k h.storage ≡ some r
      → (r.request_id ≡ k) × (k ≢ "")
  pub bounded : h.ingester_events_total < 2 ^ 64

-- A request's answer, and what it leaves.
record Keeps (h : EvidenceHandler) (answer : Answer) (next : EvidenceHandler) : Type 0 where
  sound : IsSound next
  counted : next.ingester_events_total ≡ (h.ingester_events_total + accepted (answer ∷ [])) % 2 ^ 64

Keeps-same :
    (h : EvidenceHandler) (answer : Answer)
    → IsSound h
    → accepted (answer ∷ []) ≡ 0
    → Keeps h answer h
Keeps-same h answer sound e = record {
  sound = sound;
  counted = rw e (omega (arith, sound.bounded));
}

Keeps-if :
    (h : EvidenceHandler) (b : Bool) (x y : EvidenceResponse × EvidenceHandler)
    → (b ≡ true → Keeps h (evidence_answer x.0) x.1)
    → (b ≡ false → Keeps h (evidence_answer y.0) y.1)
    → Keeps h (evidence_answer (if b then x else y).0) (if b then x else y).1
Keeps-if h true x y p q = p refl
Keeps-if h false x y p q = q refl

accept-Keeps :
    (r : EvidenceRecord) (h : EvidenceHandler)
    → IsSound h
    → r.request_id ≢ ""
    → Keeps h (evidence_answer (accept r h).0) (accept r h).1
unfolding accepted store
accept-Keeps r h sound ne = record {
  sound = record {
    filed = λ k other e. ground (
      arith,
      lookup-insert r.request_id k r h.storage,
      eq_iff r.request_id k,
      sound.filed k other,
      ne,
    );
    bounded = omega arith;
  };
  counted = omega arith;
}

handle_record-Keeps :
    (o : Option EvidenceRecord) (h : EvidenceHandler)
    → IsSound h
    → Keeps h (evidence_answer (handle_record o h).0) (handle_record o h).1
unfolding accepted
handle_record-Keeps none h sound = Keeps-same h _ sound refl
handle_record-Keeps (some r) h sound =
    Keeps-if h (r.request_id == "") _ _ (λ e. Keeps-same h _ sound refl)
      (λ e. accept-Keeps r h sound (λ i. ground (arith, eq_iff r.request_id "")))

module _ (go : GoRuntime) where
  handle_events-Keeps :
      (r : EvidenceRequest) (h : EvidenceHandler)
      → IsSound h
      → let (response, next) = handle_events go.decode go.iterate r h in
        Keeps h (evidence_answer response) next
  unfolding handle_events accepted
  handle_events-Keeps r h sound =
      Keeps-if h (not (r.method == "POST")) _ _ (λ e. Keeps-same h _ sound refl)
        (λ e. handle_record-Keeps (go.decode r.body) h sound)

  serve_prefix-Keeps :
      (r : EvidenceRequest) (h : EvidenceHandler)
      → IsSound h
      → let (response, next) = serve_prefix go.decode go.iterate r h in
        Keeps h (evidence_answer response) next
  unfolding handle_get_by_id handle_query accepted
  serve_prefix-Keeps r h sound =
      Keeps-if h (r.method == "GET" && has_suffix r.path "/evidence/") _ _
        (λ e. Keeps-same h _ sound (ground arith)) (λ e. Keeps-same h _ sound (ground arith))

  serve_route-Keeps :
      (route : Route) (r : EvidenceRequest) (h : EvidenceHandler)
      → IsSound h
      → Keeps h (serve_route go route r h).0 (serve_route go route r h).1
  unfolding serve_route accepted
  serve_route-Keeps to_root r h sound = Keeps-same h _ sound refl
  serve_route-Keeps to_health r h sound = Keeps-same h _ sound refl
  serve_route-Keeps to_info r h sound = Keeps-same h _ sound refl
  serve_route-Keeps to_metrics r h sound = Keeps-same h _ sound refl
  serve_route-Keeps to_events r h sound = handle_events-Keeps r h sound
  serve_route-Keeps to_evidence r h sound = serve_prefix-Keeps r h sound

  serve-Keeps :
      (r : EvidenceRequest) (h : EvidenceHandler)
      → IsSound h
      → Keeps h (serve go r h).0 (serve go r h).1
  unfolding serve accepted
  serve-Keeps r h sound = by_route (route_of (go.pattern (keys routes) r.path))
    where
      by_route : (o : Option Route) → Keeps h (chosen go o r h).0 (chosen go o r h).1
      by_route none = Keeps-same h _ sound refl
      by_route (some route) = serve_route-Keeps route r h sound

  accepted-cons :
      (answer : Answer) (answers : List Answer)
      → accepted (answer ∷ answers) ≡ accepted (answer ∷ []) + accepted answers
  unfolding accepted
  accepted-cons (evidence_answer r) answers = ground arith
  accepted-cons (health_answer a) answers = omega arith
  accepted-cons (info_answer a) answers = omega arith
  accepted-cons (json_answer a) answers = omega arith
  accepted-cons (text_answer a) answers = omega arith
  accepted-cons not_found answers = omega arith

  -- From a handler whose records are each filed under their own identifier, which is not empty, and
  -- whose counter has 64 bits: after any requests, to any paths and with any patterns chosen for them,
  -- this is so again, and the counter has grown by the number of answers that say that a record was
  -- accepted, modulo 2 ^ 64.
  pub serve_all-IsSound :
      (rs : List EvidenceRequest) (h : EvidenceHandler)
      → IsSound h
      → let (answers, last) = serve_all go rs h in
        IsSound last
        × (last.ingester_events_total ≡ (h.ingester_events_total + accepted answers) % 2 ^ 64)
  unfolding serve_all accepted
  serve_all-IsSound [] h sound = (sound, omega (arith, sound.bounded))
  serve_all-IsSound (r ∷ rs) h sound =
      let (answer, next) = serve go r h in
      let kept = serve-Keeps r h sound in
      let (after, counted) = serve_all-IsSound rs next kept.sound in
      (after, omega (arith, counted, kept.counted, accepted-cons answer (serve_all go rs next).0))

-- The ingester when it starts.
pub new_evidence_handler-IsSound : IsSound new_evidence_handler
unfolding new_evidence_handler lookup
new_evidence_handler-IsSound = record { filed = λ k r e. absurd (cc); bounded = omega arith }
