-- ===== src/Evidence/Service/Interleaving.antt =====
-- Requests that overlap: what the commands of one leave on file, whatever others do between them.
use mathlib.Core.List.{map-append}
use infra_steward_gateway.Core.{
  ℕ, String, ◌≡◌, refl, sym, ap, ◌∙◌, true, false, ◌==◌, Option, none, some, List, [], ◌∷◌, ◌++◌,
  arith, eq_iff, Bool-cases, inl, inr, map,
}
use infra_steward_gateway.Value.{Value}
use infra_steward_gateway.Dict.{Dict}
use infra_steward_gateway.Runtime.{Host}
use infra_steward_gateway.World.{World}
use infra_steward_gateway.Evidence.Models.{
  EvidenceEventType, EvidenceEvent, EvidenceRecord, workflow_completed,
}
use infra_steward_gateway.Evidence.Producer.{Ingester}
use infra_steward_gateway.Evidence.Service.{get_record, closed, completed_details}
use infra_steward_gateway.Evidence.Service.Invariant.{IsConsistent}
use infra_steward_gateway.Evidence.Service.Journal.{
  Command, opened, noted, ended, target, Journal, view, revise, enter, enter_all, perform_all,
  untimed, untimed_event, untimed_file, commands_of,
}
use infra_steward_gateway.Evidence.Service.Refinement.{perform_all_refines}

abbrev Untimed : Type 0
Untimed = EvidenceRecord × List (EvidenceEventType × Dict Value)

untimed_events :
    (es : List EvidenceEvent) (e : EvidenceEvent)
    → map untimed_event (es ++ e ∷ []) ≡ map untimed_event es ++ untimed_event e ∷ []
untimed_events es e = map-append untimed_event es (e ∷ [])

untimed-some :
    (r s : EvidenceRecord) → untimed_file (some r) ≡ untimed_file (some s) → untimed r ≡ untimed s
untimed-some r s e = cc

module _ (host : Host) where
  -- A command leaves the same, but for the times, whenever it comes.
  pub revise_untimed :
      (c : Command) (t u : ℕ) (o p : Option EvidenceRecord)
      → untimed_file o ≡ untimed_file p
      → untimed_file (revise host c t o) ≡ untimed_file (revise host c u p)
  revise_untimed (opened id a) t u o p e = refl
  revise_untimed (noted id type details) t u none none e = refl
  revise_untimed (noted id type details) t u none (some s) e = absurd (cc)
  revise_untimed (noted id type details) t u (some r) none e = absurd (cc)
  revise_untimed (noted id type details) t u (some r) (some s) e =
      ap (λ es. some (record r { events = [] }, es)) (untimed_events r.events _)
      ∙ ap (λ (x : Untimed). some (x.0, x.1 ++ (type, details) ∷ [])) (untimed-some r s e)
      ∙ ap (λ es. some (record s { events = [] }, es)) (sym (untimed_events s.events _))
  revise_untimed (ended id a) t u none none e = refl
  revise_untimed (ended id a) t u none (some s) e = absurd (cc)
  revise_untimed (ended id a) t u (some r) none e = absurd (cc)
  revise_untimed (ended id a) t u (some r) (some s) e =
      ap (λ es. some (record (closed a r) { events = [] }, es)) (untimed_events r.events _)
      ∙ ap
          (λ (x : Untimed).
            some (closed a x.0, x.1 ++ (workflow_completed, completed_details a) ∷ []))
          (untimed-some r s e)
      ∙ ap (λ es. some (record (closed a s) { events = [] }, es)) (sym (untimed_events s.events _))

  pub enter-own :
      (c : Command) (k : String) (j : Journal)
      → target c == k ≡ true
      → (enter host c j).on_file k ≡ revise host c j.ticks (j.on_file k)
  unfolding enter
  enter-own c k j h = ground (arith, h, eq_iff (target c) k)

  enter-other :
      (c : Command) (k : String) (j : Journal)
      → target c == k ≡ false
      → (enter host c j).on_file k ≡ j.on_file k
  unfolding enter
  enter-other c k j h = rw h

  -- What one request's commands leave, in two journals that agree on it but for the times.
  enter_all_own :
      (k : String) (cs : List Command) (j i : Journal)
      → untimed_file (j.on_file k) ≡ untimed_file (i.on_file k)
      → untimed_file ((enter_all host cs j).on_file k)
        ≡ untimed_file ((enter_all host (commands_of k cs) i).on_file k)
  unfolding enter_all commands_of
  enter_all_own k [] j i e = e
  enter_all_own k (c ∷ cs) j i e = elim (Bool-cases (target c == k)) [
    | inl own ↦ rw own (
        enter_all_own k cs (enter host c j) (enter host c i) (
          ap untimed_file (enter-own c k j own)
          ∙ revise_untimed c j.ticks i.ticks (j.on_file k) (i.on_file k) e
          ∙ ap untimed_file (sym (enter-own c k i own))))
    | inr other ↦
        rw other
          (enter_all_own k cs (enter host c j) i (ap untimed_file (enter-other c k j other) ∙ e))
  ]

  -- From a consistent store, what is on file under an identifier after any commands is, but for the
  -- times, what the commands of that request alone leave, in their order: whatever other requests
  -- do before, between and after them, and whatever the ingesters answer.
  pub perform_all_own :
      (p q : Option Ingester) (k : String) (cs : List Command) (w : World)
      → IsConsistent w.evidence
      → untimed_file (get_record k (perform_all host p cs w))
        ≡ untimed_file (get_record k (perform_all host q (commands_of k cs) w))
  perform_all_own p q k cs w h =
      ap (λ (j : Journal). untimed_file (j.on_file k)) (perform_all_refines host p cs w h)
      ∙ enter_all_own k cs (view w) (view w) refl
      ∙ ap (λ (j : Journal). untimed_file (j.on_file k))
          (sym (perform_all_refines host q (commands_of k cs) w h))
