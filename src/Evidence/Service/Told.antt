-- ===== src/Evidence/Service/Told.antt =====
-- What the commands of one request leave on file, in any journal.
use infra_steward_gateway.Core.{
  ℕ, String, ◌≡◌, refl, ap, ◌∙◌, ◌==◌, true, some, List, [], ◌∷◌, ◌++◌, arith, eq_iff,
}
use infra_steward_gateway.Runtime.{Host}
use infra_steward_gateway.Evidence.Models.{EvidenceRecord}
use infra_steward_gateway.Evidence.Service.Journal.{
  Command, Journal, target, opened, noted, ended, revise, enter, enter_all, untimed_file,
  commands_of,
}
use infra_steward_gateway.Evidence.Service.Story.{Story, Phase, opens, notes, ends}
use infra_steward_gateway.Evidence.Service.Interleaving.{revise_untimed, enter-own}

-- A command of the request comes last among its own.
commands_of-snoc :
    (k : String) (cs : List Command) (c : Command)
    → target c == k ≡ true
    → commands_of k (cs ++ c ∷ []) ≡ commands_of k cs ++ c ∷ []
unfolding commands_of
commands_of-snoc k [] c own = rw own refl
commands_of-snoc k (d ∷ ds) c own = ground (arith, commands_of-snoc k ds c own)

own_target : (k : String) → k == k ≡ true
own_target k = (eq_iff k k).1 refl

module _ (host : Host) where
  enter_all-snoc :
      (cs : List Command) (c : Command) (j : Journal)
      → enter_all host (cs ++ c ∷ []) j ≡ enter host c (enter_all host cs j)
  unfolding enter_all
  enter_all-snoc [] c j = refl
  enter_all-snoc (d ∷ ds) c j = enter_all-snoc ds c (enter host d j)

  enter_all_then :
      (k : String) (cs : List Command) (c : Command) (j : Journal) (t : ℕ) (r : EvidenceRecord)
      → target c == k ≡ true
      → untimed_file ((enter_all host cs j).on_file k) ≡ untimed_file (some r)
      → untimed_file ((enter_all host (cs ++ c ∷ []) j).on_file k)
        ≡ untimed_file (revise host c t (some r))
  enter_all_then k cs c j t r own e =
      let i = enter_all host cs j in
      ap (λ (i : Journal). untimed_file (i.on_file k)) (enter_all-snoc cs c j)
      ∙ ap untimed_file (enter-own host c k i own)
      ∙ revise_untimed host c i.ticks t (i.on_file k) (some r) e

  module _ {id : String} where
    -- The commands of a story leave its record in any journal, but for the times.
    pub enter_all-Story :
        {cs : List Command} {phase : Phase} {r : EvidenceRecord}
        → Story host id cs phase r
        → (j : Journal) → untimed_file ((enter_all host cs j).on_file id) ≡ untimed_file (some r)
    unfolding enter_all
    enter_all-Story (opens a t) j =
        ap untimed_file (enter-own host (opened id a) id j (own_target id))
        ∙ revise_untimed host (opened id a) j.ticks t (j.on_file id) (j.on_file id) refl
    enter_all-Story (notes {cs} {r} type details t s) j =
        enter_all_then id cs (noted id type details) j t r (own_target id) (enter_all-Story s j)
    enter_all-Story (ends {cs} {r} a t s) j =
        enter_all_then id cs (ended id a) j t r (own_target id) (enter_all-Story s j)

    -- They are all commands of its request.
    pub commands_of-Story :
        {cs : List Command} {phase : Phase} {r : EvidenceRecord}
        → Story host id cs phase r
        → commands_of id cs ≡ cs
    unfolding commands_of
    commands_of-Story (opens a t) = rw (own_target id) refl
    commands_of-Story (notes {cs} type details t s) =
        commands_of-snoc id cs (noted id type details) (own_target id)
        ∙ ap (λ ds. ds ++ noted id type details ∷ []) (commands_of-Story s)
    commands_of-Story (ends {cs} a t s) =
        commands_of-snoc id cs (ended id a) (own_target id)
        ∙ ap (λ ds. ds ++ ended id a ∷ []) (commands_of-Story s)
