-- ===== src/Workflow/Concurrent/Stages.antt =====
-- What a request has of the shared state: an identifier that it drew, by the number of the draw, and a
-- record behind a reference. What its steps may change, and why the steps of other requests leave it
-- what it has.
use infra_steward_gateway.Core.{
  ℕ, ◌<◌, ◌≤◌, String, ◌≡◌, ◌≢◌, ◌⊎◌, ◌∙◌, refl, inl, inr, some, arith,
}
use infra_steward_gateway.Dict.{lookup}
use infra_steward_gateway.Runtime.{Host}
use infra_steward_gateway.World.{World}
use infra_steward_gateway.Evidence.Models.{EvidenceRecord}

pub data Stage : Type 0 where
  unborn : Stage
  named : (n : ℕ) → Stage
  owner : (n ref : ℕ) → EvidenceRecord → Stage

abbrev pub Numbered : Stage → ℕ → Type 0
Numbered unborn m = ⊥
Numbered (named n) m = n ≡ m
Numbered (owner n ref r) m = n ≡ m

abbrev pub Refers : Stage → ℕ → Type 0
Refers (owner n ref r) m = ref ≡ m
Refers _ m = ⊥

-- No identifier and no record in common.
pub record Apart (o p : Stage) : Type 0 where
  pub numbers : (n : ℕ) → Numbered o n → ¬ Numbered p n
  pub refs : (k : ℕ) → Refers o k → ¬ Refers p k

pub Apart-sym : {o p : Stage} → Apart o p → Apart p o
Apart-sym a = record { numbers = λ n h i. a.numbers n i h; refs = λ k h i. a.refs k i h }

module _ (host : Host) where
  abbrev pub Holds : Stage → World → Type 0
  Holds unborn w = Unit {0}
  Holds (named n) w = n < w.draws
  Holds (owner n ref r) w =
      (n < w.draws)
      × (ref < w.evidence.next)
      × (w.evidence.objects ref ≡ r)
      × (lookup (host.uuid4 n) w.evidence.store ≡ some ref)

  -- What a step may do that takes a request from the stage `o` to the stage `p`.
  pub record Keeps (o p : Stage) (v w : World) : Type 0 where
    pub draws : v.draws ≤ w.draws
    pub next : v.evidence.next ≤ w.evidence.next
    pub objects :
        (k : ℕ) → k < v.evidence.next → ¬ Refers o k → w.evidence.objects k ≡ v.evidence.objects k
    pub entries :
        (k : String)
        → ((n : ℕ) → Numbered p n → k ≢ host.uuid4 n)
        → lookup k w.evidence.store ≡ lookup k v.evidence.store
    pub numbers : (n : ℕ) → Numbered p n → Numbered o n ⊎ (n ≡ v.draws)
    pub refs : (k : ℕ) → Refers p k → Refers o k ⊎ (k ≡ v.evidence.next)

  Holds-number : (q : Stage) (w : World) (n : ℕ) → Holds q w → Numbered q n → n < w.draws
  Holds-number unborn w n h i = absurd i
  Holds-number (named m) w n h i = omega (arith, h, i)
  Holds-number (owner m ref r) w n h i = omega (arith, h.0, i)

  Holds-ref : (q : Stage) (w : World) (k : ℕ) → Holds q w → Refers q k → k < w.evidence.next
  Holds-ref unborn w k h i = absurd i
  Holds-ref (named m) w k h i = absurd i
  Holds-ref (owner m ref r) w k h i = omega (arith, h.1, i)

  module _ {o p : Stage} {v w : World} (kept : Keeps o p v w) where
    pub Apart-Keeps : {q : Stage} → Holds q v → Apart q o → Apart q p
    Apart-Keeps {q} h a = record {
      numbers = λ n i j. elim (kept.numbers n j) [
        | inl old ↦ a.numbers n i old
        | inr new ↦ absurd (omega (arith, Holds-number q v n h i, new))
      ];
      refs = λ k i j. elim (kept.refs k j) [
        | inl old ↦ a.refs k i old
        | inr new ↦ absurd (omega (arith, Holds-ref q v k h i, new))
      ];
    }

    -- identifiers of different draws are different
    pub Holds-Keeps :
        ((m n : ℕ) → host.uuid4 m ≡ host.uuid4 n → m ≡ n)
        → (q : Stage) → Holds q v
        → Apart q o
        → Holds q w
    Holds-Keeps injective unborn h a = tt
    Holds-Keeps injective (named n) h a = omega (arith, h, kept.draws)
    Holds-Keeps injective (owner n ref r) (drawn, below, object, entry) a = (
      omega (arith, drawn, kept.draws),
      omega (arith, below, kept.next),
      kept.objects ref below (a.refs ref refl) ∙ object,
      kept.entries (host.uuid4 n) (λ m i e. other m i (injective n m e)) ∙ entry,
    )
      where
        other : (m : ℕ) → Numbered p m → n ≢ m
        other m i e = elim (kept.numbers m i) [
          | inl old ↦ a.numbers m e old
          | inr new ↦ omega (arith, drawn, new, e)
        ]
