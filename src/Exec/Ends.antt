-- ===== src/Exec/Ends.antt =====
-- How a call ends: its result, and what holds of the state that it leaves. One rule for each way to
-- build a call.
use infra_steward_gateway.Core.{◌≡◌, refl, ap, ◌∙◌, Bool, true, false, if◌then◌else◌}
use infra_steward_gateway.Exec.{
  Exec, Exc, Result, ok, err, pure, lift, calls, modify, try_except, continue, recover, ◌>>=◌,
}

pub record Ends {ℓ} {S A : Type ℓ} (m : Exec S A) (s : S) (r : Result A) (Q : S → Type ℓ)
    : Type ℓ where
  pub after : S
  pub runs : m s ≡ (r, after)
  pub holds : Q after

module _ {ℓ} {S A : Type ℓ} (Q : S → Type ℓ) where
  pub Ends-pure : (a : A) (s : S) → Q s → Ends (pure a) s (ok a) Q
  unfolding pure
  Ends-pure a s h = record { after = s; runs = refl; holds = h }

  pub Ends-lift : (r : Result A) (q : Result A) (s : S) → r ≡ q → Q s → Ends (lift r) s q Q
  unfolding lift
  Ends-lift r q s e h = record { after = s; runs = ap (λ (x : Result A). (x, s)) e; holds = h }

  pub Ends-calls : (f : S → A × S) (s : S) → Q (f s).1 → Ends (calls f) s (ok (f s).0) Q
  unfolding calls
  Ends-calls f s h = record { after = (f s).1; runs = refl; holds = h }

pub Ends-modify {ℓ} :
    {S : Type ℓ} (Q : S → Type ℓ) (f : S → S) (s : S) → Q (f s) → Ends (modify f) s (ok tt) Q
unfolding modify
Ends-modify Q f s h = record { after = f s; runs = refl; holds = h }

module _ {ℓ} {S A B : Type ℓ} {P Q : S → Type ℓ} where
  -- A step that returns: the rest goes on from what it left.
  pub Ends-bind :
      (f : A → Exec S B) {m : Exec S A} {s : S} {a : A} {r : Result B}
      → Ends m s (ok a) P
      → ((t : S) → P t → Ends (f a) t r Q)
      → Ends (m >>= f) s r Q
  unfolding ◌>>=◌
  Ends-bind f h k =
      let next = k h.after h.holds in
      record {
        after = next.after;
        runs = ap (λ (p : Result A × S). continue p.0 f p.1) h.runs ∙ next.runs;
        holds = next.holds;
      }

module _ {ℓ} {S A B : Type ℓ} {Q : S → Type ℓ} where
  -- A step that raises ends the block.
  pub Ends-raise :
      (f : A → Exec S B) {m : Exec S A} {s : S} {x : Exc}
      → Ends m s (err x) Q
      → Ends (m >>= f) s (err x) Q
  unfolding ◌>>=◌
  Ends-raise f h = record {
    after = h.after;
    runs = ap (λ (p : Result A × S). continue p.0 f p.1) h.runs;
    holds = h.holds;
  }

module _ {ℓ} {S A : Type ℓ} {Q : S → Type ℓ} where
  pub Ends-try_ok :
      (h : Exc → Exec S A) {m : Exec S A} {s : S} {a : A}
      → Ends m s (ok a) Q
      → Ends (try_except m h) s (ok a) Q
  unfolding try_except
  Ends-try_ok h e = record {
    after = e.after;
    runs = ap (λ (p : Result A × S). recover h p.0 p.1) e.runs;
    holds = e.holds;
  }

module _ {ℓ} {S A : Type ℓ} {P Q : S → Type ℓ} where
  pub Ends-try_err :
      (h : Exc → Exec S A) {m : Exec S A} {s : S} {x : Exc} {r : Result A}
      → Ends m s (err x) P
      → ((t : S) → P t → Ends (h x) t r Q)
      → Ends (try_except m h) s r Q
  unfolding try_except
  Ends-try_err h e k =
      let next = k e.after e.holds in
      record {
        after = next.after;
        runs = ap (λ (p : Result A × S). recover h p.0 p.1) e.runs ∙ next.runs;
        holds = next.holds;
      }

module _ {ℓ} {S A : Type ℓ} {Q : S → Type ℓ} {s : S} {r : Result A} where
  pub Ends-then :
      (b : Bool) (m n : Exec S A) → b ≡ true → Ends m s r Q → Ends (if b then m else n) s r Q
  Ends-then true m n e h = h
  Ends-then false m n e h = absurd (cc)

  pub Ends-else :
      (b : Bool) (m n : Exec S A) → b ≡ false → Ends n s r Q → Ends (if b then m else n) s r Q
  Ends-else true m n e h = absurd (cc)
  Ends-else false m n e h = h
