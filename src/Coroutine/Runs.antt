-- ===== src/Coroutine/Runs.antt =====
-- A coroutine that nothing interrupts does what a call does. One rule for each way to build one.
use infra_steward_gateway.Core.{◌≡◌, refl, ap, ◌∙◌, Bool, true, false, if◌then◌else◌}
use infra_steward_gateway.Exec
use infra_steward_gateway.Exec.{Exec, Exc, Result, ok, err, pure, continue, recover}
use infra_steward_gateway.Coroutine.{
  Coroutine, finished, step, at_once, returns, try_except, run, ◌>>=◌,
}

module _ {S A : Type 0} where
  pub record Runs (c : Coroutine S A) (m : Exec S A) : Type 0 where
    pub same : (s : S) → run c s ≡ m s

  pub Runs-at_once : (m : Exec S A) → Runs (at_once m) m
  unfolding run at_once
  Runs-at_once m = record { same = λ s. refl }

  pub Runs-returns : (a : A) → Runs (returns a) (pure a)
  unfolding run returns pure
  Runs-returns a = record { same = λ s. refl }

  run-try_except :
      (c : Coroutine S A) (h : Exc → Coroutine S A) (s : S)
      → run (try_except c h) s ≡ recover (λ e. run (h e)) (run c s).0 (run c s).1
  unfolding run try_except recover
  run-try_except (finished (ok a)) h s = refl
  run-try_except (finished (err e)) h s = refl
  run-try_except (step f k) h s = run-try_except (k s) h (f s)

  recover-Runs :
      (h : Exc → Coroutine S A) (g : Exc → Exec S A)
      → ((e : Exc) → Runs (h e) (g e))
      → (r : Result A) (s : S) → recover (λ e. run (h e)) r s ≡ recover g r s
  unfolding recover
  recover-Runs h g p (ok a) s = refl
  recover-Runs h g p (err e) s = (p e).same s

  pub Runs-try_except :
      {c : Coroutine S A} {m : Exec S A} {h : Exc → Coroutine S A} {g : Exc → Exec S A}
      → Runs c m
      → ((e : Exc) → Runs (h e) (g e))
      → Runs (try_except c h) (Exec.try_except m g)
  unfolding Exec.try_except
  Runs-try_except {c} {h = h} {g = g} p q = record {
    same = λ s.
        run-try_except c h s
        ∙ recover-Runs h g q (run c s).0 (run c s).1
        ∙ ap (λ (r : Result A × S). recover g r.0 r.1) (p.same s);
  }

  pub Runs-if :
      (b : Bool) {c d : Coroutine S A} {m n : Exec S A}
      → Runs c m
      → Runs d n
      → Runs (if b then c else d) (if b then m else n)
  Runs-if true p q = p
  Runs-if false p q = q

module _ {S A B : Type 0} where
  run-bind :
      (c : Coroutine S A) (f : A → Coroutine S B) (s : S)
      → run (c >>= f) s ≡ continue (run c s).0 (λ a. run (f a)) (run c s).1
  unfolding run ◌>>=◌ continue
  run-bind (finished (ok a)) f s = refl
  run-bind (finished (err e)) f s = refl
  run-bind (step g k) f s = run-bind (k s) f (g s)

  continue-Runs :
      (f : A → Coroutine S B) (g : A → Exec S B)
      → ((a : A) → Runs (f a) (g a))
      → (r : Result A) (s : S) → continue r (λ a. run (f a)) s ≡ continue r g s
  unfolding continue
  continue-Runs f g p (ok a) s = (p a).same s
  continue-Runs f g p (err e) s = refl

  pub Runs-bind :
      {c : Coroutine S A} {m : Exec S A} {f : A → Coroutine S B} {g : A → Exec S B}
      → Runs c m
      → ((a : A) → Runs (f a) (g a))
      → Runs (c >>= f) (Exec.◌>>=◌ m g)
  unfolding Exec.◌>>=◌
  Runs-bind {c} {f = f} {g = g} p q = record {
    same = λ s.
        run-bind c f s
        ∙ continue-Runs f g q (run c s).0 (run c s).1
        ∙ ap (λ (r : Result A × S). continue r.0 g r.1) (p.same s);
  }
