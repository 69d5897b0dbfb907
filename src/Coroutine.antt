-- ===== src/Coroutine.antt =====
-- Coroutines: calls that may be suspended between their steps, where other tasks of the event loop
-- may run. Only what is between two suspensions is one step on the state.
pub mod Runs
pub mod Pool
pub mod Counts
pub mod Totals
pub mod Completion
use infra_steward_gateway.Core.{Bool, if◌then◌else◌}
use infra_steward_gateway.Exec.{Exec, Exc, Result, ok, err}

-- A step changes the state, and what is left to do depends on the state that it found.
pub data Coroutine (S A : Type 0) : Type 0 where
  finished : Result A → Coroutine S A
  step : (S → S) → (S → Coroutine S A) → Coroutine S A

module _ {S A : Type 0} where
  -- a call that is not suspended
  unfoldable pub at_once : Exec S A → Coroutine S A
  at_once m = step (λ s. (m s).1) (λ s. finished (m s).0)

  unfoldable pub returns : A → Coroutine S A
  returns a = finished (ok a)

  -- `try: c` with `except Exception as exc: h(exc)`
  unfoldable pub try_except : Coroutine S A → (Exc → Coroutine S A) → Coroutine S A
  try_except (finished (ok a)) h = finished (ok a)
  try_except (finished (err e)) h = h e
  try_except (step f k) h = step f (λ s. try_except (k s) h)

  -- A coroutine that nothing interrupts.
  unfoldable pub run : Coroutine S A → Exec S A
  run (finished r) s = (r, s)
  run (step f k) s = run (k s) (f s)

module _ {S A B : Type 0} where
  infixl 10 ◌>>=◌ ◌>>◌
  unfoldable pub ◌>>=◌ : Coroutine S A → (A → Coroutine S B) → Coroutine S B
  finished (ok a) >>= g = g a
  finished (err e) >>= g = finished (err e)
  step f k >>= g = step f (λ s. k s >>= g)

  abbrev pub ◌>>◌ : Coroutine S A → Coroutine S B → Coroutine S B
  c >> d = c >>= λ _. d
