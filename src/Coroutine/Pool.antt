-- ===== src/Coroutine/Pool.antt =====
-- Tasks of an event loop: coroutines over one state, one of which takes its next step at a time. In
-- what order they do is not fixed.
use infra_steward_gateway.Core.{ℕ, zero, suc, List, [], ◌∷◌}
use infra_steward_gateway.Coroutine.{Coroutine, finished, step}

module _ {S A : Type 0} where
  -- One task takes a step.
  pub data Turn : List (Coroutine S A) → S → List (Coroutine S A) → S → Type 0 where
    taken :
        (f : S → S) (k : S → Coroutine S A) (cs : List (Coroutine S A)) (s : S)
        → Turn (step f k ∷ cs) s (k s ∷ cs) (f s)
    passed :
        {cs ds : List (Coroutine S A)} {s t : S} (c : Coroutine S A)
        → Turn cs s ds t
        → Turn (c ∷ cs) s (c ∷ ds) t

  -- Any number of steps of any tasks.
  pub data Turns : List (Coroutine S A) → S → List (Coroutine S A) → S → Type 0 where
    here : {cs : List (Coroutine S A)} {s : S} → Turns cs s cs s
    next :
        {cs ds es : List (Coroutine S A)} {s t u : S}
        → Turns cs s ds t
        → Turn ds t es u
        → Turns cs s es u

  -- The task at a position takes a step, where it is there and has one.
  unfoldable pub step_task : ℕ → List (Coroutine S A) → S → List (Coroutine S A) × S
  step_task n [] s = ([], s)
  step_task zero (finished r ∷ cs) s = (finished r ∷ cs, s)
  step_task zero (step f k ∷ cs) s = (k s ∷ cs, f s)
  step_task (suc n) (c ∷ cs) s = let (ds, t) = step_task n cs s in (c ∷ ds, t)

  -- The tasks at some positions, one after the other.
  unfoldable pub take_turns : List ℕ → List (Coroutine S A) → S → List (Coroutine S A) × S
  take_turns [] cs s = (cs, s)
  take_turns (n ∷ ns) cs s = let (ds, t) = step_task n cs s in take_turns ns ds t

  -- At most one task has taken a step.
  data AtMostOne (cs : List (Coroutine S A)) (s : S) : List (Coroutine S A) → S → Type 0 where
    idle : AtMostOne cs s cs s
    one : {ds : List (Coroutine S A)} {t : S} → Turn cs s ds t → AtMostOne cs s ds t

  step_task-AtMostOne :
      (n : ℕ) (cs : List (Coroutine S A)) (s : S)
      → AtMostOne cs s (step_task n cs s).0 (step_task n cs s).1
  unfolding step_task
  step_task-AtMostOne n [] s = idle
  step_task-AtMostOne zero (finished r ∷ cs) s = idle
  step_task-AtMostOne zero (step f k ∷ cs) s = one (taken f k cs s)
  step_task-AtMostOne (suc n) (c ∷ cs) s = behind (step_task-AtMostOne n cs s)
    where
      behind :
          {ds : List (Coroutine S A)} {t : S}
          → AtMostOne cs s ds t
          → AtMostOne (c ∷ cs) s (c ∷ ds) t
      behind idle = idle
      behind (one turn) = one (passed c turn)

  later :
      {cs ds es : List (Coroutine S A)} {s t u : S}
      → Turns cs s ds t
      → AtMostOne ds t es u
      → Turns cs s es u
  later turns idle = turns
  later turns (one turn) = next turns turn

  take_turns_further :
      (ns : List ℕ) {cs ds : List (Coroutine S A)} {s t : S}
      → Turns cs s ds t
      → Turns cs s (take_turns ns ds t).0 (take_turns ns ds t).1
  unfolding take_turns
  take_turns_further [] turns = turns
  take_turns_further (n ∷ ns) {ds = ds} {t = t} turns =
      take_turns_further ns (later turns (step_task-AtMostOne n ds t))

  pub take_turns-Turns :
      (ns : List ℕ) (cs : List (Coroutine S A)) (s : S)
      → Turns cs s (take_turns ns cs s).0 (take_turns ns cs s).1
  take_turns-Turns ns cs s = take_turns_further ns here
