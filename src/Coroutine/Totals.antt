-- ===== src/Coroutine/Totals.antt =====
-- How much some tasks add together, in whatever order they take their steps.
use infra_steward_gateway.Core.{ℕ, ◌+◌, ◌≡◌, List, [], ◌∷◌, arith}
use infra_steward_gateway.Coroutine.{Coroutine}
use infra_steward_gateway.Coroutine.Pool.{Turn, taken, passed, Turns, here, next}
use infra_steward_gateway.Coroutine.Counts.{Tells, Counts}

module _ {S A : Type 0} (measure : S → ℕ) (Q : Tells A) where
  -- What the tasks have added so far, each with the rest of its steps.
  pub data Total : ℕ → List (Coroutine S A) → Type 0 where
    no_task : Total 0 []
    one_task :
        {n : ℕ} {cs : List (Coroutine S A)} (i : ℕ) (c : Coroutine S A)
        → Counts measure i c Q
        → Total n cs
        → Total (i + n) (c ∷ cs)

  Total-eq : {m n : ℕ} {cs : List (Coroutine S A)} → m ≡ n → Total m cs → Total n cs
  Total-eq e t = rw (← e) t

  Total-Turn :
      {cs ds : List (Coroutine S A)} {s t : S} {n : ℕ}
      → Turn cs s ds t
      → Total n cs
      → (j : ℕ) × (measure t ≡ measure s + j) × Total (n + j) ds
  Total-Turn (taken f k cs s) (one_task {n} i _ counts rest) =
      let (j, e, told) = counts.told s in
      (j, e, Total-eq (omega arith) (one_task (i + j) (k s) (record { told = told }) rest))
  Total-Turn (passed c turn) (one_task i _ counts rest) =
      let (j, e, after) = Total-Turn turn rest in
      (j, e, Total-eq (omega arith) (one_task i c counts after))

  pub Total-Turns :
      {cs ds : List (Coroutine S A)} {s t : S} {n : ℕ}
      → Turns cs s ds t
      → Total n cs
      → (j : ℕ) × (measure t ≡ measure s + j) × Total (n + j) ds
  Total-Turns here total = (0, omega arith, Total-eq (omega arith) total)
  Total-Turns (next turns turn) total =
      let (j, e, before) = Total-Turns turns total in
      let (i, d, after) = Total-Turn turn before in
      (j + i, omega (arith, e, d), Total-eq (omega arith) after)
