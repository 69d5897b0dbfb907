-- ===== src/Coroutine/Completion.antt =====
-- Tasks that are brought to their ends, one after the other.
use infra_steward_gateway.Core.{List, [], ◌∷◌, All}
use infra_steward_gateway.Exec.{Result}
use infra_steward_gateway.Coroutine.{Coroutine, finished, step}
use infra_steward_gateway.Coroutine.Pool.{taken, passed, Turns, here, next}

module _ {S A : Type 0} where
  abbrev pub IsFinished : Coroutine S A → Type 0
  IsFinished (finished r) = Unit
  IsFinished (step f k) = ⊥

  pub Turns-trans :
      {cs ds es : List (Coroutine S A)} {s t u : S}
      → Turns cs s ds t
      → Turns ds t es u
      → Turns cs s es u
  Turns-trans p here = p
  Turns-trans p (next q turn) = next (Turns-trans p q) turn

  Turns-passed :
      {cs ds : List (Coroutine S A)} {s t : S} (c : Coroutine S A)
      → Turns cs s ds t
      → Turns (c ∷ cs) s (c ∷ ds) t
  Turns-passed c here = here
  Turns-passed c (next p turn) = next (Turns-passed c p) (passed c turn)

  -- The first task goes to its end.
  finish_first :
      (c : Coroutine S A) (cs : List (Coroutine S A)) (s : S)
      → (r : Result A) × (t : S) × Turns (c ∷ cs) s (finished r ∷ cs) t
  finish_first (finished r) cs s = (r, s, here)
  finish_first (step f k) cs s =
      let (r, t, rest) = finish_first (k s) cs (f s) in
      (r, t, Turns-trans (next here (taken f k cs s)) rest)

  -- Whatever the tasks and the state, some steps bring them all to their ends.
  pub finish_tasks :
      (cs : List (Coroutine S A)) (s : S)
      → (ds : List (Coroutine S A)) × (t : S) × Turns cs s ds t × All IsFinished ds
  finish_tasks [] s = ([], s, here, tt)
  finish_tasks (c ∷ cs) s =
      let (r, t, first) = finish_first c cs s in
      let (ds, u, others, done) = finish_tasks cs t in
      (finished r ∷ ds, u, Turns-trans first (Turns-passed (finished r) others), (tt, done))
