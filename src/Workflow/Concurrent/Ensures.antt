-- ===== src/Workflow/Concurrent/Ensures.antt =====
-- What a coroutine comes to, whatever other requests do between its steps: one rule for each way to
-- build one. A step relies on what its own stage holds, and changes no more than that stage allows.
use infra_steward_gateway.Core.{◌≡◌, refl, Bool, true, false, if◌then◌else◌, arith, inl}
use infra_steward_gateway.Exec.{Exec, Exc, Result, ok, err, lift, modify}
use infra_steward_gateway.Coroutine.{Coroutine, finished, step, at_once, returns, try_except, ◌>>=◌}
use infra_steward_gateway.Runtime.{Host}
use infra_steward_gateway.World.{World}
use infra_steward_gateway.Workflow.Concurrent.Stages.{Stage, unborn, named, owner, Holds, Keeps}

-- The call returns.
abbrev pub Oks : {A : Type 0} → (A → Stage → Type 0) → Result A → Stage → Type 0
Oks P (ok a) o = P a o
Oks P (err e) o = ⊥

module _ (host : Host) where
  module _ {A : Type 0} where
    abbrev pub Comes : Stage → Coroutine World A → (Result A → Stage → Type 0) → Type 0
    Comes o (finished r) Q = Q r o
    Comes o (step f k) Q =
        (w : World)
        → Holds host o w
        → (p : Stage) × Holds host p (f w) × Keeps host o p w (f w) × Comes p (k w) Q

    -- From a stage, however the state changes between the steps while the stage holds, every step keeps
    -- to its stage, and where the coroutine is finished its result and stage are as told.
    pub record Ensures (o : Stage) (c : Coroutine World A) (Q : Result A → Stage → Type 0)
        : Type 0 where
      pub told : Comes o c Q

    pub Ensures-at_once :
        {o : Stage} {Q : Result A → Stage → Type 0} (m : Exec World A)
        → ((w : World)
            → Holds host o w
            → (p : Stage) × Holds host p (m w).1 × Keeps host o p w (m w).1 × Q (m w).0 p)
        → Ensures o (at_once m) Q
    unfolding at_once
    Ensures-at_once m h = record { told = h }

    pub Ensures-returns :
        {o : Stage} {Q : Result A → Stage → Type 0} (a : A) → Q (ok a) o → Ensures o (returns a) Q
    unfolding returns
    Ensures-returns a h = record { told = h }

    Comes-weaken :
        (P Q : Result A → Stage → Type 0) (o : Stage) (c : Coroutine World A)
        → Comes o c P
        → ((r : Result A) (p : Stage) → P r p → Q r p)
        → Comes o c Q
    Comes-weaken P Q o (finished r) t f = f r o t
    Comes-weaken P Q o (step g k) t f = λ w holds.
        let (p, held, kept, rest) = t w holds in (p, held, kept, Comes-weaken P Q p (k w) rest f)

    pub Ensures-weaken :
        {o : Stage} {P Q : Result A → Stage → Type 0} {c : Coroutine World A}
        → Ensures o c P
        → ((r : Result A) (p : Stage) → P r p → Q r p)
        → Ensures o c Q
    Ensures-weaken {o} {P} {Q} {c} t f = record { told = Comes-weaken P Q o c t.told f }

    Comes-try_except :
        (P Q : Result A → Stage → Type 0) (o : Stage) (c : Coroutine World A)
        (h : Exc → Coroutine World A)
        → Comes o c P
        → ((a : A) (p : Stage) → P (ok a) p → Q (ok a) p)
        → ((e : Exc) (p : Stage) → P (err e) p → Comes p (h e) Q)
        → Comes o (try_except c h) Q
    unfolding try_except
    Comes-try_except P Q o (finished (ok a)) h t good bad = good a o t
    Comes-try_except P Q o (finished (err e)) h t good bad = bad e o t
    Comes-try_except P Q o (step f k) h t good bad = λ w holds.
        let (p, held, kept, rest) = t w holds in
        (p, held, kept, Comes-try_except P Q p (k w) h rest good bad)

    pub Ensures-try_except :
        {o : Stage} {P Q : Result A → Stage → Type 0} {c : Coroutine World A}
        {h : Exc → Coroutine World A}
        → Ensures o c P
        → ((a : A) (p : Stage) → P (ok a) p → Q (ok a) p)
        → ((e : Exc) (p : Stage) → P (err e) p → Ensures p (h e) Q)
        → Ensures o (try_except c h) Q
    Ensures-try_except {o} {P} {Q} {c} {h} t good bad = record {
      told = Comes-try_except P Q o c h t.told good (λ e p i. (bad e p i).told);
    }

    pub Ensures-if :
        {o : Stage} {Q : Result A → Stage → Type 0} (b : Bool) {c d : Coroutine World A}
        → Ensures o c Q
        → Ensures o d Q
        → Ensures o (if b then c else d) Q
    Ensures-if true t e = t
    Ensures-if false t e = e

  module _ {A B : Type 0} where
    Comes-bind :
        (P : Result A → Stage → Type 0) (Q : Result B → Stage → Type 0) (o : Stage)
        (c : Coroutine World A) (g : A → Coroutine World B)
        → Comes o c P
        → ((a : A) (p : Stage) → P (ok a) p → Comes p (g a) Q)
        → ((e : Exc) (p : Stage) → P (err e) p → Q (err e) p)
        → Comes o (c >>= g) Q
    unfolding ◌>>=◌
    Comes-bind P Q o (finished (ok a)) g t good bad = good a o t
    Comes-bind P Q o (finished (err e)) g t good bad = bad e o t
    Comes-bind P Q o (step f k) g t good bad = λ w holds.
        let (p, held, kept, rest) = t w holds in
        (p, held, kept, Comes-bind P Q p (k w) g rest good bad)

    pub Ensures-bind :
        {o : Stage} {P : Result A → Stage → Type 0} {Q : Result B → Stage → Type 0}
        {c : Coroutine World A} {g : A → Coroutine World B}
        → Ensures o c P
        → ((a : A) (p : Stage) → P (ok a) p → Ensures p (g a) Q)
        → ((e : Exc) (p : Stage) → P (err e) p → Q (err e) p)
        → Ensures o (c >>= g) Q
    Ensures-bind {o} {P} {Q} {c} {g} t good bad = record {
      told = Comes-bind P Q o c g t.told (λ a p i. (good a p i).told) bad;
    }

    -- A first part that cannot raise.
    pub Ensures-then :
        {o : Stage} {P : A → Stage → Type 0} {Q : Result B → Stage → Type 0} {c : Coroutine World A}
        {g : A → Coroutine World B}
        → Ensures o c (Oks P)
        → ((a : A) (p : Stage) → P a p → Ensures p (g a) Q)
        → Ensures o (c >>= g) Q
    Ensures-then t good = Ensures-bind t good (λ e p i. absurd i)

  pub Keeps-IsSame :
      (o : Stage) (v w : World) → w.evidence ≡ v.evidence → w.draws ≡ v.draws → Keeps host o o v w
  Keeps-IsSame o v w e d = record {
    draws = omega (arith, d);
    next = rw e (omega arith);
    objects = λ k below apart. rw e refl;
    entries = λ k apart. rw e refl;
    numbers = λ n i. inl i;
    refs = λ k i. inl i;
  }

  Holds-IsSame :
      (o : Stage) (v w : World)
      → w.evidence ≡ v.evidence
      → w.draws ≡ v.draws
      → Holds host o v
      → Holds host o w
  Holds-IsSame unborn v w e d h = tt
  Holds-IsSame (named n) v w e d h = omega (arith, h, d)
  Holds-IsSame (owner n ref r) v w e d h = rw (e, d) h

  -- A step that leaves the records and the identifiers alone.
  pub Ensures-quiet :
      {A : Type 0} {o : Stage} {Q : Result A → Stage → Type 0} (m : Exec World A)
      → ((w : World) → ((m w).1.evidence ≡ w.evidence) × ((m w).1.draws ≡ w.draws))
      → ((w : World) → Q (m w).0 o)
      → Ensures o (at_once m) Q
  Ensures-quiet {o = o} m same h = Ensures-at_once m λ w held. (
    o,
    Holds-IsSame o w _ (same w).0 (same w).1 held,
    Keeps-IsSame o w _ (same w).0 (same w).1,
    h w,
  )

  pub Ensures-modify :
      {o : Stage} (P : Stage → Type 0) (f : World → World)
      → ((w : World) → ((f w).evidence ≡ w.evidence) × ((f w).draws ≡ w.draws))
      → P o
      → Ensures o (at_once (modify f)) (Oks λ _. P)
  unfolding modify
  Ensures-modify P f same h = Ensures-quiet (modify f) same λ w. h

  pub Ensures-lift :
      {A : Type 0} {o : Stage} {Q : Result A → Stage → Type 0} (r : Result A)
      → Q r o
      → Ensures o (at_once (lift r)) Q
  unfolding lift
  Ensures-lift r h = Ensures-quiet (lift r) (λ w. (refl, refl)) λ w. h
