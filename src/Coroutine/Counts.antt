-- ===== src/Coroutine/Counts.antt =====
-- How much of something a coroutine adds, whatever other tasks do between its steps: one rule for each
-- way to build one.
use infra_steward_gateway.Core.{ℕ, ◌+◌, ◌≡◌, Bool, true, false, if◌then◌else◌, arith}
use infra_steward_gateway.Exec.{Exec, Exc, Result, ok, err}
use infra_steward_gateway.Coroutine.{Coroutine, finished, step, at_once, returns, try_except, ◌>>=◌}

-- What a task that has added `i` so far has added in the end, by its result.
abbrev pub Tells : Type 0 → Type 1
Tells A = ℕ → Result A → Type 0

abbrev pub Stays : {A : Type 0} → ℕ → Tells A
Stays i j r = j ≡ i

-- It returns.
abbrev pub Reaches : {A : Type 0} → ℕ → Tells A
Reaches n j (ok a) = j ≡ n
Reaches n j (err e) = ⊥

module _ {S : Type 0} (measure : S → ℕ) where
  module _ {A : Type 0} where
    abbrev pub Adds : ℕ → Coroutine S A → Tells A → Type 0
    Adds i (finished r) Q = Q i r
    Adds i (step f k) Q = (s : S) → (j : ℕ) × (measure (f s) ≡ measure s + j) × Adds (i + j) (k s) Q

    pub record Counts (i : ℕ) (c : Coroutine S A) (Q : Tells A) : Type 0 where
      pub told : Adds i c Q

    pub Counts-at_once :
        {i : ℕ} {Q : Tells A} (m : Exec S A)
        → ((s : S) → (j : ℕ) × (measure (m s).1 ≡ measure s + j) × Q (i + j) (m s).0)
        → Counts i (at_once m) Q
    unfolding at_once
    Counts-at_once m h = record { told = h }

    pub Counts-returns : {i : ℕ} {Q : Tells A} (a : A) → Q i (ok a) → Counts i (returns a) Q
    unfolding returns
    Counts-returns a h = record { told = h }

    Adds-weaken :
        (P Q : Tells A) (i : ℕ) (c : Coroutine S A)
        → Adds i c P
        → ((j : ℕ) (r : Result A) → P j r → Q j r)
        → Adds i c Q
    Adds-weaken P Q i (finished r) t f = f i r t
    Adds-weaken P Q i (step g k) t f =
        λ s. let (j, e, rest) = t s in (j, e, Adds-weaken P Q (i + j) (k s) rest f)

    pub Counts-weaken :
        {i : ℕ} {P Q : Tells A} {c : Coroutine S A}
        → Counts i c P
        → ((j : ℕ) (r : Result A) → P j r → Q j r)
        → Counts i c Q
    Counts-weaken {i} {P} {Q} {c} t f = record { told = Adds-weaken P Q i c t.told f }

    Adds-try_except :
        (P Q : Tells A) (i : ℕ) (c : Coroutine S A) (h : Exc → Coroutine S A)
        → Adds i c P
        → ((a : A) (j : ℕ) → P j (ok a) → Q j (ok a))
        → ((e : Exc) (j : ℕ) → P j (err e) → Adds j (h e) Q)
        → Adds i (try_except c h) Q
    unfolding try_except
    Adds-try_except P Q i (finished (ok a)) h t good bad = good a i t
    Adds-try_except P Q i (finished (err e)) h t good bad = bad e i t
    Adds-try_except P Q i (step f k) h t good bad =
        λ s. let (j, e, rest) = t s in (j, e, Adds-try_except P Q (i + j) (k s) h rest good bad)

    pub Counts-try_except :
        {i : ℕ} {P Q : Tells A} {c : Coroutine S A} {h : Exc → Coroutine S A}
        → Counts i c P
        → ((a : A) (j : ℕ) → P j (ok a) → Q j (ok a))
        → ((e : Exc) (j : ℕ) → P j (err e) → Counts j (h e) Q)
        → Counts i (try_except c h) Q
    Counts-try_except {i} {P} {Q} {c} {h} t good bad = record {
      told = Adds-try_except P Q i c h t.told good (λ e j p. (bad e j p).told);
    }

    pub Counts-if :
        {i : ℕ} {Q : Tells A} (b : Bool) {c d : Coroutine S A}
        → Counts i c Q
        → Counts i d Q
        → Counts i (if b then c else d) Q
    Counts-if true t e = t
    Counts-if false t e = e

    -- A step that adds nothing.
    pub Counts-still :
        {i : ℕ} (m : Exec S A)
        → ((s : S) → measure (m s).1 ≡ measure s)
        → Counts i (at_once m) (Stays i)
    Counts-still m h = Counts-at_once m λ s. (0, omega (arith, h s), omega arith)

  module _ {A B : Type 0} where
    Adds-bind :
        (P : Tells A) (Q : Tells B) (i : ℕ) (c : Coroutine S A) (g : A → Coroutine S B)
        → Adds i c P
        → ((a : A) (j : ℕ) → P j (ok a) → Adds j (g a) Q)
        → ((e : Exc) (j : ℕ) → P j (err e) → Q j (err e))
        → Adds i (c >>= g) Q
    unfolding ◌>>=◌
    Adds-bind P Q i (finished (ok a)) g t good bad = good a i t
    Adds-bind P Q i (finished (err e)) g t good bad = bad e i t
    Adds-bind P Q i (step f k) g t good bad =
        λ s. let (j, e, rest) = t s in (j, e, Adds-bind P Q (i + j) (k s) g rest good bad)

    pub Counts-bind :
        {i : ℕ} {P : Tells A} {Q : Tells B} {c : Coroutine S A} {g : A → Coroutine S B}
        → Counts i c P
        → ((a : A) (j : ℕ) → P j (ok a) → Counts j (g a) Q)
        → ((e : Exc) (j : ℕ) → P j (err e) → Q j (err e))
        → Counts i (c >>= g) Q
    Counts-bind {i} {P} {Q} {c} {g} t good bad = record {
      told = Adds-bind P Q i c g t.told (λ a j p. (good a j p).told) bad;
    }

    -- A first part that adds nothing.
    pub Counts-then :
        {i : ℕ} {Q : Tells B} {c : Coroutine S A} {g : A → Coroutine S B}
        → Counts i c (Stays i)
        → ((a : A) → Counts i (g a) Q)
        → ((e : Exc) → Q i (err e))
        → Counts i (c >>= g) Q
    Counts-then {i} {Q} {c} {g} t good bad =
        Counts-bind t (λ a j e. rw e (good a)) (λ x j e. rw e (bad x))
