-- ===== src/Exec.antt =====
-- Code that changes state and may raise. What was written before a raise stays written, so the state
-- comes back beside the exception too.
pub mod Ends
use infra_steward_gateway.Core.{String, ◌≡◌, refl, ap, ◌∙◌, ◌⊎◌, inl, inr}

-- The classes of exceptions that the gateway raises itself, and those of the code that it calls.
pub data ExcClass : Type 0 where
  unknown_tenant_error provider_not_registered_error key_error : ExcClass
  value_error runtime_error attribute_error type_error : ExcClass
  foreign : String → ExcClass

pub record Exc : Type 0 where
  pub class : ExcClass
  pub message : String

pub data Result {ℓ} (A : Type ℓ) : Type ℓ where
  ok : A → Result A
  err : Exc → Result A

abbrev pub raise_result {ℓ} : {A : Type ℓ} → ExcClass → String → Result A
raise_result c m = err (record { class = c; message = m })

abbrev pub Exec {ℓ} : Type ℓ → Type ℓ → Type ℓ
Exec S A = S → Result A × S

module _ {ℓ} {S A : Type ℓ} where
  unfoldable pub pure : A → Exec S A
  pure a s = (ok a, s)

  unfoldable pub lift : Result A → Exec S A
  lift r s = (r, s)

  unfoldable pub gets : (S → A) → Exec S A
  gets f s = (ok (f s), s)

  -- a call that changes the state and cannot raise
  unfoldable pub calls : (S → A × S) → Exec S A
  calls f s = (ok (f s).0, (f s).1)

  -- `try: m` with `except Exception as exc: h(exc)`
  unfoldable pub recover : (Exc → Exec S A) → Result A → Exec S A
  recover h (ok a) s = (ok a, s)
  recover h (err e) s = h e s

  unfoldable pub try_except : Exec S A → (Exc → Exec S A) → Exec S A
  unfolding recover
  try_except m h s = recover h (m s).0 (m s).1

module _ {ℓ} {S A B : Type ℓ} where
  unfoldable pub continue : Result A → (A → Exec S B) → Exec S B
  continue (ok a) f s = f a s
  continue (err e) f s = (err e, s)

  infixl 10 ◌>>=◌ ◌>>◌
  unfoldable pub ◌>>=◌ : Exec S A → (A → Exec S B) → Exec S B
  unfolding continue
  ◌>>=◌ m f s = continue (m s).0 f (m s).1

  abbrev pub ◌>>◌ : Exec S A → Exec S B → Exec S B
  m >> n = m >>= λ _. n

  -- A step that returns hands its value and its state on.
  pub bind-ok :
      (m : Exec S A) (f : A → Exec S B) {s t : S} {a : A} → m s ≡ (ok a, t) → (m >>= f) s ≡ f a t
  unfolding ◌>>=◌
  bind-ok m f e = ap (λ (p : Result A × S). continue p.0 f p.1) e

  -- A step that raises ends the block.
  pub bind-err :
      (m : Exec S A) (f : A → Exec S B) {s t : S} {x : Exc}
      → m s ≡ (err x, t)
      → (m >>= f) s ≡ (err x, t)
  unfolding ◌>>=◌
  bind-err m f e = ap (λ (p : Result A × S). continue p.0 f p.1) e

-- a change of the state that cannot raise
unfoldable pub modify {ℓ} : {S : Type ℓ} → (S → S) → Exec S (Unit {ℓ})
modify f s = (ok tt, f s)
