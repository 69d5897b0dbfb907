-- ===== src/EvidenceIngester/Paths/Laws.antt =====
-- The paths under which a record is asked for.
use Prim.Native.Char.{Char, code}
use Prim.Native.String
use Prim.Native.String.append
use infra_steward_gateway.Core.{
  String, ◌≡◌, ◌≢◌, refl, ap, sym, ◌∙◌, inl, inr, Bool, true, false, ◌==◌, some, arith, eq_iff,
  nat_eq, Bool-cases,
}
use infra_steward_gateway.EvidenceIngester.Paths.{after, trim_prefix, has_suffix, contains_slash}

after-append : (p s : String) → after p (String.◌++◌ p s) ≡ some s
unfolding after
after-append String.[] s = ap (after String.[]) (append.nil s)
after-append (String.◌∷◌ c p) s = rw (append.cons c p s) (ground (arith, after-append p s))

-- What stands after the prefix.
pub trim_prefix-append : (p s : String) → trim_prefix (String.◌++◌ p s) p ≡ s
unfolding trim_prefix
trim_prefix-append p s = rw (after-append p s) refl

ends_with_slash : String → Bool
ends_with_slash String.[] = false
ends_with_slash (String.◌∷◌ c String.[]) = nat_eq (code c) 47
ends_with_slash (String.◌∷◌ c (String.◌∷◌ d s)) = ends_with_slash (String.◌∷◌ d s)

ends_with_slash-cons :
    (c : Char) (s : String) → s ≢ "" → ends_with_slash (String.◌∷◌ c s) ≡ ends_with_slash s
unfolding ends_with_slash
ends_with_slash-cons c String.[] ne = absurd (ne refl)
ends_with_slash-cons c (String.◌∷◌ d s) ne = refl

ends_contains : (s : String) → contains_slash s ≡ false → ends_with_slash s ≡ false
unfolding ends_with_slash contains_slash
ends_contains String.[] h = refl
ends_contains (String.◌∷◌ c String.[]) h = ground arith
ends_contains (String.◌∷◌ c (String.◌∷◌ d s)) h = ends_contains (String.◌∷◌ d s) (ground arith)

append_ne : (p s : String) → s ≢ "" → String.◌++◌ p s ≢ ""
append_ne String.[] s ne e = ne (sym (append.nil s) ∙ e)
append_ne (String.◌∷◌ c p) s ne e = absurd (cc (append.cons c p s))

ends_with_slash-append :
    (p s : String) → s ≢ "" → ends_with_slash (String.◌++◌ p s) ≡ ends_with_slash s
ends_with_slash-append String.[] s ne = ap ends_with_slash (append.nil s)
ends_with_slash-append (String.◌∷◌ c p) s ne =
    ap ends_with_slash (append.cons c p s)
    ∙ ends_with_slash-cons c (String.◌++◌ p s) (append_ne p s ne)
    ∙ ends_with_slash-append p s ne

has_suffix-ends : (s : String) → has_suffix s "/evidence/" ≡ true → ends_with_slash s ≡ true
unfolding has_suffix ends_with_slash
has_suffix-ends String.[] h = absurd (cc)
has_suffix-ends (String.◌∷◌ c s) h = elim (Bool-cases (String.◌∷◌ c s == "/evidence/")) [
  | inl e ↦ ap ends_with_slash ((eq_iff (String.◌∷◌ c s) "/evidence/").0 e)
  | inr e ↦ by_rest s (has_suffix-ends s (ground arith))
]
  where
    by_rest : (s : String) → ends_with_slash s ≡ true → ends_with_slash (String.◌∷◌ c s) ≡ true
    by_rest String.[] h = absurd (cc)
    by_rest (String.◌∷◌ d s) h = h

-- The path of an identifier does not end with a slash,
pub has_suffix-path :
    (p k : String)
    → k ≢ ""
    → contains_slash k ≡ false
    → has_suffix (String.◌++◌ p k) "/evidence/" ≡ false
has_suffix-path p k ne h = elim (Bool-cases (has_suffix (String.◌++◌ p k) "/evidence/")) [
  | inr e ↦ e
  | inl e ↦
      absurd
        (cc (has_suffix-ends (String.◌++◌ p k) e, ends_with_slash-append p k ne, ends_contains k h))
]

-- and is that of "events" only for "events".
pub events_path :
    (k : String) → k ≢ "events" → (String.◌++◌ "/evidence/" k == "/evidence/events") ≡ false
unfolding trim_prefix after
events_path k ne = elim (Bool-cases (String.◌++◌ "/evidence/" k == "/evidence/events")) [
  | inr e ↦ e
  | inl e ↦
      let same = (eq_iff (String.◌++◌ "/evidence/" k) "/evidence/events").0 e in
      absurd
        (ne (sym (trim_prefix-append "/evidence/" k) ∙ ap (λ s. trim_prefix s "/evidence/") same))
]
