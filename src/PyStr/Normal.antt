-- ===== src/PyStr/Normal.antt =====
-- `normalise` applied twice, as to a key that the tenant registry already has.
use Prim.Native.Char.{Char, code}
use text.Mathlib.TextEquality.{Char-path}
use infra_steward_gateway.Core.{
  String, ◌≡◌, refl, ap, ◌∙◌, ◌⊎◌, inl, inr, false, arith, Bool-cases, nat_eq, not, ◌&&◌,
}
use infra_steward_gateway.PyStr.{
  truthy, translate, upper_letters, lower_letters, lower_char, lower, is_space, lstrip, rstrip,
  strip, normalise,
}

abbrev AllPairs : (Char → Char → Type 0) → String → String → Type 0
AllPairs P (String.◌∷◌ a from) (String.◌∷◌ b to) = P a b × AllPairs P from to
AllPairs P _ _ = Unit

-- A translated character is a pair of the table, or it is left alone.
translate_cases :
    (P : Char → Char → Type 0) (from to : String) (c : Char)
    → AllPairs P from to
    → P c (translate from to c) ⊎ (translate from to c ≡ c)
unfolding translate
translate_cases P String.[] to c h = inr refl
translate_cases P (String.◌∷◌ a from) String.[] c h = inr refl
translate_cases P (String.◌∷◌ a from) (String.◌∷◌ b to) c h =
    elim (Bool-cases (nat_eq (code a) (code c))) [
      | inl same ↦ rw (same, ← Char-path a c (ground arith)) (inl h.0)
      | inr other ↦ rw other (translate_cases P from to c h.1)
    ]

abbrev IsLowered : Char → Char → Type 0
IsLowered a b = (lower_char b ≡ b) × (is_space b ≡ is_space a)

letters-IsLowered : AllPairs IsLowered upper_letters lower_letters
unfolding lower_char is_space
letters-IsLowered = (
  (refl, refl),
  (
    (refl, refl),
    (
      (refl, refl),
      (
        (refl, refl),
        (
          (refl, refl),
          (
            (refl, refl),
            (
              (refl, refl),
              (
                (refl, refl),
                (
                  (refl, refl),
                  (
                    (refl, refl),
                    (
                      (refl, refl),
                      (
                        (refl, refl),
                        (
                          (refl, refl),
                          (
                            (refl, refl),
                            (
                              (refl, refl),
                              (
                                (refl, refl),
                                (
                                  (refl, refl),
                                  (
                                    (refl, refl),
                                    (
                                      (refl, refl),
                                      (
                                        (refl, refl),
                                        (
                                          (refl, refl),
                                          (
                                            (refl, refl),
                                            (
                                              (refl, refl),
                                              (
                                                (refl, refl),
                                                ((refl, refl), ((refl, refl), ((refl, refl), tt))),
                                              ),
                                            ),
                                          ),
                                        ),
                                      ),
                                    ),
                                  ),
                                ),
                              ),
                            ),
                          ),
                        ),
                      ),
                    ),
                  ),
                ),
              ),
            ),
          ),
        ),
      ),
    ),
  ),
)

lower_char-IsLowered : (c : Char) → IsLowered c (lower_char c) ⊎ (lower_char c ≡ c)
unfolding lower_char
lower_char-IsLowered c = translate_cases IsLowered upper_letters lower_letters c letters-IsLowered

lower_char_idem : (c : Char) → lower_char (lower_char c) ≡ lower_char c
lower_char_idem c = elim (lower_char-IsLowered c) [ inl h ↦ h.0 | inr e ↦ ap lower_char e ]

is_space-lower_char : (c : Char) → is_space (lower_char c) ≡ is_space c
is_space-lower_char c = elim (lower_char-IsLowered c) [ inl h ↦ h.1 | inr e ↦ ap is_space e ]

lower_idem : (s : String) → lower (lower s) ≡ lower s
unfolding lower
lower_idem String.[] = refl
lower_idem (String.◌∷◌ c s) = cc (lower_char_idem c, lower_idem s)

truthy-lower : (s : String) → truthy (lower s) ≡ truthy s
unfolding lower
truthy-lower String.[] = refl
truthy-lower (String.◌∷◌ c s) = refl

lower-lstrip : (s : String) → lower (lstrip s) ≡ lstrip (lower s)
unfolding lower lstrip
lower-lstrip String.[] = refl
lower-lstrip (String.◌∷◌ c s) = elim (Bool-cases (is_space c)) [
  | inl e ↦ rw (is_space-lower_char c, e) (lower-lstrip s)
  | inr e ↦ rw (is_space-lower_char c, e) refl
]

lower-rstrip : (s : String) → lower (rstrip s) ≡ rstrip (lower s)
unfolding lower rstrip
lower-rstrip String.[] = refl
lower-rstrip (String.◌∷◌ c s) =
    rw (is_space-lower_char c, ← lower-rstrip s, truthy-lower)
      (elim (Bool-cases (is_space c && not (truthy (rstrip s)))) [
        | inl e ↦ rw e refl
        | inr e ↦ rw e refl
      ])

-- Either nothing is left of the text, or it begins with no space.
abbrev StartsClean : String → Type 0
StartsClean String.[] = Unit
StartsClean (String.◌∷◌ c s) = is_space c ≡ false

lstrip-StartsClean : (s : String) → StartsClean (lstrip s)
unfolding lstrip
lstrip-StartsClean String.[] = tt
lstrip-StartsClean (String.◌∷◌ c s) = elim (Bool-cases (is_space c)) [
  | inl e ↦ rw e (lstrip-StartsClean s)
  | inr e ↦ rw e e
]

lstrip_of_clean : (s : String) → StartsClean s → lstrip s ≡ s
unfolding lstrip
lstrip_of_clean String.[] h = refl
lstrip_of_clean (String.◌∷◌ c s) h = rw h

rstrip-StartsClean : (s : String) → StartsClean s → StartsClean (rstrip s)
unfolding rstrip
rstrip-StartsClean String.[] h = tt
rstrip-StartsClean (String.◌∷◌ c s) h = rw h h

rstrip_idem : (s : String) → rstrip (rstrip s) ≡ rstrip s
unfolding rstrip
rstrip_idem String.[] = refl
rstrip_idem (String.◌∷◌ c s) = elim (Bool-cases (is_space c && not (truthy (rstrip s)))) [
  | inl e ↦ rw e refl
  | inr e ↦ rw e (rw (rstrip_idem s, e))
]

strip_idem : (s : String) → strip (strip s) ≡ strip s
unfolding strip
strip_idem s =
    ap rstrip (lstrip_of_clean (rstrip (lstrip s)) (rstrip-StartsClean _ (lstrip-StartsClean s)))
    ∙ rstrip_idem (lstrip s)

lower-strip : (s : String) → lower (strip s) ≡ strip (lower s)
unfolding strip
lower-strip s = lower-rstrip (lstrip s) ∙ ap rstrip (lower-lstrip s)

-- Lower case without outer spaces is reached after one pass.
pub normalise_idem : (s : String) → normalise (normalise s) ≡ normalise s
unfolding normalise
normalise_idem s = ap strip (lower-strip (lower s) ∙ ap strip (lower_idem s)) ∙ strip_idem (lower s)
