-- ===== src/PyStr.antt =====
-- What the gateway uses of Python's `str`: truth, `lower`, `strip`, membership in a collection of
-- texts, `sorted`, and the pieces of an f-string.
-- A text is a list of Unicode scalar values. `lower` maps the letters A to Z and the Kelvin sign, the
-- one other character whose lower case is an ASCII letter alone; the gateway compares the result with
-- ASCII names only, so what Python does to other characters cannot be observed in it.
pub mod Normal
use Prim.Native.Char.{Char, code}
use Prim.Native.String.{compare}
use Prim.Native.String
use text.Mathlib.Text.{is_le}
use infra_steward_gateway.Core.{
  ℕ, String, Bool, true, false, not, ◌&&◌, ◌||◌, Option, none, some, List, [], ◌∷◌, ◌==◌, leb,
  nat_eq, if◌then◌else◌,
}

-- A text is true when it is not empty.
abbrev pub truthy : String → Bool
truthy String.[] = false
truthy (String.◌∷◌ c s) = true

-- The character that stands in the second text where the first has the given one.
unfoldable pub translate : String → String → Char → Char
translate (String.◌∷◌ a from) (String.◌∷◌ b to) c =
    if nat_eq (code a) (code c) then b else translate from to c
translate _ _ c = c

abbrev pub upper_letters : String
upper_letters = "ABCDEFGHIJKLMNOPQRSTUVWXYZK"

abbrev pub lower_letters : String
lower_letters = "abcdefghijklmnopqrstuvwxyzk"

unfoldable pub lower_char : Char → Char
unfolding translate
lower_char c = translate upper_letters lower_letters c

unfoldable pub lower : String → String
lower String.[] = String.[]
lower (String.◌∷◌ c s) = String.◌∷◌ (lower_char c) (lower s)

-- The characters of `str.isspace`, which `strip` removes.
unfoldable pub is_space_code : ℕ → Bool
is_space_code n =
    (leb 9 n && leb n 13)
    || (leb 28 n && leb n 32)
    || nat_eq n 133
    || nat_eq n 160
    || nat_eq n 5760
    || (leb 8192 n && leb n 8202)
    || nat_eq n 8232
    || nat_eq n 8233
    || nat_eq n 8239
    || nat_eq n 8287
    || nat_eq n 12288

unfoldable pub is_space : Char → Bool
unfolding is_space_code
is_space c = is_space_code (code c)

unfoldable pub lstrip : String → String
lstrip String.[] = String.[]
lstrip (String.◌∷◌ c s) = if is_space c then lstrip s else String.◌∷◌ c s

unfoldable pub rstrip : String → String
rstrip String.[] = String.[]
rstrip (String.◌∷◌ c s) =
    let rest = rstrip s in if is_space c && not (truthy rest) then String.[] else String.◌∷◌ c rest

unfoldable pub strip : String → String
strip s = rstrip (lstrip s)

-- `s.lower().strip()`, the key under which a tenant is looked up
unfoldable pub normalise : String → String
unfolding lower lower_char strip lstrip rstrip is_space
normalise s = strip (lower s)

-- `x in xs`
unfoldable pub member : String → List String → Bool
member x [] = false
member x (y ∷ ys) = x == y || member x ys

-- the parts of an f-string, or a sum of texts
unfoldable pub concat : List String → String
concat [] = ""
concat (s ∷ ss) = String.◌++◌ s (concat ss)

-- `f"{x}"` where `x` may be `None`
abbrev pub show_option : Option String → String
show_option none = "None"
show_option (some s) = s

insert_sorted : String → List String → List String
insert_sorted x [] = x ∷ []
insert_sorted x (y ∷ ys) = if is_le (compare x y) then x ∷ y ∷ ys else y ∷ insert_sorted x ys

-- `sorted(xs)`: by code points, which is the order of `compare`
unfoldable pub sorted : List String → List String
unfolding insert_sorted
sorted [] = []
sorted (x ∷ xs) = insert_sorted x (sorted xs)

-- `", ".join(xs)`
unfoldable pub join_comma : List String → String
unfolding concat
join_comma [] = ""
join_comma (x ∷ []) = x
join_comma (x ∷ y ∷ ys) = concat (x ∷ ", " ∷ join_comma (y ∷ ys) ∷ [])
