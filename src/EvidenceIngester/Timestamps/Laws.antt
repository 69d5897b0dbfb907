-- ===== src/EvidenceIngester/Timestamps/Laws.antt =====
-- Timestamps that are written and read again.
use Prim.Native.String
use Prim.Native.String.append
use infra_steward_gateway.Core.{
  ℕ, String, ◌≡◌, ◌≢◌, refl, ap, ◌∙◌, Bool, true, not, ◌&&◌, Option, some, arith, eq_iff,
}
use infra_steward_gateway.EvidenceIngester.Timestamps.{
  is_quote, quote, trim_left, trim_right, trim, rfc3339_nano, parse_first, unmarshal_json,
  marshal_json,
}

-- A text without quotes.
unfoldable pub is_plain : String → Bool
is_plain String.[] = true
is_plain (String.◌∷◌ c s) = not (is_quote c) && is_plain s

trim_right-append : (s : String) → is_plain s ≡ true → trim_right (String.◌++◌ s quote) ≡ s
unfolding trim_right is_plain
trim_right-append String.[] h = refl
trim_right-append (String.◌∷◌ c s) h =
    rw (append.cons c s quote) (ground (arith, trim_right-append s))

trim_left_plain :
    (s : String)
    → is_plain s ≡ true
    → s ≢ ""
    → trim_left (String.◌++◌ s quote) ≡ String.◌++◌ s quote
unfolding trim_left is_plain
trim_left_plain String.[] h ne = absurd (ne refl)
trim_left_plain (String.◌∷◌ c s) h ne = rw (append.cons c s quote) (ground arith)

trim_left-quote : (s : String) → trim_left (String.◌++◌ quote s) ≡ trim_left s
unfolding trim_left
trim_left-quote s =
    ap trim_left (append.cons "\"" "" s ∙ ap (λ (t : String). String.◌∷◌ "\"" t) (append.nil s))

trim-quoted :
    (s : String) → is_plain s ≡ true → s ≢ "" → trim (String.◌++◌ quote (String.◌++◌ s quote)) ≡ s
unfolding trim
trim-quoted s h ne =
    ap trim_right (trim_left-quote (String.◌++◌ s quote) ∙ trim_left_plain s h ne)
    ∙ trim_right-append s h

module _ (parse : String → String → Option ℕ) (format : String → ℕ → String) where
  -- What is documented of `Format` and `Parse` for a time that RFC 3339 can write.
  pub record IsWritable (t : ℕ) : Type 0 where
    pub again : parse rfc3339_nano (format rfc3339_nano t) ≡ some t
    pub plain : is_plain (format rfc3339_nano t) ≡ true
    pub filled : format rfc3339_nano t ≢ ""
    pub stamp : format rfc3339_nano t ≢ "null"

  -- A timestamp that RFC 3339 can write is read back from its JSON form as the same time, whatever the
  -- timestamp was before, if what is formatted parses again and is a text without quotes, not empty
  -- and not "null".
  pub unmarshal_json-marshal_json :
      (t old : ℕ) → IsWritable t → unmarshal_json parse (marshal_json format t) old ≡ some t
  unfolding unmarshal_json marshal_json parse_first
  unmarshal_json-marshal_json t old h =
      let s = format rfc3339_nano t in
      let trimmed = trim-quoted s h.plain h.filled in
      rw trimmed (ground (arith, eq_iff s "", eq_iff s "null", h.again, h.filled, h.stamp))
