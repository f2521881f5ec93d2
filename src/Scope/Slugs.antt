-- ===== src/Scope/Slugs.antt =====
-- packages/adopt-scope/src/adopt_scope/slug.py, over the code points of a text.
use onboard_core.Base.{
  ℕ, zero, suc, String, Bool, true, false, List, [], ◌∷◌, ◌&&◌, ◌||◌, any, leb, nat_eq, length,
  ◌==◌, newline, codes, if◌then◌else◌,
}
use onboard_core.Obs.{Result, ok, err, scope_slug_invalid, scope_slug_reused, scope_slug_immutable}

-- [a-z0-9]
abbrev pub is_slug_end : ℕ → Bool
is_slug_end c = leb b'a' c && leb c b'z' || leb b'0' c && leb c b'9'

-- [a-z0-9-]
abbrev pub is_slug_inner : ℕ → Bool
is_slug_inner c = is_slug_end c || nat_eq c b'-'

-- `$` of the module `re`: the end of the text, or a newline that ends it.
unfoldable pub at_end : List ℕ → Bool
at_end [] = true
at_end (c ∷ []) = nat_eq c newline
at_end (c ∷ d ∷ cs) = false

-- [a-z0-9-]{0,n}[a-z0-9]$
unfoldable pub matches_rest : ℕ → List ℕ → Bool
unfolding at_end
matches_rest n [] = false
matches_rest zero (c ∷ cs) = is_slug_end c && at_end cs
matches_rest (suc n) (c ∷ cs) = is_slug_end c && at_end cs || is_slug_inner c && matches_rest n cs

-- adopt_const: SLUG_PATTERN
unfoldable pub matches_slug_pattern : List ℕ → Bool
unfolding matches_rest
matches_slug_pattern [] = false
matches_slug_pattern (c ∷ cs) = is_slug_end c && (matches_rest 46 cs || at_end cs)

abbrev pub slug_min_chars : ℕ
slug_min_chars = 2

abbrev pub slug_max_chars : ℕ
slug_max_chars = 48

unfoldable pub is_valid_slug : String → Bool
unfolding matches_slug_pattern codes
is_valid_slug value =
    matches_slug_pattern (codes value)
    && leb slug_min_chars (length (codes value))
    && leb (length (codes value)) slug_max_chars

unfoldable pub validate_slug : String → Result (Unit {0})
validate_slug value = if is_valid_slug value then ok tt else err scope_slug_invalid

unfoldable pub ensure_slug_available : String → List String → Result (Unit {0})
ensure_slug_available value taken =
    if any (λ t. t == value) taken then err scope_slug_reused else ok tt

unfoldable pub ensure_slug_unchanged : String → String → Result (Unit {0})
ensure_slug_unchanged current proposed =
    if current == proposed then ok tt else err scope_slug_immutable
