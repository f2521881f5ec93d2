-- ===== src/Scope/Newlines.antt =====
-- packages/adopt-scope/src/adopt_scope/slug.py: `is_valid_slug` and the newline before the end.
use onboard_core.Base.{
  ℕ, zero, suc, ◌<◌, ◌≤◌, String, true, false, ◌≡◌, refl, List, [], ◌∷◌, ◌++◌, all, length,
  length-append, arith, codes, newline, has_newline,
}
use onboard_core.Scope.Slugs.{
  is_slug_inner, at_end, matches_rest, matches_slug_pattern, slug_max_chars, is_valid_slug,
}

at_end-newline :
    (l : List ℕ) → has_newline l ≡ false → at_end l ≡ true → at_end (l ++ newline ∷ []) ≡ true
unfolding at_end
at_end-newline [] plain e = refl
at_end-newline (c ∷ []) plain e = ground (arith, plain, e)
at_end-newline (c ∷ d ∷ l) plain e = cc

matches_rest-newline :
    (n : ℕ) (l : List ℕ)
    → has_newline l ≡ false
    → matches_rest n l ≡ true
    → matches_rest n (l ++ newline ∷ []) ≡ true
unfolding matches_rest
matches_rest-newline n [] plain e = cc
matches_rest-newline zero (c ∷ l) plain e = ground (arith, plain, e, at_end-newline l)
matches_rest-newline (suc n) (c ∷ l) plain e =
    ground (arith, plain, e, at_end-newline l, matches_rest-newline n l)

matches_slug_pattern-newline :
    (l : List ℕ)
    → has_newline l ≡ false
    → matches_slug_pattern l ≡ true
    → matches_slug_pattern (l ++ newline ∷ []) ≡ true
unfolding matches_slug_pattern
matches_slug_pattern-newline [] plain e = cc
matches_slug_pattern-newline (c ∷ l) plain e =
    ground (arith, plain, e, at_end-newline l, matches_rest-newline 46 l)

-- A valid slug without a newline and of fewer than forty-eight characters stays valid with a
-- newline after it.
pub is_valid_slug-newline :
    (value ended : String)
    → is_valid_slug value ≡ true
    → has_newline (codes value) ≡ false
    → length (codes value) < slug_max_chars
    → codes ended ≡ codes value ++ newline ∷ []
    → is_valid_slug ended ≡ true
unfolding is_valid_slug
is_valid_slug-newline value ended e plain short made =
    let longer = length-append (codes value) (newline ∷ []) in
    let matched = matches_slug_pattern-newline (codes value) plain in
    ground (arith, e, plain, short, made, longer, matched)

at_end-nothing : (l : List ℕ) → has_newline l ≡ false → at_end l ≡ true → l ≡ []
unfolding at_end
at_end-nothing [] plain e = refl
at_end-nothing (c ∷ []) plain e = absurd (ground (arith, plain, e))
at_end-nothing (c ∷ d ∷ l) plain e = cc

matches_rest-all :
    (n : ℕ) (l : List ℕ)
    → has_newline l ≡ false
    → matches_rest n l ≡ true
    → all is_slug_inner l ≡ true
unfolding matches_rest
matches_rest-all n [] plain e = cc
matches_rest-all zero (c ∷ l) plain e = ground (arith, plain, e, at_end-nothing l)
matches_rest-all (suc n) (c ∷ l) plain e =
    ground (arith, plain, e, at_end-nothing l, matches_rest-all n l)

matches_slug_pattern-all :
    (l : List ℕ)
    → has_newline l ≡ false
    → matches_slug_pattern l ≡ true
    → all is_slug_inner l ≡ true
unfolding matches_slug_pattern
matches_slug_pattern-all [] plain e = refl
matches_slug_pattern-all (c ∷ l) plain e =
    ground (arith, plain, e, at_end-nothing l, matches_rest-all 46 l)

-- A valid slug without a newline has two to forty-eight characters, each a lower case letter, a
-- digit or a hyphen.
pub is_valid_slug-all :
    (value : String)
    → is_valid_slug value ≡ true
    → has_newline (codes value) ≡ false
    → (all is_slug_inner (codes value) ≡ true)
      × (2 ≤ length (codes value))
      × (length (codes value) ≤ slug_max_chars)
unfolding is_valid_slug
is_valid_slug-all value e plain = (
  matches_slug_pattern-all (codes value) plain (ground (arith, e)),
  ground (arith, e),
  ground (arith, e),
)
