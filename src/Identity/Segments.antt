-- ===== src/Identity/Segments.antt =====
-- packages/adopt-identity/src/adopt_identity/uri.py: the segments of a URI and the slashes between
-- them.
use mathlib.Core.List.{append_assoc, append-nil}
use onboard_core.Base.{
  ℕ, zero, suc, String, Bool, true, false, ◌≡◌, ◌↔◌, refl, sym, ap, ◌∙◌, some, List, [], ◌∷◌, ◌++◌,
  any, all, any-mem, all-mem, arith, nat_eq_iff, ◌&&◌, not, codes,
}
use onboard_core.Scope.Slugs.{at_end, matches_rest, matches_slug_pattern, is_valid_slug}
use onboard_core.Identity.Texts.{
  Text, text_eq, is_empty, slash, has_slash, join, split_from, split, partition,
}
use onboard_core.Identity.Uris.{
  uri_scheme, scheme_separator, identity_kinds, is_identity_kind, is_slug,
}

pub text_eq_iff : (s t : Text) → (text_eq s t ≡ true) ↔ (s ≡ t)
text_eq_iff [] [] = (λ e. refl, λ e. refl)
text_eq_iff [] (d ∷ ds) = (λ e. cc, λ e. cc)
text_eq_iff (c ∷ cs) [] = (λ e. cc, λ e. cc)
text_eq_iff (c ∷ cs) (d ∷ ds) = ground (arith, text_eq_iff cs ds, nat_eq_iff c d)

pub text_eq_refl : (s : Text) → text_eq s s ≡ true
text_eq_refl s = (text_eq_iff s s).1 refl

-- A text that may stand between two slashes.
abbrev pub is_segment : Text → Bool
is_segment s = not (is_empty s) && not (has_slash s)

at_end-slash : (l : List ℕ) → at_end l ≡ true → has_slash l ≡ false
unfolding at_end
at_end-slash [] e = refl
at_end-slash (c ∷ []) e = ground (arith, e)
at_end-slash (c ∷ d ∷ l) e = cc

matches_rest-slash : (n : ℕ) (l : List ℕ) → matches_rest n l ≡ true → has_slash l ≡ false
unfolding matches_rest
matches_rest-slash n [] e = cc
matches_rest-slash zero (c ∷ l) e = ground (arith, e, at_end-slash l)
matches_rest-slash (suc n) (c ∷ l) e = ground (arith, e, at_end-slash l, matches_rest-slash n l)

pub is_slug-segment : (s : Text) → is_slug s ≡ true → is_segment s ≡ true
unfolding is_slug matches_slug_pattern
is_slug-segment [] e = cc
is_slug-segment (c ∷ s) e = ground (arith, e, at_end-slash s, matches_rest-slash 46 s)

pub is_identity_kind-segment : (s : Text) → is_identity_kind s ≡ true → is_segment s ≡ true
unfolding identity_kinds codes
is_identity_kind-segment s e =
    let (kind, m, same) = any-mem (text_eq s) identity_kinds e in
    ap is_segment ((text_eq_iff s kind).0 same) ∙ all-mem is_segment identity_kinds refl kind m

split_from-slash :
    (read s rest : Text)
    → has_slash s ≡ false
    → split_from read (s ++ (slash ∷ rest)) ≡ (read ++ s) ∷ split rest
unfolding split_from
split_from-slash read [] rest e = ap (λ t. t ∷ split rest) (sym (append-nil read))
split_from-slash read (c ∷ s) rest e =
    let on = split_from-slash (read ++ c ∷ []) s rest (ground (arith, e)) in
    ground (arith, e, on, append_assoc read (c ∷ []) s)

split_from-last : (read s : Text) → has_slash s ≡ false → split_from read s ≡ (read ++ s) ∷ []
unfolding split_from
split_from-last read [] e = ap (λ t. t ∷ []) (sym (append-nil read))
split_from-last read (c ∷ s) e =
    let on = split_from-last (read ++ c ∷ []) s (ground (arith, e)) in
    ground (arith, e, on, append_assoc read (c ∷ []) s)

-- Segments without a slash are read back.
pub split-join :
    (s : Text) (ts : List Text) → all is_segment (s ∷ ts) ≡ true → split (join (s ∷ ts)) ≡ s ∷ ts
unfolding join
split-join s [] e = split_from-last [] s (ground (arith, e))
split-join s (t ∷ ts) e =
    split_from-slash [] s (join (t ∷ ts)) (ground (arith, e))
    ∙ ap (λ l. s ∷ l) (split-join t ts (ground (arith, e)))

pub segment-filled : (l : List Text) → all is_segment l ≡ true → any is_empty l ≡ false
segment-filled [] e = refl
segment-filled (s ∷ l) e = ground (arith, e, segment-filled l)

pub partition-scheme :
    (rest : Text)
    → partition scheme_separator (uri_scheme ++ (scheme_separator ++ rest))
      ≡ some (uri_scheme, rest)
unfolding partition scheme_separator uri_scheme codes
partition-scheme rest = refl

pub is_valid_slug-is_slug :
    (slug : String) → is_valid_slug slug ≡ true → is_slug (codes slug) ≡ true
unfolding is_valid_slug is_slug
is_valid_slug-is_slug slug e = e
