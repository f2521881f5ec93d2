-- ===== src/Identity/Texts.antt =====
-- packages/adopt-identity/src/adopt_identity/uri.py: what it does with texts, as lists of code points.
use onboard_core.Base.{
  ℕ, ◌+◌, Bool, true, false, Option, none, some, List, [], ◌∷◌, ◌++◌, any, nat_eq, ltb, leb, ◌&&◌,
  ◌||◌, if◌then◌else◌,
}

abbrev pub Text : Type 0
Text = List ℕ

abbrev pub text_eq : Text → Text → Bool
text_eq [] [] = true
text_eq [] (d ∷ ds) = false
text_eq (c ∷ cs) [] = false
text_eq (c ∷ cs) (d ∷ ds) = nat_eq c d && text_eq cs ds

abbrev pub is_empty {ℓ} : {A : Type ℓ} → List A → Bool
is_empty [] = true
is_empty (a ∷ l) = false

-- len(value.encode("utf-8"))
unfoldable pub utf8_length : Text → ℕ
utf8_length [] = 0
utf8_length (c ∷ cs) =
    let rest = utf8_length cs in
    if ltb c 128
    then 1 + rest
    else if ltb c 2048
    then 2 + rest
    else if ltb c 65536
    then 3 + rest
    else 4 + rest

abbrev pub is_hex_digit : ℕ → Bool
is_hex_digit c = leb b'0' c && leb c b'9' || leb b'a' c && leb c b'f' || leb b'A' c && leb c b'F'

-- Two hex digits follow.
abbrev pub begins_hex : Text → Bool
begins_hex [] = false
begins_hex (a ∷ []) = false
begins_hex (a ∷ b ∷ rest) = is_hex_digit a && is_hex_digit b

unfoldable pub has_percent_triplet : Text → Bool
has_percent_triplet [] = false
has_percent_triplet (c ∷ cs) = nat_eq c b'%' && begins_hex cs || has_percent_triplet cs

abbrev pub slash : ℕ
slash = b'/'

abbrev pub has_slash : Text → Bool
has_slash = any (λ c. nat_eq c slash)

-- "/".join(segments)
unfoldable pub join : List Text → Text
join [] = []
join (s ∷ []) = s
join (s ∷ t ∷ ts) = s ++ (slash ∷ join (t ∷ ts))

-- text.split("/"), where `read` is what was read of the current segment.
unfoldable pub split_from : Text → Text → List Text
split_from read [] = read ∷ []
split_from read (c ∷ cs) =
    let here = split_from [] cs in
    let on = split_from (read ++ c ∷ []) cs in if nat_eq c slash then read ∷ here else on

abbrev pub split : Text → List Text
split = split_from []

-- The text after a prefix, where it begins with it.
unfoldable pub after_prefix : Text → Text → Option Text
after_prefix [] text = some text
after_prefix (p ∷ ps) [] = none
after_prefix (p ∷ ps) (c ∷ cs) = if nat_eq p c then after_prefix ps cs else none

-- text.partition(separator): the text before the first separator and the one after it, if there is one.
unfoldable pub partition : Text → Text → Option (Text × Text)
unfolding after_prefix
partition separator [] = none
partition separator (c ∷ cs) =
    let on = partition separator cs in
    elim (after_prefix separator (c ∷ cs)) [
      | some remainder ↦ some ([], remainder)
      | none ↦ elim on [ none ↦ none | some (label, remainder) ↦ some (c ∷ label, remainder) ]
    ]
