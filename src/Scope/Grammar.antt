-- ===== src/Scope/Grammar.antt =====
-- packages/adopt-scope/src/adopt_scope/resolve.py: which texts are scope paths.
use Prim.Native.Char.{Char}
use Prim.Native.String.{◌++◌ as append_text}
use Prim.Native.String.append
use onboard_core.Base.{
  map, String, Bool, true, false, ◌≡◌, ◌↔◌, refl, sym, ap, ◌∙◌, Option, none, some, List, [], ◌∷◌,
  arith, ◌&&◌, ◌||◌, not, all, any, ltb, length, Bool-cases, inl, inr,
}
use onboard_core.Obs.{ok}
use onboard_core.Scope.Hierarchy.{ScopePath}
use onboard_core.Scope.Paths.{
  ScopeLevel, is_separator, is_blank, grow, split, join, strip, segments, padded, of_segments,
  parse, levels, levels_until, path_separator,
}
use onboard_core.Scope.Segments.{
  requested, of_segments-requested, segments-join, parsed_segments, ok-inj,
}

abbrev has_separator : String → Bool
has_separator String.[] = false
has_separator (String.◌∷◌ c s) = is_separator c || has_separator s

-- A text that may stand between two separators.
abbrev is_segment : String → Bool
is_segment s = not (is_blank s) && not (has_separator s)

abbrev all_absent : List (Option String) → Bool
all_absent [] = true
all_absent (none ∷ l) = all_absent l
all_absent (some s ∷ l) = false

-- No value after one that is absent.
abbrev is_contiguous : List (Option String) → Bool
is_contiguous [] = true
is_contiguous (none ∷ l) = all_absent l
is_contiguous (some s ∷ l) = is_contiguous l

-- One to four segments, outermost first and without a gap, that are written in the text.
pub record IsPathOf (text : String) (p : ScopePath) : Type 0 where
  pub contiguous : is_contiguous (p.engagement ∷ p.system ∷ p.environment ∷ []) ≡ true
  pub filled : all is_segment (requested p) ≡ true
  pub written : join (requested p) ≡ strip text

grow-plain :
    (c : Char) (l : List String)
    → is_separator c ≡ false
    → all (λ s. not (has_separator s)) l ≡ true
    → all (λ s. not (has_separator s)) (grow c l) ≡ true
unfolding grow
grow-plain c [] e h = ground (arith, e)
grow-plain c (s ∷ l) e h = ground (arith, e, h)

split-plain : (s : String) → all (λ t. not (has_separator t)) (split s) ≡ true
unfolding split
split-plain String.[] = refl
split-plain (String.◌∷◌ c s) = elim (Bool-cases (is_separator c)) [
  | inl e ↦ ground (arith, e, split-plain s)
  | inr e ↦ ground (arith, e, grow-plain c (split s) e (split-plain s))
]

split-last : (s : String) → has_separator s ≡ false → split s ≡ s ∷ []
unfolding split grow
split-last String.[] e = refl
split-last (String.◌∷◌ c s) e = ground (arith, e, split-last s)

split-append :
    (s t : String)
    → has_separator s ≡ false
    → split (append_text s (append_text path_separator t)) ≡ s ∷ split t
unfolding split grow
split-append String.[] t e = ap split (
    append.nil (append_text path_separator t)
    ∙ append.cons "/" String.[] t
    ∙ ap (String.◌∷◌ "/") (append.nil t))
split-append (String.◌∷◌ c s) t e =
    ap split (append.cons c s (append_text path_separator t)) ∙ ground (arith, e, split-append s t)

split-join :
    (s : String) (l : List String) → all is_segment (s ∷ l) ≡ true → split (join (s ∷ l)) ≡ s ∷ l
unfolding join
split-join s [] e = split-last s (ground (arith, e))
split-join s (t ∷ l) e =
    split-append s (join (t ∷ l)) (ground (arith, e))
    ∙ ap (λ r. s ∷ r) (split-join t l (ground (arith, e)))

is_blank-join :
    (s : String) (l : List String) → is_blank s ≡ false → is_blank (join (s ∷ l)) ≡ false
unfolding join
is_blank-join s [] e = e
is_blank-join String.[] (t ∷ l) e = cc
is_blank-join (String.◌∷◌ c s) (t ∷ l) e =
    ap is_blank (append.cons c s (append_text path_separator (join (t ∷ l))))

segments-plain : (text : String) → all (λ s. not (has_separator s)) (segments text) ≡ true
unfolding segments
segments-plain text = elim (Bool-cases (is_blank (strip text))) [
  | inl e ↦ rw e refl
  | inr e ↦ rw e (split-plain (strip text))
]

segments-written :
    (text s : String) (l : List String)
    → all is_segment (s ∷ l) ≡ true
    → join (s ∷ l) ≡ strip text
    → segments text ≡ s ∷ l
unfolding segments
segments-written text s l h e = rw (sym e, is_blank-join s l (ground (arith, h))) (split-join s l h)

all-segment :
    (l : List String)
    → any is_blank l ≡ false
    → all (λ s. not (has_separator s)) l ≡ true
    → all is_segment l ≡ true
all-segment [] e h = refl
all-segment (s ∷ l) e h = ground (arith, e, h, all-segment l)

of_segments-filled :
    (l : List String) (p : ScopePath)
    → of_segments l ≡ ok p
    → all (λ s. not (has_separator s)) l ≡ true
    → all is_segment l ≡ true
unfolding of_segments
of_segments-filled [] p e plain = refl
of_segments-filled (f ∷ l) p e plain =
    elim (Bool-cases (ltb 4 (length (f ∷ l)) || any is_blank (f ∷ l))) [
      | inl bad ↦ ground (arith, e, bad)
      | inr good ↦ all-segment (f ∷ l) (ground (arith, good)) plain
    ]

padded-contiguous :
    (f : String) (l : List String)
    → is_contiguous (padded 1 (f ∷ l) ∷ padded 2 (f ∷ l) ∷ padded 3 (f ∷ l) ∷ []) ≡ true
unfolding padded
padded-contiguous f [] = refl
padded-contiguous f (a ∷ []) = refl
padded-contiguous f (a ∷ b ∷ []) = refl
padded-contiguous f (a ∷ b ∷ c ∷ l) = refl

of_segments-contiguous :
    (l : List String) (p : ScopePath)
    → of_segments l ≡ ok p
    → is_contiguous (p.engagement ∷ p.system ∷ p.environment ∷ []) ≡ true
unfolding of_segments
of_segments-contiguous [] p e = cc
of_segments-contiguous (f ∷ l) p e =
    elim (Bool-cases (ltb 4 (length (f ∷ l)) || any is_blank (f ∷ l))) [
      | inl bad ↦ ground (arith, e, bad)
      | inr good ↦
          let made : record {
            firm = f;
            engagement = padded 1 (f ∷ l);
            system = padded 2 (f ∷ l);
            environment = padded 3 (f ∷ l);
          }
              ≡ p =
            ok-inj (ground (arith, e, good)) in
          ap (λ (q : ScopePath). is_contiguous (q.engagement ∷ q.system ∷ q.environment ∷ []))
            (sym made)
          ∙ padded-contiguous f l
    ]

requested-of_segments :
    (f : String) (e s n : Option String)
    → is_contiguous (e ∷ s ∷ n ∷ []) ≡ true
    → all is_segment (requested (record { firm = f; engagement = e; system = s; environment = n }))
      ≡ true
    → of_segments (requested (record { firm = f; engagement = e; system = s; environment = n }))
      ≡ ok (record { firm = f; engagement = e; system = s; environment = n })
unfolding of_segments requested levels levels_until padded
requested-of_segments f none none none c h = ground (arith, h)
requested-of_segments f none none (some n) c h = cc
requested-of_segments f none (some s) n c h = cc
requested-of_segments f (some e) none none c h = ground (arith, h)
requested-of_segments f (some e) none (some n) c h = cc
requested-of_segments f (some e) (some s) none c h = ground (arith, h)
requested-of_segments f (some e) (some s) (some n) c h = ground (arith, h)

parse-IsPathOf : (text : String) (p : ScopePath) → parse text ≡ ok p → IsPathOf text p
parse-IsPathOf text p e =
    let taken = parsed_segments text p e in
    let same = of_segments-requested (segments text) p taken in
    record {
      contiguous = of_segments-contiguous (segments text) p taken;
      filled =
          ap (all is_segment) same
          ∙ of_segments-filled (segments text) p taken (segments-plain text);
      written = ap join same ∙ segments-join text;
    }

IsPathOf-parse : (text : String) (p : ScopePath) → IsPathOf text p → parse text ≡ ok p
unfolding parse requested levels levels_until
IsPathOf-parse text p u =
    ap of_segments (
      segments-written text p.firm
        (map (λ l. l.1)
          (levels_until (ScopeLevel.engagement ∷ ScopeLevel.system ∷ ScopeLevel.environment ∷ [])
            (p.engagement ∷ p.system ∷ p.environment ∷ [])))
        u.filled u.written)
    ∙ requested-of_segments p.firm p.engagement p.system p.environment u.contiguous u.filled

-- A text parses to a scope path exactly when the path has no level below one that is absent, every
-- segment of it is filled and has no separator inside, and the segments joined by separators are
-- the text without the white space around it.
pub parse_iff : (text : String) (p : ScopePath) → (parse text ≡ ok p) ↔ IsPathOf text p
parse_iff text p = (parse-IsPathOf text p, IsPathOf-parse text p)
