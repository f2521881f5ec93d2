-- ===== src/Scope/Segments.antt =====
-- packages/adopt-scope/src/adopt_scope/resolve.py: the segments of a path, and the path that is
-- parsed from them.
use Prim.Native.Char.{Char, code}
use Prim.Native.String.{◌++◌ as append_text}
use Prim.Native.String.append
use text.Mathlib.TextEquality.{Char-path}
use mathlib.Core.List.{map}
use onboard_core.Base.{
  Bool-cases, inl, inr, ◌||◌, any, ltb, length, String, Bool, true, false, ◌≡◌, refl, sym, ap, ◌∙◌,
  List, [], ◌∷◌, arith, nat_eq_iff,
}
use onboard_core.Obs.{ok}
use onboard_core.Scope.Hierarchy.{ScopePath}
use onboard_core.Scope.Paths.{
  of_segments, is_blank, is_separator, strip_left, strip_right, strip, grow, split, join, segments,
  padded, parse, levels, levels_until, path_separator,
}

join-grow : (c : Char) (l : List String) → join (grow c l) ≡ String.◌∷◌ c (join l)
unfolding join grow
join-grow c [] = refl
join-grow c (s ∷ []) = refl
join-grow c (s ∷ t ∷ l) = append.cons c s (append_text path_separator (join (t ∷ l)))

is_nil : List String → Bool
is_nil [] = true
is_nil (s ∷ l) = false

grow-filled : (c : Char) (l : List String) → is_nil (grow c l) ≡ false
unfolding grow is_nil
grow-filled c [] = refl
grow-filled c (s ∷ l) = refl

split-filled : (s : String) → is_nil (split s) ≡ false
unfolding split is_nil
split-filled String.[] = refl
split-filled (String.◌∷◌ c s) = ground (arith, split-filled s, grow-filled c (split s))

join-separator :
    (c : Char) (l : List String)
    → is_separator c ≡ true
    → is_nil l ≡ false
    → join (String.[] ∷ l) ≡ String.◌∷◌ c (join l)
unfolding join is_nil
join-separator c [] e filled = cc
join-separator c (s ∷ l) e filled =
    append.nil (append_text path_separator (join (s ∷ l)))
    ∙ append.cons "/" String.[] (join (s ∷ l))
    ∙ ap (λ d. String.◌∷◌ d (append_text String.[] (join (s ∷ l))))
        (Char-path "/" c (sym ((nat_eq_iff (code c) b'/').0 e)))
    ∙ ap (String.◌∷◌ c) (append.nil (join (s ∷ l)))

join-split : (s : String) → join (split s) ≡ s
unfolding split join
join-split String.[] = refl
join-split (String.◌∷◌ c s) =
    ground (arith, join-split s, join-grow c (split s), join-separator c (split s), split-filled s)

strip_right-twice : (s : String) → strip_right (strip_right s) ≡ strip_right s
unfolding strip_right
strip_right-twice String.[] = refl
strip_right-twice (String.◌∷◌ c s) = ground (arith, strip_right-twice s)

-- What `strip_left` leaves.
strip_left-strip_right :
    (s : String) → strip_left (strip_right (strip_left s)) ≡ strip_right (strip_left s)
unfolding strip_left strip_right
strip_left-strip_right String.[] = refl
strip_left-strip_right (String.◌∷◌ c s) = ground (arith, strip_left-strip_right s)

strip-twice : (s : String) → strip (strip s) ≡ strip s
unfolding strip
strip-twice s = ap strip_right (strip_left-strip_right s) ∙ strip_right-twice (strip_left s)

-- A level that is asked for is answered by a row with that slug.
unfoldable pub requested : ScopePath → List String
requested p = map (λ l. l.1) (levels p)

padded-requested :
    (f : String) (l : List String)
    → ltb 4 (length (f ∷ l)) ≡ false
    → requested (record {
      firm = f;
      engagement = padded 1 (f ∷ l);
      system = padded 2 (f ∷ l);
      environment = padded 3 (f ∷ l);
    })
      ≡ f ∷ l
unfolding requested levels levels_until padded
padded-requested f [] few = refl
padded-requested f (a ∷ []) few = refl
padded-requested f (a ∷ b ∷ []) few = refl
padded-requested f (a ∷ b ∷ c ∷ []) few = refl
padded-requested f (a ∷ b ∷ c ∷ d ∷ l) few = ground (arith, few)

pub ok-inj : {A : Type 0} {a b : A} → ok a ≡ ok b → a ≡ b
ok-inj e = cc

pub of_segments-requested :
    (l : List String) (p : ScopePath) → of_segments l ≡ ok p → requested p ≡ l
unfolding of_segments
of_segments-requested [] p e = cc
of_segments-requested (f ∷ l) p e =
    elim (Bool-cases (ltb 4 (length (f ∷ l)) || any is_blank (f ∷ l))) [
      | inl bad ↦ ground (arith, e, bad)
      | inr good ↦
          ap requested (sym (ok-inj (ground (arith, e, good))))
          ∙ padded-requested f l (ground (arith, good))
    ]

is_blank-empty : (s : String) → is_blank s ≡ true → s ≡ String.[]
is_blank-empty String.[] e = refl
is_blank-empty (String.◌∷◌ c s) e = cc

pub segments-join : (text : String) → join (segments text) ≡ strip text
unfolding segments join
segments-join text = elim (Bool-cases (is_blank (strip text))) [
  | inl e ↦ rw e (sym (is_blank-empty (strip text) e))
  | inr e ↦ rw e (join-split (strip text))
]

segments-twice : (text : String) → segments (strip text) ≡ segments text
unfolding segments
segments-twice text = rw (strip-twice text) refl

pub parse-strip : (text : String) → parse (strip text) ≡ parse text
unfolding parse
parse-strip text = ap of_segments (segments-twice text)

pub parsed_segments :
    (text : String) (p : ScopePath) → parse text ≡ ok p → of_segments (segments text) ≡ ok p
unfolding parse
parsed_segments text p e = e
