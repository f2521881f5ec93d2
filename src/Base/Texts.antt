-- ===== src/Base/Texts.antt =====
-- The order of texts by code points, which `sorted` uses on ids, reasons and uris.
use Prim.Native.Nat.{Ordering}
use Prim.Native.Nat.{compare as compare_ℕ}
use Prim.Native.Char.{Char, code}
use Prim.Native.String.compare
use Prim.Native.String.{String, compare, then}
use mathlib.Core.Path.{◌≡◌, refl}
use mathlib.Core.Bool.{Bool, true, false}
use native.Mathlib.Omega.{arith}
use text.Mathlib.TextEquality.{path_by_compare}
use text.Mathlib.TextPositions.{compare_refl}

-- a <= b
abbrev pub text_le : String → String → Bool
text_le a b = elim (compare a b) [ Ordering.gt ↦ false | _ ↦ true ]

-- The clauses of `compare` as equations.
nil-cons : (d : Char) (t : String) → compare String.[] (String.◌∷◌ d t) ≡ Ordering.lt
nil-cons d t = λ i. compare.nil-cons d t i

cons-nil : (c : Char) (s : String) → compare (String.◌∷◌ c s) String.[] ≡ Ordering.gt
cons-nil c s = λ i. compare.cons-nil c s i

cons-cons :
    (c d : Char) (s t : String)
    → compare (String.◌∷◌ c s) (String.◌∷◌ d t) ≡ then (compare_ℕ (code c) (code d)) (compare s t)
cons-cons c d s t = λ i. compare.cons-cons c d s t i

pub text_le_total : (s t : String) → text_le s t ≡ false → text_le t s ≡ true
text_le_total String.[] String.[] h = cc
text_le_total String.[] (String.◌∷◌ d t) h = ground (arith, nil-cons d t)
text_le_total (String.◌∷◌ c s) String.[] h = ground (arith, nil-cons c s)
text_le_total (String.◌∷◌ c s) (String.◌∷◌ d t) h =
    ground (arith, cons-cons c d s t, cons-cons d c t s, text_le_total s t)

pub text_le_antisym : (s t : String) → text_le s t ≡ true → text_le t s ≡ true → s ≡ t
text_le_antisym s t h k = path_by_compare s t (compare-eq s t h k)
  where
    compare-eq :
        (s t : String) → text_le s t ≡ true → text_le t s ≡ true → compare s t ≡ Ordering.eq
    compare-eq String.[] String.[] h k = refl
    compare-eq String.[] (String.◌∷◌ d t) h k = ground (arith, cons-nil d t)
    compare-eq (String.◌∷◌ c s) String.[] h k = ground (arith, cons-nil c s)
    compare-eq (String.◌∷◌ c s) (String.◌∷◌ d t) h k =
        ground (arith, cons-cons c d s t, cons-cons d c t s, compare-eq s t)

pub text_le_trans : (s t u : String) → text_le s t ≡ true → text_le t u ≡ true → text_le s u ≡ true
text_le_trans String.[] t String.[] h k = refl
text_le_trans String.[] t (String.◌∷◌ e u) h k = ground (arith, nil-cons e u)
text_le_trans (String.◌∷◌ c s) String.[] u h k = ground (arith, cons-nil c s)
text_le_trans (String.◌∷◌ c s) (String.◌∷◌ d t) String.[] h k = ground (arith, cons-nil d t)
text_le_trans (String.◌∷◌ c s) (String.◌∷◌ d t) (String.◌∷◌ e u) h k =
    ground (arith, cons-cons c d s t, cons-cons d e t u, cons-cons c e s u, text_le_trans s t u)

pub text_le_refl : (s : String) → text_le s s ≡ true
text_le_refl s = ground (arith, compare_refl s)
