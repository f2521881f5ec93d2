-- ===== src/Base/Lists.antt =====
-- Lists measured by the native numbers, and searched by Boolean tests.
use Prim.Native.Nat.{ℕ, zero, suc, ◌+◌, ◌≤◌}
use mathlib.Core.Path.{◌≡◌, refl, sym, ap, ◌∙◌}
use mathlib.Core.Logic.{inl, inr}
use mathlib.Core.Bool.{Bool, true, false, ◌&&◌, ◌||◌}
use mathlib.Core.Option.{Option, none, some}
use mathlib.Core.List.{List, [], ◌∷◌, ◌++◌, map, Memᴰ}
use mathlib.Core.List.Memᴰ
use native.Mathlib.Omega.{arith}
use onboard_core.Base.Tests.{if◌then◌else◌, Bool-cases}

module _ {ℓ} {A : Type ℓ} where
  abbrev pub length : List A → ℕ
  length [] = 0
  length (x ∷ xs) = suc (length xs)

  abbrev pub take : ℕ → List A → List A
  take zero xs = []
  take (suc n) [] = []
  take (suc n) (x ∷ xs) = x ∷ take n xs

  -- `[x for x in xs if p(x)]`
  abbrev pub filter : (A → Bool) → List A → List A
  filter p [] = []
  filter p (x ∷ xs) = if p x then x ∷ filter p xs else filter p xs

  -- `any(p(x) for x in xs)` and `all(p(x) for x in xs)`
  abbrev pub any : (A → Bool) → List A → Bool
  any p [] = false
  any p (x ∷ xs) = p x || any p xs

  abbrev pub all : (A → Bool) → List A → Bool
  all p [] = true
  all p (x ∷ xs) = p x && all p xs

  -- The first element that passes the test.
  abbrev pub find? : (A → Bool) → List A → Option A
  find? p [] = none
  find? p (x ∷ xs) = if p x then some x else find? p xs

  pub length-append : (xs ys : List A) → length (xs ++ ys) ≡ length xs + length ys
  length-append [] ys = omega arith
  length-append (x ∷ xs) ys = omega (arith, length-append xs ys)

  pub length-take-le : (n : ℕ) (xs : List A) → length (take n xs) ≤ n
  length-take-le zero xs = omega arith
  length-take-le (suc n) [] = omega arith
  length-take-le (suc n) (x ∷ xs) = omega (arith, length-take-le n xs)

  pub take_all : (n : ℕ) (xs : List A) → length xs ≤ n → take n xs ≡ xs
  take_all zero [] h = refl
  take_all zero (x ∷ xs) h = elim h [ ]
  take_all (suc n) [] h = refl
  take_all (suc n) (x ∷ xs) h = ap (λ t. x ∷ t) (take_all n xs (omega arith))

module _ {ℓ κ} {A : Type ℓ} {B : Type κ} (f : A → B) where
  pub length-map : (xs : List A) → length (map f xs) ≡ length xs
  length-map [] = refl
  length-map (x ∷ xs) = ap suc (length-map xs)

module _ {ℓ} {A : Type ℓ} (p : A → Bool) where
  -- A test that fails at every element fails for the list, and the other way round.
  pub any-mem : (xs : List A) → any p xs ≡ true → (a : A) × Memᴰ a xs × (p a ≡ true)
  any-mem [] h = cc
  any-mem (x ∷ xs) h = elim (Bool-cases (p x)) [
    | inl e ↦ (x, Memᴰ.head refl, e)
    | inr e ↦ let (a, m, pa) = any-mem xs (ground arith) in (a, Memᴰ.tail m, pa)
  ]

  pub mem-any : (xs : List A) (a : A) → Memᴰ a xs → p a ≡ true → any p xs ≡ true
  mem-any [] a m h = elim m [ ]
  mem-any (x ∷ xs) a (Memᴰ.head e) h = ground (arith, ap p e)
  mem-any (x ∷ xs) a (Memᴰ.tail m) h = ground (arith, mem-any xs a m h)

  pub all-mem : (xs : List A) → all p xs ≡ true → (a : A) → Memᴰ a xs → p a ≡ true
  all-mem [] h a m = elim m [ ]
  all-mem (x ∷ xs) h a (Memᴰ.head e) = ground (arith, ap p e)
  all-mem (x ∷ xs) h a (Memᴰ.tail m) = all-mem xs (ground arith) a m

  pub mem-all : (xs : List A) → ((a : A) → Memᴰ a xs → p a ≡ true) → all p xs ≡ true
  mem-all [] h = refl
  mem-all (x ∷ xs) h =
      let here = h x (Memᴰ.head refl) in
      let rest = mem-all xs (λ a m. h a (Memᴰ.tail m)) in ground (arith, here, rest)

  pub find?-none : (xs : List A) → find? p xs ≡ none → (a : A) → Memᴰ a xs → p a ≡ false
  find?-none [] h a m = elim m [ ]
  find?-none (x ∷ xs) h a (Memᴰ.head e) = ground (arith, ap p e)
  find?-none (x ∷ xs) h a (Memᴰ.tail m) = find?-none xs (ground arith) a m

  pub find?-some : (xs : List A) {a : A} → find? p xs ≡ some a → Memᴰ a xs × (p a ≡ true)
  find?-some [] h = cc
  find?-some (x ∷ xs) {a} h = elim (Bool-cases (p x)) [
    | inl e ↦ (Memᴰ.head (ground arith), ground arith)
    | inr e ↦ let (m, pa) = find?-some xs {a = a} (ground arith) in (Memᴰ.tail m, pa)
  ]

  pub mem-filter : {a : A} (xs : List A) → Memᴰ a (filter p xs) → Memᴰ a xs × (p a ≡ true)
  mem-filter [] m = elim m [ ]
  mem-filter {a} (x ∷ xs) m = elim (Bool-cases (p x)) [
    | inl e ↦ elim (Memᴰ.cases_cons (rw e at m)) [
      | inl here ↦ (Memᴰ.head here, ap p here ∙ e)
      | inr later ↦ let (k, h) = mem-filter xs later in (Memᴰ.tail k, h)
    ]
    | inr e ↦ let (k, h) = mem-filter xs (rw e at m) in (Memᴰ.tail k, h)
  ]

  pub filter-mem : {a : A} (xs : List A) → Memᴰ a xs → p a ≡ true → Memᴰ a (filter p xs)
  filter-mem [] m h = elim m [ ]
  filter-mem (x ∷ xs) (Memᴰ.head e) h = rw (sym (ap p e) ∙ h) (Memᴰ.head e)
  filter-mem (x ∷ xs) (Memᴰ.tail m) h = elim (Bool-cases (p x)) [
    | inl e ↦ rw e (Memᴰ.tail (filter-mem xs m h))
    | inr e ↦ rw e (filter-mem xs m h)
  ]

  -- A test that fails for the list fails at an element.
  pub all-false : (xs : List A) → all p xs ≡ false → (a : A) × Memᴰ a xs × (p a ≡ false)
  all-false [] h = cc
  all-false (x ∷ xs) h = elim (Bool-cases (p x)) [
    | inl e ↦ let (a, m, pa) = all-false xs (ground arith) in (a, Memᴰ.tail m, pa)
    | inr e ↦ (x, Memᴰ.head refl, e)
  ]

pub filter-snoc {ℓ} :
    {A : Type ℓ} (p : A → Bool) (l : List A) (a : A)
    → p a ≡ true
    → filter p (l ++ a ∷ []) ≡ filter p l ++ a ∷ []
filter-snoc p [] a e = ground (arith, e)
filter-snoc p (b ∷ l) a e = ground (arith, filter-snoc p l a e)

pub filter-snoc-out {ℓ} :
    {A : Type ℓ} (p : A → Bool) (l : List A) (a : A)
    → p a ≡ false
    → filter p (l ++ a ∷ []) ≡ filter p l
filter-snoc-out p [] a e = ground (arith, e)
filter-snoc-out p (b ∷ l) a e = ground (arith, filter-snoc-out p l a e)
