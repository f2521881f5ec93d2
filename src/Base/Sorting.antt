-- ===== src/Base/Sorting.antt =====
-- `sorted(rows, key=...)` by a text key: a stable sort.
use Prim.Native.String.{String}
use mathlib.Core.Path.{◌≡◌, refl, sym, ap, ap₂, ◌∙◌}
use mathlib.Core.Logic.{◌↔◌, ◌≢◌, inl, inr}
use mathlib.Core.Bool.{Bool, true, false}
use text.Mathlib.Text.{◌==◌}
use text.Mathlib.TextEquality.{eq_iff}
use mathlib.Core.List.{List, [], ◌∷◌, Memᴰ, Permᴰ}
use mathlib.Core.List.Memᴰ
use native.Mathlib.Omega.{arith}
use onboard_core.Base.Tests.{if◌then◌else◌, Bool-cases}
use onboard_core.Base.Lists.{filter, mem-filter}
use onboard_core.Base.Texts.{text_le, text_le_total, text_le_antisym, text_le_trans}

module _ {ℓ} {A : Type ℓ} (key : A → String) where
  -- An earlier row stays before a later one with the same key.
  unfoldable pub insert_by : A → List A → List A
  insert_by x [] = x ∷ []
  insert_by x (y ∷ ys) = if text_le (key x) (key y) then x ∷ y ∷ ys else y ∷ insert_by x ys

  unfoldable pub sort_by : List A → List A
  unfolding insert_by
  sort_by [] = []
  sort_by (x ∷ xs) = insert_by x (sort_by xs)

  pub insert_by_comm :
      (x y : A)
      → (key x ≡ key y → x ≡ y)
      → (l : List A) → insert_by x (insert_by y l) ≡ insert_by y (insert_by x l)
  unfolding insert_by
  insert_by_comm x y same [] = elim (Bool-cases (text_le (key x) (key y))) [
    | inl p ↦ elim (Bool-cases (text_le (key y) (key x))) [
      | inl q ↦ let e = same (text_le_antisym (key x) (key y) p q) in rw e
      | inr q ↦ rw (p, q)
    ]
    | inr p ↦ rw (p, text_le_total (key x) (key y) p)
  ]
  insert_by_comm x y same (z ∷ l) = ground (
    arith,
    insert_by_comm x y same l,
    same,
    text_le_antisym (key x) (key y),
    text_le_total (key x) (key y),
    text_le_total (key y) (key x),
    text_le_total (key x) (key z),
    text_le_total (key y) (key z),
    text_le_trans (key x) (key y) (key z),
    text_le_trans (key y) (key x) (key z),
  )

  pub mem-insert_by : {a : A} (x : A) (l : List A) → Memᴰ a (insert_by x l) → Memᴰ a (x ∷ l)
  unfolding insert_by
  mem-insert_by x [] m = m
  mem-insert_by x (y ∷ l) m = elim (Bool-cases (text_le (key x) (key y))) [
    | inl e ↦ rw e at m
    | inr e ↦ elim (Memᴰ.cases_cons (rw e at m)) [
      | inl here ↦ Memᴰ.tail (Memᴰ.head here)
      | inr later ↦ elim (Memᴰ.cases_cons (mem-insert_by x l later)) [
        | inl h ↦ Memᴰ.head h
        | inr t ↦ Memᴰ.tail (Memᴰ.tail t)
      ]
    ]
  ]

  pub insert_by-mem : {a : A} (x : A) (l : List A) → Memᴰ a (x ∷ l) → Memᴰ a (insert_by x l)
  unfolding insert_by
  insert_by-mem x [] m = m
  insert_by-mem x (y ∷ l) m = elim (Bool-cases (text_le (key x) (key y))) [
    | inl e ↦ rw e m
    | inr e ↦ rw e (elim (Memᴰ.cases_cons m) [
      | inl here ↦ Memᴰ.tail (insert_by-mem x l (Memᴰ.head here))
      | inr later ↦ elim (Memᴰ.cases_cons later) [
        | inl h ↦ Memᴰ.head h
        | inr t ↦ Memᴰ.tail (insert_by-mem x l (Memᴰ.tail t))
      ]
    ])
  ]

  -- Sorting neither drops nor invents a row.
  pub mem-sort_by : {a : A} (l : List A) → Memᴰ a (sort_by l) ↔ Memᴰ a l
  unfolding sort_by
  mem-sort_by [] = (λ m. m, λ m. m)
  mem-sort_by (x ∷ l) = (
    λ m. elim (Memᴰ.cases_cons (mem-insert_by x (sort_by l) m)) [
      | inl h ↦ Memᴰ.head h
      | inr t ↦ Memᴰ.tail ((mem-sort_by l).0 t)
    ],
    λ m. insert_by-mem x (sort_by l) (elim (Memᴰ.cases_cons m) [
      | inl h ↦ Memᴰ.head h
      | inr t ↦ Memᴰ.tail ((mem-sort_by l).1 t)
    ]),
  )

  perm-mem : {a : A} {l m : List A} → Permᴰ l m → Memᴰ a m → Memᴰ a l
  perm-mem Permᴰ.nil k = k
  perm-mem (Permᴰ.cons e p) k = elim (Memᴰ.cases_cons k) [
    | inl h ↦ Memᴰ.head (h ∙ sym e)
    | inr t ↦ Memᴰ.tail (perm-mem p t)
  ]
  perm-mem (Permᴰ.swap e f) k = elim (Memᴰ.cases_cons k) [
    | inl h ↦ Memᴰ.tail (Memᴰ.head (h ∙ sym f))
    | inr t ↦ elim (Memᴰ.cases_cons t) [
      | inl h ↦ Memᴰ.head (h ∙ sym e)
      | inr u ↦ Memᴰ.tail (Memᴰ.tail u)
    ]
  ]
  perm-mem (Permᴰ.trans p q) k = perm-mem p (perm-mem q k)

  -- No two rows of the list share a key.
  abbrev pub KeysDiffer : List A → Type ℓ
  KeysDiffer l = (a b : A) → Memᴰ a l → Memᴰ b l → key a ≡ key b → a ≡ b

  pub pair-KeysDiffer : (a b : A) → (key a == key b) ≡ false → KeysDiffer (a ∷ b ∷ [])
  pair-KeysDiffer a b apart c d mc md e =
      let other : key a ≢ key b =
        λ same. absurd (ground (arith, apart, (eq_iff (key a) (key b)).1 same)) in
      elim (Memᴰ.cases_cons mc) [
        | inl h ↦ elim (Memᴰ.cases_cons md) [
          | inl k ↦ h ∙ sym k
          | inr k ↦ absurd (other (sym (ap key h) ∙ e ∙ ap key (Memᴰ.eq_of_singleton k)))
        ]
        | inr h ↦ elim (Memᴰ.cases_cons md) [
          | inl k ↦ absurd (other (sym (ap key k) ∙ sym e ∙ ap key (Memᴰ.eq_of_singleton h)))
          | inr k ↦ Memᴰ.eq_of_singleton h ∙ sym (Memᴰ.eq_of_singleton k)
        ]
      ]

  -- The order in which the rows arrive does not matter.
  pub sort_by-perm : {l m : List A} → Permᴰ l m → KeysDiffer l → sort_by l ≡ sort_by m
  unfolding sort_by
  sort_by-perm Permᴰ.nil d = refl
  sort_by-perm (Permᴰ.cons {b = b} {l₁ = l} e p) d =
      ap (λ x. insert_by x (sort_by l)) e
      ∙ ap (insert_by b) (sort_by-perm p (λ x y mx my. d x y (Memᴰ.tail mx) (Memᴰ.tail my)))
  sort_by-perm (Permᴰ.swap {a = a} {b = b} {l = l} e f) d =
      insert_by_comm a b (d a b (Memᴰ.head refl) (Memᴰ.tail (Memᴰ.head refl))) (sort_by l)
      ∙ ap₂ (λ x y. insert_by x (insert_by y (sort_by l))) f e
  sort_by-perm (Permᴰ.trans p q) d =
      sort_by-perm p d ∙ sort_by-perm q (λ x y mx my. d x y (perm-mem p mx) (perm-mem p my))

  abbrev pub IsBelow : A → List A → Type ℓ
  IsBelow x l = (b : A) → Memᴰ b l → text_le (key x) (key b) ≡ true

  abbrev pub IsSorted : List A → Type ℓ
  IsSorted [] = Unit
  IsSorted (x ∷ l) = IsBelow x l × IsSorted l

  IsBelow-cons :
      (x y : A) (l : List A) → text_le (key x) (key y) ≡ true → IsBelow y l → IsBelow x (y ∷ l)
  IsBelow-cons x y l h k b m = elim (Memᴰ.cases_cons m) [
    | inl here ↦ rw here h
    | inr later ↦ text_le_trans (key x) (key y) (key b) h (k b later)
  ]

  insert_by-IsSorted : (x : A) (l : List A) → IsSorted l → IsSorted (insert_by x l)
  unfolding insert_by
  insert_by-IsSorted x [] s = (λ b m. elim m [ ], tt)
  insert_by-IsSorted x (y ∷ l) (low, s) = elim (Bool-cases (text_le (key x) (key y))) [
    | inl e ↦ rw e (IsBelow-cons x y l e low, (low, s))
    | inr e ↦ rw e (
      λ b m. elim (Memᴰ.cases_cons (mem-insert_by x l m)) [
        | inl here ↦ rw here (text_le_total (key x) (key y) e)
        | inr later ↦ low b later
      ],
      insert_by-IsSorted x l s,
    )
  ]

  pub sort_by-IsSorted : (l : List A) → IsSorted (sort_by l)
  unfolding sort_by
  sort_by-IsSorted [] = tt
  sort_by-IsSorted (x ∷ l) = insert_by-IsSorted x (sort_by l) (sort_by-IsSorted l)

  insert_by-IsBelow : (x : A) (l : List A) → IsBelow x l → insert_by x l ≡ x ∷ l
  unfolding insert_by
  insert_by-IsBelow x [] b = refl
  insert_by-IsBelow x (y ∷ l) b = rw (b y (Memᴰ.head refl))

  filter-insert_by :
      (p : A → Bool) (x : A) (l : List A)
      → IsSorted l
      → filter p (insert_by x l) ≡ (if p x then insert_by x (filter p l) else filter p l)
  unfolding insert_by
  filter-insert_by p x [] s = refl
  filter-insert_by p x (y ∷ l) (low, s) = elim (Bool-cases (text_le (key x) (key y))) [
    | inl e ↦ rw (
      e,
      insert_by-IsBelow x (filter p (y ∷ l))
          (λ b m. IsBelow-cons x y l e low b (mem-filter p (y ∷ l) m).0),
    )
    | inr e ↦ ground (arith, e, filter-insert_by p x l s)
  ]

  -- The rows that fail a test have no part in the order of those that pass it.
  pub filter-sort_by : (p : A → Bool) (l : List A) → filter p (sort_by l) ≡ sort_by (filter p l)
  unfolding sort_by
  filter-sort_by p [] = refl
  filter-sort_by p (x ∷ l) =
      ground (arith, filter-insert_by p x (sort_by l) (sort_by-IsSorted l), filter-sort_by p l)
