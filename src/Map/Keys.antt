-- ===== src/Map/Keys.antt =====
-- packages/adopt-map/src/adopt_map/moves.py: the pair keys, and the rows that stand under them.
use mathlib.Core.List.Memᴰ
use onboard_core.Base.{
  String, true, ◌≡◌, ◌↔◌, refl, sym, ap, ap₂, ◌∙◌, Option, none, some, List, [], ◌∷◌, filter, any,
  Memᴰ, any-mem, mem-filter, filter-mem, arith, eq_iff, Bool-cases, inl, inr, subst,
}
use onboard_core.Obs.{Answer, answered, Answer-cases}
use onboard_core.Identity.Segments.{text_eq_iff}
use onboard_core.Map.Moves.{
  PairKey, same_extractor, key_eq, key_le, insert_key, sorted_keys, keyed, under,
}

same_extractor_iff : (a b : Option String) → (same_extractor a b ≡ true) ↔ (a ≡ b)
same_extractor_iff none none = ground arith
same_extractor_iff none (some b) = ground arith
same_extractor_iff (some a) none = ground arith
same_extractor_iff (some a) (some b) = ground (arith, eq_iff a b)

pub key_eq_iff : (a b : PairKey) → (key_eq a b ≡ true) ↔ (a ≡ b)
key_eq_iff a b = ground (
  arith,
  eq_iff a.digest b.digest,
  text_eq_iff a.kind b.kind,
  same_extractor_iff a.extractor b.extractor,
)

pub key_eq_refl : (a : PairKey) → key_eq a a ≡ true
key_eq_refl a = (key_eq_iff a a).1 refl

insert_key-mem :
    {q : PairKey} (k : PairKey) (l : List PairKey) → Memᴰ q (k ∷ l) → Memᴰ q (insert_key k l)
unfolding insert_key
insert_key-mem k [] m = m
insert_key-mem k (j ∷ l) m = elim (Bool-cases (key_le k j)) [
  | inl e ↦ rw e m
  | inr e ↦ rw e (elim (Memᴰ.cases_cons m) [
    | inl here ↦ Memᴰ.tail (insert_key-mem k l (Memᴰ.head here))
    | inr later ↦ elim (Memᴰ.cases_cons later) [
      | inl here ↦ Memᴰ.head here
      | inr rest ↦ Memᴰ.tail (insert_key-mem k l (Memᴰ.tail rest))
    ]
  ])
]

-- Every key of a row is among the sorted ones.
pub mem-sorted_keys : {q : PairKey} (l : List PairKey) → Memᴰ q l → Memᴰ q (sorted_keys l)
unfolding sorted_keys
mem-sorted_keys [] m = m
mem-sorted_keys {q} (k ∷ l) m = elim (Bool-cases (any (key_eq k) (sorted_keys l))) [
  | inl there ↦ rw there (elim (Memᴰ.cases_cons m) [
    | inl here ↦
        let (j, mj, same) = any-mem (key_eq k) (sorted_keys l) there in
        subst (λ t. Memᴰ t (sorted_keys l)) (sym ((key_eq_iff k j).0 same) ∙ sym here) mj
    | inr later ↦ mem-sorted_keys l later
  ])
  | inr new ↦ rw new (
      insert_key-mem k (sorted_keys l) (elim (Memᴰ.cases_cons m) [
        | inl here ↦ Memᴰ.head here
        | inr later ↦ Memᴰ.tail (mem-sorted_keys l later)
      ]))
]

module _ {ℓ} {A : Type ℓ} where
  keyed-cons :
      (key : A → Answer PairKey) (b : A) (l : List A) (rows : List (PairKey × A))
      → keyed key (b ∷ l) ≡ answered rows
      → (k : PairKey) × (rest : List (PairKey × A)) × (key b ≡ answered k)
        × (keyed key l ≡ answered rest)
        × (rows ≡ (k, b) ∷ rest)
  unfolding keyed
  keyed-cons key b l rows e = elim (Answer-cases (key b)) [
    | inr other ↦ elim other [
      | inl (c, bad) ↦ absurd (ground (arith, bad, e))
      | inr bad ↦ absurd (ground (arith, bad, e))
    ]
    | inl (k, found) ↦ elim (Answer-cases (keyed key l)) [
      | inr other ↦ elim other [
        | inl (c, bad) ↦ absurd (ground (arith, found, bad, e))
        | inr bad ↦ absurd (ground (arith, found, bad, e))
      ]
      | inl (rest, made) ↦ (k, rest, found, made, ground (arith, found, made, e))
    ]
  ]

  -- A keyed row is a row with its key, and every row is keyed.
  pub keyed-mem :
      (key : A → Answer PairKey) (l : List A) (rows : List (PairKey × A)) {k : PairKey} {a : A}
      → keyed key l ≡ answered rows
      → Memᴰ (k, a) rows
      → Memᴰ a l × (key a ≡ answered k)
  unfolding keyed
  keyed-mem key [] rows {k} {a} e m =
      let none_there : rows ≡ [] = ground (arith, e) in
      elim (subst (λ (t : List (PairKey × A)). Memᴰ (k, a) t) none_there m) [ ]
  keyed-mem key (b ∷ l) rows {k} {a} e m =
      let (j, rest, found, made, cut) = keyed-cons key b l rows e in
      elim (Memᴰ.cases_cons (subst (λ (t : List (PairKey × A)). Memᴰ (k, a) t) cut m)) [
        | inl here ↦ (
          Memᴰ.head (ap (λ r. r.1) here),
          ap key (ap (λ r. r.1) here) ∙ found ∙ ap answered (sym (ap (λ r. r.0) here)),
        )
        | inr later ↦ let (there, same) = keyed-mem key l rest made later in (Memᴰ.tail there, same)
      ]

  pub mem-keyed :
      (key : A → Answer PairKey) (l : List A) (rows : List (PairKey × A)) {a : A}
      → keyed key l ≡ answered rows
      → Memᴰ a l
      → (k : PairKey) × Memᴰ (k, a) rows × (key a ≡ answered k)
  unfolding keyed
  mem-keyed key [] rows e m = elim m [ ]
  mem-keyed key (b ∷ l) rows {a} e m =
      let (j, rest, found, made, cut) = keyed-cons key b l rows e in
      elim (Memᴰ.cases_cons m) [
        | inl here ↦ (
          j,
          subst (λ (t : List (PairKey × A)). Memᴰ (j, a) t) (sym cut)
              (Memᴰ.head (ap (λ (t : A). (j, t)) here)),
          ap key here ∙ found,
        )
        | inr later ↦
            let (k, there, same) = mem-keyed key l rest made later in
            (k, subst (λ (t : List (PairKey × A)). Memᴰ (k, a) t) (sym cut) (Memᴰ.tail there), same)
      ]

  pub under-mem :
      {k : PairKey} {a : A} (rows : List (PairKey × A)) → Memᴰ (k, a) rows → Memᴰ a (under k rows)
  under-mem {k} {a} rows m =
      Memᴰ.map (λ row. row.1) (filter-mem (λ row. key_eq k row.0) rows m (key_eq_refl k))

  pub mem-under :
      {k : PairKey} {a : A} (rows : List (PairKey × A)) → Memᴰ a (under k rows) → Memᴰ (k, a) rows
  mem-under {k} {a} rows m =
      let (row, there, made) = Memᴰ.of_map (λ row. row.1) (filter (λ row. key_eq k row.0) rows) m in
      let (kept, same) = mem-filter (λ row. key_eq k row.0) rows there in
      subst (λ (t : PairKey × A). Memᴰ t rows)
        (ap₂ (λ (s : PairKey) (t : A). (s, t)) (sym ((key_eq_iff k row.0).0 same)) made) kept
