-- ===== src/Probe/Found.antt =====
-- packages/adopt-probe/src/adopt_probe/conflict.py: the dictionary `found`, by the ids of a
-- pair.
use mathlib.Core.List.Memᴰ
use onboard_core.Base.{
  Bool, true, false, ◌≡◌, ◌⊎◌, ◌↔◌, refl, sym, ap₂, ◌∙◌, subst, List, [], ◌∷◌, Memᴰ, any, mem-any,
  arith, ◌||◌, eq_iff, Bool-cases, inl, inr,
}
use onboard_core.Probe.Conflicts.{ConflictIntent, same_pair, set_found, found_from}

pub same_pair_iff :
    (a b : ConflictIntent)
    → (same_pair a b ≡ true)
      ↔ ((a.identity_id ≡ b.identity_id) × (a.intent_revision_id ≡ b.intent_revision_id))
same_pair_iff a b =
    ground
      (arith, eq_iff a.identity_id b.identity_id, eq_iff a.intent_revision_id b.intent_revision_id)

-- Every pair of ids stands once.
unfoldable pub Apart : List ConflictIntent → Type 0
Apart [] = Unit
Apart (c ∷ cs) = (any (same_pair c) cs ≡ false) × Apart cs

same_pair-agree : (a b c : ConflictIntent) → same_pair b c ≡ true → same_pair a b ≡ same_pair a c
same_pair-agree a b c e = ground (arith, same_pair_iff b c, e, same_pair_iff a b, same_pair_iff a c)

any-set_found :
    (a c : ConflictIntent) (l : List ConflictIntent)
    → any (same_pair a) l ≡ false
    → same_pair a c ≡ false
    → any (same_pair a) (set_found c l) ≡ false
unfolding set_found
any-set_found a c [] e f = ground (arith, f)
any-set_found a c (d ∷ l) e f = ground (arith, e, f, any-set_found a c l)

same_pair-left : (a b c : ConflictIntent) → same_pair a b ≡ true → same_pair a c ≡ same_pair b c
same_pair-left a b c e = ground (arith, same_pair_iff a b, e, same_pair_iff a c, same_pair_iff b c)

any-left :
    (a b : ConflictIntent) (l : List ConflictIntent)
    → same_pair a b ≡ true
    → any (same_pair a) l ≡ any (same_pair b) l
any-left a b [] e = refl
any-left a b (c ∷ l) e = ap₂ ◌||◌ (same_pair-left a b c e) (any-left a b l e)

set_found-Apart : (c : ConflictIntent) (l : List ConflictIntent) → Apart l → Apart (set_found c l)
unfolding Apart set_found
set_found-Apart c [] s = (refl, tt)
set_found-Apart c (d ∷ l) (e, s) = elim (Bool-cases (same_pair d c)) [
  | inl same ↦ rw same (sym (any-left d c l same) ∙ e, s)
  | inr other ↦ rw other (any-set_found d c l e other, set_found-Apart c l s)
]

pub found_from-Apart : (found l : List ConflictIntent) → Apart found → Apart (found_from found l)
unfolding found_from
found_from-Apart found [] s = s
found_from-Apart found (c ∷ l) s =
    found_from-Apart (set_found c found) l (set_found-Apart c found s)

-- Rows that stand apart and share their ids are one row.
pub Apart-one :
    (l : List ConflictIntent) (a b : ConflictIntent)
    → Apart l
    → Memᴰ a l
    → Memᴰ b l
    → same_pair a b ≡ true
    → a ≡ b
unfolding Apart
Apart-one [] a b s ma mb e = elim ma [ ]
Apart-one (c ∷ l) a b (out, s) ma mb e = elim (Memᴰ.cases_cons ma) [
  | inl ha ↦ elim (Memᴰ.cases_cons mb) [
    | inl hb ↦ ha ∙ sym hb
    | inr tb ↦
        let hit = mem-any (same_pair c) l b tb (subst (λ t. same_pair t b ≡ true) ha e) in
        absurd (ground (arith, out, hit))
  ]
  | inr ta ↦ elim (Memᴰ.cases_cons mb) [
    | inl hb ↦
        let turned : same_pair b a ≡ true =
          ground (arith, e, same_pair_iff a b, same_pair_iff b a) in
        let hit = mem-any (same_pair c) l a ta (subst (λ t. same_pair t a ≡ true) hb turned) in
        absurd (ground (arith, out, hit))
    | inr tb ↦ Apart-one l a b s ta tb e
  ]
]

mem-set_found :
    {q : ConflictIntent} (c : ConflictIntent) (l : List ConflictIntent)
    → Memᴰ q (set_found c l)
    → Memᴰ q (c ∷ l)
unfolding set_found
mem-set_found c [] m = m
mem-set_found c (d ∷ l) m = elim (Bool-cases (same_pair d c)) [
  | inl same ↦ elim (Memᴰ.cases_cons (rw same at m)) [
    | inl here ↦ Memᴰ.head here
    | inr later ↦ Memᴰ.tail (Memᴰ.tail later)
  ]
  | inr other ↦ elim (Memᴰ.cases_cons (rw other at m)) [
    | inl here ↦ Memᴰ.tail (Memᴰ.head here)
    | inr later ↦ elim (Memᴰ.cases_cons (mem-set_found c l later)) [
      | inl h ↦ Memᴰ.head h
      | inr t ↦ Memᴰ.tail (Memᴰ.tail t)
    ]
  ]
]

-- A pair of ids that was set stays, whatever is set later.
abbrev Has : List ConflictIntent → ConflictIntent → Type 0
Has l q = any (same_pair q) l ≡ true

or_same : (x y z : Bool) → y ≡ x → (x || (y || z)) ≡ true → (x || z) ≡ true
or_same x y z e h = ground (arith, e, h)

or_next : (x y z w : Bool) → ((x || z) ≡ true → w ≡ true) → (x || (y || z)) ≡ true → (y || w) ≡ true
or_next x y z w on h = ground (arith, on, h)

set_found-Has :
    (q c : ConflictIntent) (l : List ConflictIntent)
    → (same_pair q c || any (same_pair q) l) ≡ true
    → Has (set_found c l) q
unfolding set_found
set_found-Has q c [] h = h
set_found-Has q c (d ∷ l) h =
    let x = same_pair q c in
    let y = same_pair q d in
    let z = any (same_pair q) l in
    elim (Bool-cases (same_pair d c)) [
      | inl same ↦ rw same (or_same x y z (same_pair-agree q d c same) h)
      | inr other ↦
          rw other (or_next x y z (any (same_pair q) (set_found c l)) (set_found-Has q c l) h)
    ]

pub found_from-Has :
    (q : ConflictIntent) (found l : List ConflictIntent)
    → (any (same_pair q) found ≡ true) ⊎ (any (same_pair q) l ≡ true)
    → Has (found_from found l) q
unfolding found_from
found_from-Has q found [] (inl h) = h
found_from-Has q found [] (inr h) = cc
found_from-Has q found (c ∷ l) (inl h) =
    found_from-Has q (set_found c found) l (inl (set_found-Has q c found (ground (arith, h))))
found_from-Has q found (c ∷ l) (inr h) = elim (Bool-cases (same_pair q c)) [
  | inl here ↦
      found_from-Has q (set_found c found) l (inl (set_found-Has q c found (ground (arith, here))))
  | inr other ↦ found_from-Has q (set_found c found) l (inr (ground (arith, other, h)))
]

pub mem-found_from :
    {q : ConflictIntent} (found l : List ConflictIntent)
    → Memᴰ q (found_from found l)
    → Memᴰ q found ⊎ Memᴰ q l
unfolding found_from
mem-found_from found [] m = inl m
mem-found_from found (c ∷ l) m = elim (mem-found_from (set_found c found) l m) [
  | inr later ↦ inr (Memᴰ.tail later)
  | inl early ↦ elim (Memᴰ.cases_cons (mem-set_found c found early)) [
    | inl here ↦ inr (Memᴰ.head here)
    | inr before ↦ inl before
  ]
]
