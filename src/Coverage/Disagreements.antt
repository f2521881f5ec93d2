-- ===== src/Coverage/Disagreements.antt =====
-- packages/adopt-coverage/src/adopt_coverage/recompute.py: the disagreements with the cache.
use mathlib.Core.List.Memᴰ
use onboard_core.Base.{
  ℕ, String, true, ◌≡◌, ◌≢◌, refl, sym, ap, ◌∙◌, Option, none, some, List, [], ◌∷◌, map, Memᴰ, ◌↔◌,
  inl, inr, arith, KeysDiffer, eq_iff, ◌==◌, ap₂, Option-cases, Bool-cases,
}
use onboard_core.Model.Tables.{Identity}
use onboard_core.Coverage.Evaluate.{IdentityCoverage, evaluate}
use onboard_core.Coverage.Recompute.{
  CoverageRecords, Disagreement, CoverageResult, by_key, bool_eq, disagreement, disagreement_row,
  disagreements_of, verdict_on, recompute_coverage,
}

module _ {ℓ} {A : Type ℓ} (key : A → String) where
  by_key-mem :
      (rows : List A) (k : String) (a : A) → by_key key rows k ≡ some a → Memᴰ a rows × (key a ≡ k)
  unfolding by_key
  by_key-mem [] k a e = cc
  by_key-mem (row ∷ rows) k a e = elim (Option-cases (by_key key rows k)) [
    | inr (b, later) ↦ let (m, h) = by_key-mem rows k a (ground (arith, later)) in (Memᴰ.tail m, h)
    | inl here ↦ elim (Bool-cases (key row == k)) [
      | inl same ↦
          let same_row : a ≡ row = ground (arith, here, same) in
          (Memᴰ.head same_row, ap key same_row ∙ (eq_iff (key row) k).0 same)
      | inr other ↦ absurd (ground (arith, here, other))
    ]
  ]

  by_key-found : (rows : List A) (a : A) → Memᴰ a rows → by_key key rows (key a) ≢ none
  unfolding by_key
  by_key-found [] a m e = elim m [ ]
  by_key-found (row ∷ rows) a (Memᴰ.head h) e =
      ground (arith, e, h, (eq_iff (key row) (key a)).1 (ap key (sym h)))
  by_key-found (row ∷ rows) a (Memᴰ.tail m) e = by_key-found rows a m (ground (arith, e))

  -- With distinct keys, each row is found under its own key.
  pub by_key_self :
      (rows : List A)
      → KeysDiffer key rows
      → (a : A) → Memᴰ a rows
      → by_key key rows (key a) ≡ some a
  by_key_self rows d a m = elim (Option-cases (by_key key rows (key a))) [
    | inl missing ↦ absurd (by_key-found rows a m missing)
    | inr (b, found) ↦
        let (k, same) = by_key-mem rows (key a) b found in found ∙ ap some (d b a k m same)
  ]

-- The row of the cache and the verdict that a disagreement is about: they are of one identity, and
-- they differ.
pub record Contradicts (rows : List Identity) (verdicts : List IdentityCoverage) (d : Disagreement)
    : Type 0 where
  pub row : Identity
  pub stored : Memᴰ row rows
  pub verdict : IdentityCoverage
  pub computed : Memᴰ verdict verdicts
  pub same : verdict.identity_id ≡ row.id
  pub differ : row.covered_cache ≢ verdict.covered
  pub reported : d ≡ disagreement_row row verdict

disagreement-mem :
    (o : Option Identity) (v : IdentityCoverage) (d : Disagreement)
    → Memᴰ d (disagreement o v)
    → (row : Identity) × (o ≡ some row)
      × (row.covered_cache ≢ v.covered)
      × (d ≡ disagreement_row row v)
unfolding disagreement
disagreement-mem none v d m = elim m [ ]
disagreement-mem (some row) v d m = elim (Bool-cases (bool_eq row.covered_cache v.covered)) [
  | inl agree ↦ absurd (Memᴰ.not-nil (rw agree at m))
  | inr differ ↦ (row, refl, ground (arith, differ), Memᴰ.eq_of_singleton (rw differ at m))
]

mem-disagreement :
    (row : Identity) (v : IdentityCoverage)
    → row.covered_cache ≢ v.covered
    → Memᴰ (disagreement_row row v) (disagreement (some row) v)
unfolding disagreement
mem-disagreement row v differ = elim (Bool-cases (bool_eq row.covered_cache v.covered)) [
  | inl agree ↦ absurd (differ (ground (arith, agree)))
  | inr other ↦ rw other (Memᴰ.head refl)
]

module _ (rows : List Identity) (unique : KeysDiffer (λ row. row.id) rows) where
  abbrev cached : String → Option Identity
  cached = by_key (λ row. row.id) rows

  disagreements_of-Contradicts :
      (vs : List IdentityCoverage) (d : Disagreement)
      → Memᴰ d (disagreements_of cached vs)
      → Contradicts rows vs d
  unfolding disagreements_of
  disagreements_of-Contradicts [] d m = elim m [ ]
  disagreements_of-Contradicts (v ∷ vs) d m =
      elim (Memᴰ.append_cases (disagreement (cached v.identity_id) v) m) [
        | inl here ↦
            let (row, found, differ, said) = disagreement-mem (cached v.identity_id) v d here in
            let (stored, same) = by_key-mem (λ r. r.id) rows v.identity_id row found in
            record {
              row = row;
              stored = stored;
              verdict = v;
              computed = Memᴰ.head refl;
              same = sym same;
              differ = differ;
              reported = said;
            }
        | inr later ↦
            let c = disagreements_of-Contradicts vs d later in
            record {
              row = c.row;
              stored = c.stored;
              verdict = c.verdict;
              computed = Memᴰ.tail c.computed;
              same = c.same;
              differ = c.differ;
              reported = c.reported;
            }
      ]

  Contradicts-disagreements_of :
      (vs : List IdentityCoverage) (row : Identity) (v : IdentityCoverage)
      → Memᴰ row rows
      → Memᴰ v vs
      → v.identity_id ≡ row.id
      → row.covered_cache ≢ v.covered
      → Memᴰ (disagreement_row row v) (disagreements_of cached vs)
  unfolding disagreements_of
  Contradicts-disagreements_of [] row v mr m same differ = elim m [ ]
  Contradicts-disagreements_of (w ∷ vs) row v mr (Memᴰ.head h) same differ =
      let found : cached w.identity_id ≡ some row =
        ap (λ u. cached u.identity_id) (sym h)
        ∙ ap cached same
        ∙ by_key_self (λ r. r.id) rows unique row mr in
      Memᴰ.append_left (disagreements_of cached vs)
        (rw found (rw (sym h) (mem-disagreement row v differ)))
  Contradicts-disagreements_of (w ∷ vs) row v mr (Memᴰ.tail m) same differ =
      Memᴰ.append_right (disagreement (cached w.identity_id) w)
        (Contradicts-disagreements_of vs row v mr m same differ)

-- The identities that `recompute_coverage` reads, when no two rows of a system share an id.
abbrev pub IdsDiffer : CoverageRecords → String → Option String → Type 0
IdsDiffer records system_id environment_id =
    KeysDiffer (λ row. row.id) (records.identities_in_scope system_id environment_id)

pub verdict_on-identity_id :
    (records : CoverageRecords) (system_id : String) (environment_id : Option String)
    (row : Identity)
    → row.id ≡ (verdict_on records system_id environment_id row).identity_id
unfolding verdict_on evaluate
verdict_on-identity_id records system_id environment_id row = refl

module _ (records : CoverageRecords) (system_id : String) (environment_id : Option String)
    (unique : IdsDiffer records system_id environment_id) (now : ℕ) where
  abbrev result : CoverageResult
  result = (recompute_coverage records system_id environment_id now true).0

  -- If no two identities in scope share an id and the cache is compared, then the disagreements
  -- that a recomputation reports are those of the identities in scope whose cached value is not
  -- the recomputed one, all of them and no others.
  pub recompute_coverage-disagreements :
      (d : Disagreement)
      → Memᴰ d result.disagreements ↔ (
          (row : Identity) × Memᴰ row (records.identities_in_scope system_id environment_id)
          × (row.covered_cache ≢ (verdict_on records system_id environment_id row).covered)
          × (d ≡ disagreement_row row (verdict_on records system_id environment_id row)))
  unfolding recompute_coverage
  recompute_coverage-disagreements d = (
    λ m.
        let c = disagreements_of-Contradicts rows unique (map verdict rows) d m in
        let (row, stored, made) = Memᴰ.of_map verdict rows c.computed in
        let same_row = unique row c.row stored c.stored (
          verdict_on-identity_id records system_id environment_id row
          ∙ ap (λ v. v.identity_id) made
          ∙ c.same) in
        (
          row,
          stored,
          λ agree.
              c.differ
                (ap (λ r. r.covered_cache) (sym same_row) ∙ agree ∙ ap (λ v. v.covered) made),
          c.reported ∙ ap₂ disagreement_row (sym same_row) (sym made),
        ),
    λ (row, stored, differ, said). Memᴰ.cast said (
        Contradicts-disagreements_of rows unique (map verdict rows) row (verdict row) stored
          (Memᴰ.map verdict stored)
          (sym (verdict_on-identity_id records system_id environment_id row)) differ),
  )
    where
      rows : List Identity
      rows = records.identities_in_scope system_id environment_id

      verdict : Identity → IdentityCoverage
      verdict = verdict_on records system_id environment_id
