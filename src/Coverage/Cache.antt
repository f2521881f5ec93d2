-- ===== src/Coverage/Cache.antt =====
-- packages/adopt-coverage/src/adopt_coverage/cache.py: `rebuild_cache` after `recompute_coverage`.
use mathlib.Core.List.Memᴰ
use mathlib.Core.Path.{fun_ext}
use mathlib.Core.List.{map-id, map-map}
use onboard_core.Base.{
  ℕ, String, Bool, true, ◌≡◌, refl, sym, ap, ◌∙◌, Option, none, some, List, [], ◌∷◌, map, Memᴰ, inl,
  inr, ◌⊎◌, arith, eq_iff, ◌==◌, if◌then◌else◌, Bool-cases,
}
use onboard_core.Model.Tables.{Identity}
use onboard_core.Coverage.Evaluate.{IdentityCoverage, evaluate}
use onboard_core.Coverage.Recompute.{
  CoverageRecords, Disagreement, CoverageResult, alarm_of, verdict_on, recompute_coverage,
  write_cache, write_caches, rebuild_cache,
}
use onboard_core.Coverage.Disagreements.{
  IdsDiffer, recompute_coverage-disagreements, verdict_on-identity_id,
}

-- One row under one statement, and under all of them.
stamp : ℕ → IdentityCoverage → Identity → Identity
stamp at entry row =
    if row.id == entry.identity_id
    then record row { covered_cache = entry.covered; covered_cache_at = some at }
    else row

pub stamp_all : ℕ → List IdentityCoverage → Identity → Identity
unfolding stamp
stamp_all at [] row = row
stamp_all at (entry ∷ entries) row = stamp_all at entries (stamp at entry row)

pub write_caches-map :
    (at : ℕ) (entries : List IdentityCoverage) (rows : List Identity)
    → write_caches at entries rows ≡ map (stamp_all at entries) rows
unfolding write_caches write_cache stamp_all
write_caches-map at [] rows = sym (map-id rows)
write_caches-map at (entry ∷ entries) rows =
    write_caches-map at entries (map (stamp at entry) rows)
    ∙ map-map (stamp_all at entries) (stamp at entry) rows

-- A row keeps everything but its cache.
pub record Keeps (row new : Identity) : Type 0 where
  pub id : new.id ≡ row.id
  pub uri : new.uri ≡ row.uri
  pub system_id : new.system_id ≡ row.system_id
  pub environment_id : new.environment_id ≡ row.environment_id

stamp-Keeps : (at : ℕ) (entry : IdentityCoverage) (row : Identity) → Keeps row (stamp at entry row)
unfolding stamp
stamp-Keeps at entry row = ground arith

pub stamp_all-Keeps :
    (at : ℕ) (entries : List IdentityCoverage) (row : Identity)
    → Keeps row (stamp_all at entries row)
unfolding stamp_all
stamp_all-Keeps at [] row = ground arith
stamp_all-Keeps at (entry ∷ entries) row =
    ground (arith, stamp_all-Keeps at entries (stamp at entry row), stamp-Keeps at entry row)

stamp-covered :
    (at : ℕ) (entry : IdentityCoverage) (row : Identity)
    → (stamp at entry row).covered_cache
      ≡ (if row.id == entry.identity_id then entry.covered else row.covered_cache)
unfolding stamp
stamp-covered at entry row = ground arith

-- The cache of a row is what the entries under its id say, if they all say the same.
stamp_all-covered :
    (at : ℕ) (entries : List IdentityCoverage) (row : Identity) (c : Bool)
    → ((e : IdentityCoverage) → Memᴰ e entries → e.identity_id ≡ row.id → e.covered ≡ c)
    → (row.covered_cache ≡ c) ⊎ ((e : IdentityCoverage) × Memᴰ e entries × (e.identity_id ≡ row.id))
    → (stamp_all at entries row).covered_cache ≡ c
unfolding stamp_all
stamp_all-covered at [] row c all_say (inl now) = now
stamp_all-covered at [] row c all_say (inr (e, m, _)) = elim m [ ]
stamp_all-covered at (entry ∷ entries) row c all_say start =
    let kept = stamp-Keeps at entry row in
    stamp_all-covered at entries (stamp at entry row) c
      (λ e m same. all_say e (Memᴰ.tail m) (same ∙ kept.id))
      (elim (Bool-cases (row.id == entry.identity_id)) [
        | inl hit ↦
            let said =
              all_say entry (Memᴰ.head refl) (sym ((eq_iff row.id entry.identity_id).0 hit)) in
            inl (ground (arith, stamp-covered at entry row, hit, said))
        | inr miss ↦ elim start [
          | inl now ↦ inl (ground (arith, stamp-covered at entry row, miss, now))
          | inr (e, m, same) ↦ elim (Memᴰ.cases_cons m) [
            | inl here ↦ absurd (
                ground (
                  arith,
                  (eq_iff row.id entry.identity_id).1 (sym same ∙ ap (λ v. v.identity_id) here),
                  miss,
                ))
            | inr later ↦ inr (e, later, same ∙ sym kept.id)
          ]
        ]
      ])

no-members : (l : List Disagreement) → ((d : Disagreement) → ¬ Memᴰ d l) → l ≡ []
no-members [] h = refl
no-members (d ∷ l) h = absurd (h d (Memᴰ.head refl))

module _ (records : CoverageRecords) (system_id : String) (environment_id : Option String) where
  -- The store after `rebuild_cache` was given a result.
  abbrev pub after_rebuild : CoverageResult → CoverageRecords
  after_rebuild result = record records {
    identities_in_scope = λ s e. (rebuild_cache result (records.identities_in_scope s e)).0;
  }

  verdict_on-Keeps :
      (result : CoverageResult) (row new : Identity)
      → Keeps row new
      → verdict_on (after_rebuild result) system_id environment_id new
        ≡ verdict_on records system_id environment_id row
  unfolding verdict_on evaluate
  verdict_on-Keeps result row new k = simp (k.id, k.uri, k.environment_id)

  rebuilt : (result : CoverageResult) (row : Identity) → Identity
  rebuilt result = stamp_all result.computed_at result.identities

  after_rebuild-rows :
      (result : CoverageResult)
      → (after_rebuild result).identities_in_scope system_id environment_id
        ≡ map (rebuilt result) (records.identities_in_scope system_id environment_id)
  unfolding rebuild_cache rebuilt
  after_rebuild-rows result =
      write_caches-map result.computed_at result.identities
        (records.identities_in_scope system_id environment_id)

  module _ (unique : IdsDiffer records system_id environment_id) (now : ℕ)
      (compare_cache : Bool) where
    abbrev result : CoverageResult
    result = (recompute_coverage records system_id environment_id now compare_cache).0

    abbrev rows : List Identity
    rows = records.identities_in_scope system_id environment_id

    abbrev verdict : Identity → IdentityCoverage
    verdict = verdict_on records system_id environment_id

    result-identities : result.identities ≡ map (verdict_on records system_id environment_id) rows
    unfolding recompute_coverage
    result-identities = refl

    rebuilt-Keeps : (row : Identity) → Keeps row (rebuilt result row)
    unfolding rebuilt
    rebuilt-Keeps row = stamp_all-Keeps result.computed_at result.identities row

    rebuilt-covered :
        (row : Identity)
        → Memᴰ row rows
        → (rebuilt result row).covered_cache
          ≡ (verdict_on records system_id environment_id row).covered
    unfolding rebuilt
    rebuilt-covered row stored =
        stamp_all-covered result.computed_at result.identities row (verdict row).covered
          (λ e m same.
            let (other, k, made) = Memᴰ.of_map verdict rows (rw result-identities at m) in
            let same_id =
              verdict_on-identity_id records system_id environment_id other
              ∙ ap (λ v. v.identity_id) made
              ∙ same in
            ap (λ v. v.covered) (sym made)
            ∙ ap (λ r. (verdict r).covered) (unique other row k stored same_id))
          (inr (
            verdict row,
            rw result-identities (Memᴰ.map verdict stored),
            sym (verdict_on-identity_id records system_id environment_id row),
          ))

    after_rebuild-IdsDiffer : IdsDiffer (after_rebuild result) system_id environment_id
    after_rebuild-IdsDiffer a b ma mb same =
        let (row, k, made) =
          Memᴰ.of_map (rebuilt result) rows (rw (after_rebuild-rows result) at ma) in
        let (other, l, made') =
          Memᴰ.of_map (rebuilt result) rows (rw (after_rebuild-rows result) at mb) in
        let one = (rebuilt-Keeps row).id in
        let two = (rebuilt-Keeps other).id in
        let same_row =
          unique row other k l
            (sym one ∙ ap (λ r. r.id) made ∙ same ∙ ap (λ r. r.id) (sym made') ∙ two) in
        sym made ∙ ap (rebuilt result) same_row ∙ made'

    verdicts-after_rebuild :
        map
          (verdict_on (after_rebuild result) system_id environment_id)
          ((after_rebuild result).identities_in_scope system_id environment_id)
        ≡ map verdict rows
    verdicts-after_rebuild =
        ap (map (verdict_on (after_rebuild result) system_id environment_id))
          (after_rebuild-rows result)
        ∙ map-map (verdict_on (after_rebuild result) system_id environment_id) (rebuilt result) rows
        ∙ ap (λ f. map f rows)
            (fun_ext (λ row. verdict_on-Keeps result row (rebuilt result row) (rebuilt-Keeps row)))

    abbrev again : ℕ → CoverageResult
    again later = (recompute_coverage (after_rebuild result) system_id environment_id later true).0

    no-disagreement : (later : ℕ) (d : Disagreement) → ¬ Memᴰ d (again later).disagreements
    no-disagreement later d m =
        let (new, k, differ, _) =
          (recompute_coverage-disagreements (after_rebuild result) system_id environment_id
              after_rebuild-IdsDiffer later d).0
            m in
        let (row, stored, made) =
          Memᴰ.of_map (rebuilt result) rows (rw (after_rebuild-rows result) at k) in
        differ (
          ap (λ r. r.covered_cache) (sym made)
          ∙ rebuilt-covered row stored
          ∙ ap (λ v. v.covered)
              (sym (verdict_on-Keeps result row (rebuilt result row) (rebuilt-Keeps row)))
          ∙ ap (λ r. (verdict_on (after_rebuild result) system_id environment_id r).covered) made)

  -- If no two identities in scope share an id, then after the cache was rebuilt from a
  -- recomputation a later recomputation gives the same verdicts, finds no disagreement and raises
  -- no alarm.
  pub rebuild_cache-agrees :
      IdsDiffer records system_id environment_id
      → (now later : ℕ) (compare_cache : Bool)
      → let result = (recompute_coverage records system_id environment_id now compare_cache).0 in
        let (again, alarm) =
          recompute_coverage (after_rebuild result) system_id environment_id later true in
        (again.identities ≡ result.identities) × (again.disagreements ≡ []) × (alarm ≡ none)
  unfolding recompute_coverage
  rebuild_cache-agrees unique now later compare_cache =
      let quiet = no-members _ (no-disagreement unique now compare_cache later) in
      (verdicts-after_rebuild unique now compare_cache, quiet, ap alarm_of quiet)
