-- ===== src/Coverage/Recompute.antt =====
-- packages/adopt-coverage/src/adopt_coverage/recompute.py, records.py and cache.py: every identity in
-- scope, the disagreements with the cache, the alarm, and the rebuild of the cache.
use onboard_core.Base.{
  ℕ, ◌/◌, ◌*◌, String, Bool, true, false, Option, none, some, List, [], ◌∷◌, ◌++◌, map, length,
  take, filter, ltb, not, if◌then◌else◌, ◌==◌,
}
use onboard_core.Model.Enums.{BindingStatus, IdentityStatus, Verification}
use onboard_core.Model.Tables.{Identity, KnowledgeItem, Binding, ObservabilityBoundary}
use onboard_core.Coverage.Evaluate.{IdentityCoverage, Facts, evaluate}

-- The read port. The arguments are the system and, where the code filters by it, the environment.
pub record CoverageRecords : Type 0 where
  pub identities_in_scope : String → Option String → List Identity
  pub head_identity_statuses : String → Option String → String → Option IdentityStatus
  pub bindings_in_scope : String → Option String → List Binding
  pub head_binding_statuses : String → Option String → String → Option BindingStatus
  pub items_in_scope : String → List KnowledgeItem
  pub head_item_verifications : String → String → Option (Option Verification)
  pub audience_counts : String → String → Option ℕ
  pub boundaries_for_system : String → List ObservabilityBoundary

pub record Disagreement : Type 0 where
  pub identity_id : String
  pub uri : String
  pub cached : Bool
  pub recomputed : Bool

pub record CoverageResult : Type 0 where
  pub system_id : String
  pub environment_id : Option String
  pub identities : List IdentityCoverage
  pub disagreements : List Disagreement
  pub computed_at : ℕ

-- The fields of the log record `coverage_cache_disagreement`.
pub record Alarm : Type 0 where
  pub disagreement_count : ℕ
  pub identity_ids : List String
  pub identity_ids_truncated : Bool

-- adopt_const: COVERAGE_ALARM_SAMPLE_MAX
abbrev pub coverage_alarm_sample_max : ℕ
coverage_alarm_sample_max = 20

-- Microseconds cut to a whole millisecond.
abbrev pub truncate_to_millisecond : ℕ → ℕ
truncate_to_millisecond t = t / 1000 * 1000

-- `{key(row): row for row in rows}` and its `get`: the last row with a key stays.
module _ {ℓ} {A : Type ℓ} (key : A → String) where
  unfoldable pub by_key : List A → String → Option A
  by_key [] k = none
  by_key (row ∷ rows) k = elim (by_key rows k) [
    | some later ↦ some later
    | none ↦ if key row == k then some row else none
  ]

abbrev pub bool_eq : Bool → Bool → Bool
bool_eq true b = b
bool_eq false b = not b

abbrev or_zero : Option ℕ → ℕ
or_zero none = 0
or_zero (some n) = n

-- The rows of `bindings_by_identity` for one identity, in the order of the port.
abbrev pub bindings_of : String → List Binding → List Binding
bindings_of identity_id = filter (λ b. b.identity_id == identity_id)

abbrev pub disagreement_row : Identity → IdentityCoverage → Disagreement
disagreement_row row verdict = record {
  identity_id = verdict.identity_id;
  uri = verdict.uri;
  cached = row.covered_cache;
  recomputed = verdict.covered;
}

-- One step of the loop over the verdicts, given `cached[verdict.identity_id]`, which is there for
-- every identity that a verdict is about.
unfoldable pub disagreement : Option Identity → IdentityCoverage → List Disagreement
disagreement none verdict = []
disagreement (some row) verdict =
    if bool_eq row.covered_cache verdict.covered then [] else disagreement_row row verdict ∷ []

unfoldable pub disagreements_of :
    (String → Option Identity) → List IdentityCoverage → List Disagreement
unfolding disagreement
disagreements_of cached [] = []
disagreements_of cached (v ∷ vs) =
    disagreement (cached v.identity_id) v ++ disagreements_of cached vs

unfoldable pub alarm_of : List Disagreement → Option Alarm
alarm_of [] = none
alarm_of (d ∷ ds) =
    let all_ids = map (λ e. e.identity_id) (d ∷ ds) in
    some (record {
      disagreement_count = length (d ∷ ds);
      identity_ids = take coverage_alarm_sample_max all_ids;
      identity_ids_truncated = ltb coverage_alarm_sample_max (length (d ∷ ds));
    })

module _ (records : CoverageRecords) (system_id : String) (environment_id : Option String) where
  abbrev pub facts_in_scope : Facts
  facts_in_scope = record {
    binding_statuses = records.head_binding_statuses system_id environment_id;
    items = by_key (λ row. row.id) (records.items_in_scope system_id);
    verifications = records.head_item_verifications system_id;
    audience_counts = λ item_id. or_zero (records.audience_counts system_id item_id);
    boundaries = records.boundaries_for_system system_id;
  }

  unfoldable pub verdict_on : Identity → IdentityCoverage
  verdict_on identity =
      evaluate facts_in_scope identity
        (records.head_identity_statuses system_id environment_id identity.id)
        (bindings_of identity.id (records.bindings_in_scope system_id environment_id))

  -- `now` is the reading of the clock, `compare_cache` the caller's choice. The second part of the
  -- result is the alarm that is logged, if any.
  unfoldable pub recompute_coverage : ℕ → Bool → CoverageResult × Option Alarm
  unfolding verdict_on disagreements_of alarm_of
  recompute_coverage now compare_cache =
      let identities = records.identities_in_scope system_id environment_id in
      let verdicts = map verdict_on identities in
      let found =
        if compare_cache
        then disagreements_of (by_key (λ row. row.id) identities) verdicts
        else [] in
      (
        record {
          system_id = system_id;
          environment_id = environment_id;
          identities = verdicts;
          disagreements = found;
          computed_at = truncate_to_millisecond now;
        },
        alarm_of found,
      )

-- UPDATE identity SET covered_cache = ?, covered_cache_at = ? WHERE id = ?
unfoldable pub write_cache : Bool → ℕ → String → List Identity → List Identity
write_cache covered at identity_id = map λ row.
    if row.id == identity_id
    then record row { covered_cache = covered; covered_cache_at = some at }
    else row

unfoldable pub write_caches : ℕ → List IdentityCoverage → List Identity → List Identity
unfolding write_cache
write_caches at [] rows = rows
write_caches at (entry ∷ entries) rows =
    write_caches at entries (write_cache entry.covered at entry.identity_id rows)

-- The rows of the table `identity` afterwards, and how many were written.
unfoldable pub rebuild_cache : CoverageResult → List Identity → List Identity × ℕ
unfolding write_caches
rebuild_cache result rows =
    (write_caches result.computed_at result.identities rows, length result.identities)
