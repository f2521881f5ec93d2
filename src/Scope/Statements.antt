-- ===== src/Scope/Statements.antt =====
-- packages/adopt-store/src/adopt_store/sqlite/records.py, `SqliteScopeRecords`, with the keys and the
-- references that the schema declares.
use onboard_core.Base.{
  ℕ, String, Bool, true, Option, none, some, List, [], ◌∷◌, ◌++◌, map, any, find?, not, ◌&&◌, ◌||◌,
  if◌then◌else◌, ◌==◌,
}
use onboard_core.Obs.{ok, err, schema_migration_failed}
use onboard_core.Model.Enums.{LifecycleState}
use onboard_core.Model.Tables.{Firm, Engagement, System, Environment, SystemLifecycleEvent}
use onboard_core.Store.Tables.{Store, Tx}

unfoldable pub find_firm : String → Store → Option Firm
find_firm slug s = find? (λ r. r.slug == slug) s.scope.firms

unfoldable pub find_engagement : String → String → Store → Option Engagement
find_engagement firm_id slug s =
    find? (λ r. r.firm_id == firm_id && r.slug == slug) s.scope.engagements

unfoldable pub find_system : String → String → Store → Option System
find_system engagement_id slug s =
    find? (λ r. r.engagement_id == engagement_id && r.slug == slug) s.scope.systems

unfoldable pub find_environment : String → String → Store → Option Environment
find_environment system_id slug s =
    find? (λ r. r.system_id == system_id && r.slug == slug) s.scope.environments

unfoldable pub get_system : String → Store → Option System
get_system system_id s = find? (λ r. r.id == system_id) s.scope.systems

unfoldable pub insert_firm : Firm → Tx Unit
insert_firm row s =
    if any (λ r. r.id == row.id) s.scope.firms || any (λ r. r.slug == row.slug) s.scope.firms
    then err schema_migration_failed
    else ok (tt, record s { scope = record s.scope { firms = s.scope.firms ++ row ∷ [] } })

unfoldable pub insert_engagement : Engagement → Tx Unit
insert_engagement row s =
    if any (λ r. r.id == row.id) s.scope.engagements
      || not (any (λ r. r.id == row.firm_id) s.scope.firms)
      || any (λ r. r.firm_id == row.firm_id && r.slug == row.slug) s.scope.engagements
    then err schema_migration_failed
    else ok
        (tt, record s { scope = record s.scope { engagements = s.scope.engagements ++ row ∷ [] } })

unfoldable pub insert_system : System → Tx Unit
insert_system row s =
    if any (λ r. r.id == row.id) s.scope.systems
      || not (any (λ r. r.id == row.engagement_id) s.scope.engagements)
      || any (λ r. r.engagement_id == row.engagement_id && r.slug == row.slug) s.scope.systems
    then err schema_migration_failed
    else ok (tt, record s { scope = record s.scope { systems = s.scope.systems ++ row ∷ [] } })

unfoldable pub insert_environment : Environment → Tx Unit
insert_environment row s =
    if any (λ r. r.id == row.id) s.scope.environments
      || not (any (λ r. r.id == row.system_id) s.scope.systems)
      || any (λ r. r.system_id == row.system_id && r.slug == row.slug) s.scope.environments
    then err schema_migration_failed
    else ok (
      tt,
      record s { scope = record s.scope { environments = s.scope.environments ++ row ∷ [] } },
    )

abbrev pub is_system : Option String → List System → Bool
is_system none systems = true
is_system (some id) systems = any (λ r. r.id == id) systems

unfoldable pub insert_lifecycle_event : SystemLifecycleEvent → Tx Unit
insert_lifecycle_event row s =
    if any (λ r. r.id == row.id) s.scope.lifecycle_events
      || not (any (λ r. r.id == row.system_id) s.scope.systems)
      || not (is_system row.related_system_id s.scope.systems)
    then err schema_migration_failed
    else ok (
      tt,
      record s {
        scope = record s.scope { lifecycle_events = s.scope.lifecycle_events ++ row ∷ [] };
      },
    )

-- The row of a system under `UPDATE system SET lifecycle_state = ?, updated_at = ? WHERE id = ?`.
abbrev pub with_state : String → LifecycleState → ℕ → System → System
with_state system_id to_state updated_at r =
    if r.id == system_id
    then record r { lifecycle_state = to_state; updated_at = updated_at }
    else r

unfoldable pub set_system_state : String → LifecycleState → ℕ → Tx Unit
set_system_state system_id to_state updated_at s = ok (
  tt,
  record s {
    scope = record s.scope {
      systems = map (with_state system_id to_state updated_at) s.scope.systems;
    };
  },
)
