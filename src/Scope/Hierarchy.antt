-- ===== src/Scope/Hierarchy.antt =====
-- packages/adopt-scope/src/adopt_scope/hierarchy.py: creating the four levels and resolving a path.
-- The ids and the readings of the clock are arguments.
use onboard_core.Base.{ℕ, String, Bool, Option, none, some, List, [], ◌∷◌}
use mathlib.Core.Option
use onboard_core.Obs.{Result, ok, err, scope_slug_invalid}
use onboard_core.Model.Enums.{LifecycleState}
use onboard_core.Model.Tables.{Firm, Engagement, System, Environment}
use onboard_core.Model.Scopes.{Scope}
use onboard_core.Store.Tables.{Store, Tx, ◌>>◌, pure, transaction}
use onboard_core.Scope.Slugs.{validate_slug, ensure_slug_available}
use onboard_core.Scope.Statements.{
  find_firm, find_engagement, find_system, find_environment, insert_firm, insert_engagement,
  insert_system, insert_environment,
}

-- `[existing.slug] if existing else []`
abbrev pub taken : Option String → List String
taken none = []
taken (some slug) = slug ∷ []

-- What the four creations share: the slug is checked, then inside the transaction the sibling that
-- holds it, then the row goes in.
unfoldable pub create :
    {A : Type 0} → String → (Store → Option String) → (A → Tx Unit) → A → Store → Result A × Store
create slug sibling insert row s = elim (validate_slug slug) [
  | err e ↦ (err e, s)
  | ok u ↦
      transaction
        (λ s0. elim (ensure_slug_available slug (taken (sibling s0))) [
          | err e ↦ err e
          | ok v ↦ (do insert row; pure row) s0
        ])
        s
]

unfoldable pub create_firm : String → String → String → ℕ → Store → Result Firm × Store
create_firm slug name id now =
    create slug (λ s. Option.map (λ r. r.slug) (find_firm slug s)) insert_firm
      (record { id = id; slug = slug; name = name; created_at = now })

unfoldable pub create_engagement :
    String → String → String → Option String → String → ℕ → Store → Result Engagement × Store
create_engagement firm_id slug name client_label id now =
    create slug (λ s. Option.map (λ r. r.slug) (find_engagement firm_id slug s)) insert_engagement
      (record {
        id = id;
        firm_id = firm_id;
        slug = slug;
        name = name;
        client_label = client_label;
        created_at = now;
      })

-- A system starts in DISCOVERED.
abbrev pub new_system :
    String → String → String → Option String → Option String → String → ℕ → System
new_system engagement_id slug name archetype deployment_mode id now = record {
  id = id;
  engagement_id = engagement_id;
  slug = slug;
  name = name;
  archetype = archetype;
  lifecycle_state = LifecycleState.discovered;
  deployment_mode = deployment_mode;
  created_at = now;
  updated_at = now;
}

unfoldable pub create_system :
    String
    → String
    → String
    → Option String
    → Option String
    → String
    → ℕ
    → Store
    → Result System × Store
create_system engagement_id slug name archetype deployment_mode id now =
    create slug (λ s. Option.map (λ r. r.slug) (find_system engagement_id slug s)) insert_system
      (new_system engagement_id slug name archetype deployment_mode id now)

unfoldable pub create_environment :
    String
    → String
    → String
    → Bool
    → Option String
    → String
    → ℕ
    → Store
    → Result Environment × Store
create_environment system_id slug name is_billable data_residency_region id now =
    create slug (λ s. Option.map (λ r. r.slug) (find_environment system_id slug s))
      insert_environment
      (record {
        id = id;
        system_id = system_id;
        slug = slug;
        name = name;
        is_billable = is_billable;
        data_residency_region = data_residency_region;
        created_at = now;
      })

-- resolve.py: `ScopePath`, once parsed.
pub record ScopePath : Type 0 where
  pub firm : String
  pub engagement : Option String
  pub system : Option String
  pub environment : Option String

-- The last three levels of `resolve`, each below the one that was found.
unfoldable pub resolve_environment : ScopePath → System → Scope → Store → Result Scope
resolve_environment path system scope s = elim path.environment [
  | none ↦ ok scope
  | some slug ↦ elim (find_environment system.id slug s) [
    | none ↦ err scope_slug_invalid
    | some row ↦ ok (record scope { environment = some (record { id = row.id; slug = row.slug }) })
  ]
]

unfoldable pub resolve_system : ScopePath → Engagement → Scope → Store → Result Scope
unfolding resolve_environment
resolve_system path engagement scope s = elim path.system [
  | none ↦ ok scope
  | some slug ↦ elim (find_system engagement.id slug s) [
    | none ↦ err scope_slug_invalid
    | some row ↦
        resolve_environment path row
          (record scope { system = some (record { id = row.id; slug = row.slug }) }) s
  ]
]

unfoldable pub resolve_engagement : ScopePath → Firm → Scope → Store → Result Scope
unfolding resolve_system
resolve_engagement path firm scope s = elim path.engagement [
  | none ↦ ok scope
  | some slug ↦ elim (find_engagement firm.id slug s) [
    | none ↦ err scope_slug_invalid
    | some row ↦
        resolve_system path row
          (record scope { engagement = some (record { id = row.id; slug = row.slug }) }) s
  ]
]

unfoldable pub resolve : ScopePath → Store → Result Scope
unfolding resolve_engagement
resolve path s = elim (find_firm path.firm s) [
  | none ↦ err scope_slug_invalid
  | some row ↦
      resolve_engagement path row
        (record {
          firm = record { id = row.id; slug = row.slug };
          engagement = none;
          system = none;
          environment = none;
        })
        s
]
