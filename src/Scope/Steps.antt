-- ===== src/Scope/Steps.antt =====
-- The operations of the scope facade as steps of a store, and the stores that they lead to.
use mathlib.Core.Option
use onboard_core.Base.{
  ℕ, String, Bool, false, ◌≡◌, refl, sym, ap, subst, Option, [], ◌∷◌, ◌++◌, ◌⊎◌, inl, inr, arith,
  ◌==◌, ◌&&◌, any,
}
use onboard_core.Obs.{Result-cases, ok}
use onboard_core.Model.Enums.{LifecycleState}
use onboard_core.Model.Tables.{System}
use onboard_core.Store.Tables.{Store, Tx, transaction}
use onboard_core.Scope.Slugs.{validate_slug, ensure_slug_available}
use onboard_core.Scope.Statements.{
  find_system, find_firm, find_engagement, find_environment, insert_system, insert_firm,
  insert_engagement, insert_environment,
}
use onboard_core.Scope.Hierarchy.{
  create, taken, new_system, create_system, create_firm, create_engagement, create_environment,
}
use onboard_core.Scope.Lifecycle.{Transition, transition}

-- A creation leaves the store as it was, or its row was inserted.
create-cases :
    {A : Type 0} (slug : String) (sibling : Store → Option String) (insert : A → Tx Unit) (row : A)
    (s : Store)
    → ((create slug sibling insert row s).1 ≡ s)
      ⊎ ((insert row s ≡ ok (tt, (create slug sibling insert row s).1)))
unfolding create transaction
create-cases slug sibling insert row s = elim (Result-cases (validate_slug slug)) [
  | inr (c, invalid) ↦ inl (ground (arith, invalid))
  | inl (u, valid) ↦ elim (Result-cases (ensure_slug_available slug (taken (sibling s)))) [
    | inr (c, reused) ↦ inl (ground (arith, valid, reused))
    | inl (v, free) ↦ elim (Result-cases (insert row s)) [
      | inr (c, failed) ↦ inl (ground (arith, valid, free, failed))
      | inl ((w, s'), inserted) ↦ inr (ground (arith, valid, free, inserted))
    ]
  ]
]

-- What the creation of a system may leave: the store as it was, or one more system, in DISCOVERED,
-- with an id that no system had.
pub data Created (s : Store) : Store → Type 0 where
  unchanged : Created s s
  added :
      {s' : Store} (row : System)
      → any (λ (r : System). r.id == row.id) s.scope.systems ≡ false
      → any
          (λ (r : System). r.engagement_id == row.engagement_id && r.slug == row.slug)
          s.scope.systems
        ≡ false
      → row.lifecycle_state ≡ LifecycleState.discovered
      → s'.scope.systems ≡ s.scope.systems ++ row ∷ []
      → s'.scope.lifecycle_events ≡ s.scope.lifecycle_events
      → Created s s'

pub create_system-Created :
    (engagement_id slug name : String) (archetype deployment_mode : Option String) (id : String)
    (now : ℕ) (s : Store)
    → Created s (create_system engagement_id slug name archetype deployment_mode id now s).1
unfolding create_system insert_system
create_system-Created engagement_id slug name archetype deployment_mode id now s =
    let row = new_system engagement_id slug name archetype deployment_mode id now in
    elim (create-cases slug (λ t. Option.map (λ r. r.slug) (find_system engagement_id slug t))
      insert_system row s) [
        | inl same ↦ subst (Created s) (sym same) unchanged
        | inr inserted ↦
            added row (ground (arith, inserted)) (ground (arith, inserted)) refl
              (ground (arith, inserted)) (ground (arith, inserted))
      ]

-- The systems and the log of two stores are the same.
pub record Untouched (s s' : Store) : Type 0 where
  pub systems : s'.scope.systems ≡ s.scope.systems
  pub events : s'.scope.lifecycle_events ≡ s.scope.lifecycle_events

pub create_firm-Untouched :
    (slug name id : String) (now : ℕ) (s : Store) → Untouched s (create_firm slug name id now s).1
unfolding create_firm insert_firm
create_firm-Untouched slug name id now s =
    elim (create-cases slug (λ t. Option.map (λ r. r.slug) (find_firm slug t)) insert_firm
      (record { id = id; slug = slug; name = name; created_at = now }) s) [
        | inl same ↦ record {
          systems = ap (λ t. t.scope.systems) same;
          events = ap (λ t. t.scope.lifecycle_events) same;
        }
        | inr inserted ↦ record {
          systems = ground (arith, inserted);
          events = ground (arith, inserted);
        }
      ]

pub create_engagement-Untouched :
    (firm_id slug name : String) (client_label : Option String) (id : String) (now : ℕ) (s : Store)
    → Untouched s (create_engagement firm_id slug name client_label id now s).1
unfolding create_engagement insert_engagement
create_engagement-Untouched firm_id slug name client_label id now s =
    elim (create-cases slug (λ t. Option.map (λ r. r.slug) (find_engagement firm_id slug t))
      insert_engagement
      (record {
        id = id;
        firm_id = firm_id;
        slug = slug;
        name = name;
        client_label = client_label;
        created_at = now;
      })
      s) [
        | inl same ↦ record {
          systems = ap (λ t. t.scope.systems) same;
          events = ap (λ t. t.scope.lifecycle_events) same;
        }
        | inr inserted ↦ record {
          systems = ground (arith, inserted);
          events = ground (arith, inserted);
        }
      ]

pub create_environment-Untouched :
    (system_id slug name : String) (is_billable : Bool) (data_residency_region : Option String)
    (id : String) (now : ℕ) (s : Store)
    → Untouched s
        (create_environment system_id slug name is_billable data_residency_region id now s).1
unfolding create_environment insert_environment
create_environment-Untouched system_id slug name is_billable data_residency_region id now s =
    elim (create-cases slug (λ t. Option.map (λ r. r.slug) (find_environment system_id slug t))
      insert_environment
      (record {
        id = id;
        system_id = system_id;
        slug = slug;
        name = name;
        is_billable = is_billable;
        data_residency_region = data_residency_region;
        created_at = now;
      })
      s) [
        | inl same ↦ record {
          systems = ap (λ t. t.scope.systems) same;
          events = ap (λ t. t.scope.lifecycle_events) same;
        }
        | inr inserted ↦ record {
          systems = ground (arith, inserted);
          events = ground (arith, inserted);
        }
      ]

-- One operation of the scope facade.
pub data Step (s : Store) : Store → Type 0 where
  created_firm : (slug name id : String) (now : ℕ) → Step s (create_firm slug name id now s).1
  created_engagement :
      (firm_id slug name : String) (client_label : Option String) (id : String) (now : ℕ)
      → Step s (create_engagement firm_id slug name client_label id now s).1
  created_system :
      (engagement_id slug name : String) (archetype deployment_mode : Option String) (id : String)
      (now : ℕ)
      → Step s (create_system engagement_id slug name archetype deployment_mode id now s).1
  created_environment :
      (system_id slug name : String) (is_billable : Bool) (data_residency_region : Option String)
      (id : String) (now : ℕ)
      → Step s (create_environment system_id slug name is_billable data_residency_region id now s).1
  moved : (t : Transition) → Step s (transition t s).1

pub data Reaches (s : Store) : Store → Type 0 where
  start : Reaches s s
  next : {s1 s2 : Store} → Reaches s s1 → Step s1 s2 → Reaches s s2
