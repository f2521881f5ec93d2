-- ===== src/Freshness/Resolve.antt =====
-- packages/adopt-freshness/src/adopt_freshness/resolve.py and records.py: `resolve_freshness` over
-- its read port.
use onboard_core.Base.{
  ℕ, String, Bool, Option, none, some, List, [], ◌∷◌, map, ◌&&◌, not, if◌then◌else◌, sort_by,
}
use onboard_core.Obs.{Result, ok, err, scope_violation}
use onboard_core.Model.Enums.{
  BindingStatus, FreshnessState, IdentityStatus, SensorHealth, is_healthy, is_sensor_stale,
  is_fresh, is_retired, is_stale, is_binding_moved, is_binding_retired, is_identity_dead,
  is_identity_moved,
}
use onboard_core.Model.Tables.{KnowledgeItem, Binding, Sensor}
use onboard_core.Freshness.Sensors.{first_unhealthy}

pub data FreshnessLevel : Type 0 where
  source binding knowledge_revision system : FreshnessLevel

pub data Rule : Type 0 where
  item_retired load_bearing_identity_dead load_bearing_identity_moved : Rule
  load_bearing_binding_retired load_bearing_binding_stale : Rule
  sensor_health_override sensor_missed_cadence item_state : Rule

pub record FreshnessResolution : Type 0 where
  pub item_id : String
  pub state : FreshnessState
  pub level : FreshnessLevel
  pub deciding_rule : Rule
  pub sensor_id : Option String

-- The read port. A mapping is a function of the key, with `none` for a key that it lacks.
pub record FreshnessRecords : Type 0 where
  pub get_item : String → Option KnowledgeItem
  pub bindings_for_item : String → List Binding
  pub head_binding_statuses : List String → String → Option BindingStatus
  pub head_identity_statuses : List String → String → Option IdentityStatus
  pub sensors_in_scope : String → Option String → List Sensor
  pub latest_heartbeat_at : List String → String → Option ℕ

-- The two `continue`s of the loop: a binding that is not load-bearing, and one that was superseded.
unfoldable pub is_consulted : (String → Option BindingStatus) → Binding → Bool
is_consulted statuses b = b.is_load_bearing && not (is_binding_moved (statuses b.id))

-- The rest of the loop's body: what one consulted binding says.
unfoldable pub binding_blocker :
    (String → Option BindingStatus)
    → (String → Option IdentityStatus)
    → Binding
    → Option (FreshnessLevel × Rule)
binding_blocker binding_statuses identity_statuses b =
    if is_identity_dead (identity_statuses b.identity_id)
    then some (source, load_bearing_identity_dead)
    else if is_identity_moved (identity_statuses b.identity_id)
    then some (source, load_bearing_identity_moved)
    else if is_binding_retired (binding_statuses b.id)
    then some (binding, load_bearing_binding_retired)
    else if is_stale b.freshness_state
    then some (binding, load_bearing_binding_stale)
    else none

-- The loop of `_load_bearing_blocker`, over the sorted bindings.
unfoldable pub load_bearing_blocker_in :
    (String → Option BindingStatus)
    → (String → Option IdentityStatus)
    → List Binding
    → Option (FreshnessLevel × Rule)
load_bearing_blocker_in binding_statuses identity_statuses [] = none
load_bearing_blocker_in binding_statuses identity_statuses (b ∷ rest) =
    let next = load_bearing_blocker_in binding_statuses identity_statuses rest in
    if is_consulted binding_statuses b
    then (elim (binding_blocker binding_statuses identity_statuses b) [
      | none ↦ next
      | some found ↦ some found
    ])
    else next

unfoldable pub load_bearing_blocker :
    (String → Option BindingStatus)
    → (String → Option IdentityStatus)
    → List Binding
    → Option (FreshnessLevel × Rule)
unfolding load_bearing_blocker_in
load_bearing_blocker binding_statuses identity_statuses bindings =
    load_bearing_blocker_in binding_statuses identity_statuses (sort_by (λ row. row.id) bindings)

module _ (records : FreshnessRecords) (now : ℕ) where
  unfoldable pub item_blocker : String → Option (FreshnessLevel × Rule)
  item_blocker item_id =
      let bindings = records.bindings_for_item item_id in
      load_bearing_blocker (records.head_binding_statuses (map (λ row. row.id) bindings))
        (records.head_identity_statuses (map (λ row. row.identity_id) bindings)) bindings

  abbrev pub scope_unhealthy : KnowledgeItem → Option (Sensor × SensorHealth)
  scope_unhealthy item =
      let sensors = records.sensors_in_scope item.system_id item.environment_id in
      first_unhealthy now (records.latest_heartbeat_at (map (λ row. row.id) sensors)) sensors

  unfoldable pub override_rule : Sensor → SensorHealth → Rule
  override_rule sensor effective =
      if is_sensor_stale effective && is_healthy sensor.health
      then sensor_missed_cadence
      else sensor_health_override

  -- What is left once no binding blocks: the sensor override, and the item's own state.
  unfoldable pub system_level : String → KnowledgeItem → FreshnessResolution
  unfolding override_rule
  system_level item_id item =
      let own : FreshnessResolution = record {
        item_id = item_id;
        state = item.freshness_state;
        level = knowledge_revision;
        deciding_rule = item_state;
        sensor_id = none;
      } in
      if is_fresh item.freshness_state
      then (elim (scope_unhealthy item) [
        | none ↦ own
        | some (sensor, effective) ↦ record {
          item_id = item_id;
          state = FreshnessState.observation_stale;
          level = system;
          deciding_rule = override_rule sensor effective;
          sensor_id = some sensor.id;
        }
      ])
      else own

  unfoldable pub resolve_item : String → KnowledgeItem → FreshnessResolution
  unfolding system_level
  resolve_item item_id item =
      if is_retired item.freshness_state
      then record {
        item_id = item_id;
        state = FreshnessState.retired;
        level = knowledge_revision;
        deciding_rule = item_retired;
        sensor_id = none;
      }
      else (elim (item_blocker item_id) [
        | some (level, rule) ↦ record {
          item_id = item_id;
          state = FreshnessState.stale;
          level = level;
          deciding_rule = rule;
          sensor_id = none;
        }
        | none ↦ system_level item_id item
      ])

  unfoldable pub resolve_freshness : String → Result FreshnessResolution
  unfolding resolve_item
  resolve_freshness item_id = elim (records.get_item item_id) [
    | none ↦ err scope_violation
    | some item ↦ ok (resolve_item item_id item)
  ]
