-- ===== src/Ports/Freshness.antt =====
-- packages/adopt-store/src/adopt_store/sqlite/records.py: `SqliteFreshnessRecords`. A query with no ids
-- is not sent, and its mapping is empty, as `id IN ()` makes it here.
use onboard_core.Base.{ℕ, String, Option, none, List, filter, ◌&&◌, if◌then◌else◌, ◌==◌, sort_by}
use onboard_core.Model.Enums.{BindingStatus, IdentityStatus}
use onboard_core.Model.Tables.{Binding, Sensor}
use onboard_core.Store.Tables.{Store}
use onboard_core.Freshness.Resolve.{FreshnessRecords}
use onboard_core.Revisions.Statements.{get_item}
use onboard_core.Ports.Queries.{
  is_among, in_environment, is_unsuperseded, last_identity_status, binding_rows, last_under,
  latest_of,
}

module _ (s : Store) where
  unfoldable pub bindings_for_item : String → List Binding
  bindings_for_item item_id =
      sort_by (λ row. row.id) (filter (λ b. b.item_id == item_id) s.parents.bindings)

  unfoldable pub head_binding_statuses : List String → String → Option BindingStatus
  unfolding binding_rows
  head_binding_statuses binding_ids id = last_under id (
      binding_rows (λ b. is_among binding_ids b.id) s.revisions.binding_revisions
        s.parents.bindings)

  unfoldable pub head_identity_statuses : List String → String → Option IdentityStatus
  unfolding last_identity_status
  head_identity_statuses identity_ids id =
      let rows = s.revisions.identity_revisions in
      last_identity_status (λ r. is_among identity_ids r.identity_id && is_unsuperseded rows r) id
        rows

  unfoldable pub sensors_in_scope : String → Option String → List Sensor
  sensors_in_scope system_id environment_id =
      sort_by (λ row. row.id)
        (filter
          (λ row. row.system_id == system_id && in_environment environment_id row.environment_id)
          s.observed.sensors)

  unfoldable pub latest_heartbeat_at : List String → String → Option ℕ
  unfolding latest_of
  latest_heartbeat_at sensor_ids id =
      if is_among sensor_ids id then latest_of id s.observed.heartbeats else none

  -- The port.
  unfoldable pub freshness_records : FreshnessRecords
  freshness_records = record {
    get_item = λ item_id. get_item item_id s;
    bindings_for_item = bindings_for_item;
    head_binding_statuses = head_binding_statuses;
    head_identity_statuses = head_identity_statuses;
    sensors_in_scope = sensors_in_scope;
    latest_heartbeat_at = latest_heartbeat_at;
  }
