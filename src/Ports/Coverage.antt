-- ===== src/Ports/Coverage.antt =====
-- packages/adopt-store/src/adopt_store/sqlite/records.py: `SqliteCoverageRecords`.
use onboard_core.Base.{
  ℕ, String, Bool, Option, none, some, List, any, filter, length, nat_eq, ◌&&◌, if◌then◌else◌, ◌==◌,
  sort_by,
}
use onboard_core.Model.Enums.{BindingStatus, IdentityStatus, Verification}
use onboard_core.Model.Tables.{Identity, KnowledgeItem, Binding, ObservabilityBoundary, AudienceTag}
use onboard_core.Store.Tables.{Store}
use onboard_core.Coverage.Recompute.{CoverageRecords}
use onboard_core.Ports.Queries.{
  in_environment, is_unsuperseded, last_identity_status, binding_rows, item_rows, last_under,
}

module _ (s : Store) where
  -- WHERE i.system_id = ? AND i.environment_id = ?
  abbrev pub is_in_scope : String → Option String → Identity → Bool
  is_in_scope system_id environment_id i =
      i.system_id == system_id && in_environment environment_id i.environment_id

  -- JOIN identity i ON i.id = ? WHERE ...
  abbrev pub joins_scope : String → Option String → String → Bool
  joins_scope system_id environment_id id =
      any (λ i. i.id == id && is_in_scope system_id environment_id i) s.parents.identities

  unfoldable pub identities_in_scope : String → Option String → List Identity
  identities_in_scope system_id environment_id =
      sort_by (λ row. row.id) (filter (is_in_scope system_id environment_id) s.parents.identities)

  unfoldable pub scoped_identity_statuses : String → Option String → String → Option IdentityStatus
  unfolding last_identity_status
  scoped_identity_statuses system_id environment_id id =
      let rows = s.revisions.identity_revisions in
      last_identity_status
        (λ r. joins_scope system_id environment_id r.identity_id && is_unsuperseded rows r) id rows

  unfoldable pub bindings_in_scope : String → Option String → List Binding
  bindings_in_scope system_id environment_id =
      sort_by (λ row. row.id)
        (filter (λ b. joins_scope system_id environment_id b.identity_id) s.parents.bindings)

  unfoldable pub scoped_binding_statuses : String → Option String → String → Option BindingStatus
  unfolding binding_rows
  scoped_binding_statuses system_id environment_id id = last_under id (
      binding_rows (λ b. joins_scope system_id environment_id b.identity_id)
        s.revisions.binding_revisions s.parents.bindings)

  unfoldable pub items_in_scope : String → List KnowledgeItem
  items_in_scope system_id =
      sort_by (λ row. row.id) (filter (λ k. k.system_id == system_id) s.parents.items)

  unfoldable pub head_item_verifications : String → String → Option (Option Verification)
  unfolding item_rows
  head_item_verifications system_id id =
      last_under id (item_rows system_id s.revisions.knowledge_revisions s.parents.items)

  -- GROUP BY a.item_id: an item with no tags has no row.
  unfoldable pub audience_counts : String → String → Option ℕ
  audience_counts system_id id =
      let tally = length (
        filter
          (λ (a : AudienceTag).
            a.item_id == id
            && any (λ (k : KnowledgeItem). k.id == a.item_id && k.system_id == system_id)
                s.parents.items)
          s.observed.audience_tags) in
      if nat_eq tally 0 then none else some tally

  unfoldable pub boundaries_for_system : String → List ObservabilityBoundary
  boundaries_for_system system_id =
      sort_by (λ row. row.id) (filter (λ b. b.system_id == system_id) s.observed.boundaries)

  -- The port.
  unfoldable pub coverage_records : CoverageRecords
  coverage_records = record {
    identities_in_scope = identities_in_scope;
    head_identity_statuses = scoped_identity_statuses;
    bindings_in_scope = bindings_in_scope;
    head_binding_statuses = scoped_binding_statuses;
    items_in_scope = items_in_scope;
    head_item_verifications = head_item_verifications;
    audience_counts = audience_counts;
    boundaries_for_system = boundaries_for_system;
  }
