-- ===== src/Revisions/Statements.antt =====
-- packages/adopt-store/src/adopt_store/sqlite/records.py, `SqliteRevisionRecords` and the part of
-- `SqliteKnowledgeRecords` that the writer uses, with the keys that the schema declares.
use onboard_core.Base.{
  ℕ, String, Bool, true, false, Option, none, some, List, [], ◌∷◌, ◌++◌, map, any, filter, find?,
  not, ◌&&◌, ◌||◌, if◌then◌else◌, ◌==◌, ltb, nat_eq, text_le,
}
use mathlib.Core.Option
use onboard_core.Obs.{ok, err, schema_migration_failed}
use onboard_core.Model.Enums.{FreshnessState}
use onboard_core.Model.Tables.{
  KnowledgeItem, IdentityRevision, KnowledgeRevision, BindingRevision, ProbeDefinitionRevision,
}
use onboard_core.Store.Tables.{Store, ParentTables, RevisionTables, Tx}
use onboard_core.Revisions.Families.{Family, identity, knowledge, binding, probe_definition}

-- A revision as its chain sees it.
pub record Link : Type 0 where
  pub id : String
  pub parent : String
  pub supersedes : Option String

unfoldable pub links : Family → RevisionTables → List Link
links identity t =
    map (λ r. record { id = r.id; parent = r.identity_id; supersedes = r.supersedes_revision_id })
      t.identity_revisions
links knowledge t =
    map (λ r. record { id = r.id; parent = r.item_id; supersedes = r.supersedes_revision_id })
      t.knowledge_revisions
links binding t =
    map (λ r. record { id = r.id; parent = r.binding_id; supersedes = r.supersedes_revision_id })
      t.binding_revisions
links probe_definition t =
    map
      (λ r. record {
        id = r.id;
        parent = r.probe_definition_id;
        supersedes = r.supersedes_revision_id;
      })
      t.probe_definition_revisions

-- The parent rows of a family, each with its head pointer; `identity` has no such column.
unfoldable pub heads : Family → ParentTables → List (String × Option String)
heads identity t = map (λ r. (r.id, none)) t.identities
heads knowledge t = map (λ r. (r.id, r.current_revision_id)) t.items
heads binding t = map (λ r. (r.id, r.current_revision_id)) t.bindings
heads probe_definition t = map (λ r. (r.id, r.current_revision_id)) t.probe_definitions

abbrev pub holds : String → List String → Bool
holds id ids = any (λ j. j == id) ids

abbrev pub holds_optional : Option String → List String → Bool
holds_optional none ids = true
holds_optional (some id) ids = holds id ids

abbrev pub link_ids : Family → Store → List String
link_ids f s = map (λ l. l.id) (links f s.revisions)

abbrev pub parent_ids : Family → Store → List String
parent_ids f s = map (λ h. h.0) (heads f s.parents)

-- PRIMARY KEY (id), and the references to the parent and to the superseded revision.
unfoldable pub accepts : Family → Link → Store → Bool
accepts f link s =
    not (holds link.id (link_ids f s))
    && holds link.parent (parent_ids f s)
    && holds_optional link.supersedes (link_ids f s)

abbrev pub identity_link : IdentityRevision → Link
identity_link row = record {
  id = row.id;
  parent = row.identity_id;
  supersedes = row.supersedes_revision_id;
}

unfoldable pub insert_identity_revision : IdentityRevision → Tx Unit
insert_identity_revision row s =
    if accepts identity (identity_link row) s
      && holds_optional row.alias_of_identity_id (parent_ids identity s)
    then ok (
      tt,
      record s {
        revisions = record s.revisions {
          identity_revisions = s.revisions.identity_revisions ++ row ∷ [];
        };
      },
    )
    else err schema_migration_failed

abbrev pub knowledge_link : KnowledgeRevision → Link
knowledge_link row = record {
  id = row.id;
  parent = row.item_id;
  supersedes = row.supersedes_revision_id;
}

unfoldable pub insert_knowledge_revision : KnowledgeRevision → Tx Unit
insert_knowledge_revision row s =
    if accepts knowledge (knowledge_link row) s
      && holds_optional row.classifier_version_id s.observed.classifier_versions
    then ok (
      tt,
      record s {
        revisions = record s.revisions {
          knowledge_revisions = s.revisions.knowledge_revisions ++ row ∷ [];
        };
      },
    )
    else err schema_migration_failed

abbrev pub binding_link : BindingRevision → Link
binding_link row = record {
  id = row.id;
  parent = row.binding_id;
  supersedes = row.supersedes_revision_id;
}

unfoldable pub insert_binding_revision : BindingRevision → Tx Unit
insert_binding_revision row s =
    if accepts binding (binding_link row) s
    then ok (
      tt,
      record s {
        revisions = record s.revisions {
          binding_revisions = s.revisions.binding_revisions ++ row ∷ [];
        };
      },
    )
    else err schema_migration_failed

abbrev pub probe_definition_link : ProbeDefinitionRevision → Link
probe_definition_link row = record {
  id = row.id;
  parent = row.probe_definition_id;
  supersedes = row.supersedes_revision_id;
}

unfoldable pub insert_probe_definition_revision : ProbeDefinitionRevision → Tx Unit
insert_probe_definition_revision row s =
    if accepts probe_definition (probe_definition_link row) s
    then ok (
      tt,
      record s {
        revisions = record s.revisions {
          probe_definition_revisions = s.revisions.probe_definition_revisions ++ row ∷ [];
        };
      },
    )
    else err schema_migration_failed

-- UPDATE <table> SET current_revision_id = ? WHERE id = ?
unfoldable pub point_heads : Family → String → String → ParentTables → ParentTables
point_heads identity parent_id revision_id t = t
point_heads knowledge parent_id revision_id t = record t {
  items =
      map
        (λ r. if r.id == parent_id then record r { current_revision_id = some revision_id } else r)
        t.items;
}
point_heads binding parent_id revision_id t = record t {
  bindings =
      map
        (λ r. if r.id == parent_id then record r { current_revision_id = some revision_id } else r)
        t.bindings;
}
point_heads probe_definition parent_id revision_id t = record t {
  probe_definitions =
      map
        (λ r. if r.id == parent_id then record r { current_revision_id = some revision_id } else r)
        t.probe_definitions;
}

unfoldable pub advance_head : Family → String → String → Tx Unit
unfolding point_heads
advance_head f parent_id revision_id s =
    ok (tt, record s { parents = point_heads f parent_id revision_id s.parents })

-- SELECT current_revision_id FROM <table> WHERE id = ?
unfoldable pub pointed : String → List (String × Option String) → Option String
pointed parent_id [] = none
pointed parent_id (h ∷ hs) = if h.0 == parent_id then h.1 else pointed parent_id hs

unfoldable pub head_of : Family → String → Store → Option String
unfolding pointed heads
head_of f parent_id s = pointed parent_id (heads f s.parents)

-- The first of two rows in the order `created_at DESC, id DESC`.
abbrev pub newer : IdentityRevision → IdentityRevision → Bool
newer a b = ltb b.created_at a.created_at || nat_eq a.created_at b.created_at && text_le b.id a.id

unfoldable pub newest : List IdentityRevision → Option IdentityRevision
newest [] = none
newest (r ∷ rs) = elim (newest rs) [ none ↦ some r | some q ↦ some (if newer r q then r else q) ]

unfoldable pub derived_identity_head : String → Store → Option String
unfolding newest
derived_identity_head identity_id s =
    let rows = filter (λ r. r.identity_id == identity_id) s.revisions.identity_revisions in
    let superseded = λ (r : IdentityRevision).
      any
        (λ (q : IdentityRevision). elim q.supersedes_revision_id [
          | none ↦ false
          | some id ↦ id == r.id
        ])
        rows in
    Option.map (λ r. r.id) (newest (filter (λ r. not (superseded r)) rows))

-- UPDATE knowledge_item SET freshness_state = ?, updated_at = ? WHERE id = ?
abbrev pub with_freshness : FreshnessState → ℕ → KnowledgeItem → KnowledgeItem
with_freshness state at r = record r { freshness_state = state; updated_at = at }

unfoldable pub set_item_freshness : String → FreshnessState → ℕ → Tx Unit
set_item_freshness item_id state at s = ok (
  tt,
  record s {
    parents = record s.parents {
      items = map (λ r. if r.id == item_id then with_freshness state at r else r) s.parents.items;
    };
  },
)

unfoldable pub get_item : String → Store → Option KnowledgeItem
get_item item_id s = find? (λ r. r.id == item_id) s.parents.items

-- PRIMARY KEY (id), and the references to the scope.
unfoldable pub insert_item : KnowledgeItem → Tx Unit
insert_item row s =
    if not (holds row.id (parent_ids knowledge s))
      && holds row.firm_id (map (λ r. r.id) s.scope.firms)
      && holds row.engagement_id (map (λ r. r.id) s.scope.engagements)
      && holds row.system_id (map (λ r. r.id) s.scope.systems)
      && holds_optional row.environment_id (map (λ r. r.id) s.scope.environments)
    then ok (tt, record s { parents = record s.parents { items = s.parents.items ++ row ∷ [] } })
    else err schema_migration_failed
