-- ===== src/Ports/Queries.antt =====
-- packages/adopt-store/src/adopt_store/sqlite/records.py: the conditions and joins that its queries
-- share. `id` is the primary key of each table, so a join with it keeps a row at most once.
use mathlib.Core.Option
use onboard_core.Base.{
  ℕ, String, Bool, true, false, Option, none, some, List, [], ◌∷◌, ◌++◌, map, any, filter, not,
  ◌&&◌, if◌then◌else◌, ◌==◌, ltb,
}
use onboard_core.Model.Enums.{BindingStatus, IdentityStatus, Verification}
use onboard_core.Model.Tables.{
  KnowledgeItem, Binding, SensorHeartbeat, IdentityRevision, BindingRevision, KnowledgeRevision,
}
use onboard_core.Revisions.Statements.{newest}

-- column = ?, where NULL equals nothing
abbrev pub equals : Option String → String → Bool
equals none id = false
equals (some held) id = held == id

-- id IN (...)
abbrev pub is_among : List String → String → Bool
is_among ids id = any (λ one. one == id) ids

-- The environment predicate, which a missing environment leaves out.
abbrev pub in_environment : Option String → String → Bool
in_environment none held = true
in_environment (some environment_id) held = held == environment_id

-- _UNSUPERSEDED_IDENTITY_REVISION
unfoldable pub is_unsuperseded : List IdentityRevision → IdentityRevision → Bool
is_unsuperseded rows r =
    not (any (λ (q : IdentityRevision). equals q.supersedes_revision_id r.id) rows)

-- The entry under an id of `{row["identity_id"]: row["status"] for row in rows}`, where the rows are
-- ordered by `created_at, id`: that of the last of them.
unfoldable pub last_identity_status :
    (IdentityRevision → Bool) → String → List IdentityRevision → Option IdentityStatus
unfolding newest
last_identity_status asked id rows =
    Option.map (λ r. r.status) (newest (filter (λ r. asked r && r.identity_id == id) rows))

-- JOIN binding_revision rev ON rev.id = b.current_revision_id
abbrev pub binding_join : List BindingRevision → Binding → List (String × BindingStatus)
binding_join revisions b =
    map (λ rev. (b.id, rev.status)) (filter (λ rev. equals b.current_revision_id rev.id) revisions)

unfoldable pub binding_rows :
    (Binding → Bool) → List BindingRevision → List Binding → List (String × BindingStatus)
binding_rows asked revisions [] = []
binding_rows asked revisions (b ∷ bs) =
    let rest = binding_rows asked revisions bs in
    if asked b then binding_join revisions b ++ rest else rest

-- JOIN knowledge_revision rev ON rev.id = k.current_revision_id
abbrev pub item_join : List KnowledgeRevision → KnowledgeItem → List (String × Option Verification)
item_join revisions k =
    map (λ rev. (k.id, rev.verification))
      (filter (λ rev. equals k.current_revision_id rev.id) revisions)

unfoldable pub item_rows :
    String → List KnowledgeRevision → List KnowledgeItem → List (String × Option Verification)
item_rows system_id revisions [] = []
item_rows system_id revisions (k ∷ ks) =
    let rest = item_rows system_id revisions ks in
    if k.system_id == system_id then item_join revisions k ++ rest else rest

-- `{row[0]: row[1] for row in rows}`: the last row with a key stays.
unfoldable pub last_under {ℓ} : {A : Type ℓ} → String → List (String × A) → Option A
last_under key [] = none
last_under key (row ∷ rows) = elim (last_under key rows) [
  | some later ↦ some later
  | none ↦ if row.0 == key then some row.1 else none
]

-- MAX(observed_at), of the heartbeats of one sensor
unfoldable pub latest_of : String → List SensorHeartbeat → Option ℕ
latest_of sensor_id [] = none
latest_of sensor_id (h ∷ hs) =
    let rest = latest_of sensor_id hs in
    if h.sensor_id == sensor_id
    then (elim rest [
      | none ↦ some h.observed_at
      | some at ↦ some (if ltb at h.observed_at then h.observed_at else at)
    ])
    else rest
