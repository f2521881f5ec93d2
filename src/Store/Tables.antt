-- ===== src/Store/Tables.antt =====
-- packages/adopt-store/src/adopt_store/sqlite/store.py and connection.py: a store as its tables, each
-- a list of rows in the order of insertion, and the unit of work.
use onboard_core.Base.{List, String}
use onboard_core.Obs.{Result, ok, err}
use onboard_core.Model.Tables.{
  Firm, Engagement, System, Environment, SystemLifecycleEvent, Identity, KnowledgeItem, Binding,
  Sensor, SensorHeartbeat, ObservabilityBoundary, AudienceTag, ProbeDefinition, IdentityRevision,
  KnowledgeRevision, BindingRevision, ProbeDefinitionRevision,
}

pub record ScopeTables : Type 0 where
  pub firms : List Firm
  pub engagements : List Engagement
  pub systems : List System
  pub environments : List Environment
  pub lifecycle_events : List SystemLifecycleEvent

pub record ParentTables : Type 0 where
  pub identities : List Identity
  pub items : List KnowledgeItem
  pub bindings : List Binding
  pub probe_definitions : List ProbeDefinition

pub record RevisionTables : Type 0 where
  pub identity_revisions : List IdentityRevision
  pub knowledge_revisions : List KnowledgeRevision
  pub binding_revisions : List BindingRevision
  pub probe_definition_revisions : List ProbeDefinitionRevision

pub record ObservedTables : Type 0 where
  pub sensors : List Sensor
  pub heartbeats : List SensorHeartbeat
  pub boundaries : List ObservabilityBoundary
  pub audience_tags : List AudienceTag
  -- The ids of the rows of `classifier_version`.
  pub classifier_versions : List String

pub record Store : Type 0 where
  pub scope : ScopeTables
  pub parents : ParentTables
  pub revisions : RevisionTables
  pub observed : ObservedTables

-- Statements inside a unit of work. A statement that raises leaves no tables to go on with.
abbrev pub Tx : Type 0 → Type 0
Tx A = Store → Result (A × Store)

infixl 5 ◌>>=◌ ◌>>◌
abbrev pub ◌>>=◌ : {A B : Type 0} → Tx A → (A → Tx B) → Tx B
◌>>=◌ m f s = elim (m s) [ ok (a, s') ↦ f a s' | err e ↦ err e ]

abbrev pub ◌>>◌ : {B : Type 0} → Tx (Unit {0}) → Tx B → Tx B
m >> k = m >>= λ _. k

abbrev pub pure : {A : Type 0} → A → Tx A
pure a s = ok (a, s)

-- The outermost `with transaction()`: COMMIT, or ROLLBACK to the tables that it began with.
unfoldable pub transaction : {A : Type 0} → Tx A → Store → Result A × Store
transaction body s = elim (body s) [ ok (a, s') ↦ (ok a, s') | err e ↦ (err e, s) ]
