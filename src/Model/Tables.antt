-- ===== src/Model/Tables.antt =====
-- packages/adopt-model/src/adopt_model/_tables.py: the rows that the modelled components exchange.
-- A timestamp is a number of microseconds, a confidence a number of millionths, an enumeration one
-- of the vocabularies; columns that no modelled operation reads or writes are left out.
use onboard_core.Base.{ℕ, String, Bool, Option}
use onboard_core.Model.Enums.{
  AuthorityClass, BindingStatus, DiffMethod, FreshnessState, IdentityStatus, ItemKind,
  LifecycleState, LocatorRung, ProbeDefinitionStatus, SafePath, SensorHealth, Verification,
}

pub record Firm : Type 0 where
  pub id : String
  pub slug : String
  pub name : String
  pub created_at : ℕ

pub record Engagement : Type 0 where
  pub id : String
  pub firm_id : String
  pub slug : String
  pub name : String
  pub client_label : Option String
  pub created_at : ℕ

pub record System : Type 0 where
  pub id : String
  pub engagement_id : String
  pub slug : String
  pub name : String
  pub archetype : Option String
  pub lifecycle_state : LifecycleState
  pub deployment_mode : Option String
  pub created_at : ℕ
  pub updated_at : ℕ

pub record Environment : Type 0 where
  pub id : String
  pub system_id : String
  pub slug : String
  pub name : String
  pub is_billable : Bool
  pub data_residency_region : Option String
  pub created_at : ℕ

pub record SystemLifecycleEvent : Type 0 where
  pub id : String
  pub system_id : String
  pub from_state : Option LifecycleState
  pub to_state : LifecycleState
  pub reason : String
  pub related_system_id : Option String
  pub occurred_at : ℕ
  pub actor_id : Option String

pub record Identity : Type 0 where
  pub id : String
  pub uri : String
  pub system_id : String
  pub environment_id : String
  pub covered_cache : Bool
  pub covered_cache_at : Option ℕ

pub record KnowledgeItem : Type 0 where
  pub id : String
  pub firm_id : String
  pub engagement_id : String
  pub system_id : String
  pub environment_id : Option String
  pub kind : ItemKind
  pub title : String
  pub current_revision_id : Option String
  pub freshness_state : FreshnessState
  pub created_at : ℕ
  pub updated_at : ℕ

pub record Binding : Type 0 where
  pub id : String
  pub item_id : String
  pub identity_id : String
  pub current_revision_id : Option String
  pub is_load_bearing : Bool
  pub freshness_state : FreshnessState
  pub created_at : ℕ

pub record Sensor : Type 0 where
  pub id : String
  pub system_id : String
  pub environment_id : String
  pub health : SensorHealth
  pub expected_cadence_seconds : Option ℕ

pub record SensorHeartbeat : Type 0 where
  pub sensor_id : String
  pub observed_at : ℕ

pub record ObservabilityBoundary : Type 0 where
  pub id : String
  pub system_id : String
  pub environment_id : Option String

pub record AudienceTag : Type 0 where
  pub item_id : String
  pub audience : String

pub record ProbeDefinition : Type 0 where
  pub id : String
  pub system_id : String
  pub environment_id : String
  pub name : String
  pub current_revision_id : Option String

pub record IdentityRevision : Type 0 where
  pub id : String
  pub identity_id : String
  pub extractor : Option String
  pub extractor_version : Option String
  pub source_version : Option String
  pub source_ref : Option String
  pub confidence : Option ℕ
  pub alias_of_identity_id : Option String
  pub status : IdentityStatus
  pub supersedes_revision_id : Option String
  pub created_at : ℕ
  pub created_by_actor_id : Option String

pub record KnowledgeRevision : Type 0 where
  pub id : String
  pub item_id : String
  pub body_md : Option String
  pub recipe_json : Option String
  pub authority_class : AuthorityClass
  pub verification : Option Verification
  pub confidence : Option ℕ
  pub snapshot_date : Option ℕ
  pub source_version : Option String
  pub classifier_version_id : Option String
  pub supersedes_revision_id : Option String
  pub created_at : ℕ
  pub created_by_actor_id : Option String

pub record BindingRevision : Type 0 where
  pub id : String
  pub binding_id : String
  pub extractor : Option String
  pub extractor_version : Option String
  pub confidence : Option ℕ
  pub locator_rung : Option LocatorRung
  pub status : BindingStatus
  pub supersedes_revision_id : Option String
  pub created_at : ℕ
  pub created_by_actor_id : Option String

pub record ProbeDefinitionRevision : Type 0 where
  pub id : String
  pub probe_definition_id : String
  pub interaction : String
  pub safe_path : SafePath
  pub diff_method : DiffMethod
  pub status : ProbeDefinitionStatus
  pub capability_manifest : String
  pub artifact_signature : Option String
  pub approved_by : Option String
  pub approved_at : Option ℕ
  pub approval_expires_at : Option ℕ
  pub supersedes_revision_id : Option String
  pub created_at : ℕ
