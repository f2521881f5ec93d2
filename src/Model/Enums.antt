-- ===== src/Model/Enums.antt =====
-- packages/adopt-model/src/adopt_model/_enums.py: the vocabularies that the modelled rows use, and
-- the tests for a value that the components write as `== "..."`.
use onboard_core.Base.{Bool, true, false, Option, some}

pub data AuthorityClass : Type 0 where
  artifact_observed behavior_observed human_confirmed : AuthorityClass

pub data BindingStatus : Type 0 where
  active moved retired : BindingStatus

pub data DiffMethod : Type 0 where
  exact embedding_sim llm_judge contract_delta : DiffMethod

pub data FreshnessState : Type 0 where
  fresh stale unverified retired observation_stale : FreshnessState

pub data IdentityKind : Type 0 where
  endpoint db_field state_transition symbol metadata_component prompt : IdentityKind
  tool_schema model_pin retrieval_config flag job config_key ui_component : IdentityKind

pub data IdentityStatus : Type 0 where
  active moved dead : IdentityStatus

pub data ItemKind : Type 0 where
  answer procedure rationale surface recipe : ItemKind

pub data LifecycleState : Type 0 where
  discovered setup pilot live paused degraded archived disconnected : LifecycleState

pub data LocatorRung : Type 0 where
  rung1 rung2 rung3 rung4 rung5 : LocatorRung

pub data ProbeDefinitionStatus : Type 0 where
  active retired : ProbeDefinitionStatus

pub data SafePath : Type 0 where
  mock sandbox shadow : SafePath

pub data SensorHealth : Type 0 where
  healthy degraded stale failed disabled unverified : SensorHealth

pub data Verification : Type 0 where
  verified unverified conflicted : Verification

abbrev pub is_healthy : SensorHealth → Bool
is_healthy SensorHealth.healthy = true
is_healthy _ = false

abbrev pub is_sensor_stale : SensorHealth → Bool
is_sensor_stale SensorHealth.stale = true
is_sensor_stale _ = false

abbrev pub is_fresh : FreshnessState → Bool
is_fresh FreshnessState.fresh = true
is_fresh _ = false

abbrev pub is_retired : FreshnessState → Bool
is_retired FreshnessState.retired = true
is_retired _ = false

-- `state in ("stale", "observation_stale")`
abbrev pub is_stale : FreshnessState → Bool
is_stale FreshnessState.stale = true
is_stale FreshnessState.observation_stale = true
is_stale _ = false

-- Tests on what a mapping's `get` returns: a missing key passes none of them.
abbrev pub is_binding_moved : Option BindingStatus → Bool
is_binding_moved (some BindingStatus.moved) = true
is_binding_moved _ = false

abbrev pub is_binding_retired : Option BindingStatus → Bool
is_binding_retired (some BindingStatus.retired) = true
is_binding_retired _ = false

abbrev pub is_identity_active : Option IdentityStatus → Bool
is_identity_active (some IdentityStatus.active) = true
is_identity_active _ = false

abbrev pub is_identity_dead : Option IdentityStatus → Bool
is_identity_dead (some IdentityStatus.dead) = true
is_identity_dead _ = false

abbrev pub is_identity_moved : Option IdentityStatus → Bool
is_identity_moved (some IdentityStatus.moved) = true
is_identity_moved _ = false

abbrev pub is_verified : Option Verification → Bool
is_verified (some Verification.verified) = true
is_verified _ = false

abbrev pub is_conflicted : Option Verification → Bool
is_conflicted (some Verification.conflicted) = true
is_conflicted _ = false
