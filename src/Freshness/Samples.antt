-- ===== src/Freshness/Samples.antt =====
-- A store with one knowledge item, two bindings and one sensor, and what it resolves to.
use onboard_core.Base.{
  ℕ, String, Bool, true, false, ◌≡◌, refl, Option, none, some, [], ◌∷◌, Memᴰ, Permᴰ, ◌↔◌, arith,
  KeysDiffer, pair-KeysDiffer, sort_by,
}
use onboard_core.Obs.{ok}
use onboard_core.Model.Enums.{
  BindingStatus, FreshnessState, IdentityStatus, ItemKind, SensorHealth, is_healthy,
}
use onboard_core.Model.Tables.{KnowledgeItem, Binding, Sensor}
use onboard_core.Freshness.Sensors.{sensor_effective_health, first_unhealthy}
use onboard_core.Freshness.Resolve.{
  item_blocker, is_consulted, binding_blocker, FreshnessLevel, Rule, FreshnessResolution,
  FreshnessRecords, load_bearing_blocker, resolve_freshness,
}
use onboard_core.Freshness.Bindings.{load_bearing_blocker-perm, by_id}
use onboard_core.Freshness.Rules.{IsFirstStop, load_bearing_blocker_iff}
use onboard_core.Freshness.Silence.{
  IsWorking, sensor_effective_health_iff, silence_lasts, first_unhealthy-none, Works,
}
use onboard_core.Freshness.Precedence.{
  Answers, IsUnblocked, IsObserved, resolve_freshness-Answers, resolve_freshness-fresh,
}
use onboard_core.Freshness.Propagation.{IsKeyed, only_carrying, resolve_freshness-only_carrying}

abbrev item : KnowledgeItem
item = record {
  id = "ki_1";
  firm_id = "firm_1";
  engagement_id = "eng_1";
  system_id = "sys_1";
  environment_id = some "env_1";
  kind = ItemKind.procedure;
  title = "Retry a payment";
  current_revision_id = some "krev_1";
  freshness_state = FreshnessState.fresh;
  created_at = 0;
  updated_at = 0;
}

abbrev bind : String → String → Bool → FreshnessState → Binding
bind id identity_id is_load_bearing state = record {
  id = id;
  item_id = "ki_1";
  identity_id = identity_id;
  current_revision_id = none;
  is_load_bearing = is_load_bearing;
  freshness_state = state;
  created_at = 0;
}

abbrev carrying : Binding
carrying = bind "bnd_1" "idn_1" true FreshnessState.fresh

abbrev passive : Binding
passive = bind "bnd_2" "idn_2" false FreshnessState.stale

abbrev lapsed : Binding
lapsed = bind "bnd_3" "idn_3" true FreshnessState.stale

abbrev sensor : Sensor
sensor = record {
  id = "sens_1";
  system_id = "sys_1";
  environment_id = "env_1";
  health = SensorHealth.healthy;
  expected_cadence_seconds = some 60;
}

abbrev statuses : String → Option BindingStatus
statuses id = some BindingStatus.active

abbrev identities : String → Option IdentityStatus
identities id = some IdentityStatus.active

abbrev heartbeats : String → Option ℕ
heartbeats id = some 1000

abbrev port : FreshnessRecords
port = record {
  get_item = λ id. some item;
  bindings_for_item = λ id. carrying ∷ passive ∷ [];
  head_binding_statuses = λ ids. statuses;
  head_identity_statuses = λ ids. identities;
  sensors_in_scope = λ system_id environment_id. sensor ∷ [];
  latest_heartbeat_at = λ ids. heartbeats;
}

abbrev resolved : FreshnessResolution
resolved = record {
  item_id = "ki_1";
  state = FreshnessState.fresh;
  level = FreshnessLevel.knowledge_revision;
  deciding_rule = Rule.item_state;
  sensor_id = none;
}

resolves : resolve_freshness port 2000 "ki_1" ≡ ok resolved
unfolding resolve_freshness load_bearing_blocker first_unhealthy item_blocker sort_by is_consulted
    binding_blocker
resolves = refl

resolve_freshness-Answers_example :
    Answers port 2000 "ki_1" (some item) (resolve_freshness port 2000 "ki_1")
resolve_freshness-Answers_example = resolve_freshness-Answers port 2000 "ki_1"

resolve_freshness-fresh_example : (resolved.state ≡ FreshnessState.fresh) ↔ (
    (item.freshness_state ≡ FreshnessState.fresh)
    × IsUnblocked port 2000 "ki_1"
    × IsObserved port 2000 item)
resolve_freshness-fresh_example =
    resolve_freshness-fresh port 2000 "ki_1" item resolved refl resolves

keyed : IsKeyed port
keyed = record { bindings_keyed = λ ids id m. refl; identities_keyed = λ ids id m. refl }

resolve_freshness-only_carrying_example :
    resolve_freshness (only_carrying port) 2000 "ki_1" ≡ resolve_freshness port 2000 "ki_1"
resolve_freshness-only_carrying_example = resolve_freshness-only_carrying port keyed 2000 "ki_1"

swapped : Permᴰ (lapsed ∷ carrying ∷ []) (carrying ∷ lapsed ∷ [])
swapped = Permᴰ.swap refl refl

differ : KeysDiffer by_id (lapsed ∷ carrying ∷ [])
differ = pair-KeysDiffer by_id lapsed carrying refl

load_bearing_blocker_iff_example :
    (load_bearing_blocker statuses identities (lapsed ∷ carrying ∷ [])
      ≡ some (FreshnessLevel.binding, Rule.load_bearing_binding_stale))
    ↔ IsFirstStop statuses identities
        (lapsed ∷ carrying ∷ [])
        (FreshnessLevel.binding, Rule.load_bearing_binding_stale)
load_bearing_blocker_iff_example =
    load_bearing_blocker_iff statuses identities (lapsed ∷ carrying ∷ [])
      (FreshnessLevel.binding, Rule.load_bearing_binding_stale) differ

load_bearing_blocker-perm_example :
    load_bearing_blocker statuses identities (lapsed ∷ carrying ∷ [])
    ≡ load_bearing_blocker statuses identities (carrying ∷ lapsed ∷ [])
load_bearing_blocker-perm_example = load_bearing_blocker-perm statuses identities swapped differ

sensor_effective_health_iff_example :
    (sensor_effective_health sensor 2000 (some 1000) ≡ SensorHealth.healthy)
    ↔ IsWorking sensor 2000 (some 1000)
sensor_effective_health_iff_example = sensor_effective_health_iff sensor 2000 (some 1000)

silent : is_healthy (sensor_effective_health sensor 200000000 (some 1000)) ≡ false
unfolding sensor_effective_health
silent = refl

silence_lasts_example : is_healthy (sensor_effective_health sensor 300000000 (some 1000)) ≡ false
silence_lasts_example = silence_lasts sensor 200000000 300000000 (some 1000) (ground arith) silent

first_unhealthy-none_example :
    (first_unhealthy 2000 heartbeats (sensor ∷ []) ≡ none)
    ↔ ((s : Sensor) → Memᴰ s (sensor ∷ []) → Works 2000 heartbeats s)
first_unhealthy-none_example = first_unhealthy-none 2000 heartbeats (sensor ∷ [])
