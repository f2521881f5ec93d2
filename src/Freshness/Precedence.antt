-- ===== src/Freshness/Precedence.antt =====
-- packages/adopt-freshness/src/adopt_freshness/resolve.py: `resolve_freshness` against its rules of
-- precedence.
use onboard_core.Base.{
  ℕ, String, false, ◌≡◌, Option, none, some, List, map, Memᴰ, ◌≢◌, ◌↔◌, inl, inr, arith, Bool-cases,
  Option-cases, subst, sym, ◌∙◌,
}
use onboard_core.Obs.{Result, ok, err, scope_violation}
use onboard_core.Model.Enums.{
  BindingStatus, IdentityStatus, FreshnessState, SensorHealth, is_healthy, is_fresh, is_retired,
}
use onboard_core.Model.Tables.{KnowledgeItem, Binding, Sensor}
use onboard_core.Freshness.Sensors.{sensor_effective_health}
use onboard_core.Freshness.Resolve.{
  FreshnessLevel, Rule, item_retired, item_state, FreshnessResolution, FreshnessRecords,
  item_blocker, scope_unhealthy, system_level, resolve_item, resolve_freshness,
}
use onboard_core.Freshness.Bindings.{
  Blocks, IsFirstBlocker, load_bearing_blocker-some, load_bearing_blocker-none,
}
use onboard_core.Freshness.Silence.{
  IsWorking, sensor_effective_health_iff, first_unhealthy-none, first_unhealthy-some,
}

module _ (records : FreshnessRecords) (now : ℕ) where
  abbrev pub item_bindings : String → List Binding
  item_bindings id = records.bindings_for_item id

  abbrev pub item_binding_statuses : String → String → Option BindingStatus
  item_binding_statuses id = records.head_binding_statuses (map (λ row. row.id) (item_bindings id))

  abbrev pub item_identity_statuses : String → String → Option IdentityStatus
  item_identity_statuses id =
      records.head_identity_statuses (map (λ row. row.identity_id) (item_bindings id))

  abbrev pub item_sensors : KnowledgeItem → List Sensor
  item_sensors item = records.sensors_in_scope item.system_id item.environment_id

  abbrev pub item_heartbeats : KnowledgeItem → String → Option ℕ
  item_heartbeats item = records.latest_heartbeat_at (map (λ row. row.id) (item_sensors item))

  -- No binding of the item that counts blocks it.
  abbrev pub IsUnblocked : String → Type 0
  IsUnblocked id =
      (b : Binding) (v : FreshnessLevel × Rule)
      → Memᴰ b (item_bindings id)
      → ¬ Blocks (item_binding_statuses id) (item_identity_statuses id) b v

  -- Every sensor that gates the item works.
  abbrev pub IsObserved : KnowledgeItem → Type 0
  IsObserved item =
      (s : Sensor) → Memᴰ s (item_sensors item) → IsWorking s now (item_heartbeats item s.id)

  -- What the rules decide for an item.
  pub data Decides (id : String) (item : KnowledgeItem) (r : FreshnessResolution) : Type 0 where
    retired :
        item.freshness_state ≡ FreshnessState.retired
        → r.state ≡ FreshnessState.retired
        → r.deciding_rule ≡ item_retired
        → Decides id item r
    blocked :
        item.freshness_state ≢ FreshnessState.retired
        → IsFirstBlocker
            (item_binding_statuses id)
            (item_identity_statuses id)
            (item_bindings id)
            (r.level, r.deciding_rule)
        → r.state ≡ FreshnessState.stale
        → Decides id item r
    overridden :
        item.freshness_state ≡ FreshnessState.fresh
        → IsUnblocked id
        → (s : Sensor) → Memᴰ s (item_sensors item)
        → ¬ IsWorking s now (item_heartbeats item s.id)
        → r.state ≡ FreshnessState.observation_stale
        → r.sensor_id ≡ some s.id
        → Decides id item r
    own :
        item.freshness_state ≢ FreshnessState.retired
        → IsUnblocked id
        → (item.freshness_state ≡ FreshnessState.fresh → IsObserved item)
        → r.state ≡ item.freshness_state
        → r.deciding_rule ≡ item_state
        → Decides id item r

  unblocked : (id : String) → item_blocker records now id ≡ none → IsUnblocked id
  unfolding item_blocker
  unblocked id e b v m =
      load_bearing_blocker-none (item_binding_statuses id) (item_identity_statuses id)
        (item_bindings id) e b v m

  blocker :
      (id : String) (v : FreshnessLevel × Rule)
      → item_blocker records now id ≡ some v
      → IsFirstBlocker (item_binding_statuses id) (item_identity_statuses id) (item_bindings id) v
  unfolding item_blocker
  blocker id v e =
      load_bearing_blocker-some (item_binding_statuses id) (item_identity_statuses id)
        (item_bindings id) v e

  not-IsWorking :
      (item : KnowledgeItem) (s : Sensor) (h : SensorHealth)
      → h ≡ sensor_effective_health s now (item_heartbeats item s.id)
      → is_healthy h ≡ false
      → ¬ IsWorking s now (item_heartbeats item s.id)
  not-IsWorking item s h e u w =
      let k = (sensor_effective_health_iff s now (item_heartbeats item s.id)).1 w in
      ground (arith, k)

  system_level-Decides :
      (id : String) (item : KnowledgeItem)
      → item.freshness_state ≢ FreshnessState.retired
      → IsUnblocked id
      → Decides id item (system_level records now id item)
  unfolding system_level
  system_level-Decides id item live free = elim (Bool-cases (is_fresh item.freshness_state)) [
    | inr other ↦ own live free (λ e. absurd (ground (arith, e))) (ground arith) (ground arith)
    | inl fresh ↦ elim (Option-cases (scope_unhealthy records now item)) [
      | inl quiet ↦
          own live free
            (λ _. (first_unhealthy-none now (item_heartbeats item) (item_sensors item)).0 quiet)
            (ground arith) (ground arith)
      | inr ((s, h), found) ↦
          let (m, e, u) =
            first_unhealthy-some now (item_heartbeats item) (item_sensors item) s h found in
          overridden (ground arith) free s m (not-IsWorking item s h e u) (ground arith)
            (ground arith)
    ]
  ]

  resolve_item-Decides :
      (id : String) (item : KnowledgeItem) → Decides id item (resolve_item records now id item)
  unfolding resolve_item
  resolve_item-Decides id item = elim (Bool-cases (is_retired item.freshness_state)) [
    | inl gone ↦ retired (ground arith) (ground arith) (ground arith)
    | inr live ↦ elim (Option-cases (item_blocker records now id)) [
      | inl free ↦
          subst (Decides id item) (ground arith)
            (system_level-Decides id item (ground arith) (unblocked id free))
      | inr ((level, rule), found) ↦
          blocked (ground arith)
            (subst
              (IsFirstBlocker (item_binding_statuses id) (item_identity_statuses id)
                (item_bindings id))
              (ground arith) (blocker id (level, rule) found))
            (ground arith)
    ]
  ]

  -- What a resolution answers for an item that may be missing.
  abbrev pub Answers : String → Option KnowledgeItem → Result FreshnessResolution → Type 0
  Answers id none a = a ≡ err scope_violation
  Answers id (some item) a = (r : FreshnessResolution) × (a ≡ ok r) × Decides id item r

  -- A missing item is refused with SCOPE_VIOLATION. Any other item resolves, and as the precedence
  -- says: a retired item resolves retired; else the blocking binding with the least id makes it
  -- stale and names the level and the rule; else, for a fresh item, a sensor in scope that does
  -- not work makes it observation_stale and is named; else it resolves to its own state.
  pub resolve_freshness-Answers :
      (id : String) → Answers id (records.get_item id) (resolve_freshness records now id)
  unfolding resolve_freshness
  resolve_freshness-Answers id = elim (Option-cases (records.get_item id)) [
    | inl missing ↦ rw missing (ground arith)
    | inr (item, found) ↦
        rw found (resolve_item records now id item, ground arith, resolve_item-Decides id item)
  ]

  resolve_freshness-Decides :
      (id : String) (item : KnowledgeItem) (r : FreshnessResolution)
      → records.get_item id ≡ some item
      → resolve_freshness records now id ≡ ok r
      → Decides id item r
  unfolding resolve_freshness
  resolve_freshness-Decides id item r found e =
      subst (Decides id item) (ground arith) (resolve_item-Decides id item)

  Decides-fresh :
      {id : String} {item : KnowledgeItem} {r : FreshnessResolution}
      → Decides id item r
      → (r.state ≡ FreshnessState.fresh)
        ↔ ((item.freshness_state ≡ FreshnessState.fresh) × IsUnblocked id × IsObserved item)
  Decides-fresh (retired h e _) = (λ f. cc (e, f), λ (g, _, _). cc (g, h))
  Decides-fresh {id} {item} (blocked h f e) =
      (λ g. cc (e, g), λ (_, free, _). absurd (free f.blocker _ f.listed f.blocks))
  Decides-fresh {id} {item} (overridden h free s m broken e _) =
      (λ g. cc (e, g), λ (_, _, fine). absurd (broken (fine s m)))
  Decides-fresh (own h free seen e _) =
      (λ g. let f = sym e ∙ g in (f, free, seen f), λ (g, _, _). e ∙ g)

  -- If an item that is there resolves, then it resolves fresh exactly when it is stored as fresh,
  -- none of its bindings that count blocks it, and every sensor in its scope is stored HEALTHY
  -- and, where a cadence is set, has reported within three cadences.
  pub resolve_freshness-fresh :
      (id : String) (item : KnowledgeItem) (r : FreshnessResolution)
      → records.get_item id ≡ some item
      → resolve_freshness records now id ≡ ok r
      → (r.state ≡ FreshnessState.fresh)
        ↔ ((item.freshness_state ≡ FreshnessState.fresh) × IsUnblocked id × IsObserved item)
  resolve_freshness-fresh id item r found e =
      Decides-fresh (resolve_freshness-Decides id item r found e)
