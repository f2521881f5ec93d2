-- ===== src/Freshness/Sensors.antt =====
-- packages/adopt-freshness/src/adopt_freshness/resolve.py: the health of a sensor once its silence
-- is taken into account, and the first sensor that blocks `fresh`.
use onboard_core.Base.{
  ℕ, ◌*◌, ◌+◌, String, Option, none, some, List, [], ◌∷◌, ltb, if◌then◌else◌, sort_by,
}
use onboard_core.Model.Enums.{SensorHealth, is_healthy}
use onboard_core.Model.Tables.{Sensor}

-- adopt_const: SENSOR_MISSED_CADENCE_MULTIPLIER
abbrev pub sensor_missed_cadence_multiplier : ℕ
sensor_missed_cadence_multiplier = 3

abbrev pub microseconds_per_second : ℕ
microseconds_per_second = 1000000

abbrev pub deadline : ℕ → ℕ
deadline cadence = cadence * sensor_missed_cadence_multiplier * microseconds_per_second

-- `now - last > deadline` of signed time differences is `last + deadline < now`.
unfoldable pub sensor_effective_health : Sensor → ℕ → Option ℕ → SensorHealth
sensor_effective_health sensor now last_heartbeat_at =
    if is_healthy sensor.health
    then (elim sensor.expected_cadence_seconds [
      | none ↦ sensor.health
      | some cadence ↦ elim last_heartbeat_at [
        | none ↦ SensorHealth.stale
        | some last ↦
            if ltb (last + deadline cadence) now then SensorHealth.stale else SensorHealth.healthy
      ]
    ])
    else sensor.health

-- The loop of `_first_unhealthy`, over the sorted sensors.
unfoldable pub first_unhealthy_in :
    ℕ → (String → Option ℕ) → List Sensor → Option (Sensor × SensorHealth)
unfolding sensor_effective_health
first_unhealthy_in now heartbeats [] = none
first_unhealthy_in now heartbeats (sensor ∷ rest) =
    let effective = sensor_effective_health sensor now (heartbeats sensor.id) in
    if is_healthy effective
    then first_unhealthy_in now heartbeats rest
    else some (sensor, effective)

unfoldable pub first_unhealthy :
    ℕ → (String → Option ℕ) → List Sensor → Option (Sensor × SensorHealth)
unfolding first_unhealthy_in
first_unhealthy now heartbeats sensors =
    first_unhealthy_in now heartbeats (sort_by (λ row. row.id) sensors)
