-- ===== src/Freshness/Silence.antt =====
-- packages/adopt-freshness/src/adopt_freshness/resolve.py: `sensor_effective_health` and
-- `_first_unhealthy`.
use onboard_core.Base.{
  ℕ, ◌+◌, ◌≤◌, String, true, false, ◌≡◌, refl, Option, none, some, List, [], ◌∷◌, Memᴰ, ◌↔◌, inl,
  inr, arith, sort_by, mem-sort_by, Option-cases, Bool-cases,
}
use onboard_core.Model.Enums.{SensorHealth, is_healthy}
use onboard_core.Model.Tables.{Sensor}
use onboard_core.Freshness.Sensors.{
  sensor_effective_health, first_unhealthy_in, first_unhealthy, deadline,
}

-- The stored health is HEALTHY, and if a cadence is set, the last heartbeat is recent enough.
pub record IsWorking (sensor : Sensor) (now : ℕ) (last : Option ℕ) : Type 0 where
  pub stored : sensor.health ≡ SensorHealth.healthy
  pub reporting :
      (cadence : ℕ)
      → sensor.expected_cadence_seconds ≡ some cadence
      → (t : ℕ) × (last ≡ some t) × (now ≤ t + deadline cadence)

sensor_effective_health-IsWorking :
    (sensor : Sensor) (now : ℕ) (last : Option ℕ)
    → sensor_effective_health sensor now last ≡ SensorHealth.healthy
    → IsWorking sensor now last
unfolding sensor_effective_health
sensor_effective_health-IsWorking sensor now last e = record {
  stored = ground arith;
  reporting = λ cadence h. elim (Option-cases last) [
    | inl never ↦ absurd (ground arith)
    | inr (t, at) ↦ (t, at, ground arith)
  ];
}

IsWorking-sensor_effective_health :
    (sensor : Sensor) (now : ℕ) (last : Option ℕ)
    → IsWorking sensor now last
    → sensor_effective_health sensor now last ≡ SensorHealth.healthy
unfolding sensor_effective_health
IsWorking-sensor_effective_health sensor now last w =
    elim (Option-cases sensor.expected_cadence_seconds) [
      | inl unset ↦ ground (arith, w.stored)
      | inr (cadence, set) ↦
          let (t, at, recent) = w.reporting cadence set in ground (arith, w.stored)
    ]

-- The effective health of a sensor is HEALTHY exactly when it is stored so and, where a cadence is
-- set, it has reported at least once and no longer ago than three cadences.
pub sensor_effective_health_iff :
    (sensor : Sensor) (now : ℕ) (last : Option ℕ)
    → (sensor_effective_health sensor now last ≡ SensorHealth.healthy) ↔ IsWorking sensor now last
sensor_effective_health_iff sensor now last = (
  sensor_effective_health-IsWorking sensor now last,
  IsWorking-sensor_effective_health sensor now last,
)

-- A sensor that is not healthy at some time, with a given last heartbeat, is not healthy at any
-- later time with the same last heartbeat.
pub silence_lasts :
    (sensor : Sensor) (now later : ℕ) (last : Option ℕ)
    → now ≤ later
    → is_healthy (sensor_effective_health sensor now last) ≡ false
    → is_healthy (sensor_effective_health sensor later last) ≡ false
unfolding sensor_effective_health
silence_lasts sensor now later last h e = ground arith

is_healthy-eq : (h : SensorHealth) → is_healthy h ≡ true → h ≡ SensorHealth.healthy
is_healthy-eq h e = ground arith

module _ (now : ℕ) (heartbeats : String → Option ℕ) where
  abbrev pub Works : Sensor → Type 0
  Works s = IsWorking s now (heartbeats s.id)

  first_unhealthy_in-none :
      (l : List Sensor)
      → first_unhealthy_in now heartbeats l ≡ none
      → (s : Sensor) → Memᴰ s l
      → Works s
  unfolding first_unhealthy_in
  first_unhealthy_in-none [] e s m = elim m [ ]
  first_unhealthy_in-none (t ∷ l) e s (Memᴰ.head h) = rw h (
      sensor_effective_health-IsWorking t now (heartbeats t.id)
        (is_healthy-eq (sensor_effective_health t now (heartbeats t.id)) (ground arith)))
  first_unhealthy_in-none (t ∷ l) e s (Memᴰ.tail m) = first_unhealthy_in-none l (ground arith) s m

  none-first_unhealthy_in :
      (l : List Sensor)
      → ((s : Sensor) → Memᴰ s l → Works s)
      → first_unhealthy_in now heartbeats l ≡ none
  unfolding first_unhealthy_in
  none-first_unhealthy_in [] w = refl
  none-first_unhealthy_in (t ∷ l) w =
      let here = IsWorking-sensor_effective_health t now (heartbeats t.id) (w t (Memᴰ.head refl)) in
      let rest = none-first_unhealthy_in l (λ s m. w s (Memᴰ.tail m)) in ground (arith, here, rest)

  -- No sensor blocks fresh exactly when every sensor of the list is stored HEALTHY and, where a
  -- cadence is set, has reported within three cadences.
  pub first_unhealthy-none :
      (l : List Sensor)
      → (first_unhealthy now heartbeats l ≡ none) ↔ ((s : Sensor) → Memᴰ s l → Works s)
  unfolding first_unhealthy
  first_unhealthy-none l = (
    λ e s m.
        first_unhealthy_in-none (sort_by (λ row. row.id) l) e s
          ((mem-sort_by (λ row. row.id) l).1 m),
    λ w.
        none-first_unhealthy_in (sort_by (λ row. row.id) l)
          (λ s m. w s ((mem-sort_by (λ row. row.id) l).0 m)),
  )

  first_unhealthy_in-some :
      (l : List Sensor) (s : Sensor) (h : SensorHealth)
      → first_unhealthy_in now heartbeats l ≡ some (s, h)
      → Memᴰ s l × (h ≡ sensor_effective_health s now (heartbeats s.id)) × (is_healthy h ≡ false)
  unfolding first_unhealthy_in
  first_unhealthy_in-some [] s h e = cc
  first_unhealthy_in-some (t ∷ l) s h e =
      elim (Bool-cases (is_healthy (sensor_effective_health t now (heartbeats t.id)))) [
        | inl fine ↦
            let (m, k, u) = first_unhealthy_in-some l s h (ground arith) in (Memᴰ.tail m, k, u)
        | inr blocked ↦ (Memᴰ.head (ground arith), ground arith, ground arith)
      ]

  -- The sensor that is named is in scope and is not healthy.
  pub first_unhealthy-some :
      (l : List Sensor) (s : Sensor) (h : SensorHealth)
      → first_unhealthy now heartbeats l ≡ some (s, h)
      → Memᴰ s l × (h ≡ sensor_effective_health s now (heartbeats s.id)) × (is_healthy h ≡ false)
  unfolding first_unhealthy
  first_unhealthy-some l s h e =
      let (m, k, u) = first_unhealthy_in-some (sort_by (λ row. row.id) l) s h e in
      ((mem-sort_by (λ row. row.id) l).0 m, k, u)
