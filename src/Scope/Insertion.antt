-- ===== src/Scope/Insertion.antt =====
-- packages/adopt-scope/src/adopt_scope/lifecycle.py: when the writes of a transition
-- fail.
use onboard_core.Base.{
  String, true, ◌≡◌, refl, Option, none, some, List, [], ◌∷◌, ◌++◌, map, Memᴰ, ◌⊎◌, inl, inr, arith,
  Bool-cases, ◌==◌, eq_iff, any, any-mem, mem-any, find?-some,
}
use onboard_core.Obs.{Result-cases, err, ErrorCode, schema_migration_failed}
use onboard_core.Model.Tables.{System, SystemLifecycleEvent}
use onboard_core.Store.Tables.{Store}
use onboard_core.Scope.Statements.{
  get_system, with_state, is_system, insert_lifecycle_event, set_system_state,
}
use onboard_core.Scope.Lifecycle.{Transition, insert_events, write_transition}

pub get_system-id : (id : String) (s : Store) (r : System) → get_system id s ≡ some r → r.id ≡ id
unfolding get_system
get_system-id id s r e =
    let (m, test) = find?-some (λ q. q.id == id) s.scope.systems e in (eq_iff r.id id).0 test

pub get_system-any :
    (id : String) (s : Store) (r : System)
    → get_system id s ≡ some r
    → any (λ (q : System). q.id == id) s.scope.systems ≡ true
unfolding get_system
get_system-any id s r e =
    let (m, test) = find?-some (λ q. q.id == id) s.scope.systems e in
    mem-any (λ (q : System). q.id == id) s.scope.systems r m test

pub any-with_state :
    (t : Transition) (id : String) (l : List System)
    → any (λ (q : System). q.id == id) (map (with_state t.system_id t.to_state t.occurred_at) l)
      ≡ any (λ (q : System). q.id == id) l
any-with_state t id [] = refl
any-with_state t id (r ∷ l) = ground (arith, any-with_state t id l)

-- The tables once the state is set.
abbrev pub set : Transition → Store → Store
set t s = record s {
  scope = record s.scope {
    systems = map (with_state t.system_id t.to_state t.occurred_at) s.scope.systems;
  };
}

pub insert_lifecycle_event-refused :
    (e : SystemLifecycleEvent) (s : Store) (c : ErrorCode)
    → any (λ (q : System). q.id == e.system_id) s.scope.systems ≡ true
    → is_system e.related_system_id s.scope.systems ≡ true
    → insert_lifecycle_event e s ≡ err c
    → (c ≡ schema_migration_failed)
      × (any (λ (f : SystemLifecycleEvent). f.id == e.id) s.scope.lifecycle_events ≡ true)
unfolding insert_lifecycle_event
insert_lifecycle_event-refused e s c there related h =
    elim (Bool-cases (any (λ (f : SystemLifecycleEvent). f.id == e.id) s.scope.lifecycle_events)) [
      | inl used ↦ (ground (arith, used, h), used)
      | inr free ↦ absurd (ground (arith, there, related, free, h))
    ]

pub insert_events-one :
    (e : SystemLifecycleEvent) (s : Store) (c : ErrorCode)
    → insert_events (e ∷ []) s ≡ err c
    → insert_lifecycle_event e s ≡ err c
unfolding insert_events
insert_events-one e s c h = elim (Result-cases (insert_lifecycle_event e s)) [
  | inl ((u, s'), done) ↦ absurd (ground (arith, done, h))
  | inr (d, bad) ↦ ground (arith, bad, h)
]

pub insert_events-two :
    (e f : SystemLifecycleEvent) (s : Store) (c : ErrorCode)
    → insert_events (e ∷ f ∷ []) s ≡ err c
    → (insert_lifecycle_event e s ≡ err c)
      ⊎ ((s' : Store) × (s'.scope.systems ≡ s.scope.systems)
          × (s'.scope.lifecycle_events ≡ s.scope.lifecycle_events ++ e ∷ [])
          × (insert_lifecycle_event f s' ≡ err c))
unfolding insert_events insert_lifecycle_event
insert_events-two e f s c h = elim (Result-cases (insert_lifecycle_event e s)) [
  | inl ((u, s'), done) ↦ inr (
    s',
    ground (arith, done),
    ground (arith, done),
    insert_events-one f s' c (ground (arith, done, h)),
  )
  | inr (d, bad) ↦ inl (ground (arith, bad, h))
]

pub write_transition-refused :
    (t : Transition) (es : List SystemLifecycleEvent) (s : Store) (c : ErrorCode)
    → write_transition t es s ≡ err c
    → insert_events es (set t s) ≡ err c
unfolding write_transition set_system_state
write_transition-refused t es s c h = elim (Result-cases (insert_events es (set t s))) [
  | inl ((u, s'), done) ↦ absurd (ground (arith, done, h))
  | inr (d, bad) ↦ ground (arith, bad, h)
]

pub taken_in :
    (id : String) (l : List SystemLifecycleEvent)
    → any (λ (f : SystemLifecycleEvent). f.id == id) l ≡ true
    → (e : SystemLifecycleEvent) × Memᴰ e l × (e.id ≡ id)
taken_in id l h =
    let (e, m, test) = any-mem (λ (f : SystemLifecycleEvent). f.id == id) l h in
    (e, m, (eq_iff e.id id).0 test)

pub is_system-set :
    (t : Transition) (s : Store) (o : Option String)
    → is_system o (set t s).scope.systems ≡ is_system o s.scope.systems
is_system-set t s none = refl
is_system-set t s (some id) = any-with_state t id s.scope.systems
