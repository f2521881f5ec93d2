-- ===== src/Scope/Refusals.antt =====
-- packages/adopt-scope/src/adopt_scope/lifecycle.py: when `transition` fails.
use mathlib.Core.List.Memᴰ
use onboard_core.Base.{
  subst, String, true, ◌≡◌, ◌≢◌, refl, sym, ap, ◌∙◌, Option, none, some, [], ◌∷◌, ◌++◌, Memᴰ, ◌⊎◌,
  inl, inr, arith, Bool-cases, Option-cases, ◌==◌, eq_iff, any, find?-none,
}
use onboard_core.Obs.{
  Result-cases, ok, err, ErrorCode, scope_violation, scope_slug_invalid, schema_migration_failed,
}
use onboard_core.Model.Tables.{System, SystemLifecycleEvent}
use onboard_core.Store.Tables.{Store, transaction}
use onboard_core.Scope.Statements.{get_system, is_system, insert_lifecycle_event}
use onboard_core.Scope.Insertion.{
  get_system-id, get_system-any, any-with_state, set, insert_lifecycle_event-refused,
  insert_events-one, insert_events-two, write_transition-refused, taken_in, is_system-set,
}
use onboard_core.Scope.Lifecycle.{
  Transition, is_own_counterpart, find_counterpart, events_of, own_event, counterpart_event,
  insert_events, transition_body, transition,
}

-- No system of the store has the id.
abbrev pub IsUnknown : String → Store → Type 0
IsUnknown id s = (r : System) → Memᴰ r s.scope.systems → r.id ≢ id

-- An id that the transition gives to an event is in the log, or it gives one id to both events.
abbrev pub IsTaken : Transition → Store → Type 0
IsTaken t s =
    ((e : SystemLifecycleEvent) × Memᴰ e s.scope.lifecycle_events
      × ((e.id ≡ t.event_id) ⊎ (e.id ≡ t.counterpart_event_id)))
    ⊎ (t.event_id ≡ t.counterpart_event_id)

-- Why a transition fails, and with what.
pub data Refuses (t : Transition) (s : Store) : ErrorCode → Type 0 where
  own : t.related_system_id ≡ some t.system_id → Refuses t s scope_violation
  no_system : IsUnknown t.system_id s → Refuses t s scope_slug_invalid
  no_counterpart :
      (id : String)
      → t.related_system_id ≡ some id
      → IsUnknown id s
      → Refuses t s scope_slug_invalid
  taken : IsTaken t s → Refuses t s schema_migration_failed

get_system-IsUnknown : (id : String) (s : Store) → get_system id s ≡ none → IsUnknown id s
unfolding get_system
get_system-IsUnknown id s e r m same =
    let test = find?-none (λ q. q.id == id) s.scope.systems e r m in
    absurd (ground (arith, test, (eq_iff r.id id).1 same))

-- The own event is refused for its id alone.
own_event-refused :
    (t : Transition) (s : Store) (system : System) (c : ErrorCode)
    → any (λ (q : System). q.id == t.system_id) s.scope.systems ≡ true
    → is_system t.related_system_id s.scope.systems ≡ true
    → insert_lifecycle_event (own_event t system) (set t s) ≡ err c
    → Refuses t s c
own_event-refused t s system c there related h =
    let (code, used) =
      insert_lifecycle_event-refused (own_event t system) (set t s) c
        (any-with_state t t.system_id s.scope.systems ∙ there)
        (is_system-set t s t.related_system_id ∙ related) h in
    let (e, m, same) = taken_in t.event_id s.scope.lifecycle_events used in
    subst (Refuses t s) (sym code) (taken (inl (e, m, inl same)))

-- So is the other one, whose id may be that of the own event.
counterpart_event-refused :
    (t : Transition) (s s' : Store) (system row : System) (c : ErrorCode)
    → get_system t.system_id s ≡ some system
    → get_system row.id s ≡ some row
    → s'.scope.systems ≡ (set t s).scope.systems
    → s'.scope.lifecycle_events ≡ s.scope.lifecycle_events ++ own_event t system ∷ []
    → insert_lifecycle_event (counterpart_event t row) s' ≡ err c
    → Refuses t s c
counterpart_event-refused t s s' system row c found there kept logged h =
    let (code, used) =
      insert_lifecycle_event-refused (counterpart_event t row) s' c
        (ap (any (λ (q : System). q.id == row.id)) kept
          ∙ any-with_state t row.id s.scope.systems
          ∙ get_system-any row.id s row there)
        (ap (is_system (some t.system_id)) kept
          ∙ is_system-set t s (some t.system_id)
          ∙ get_system-any t.system_id s system found)
        h in
    let (e, m, same) = taken_in t.counterpart_event_id s'.scope.lifecycle_events used in
    subst (Refuses t s) (sym code)
      (elim (Memᴰ.append_cases s.scope.lifecycle_events (subst (Memᴰ e) logged m)) [
        | inl old ↦ taken (inl (e, old, inr same))
        | inr new ↦ taken (inr (ap SystemLifecycleEvent.id (sym (Memᴰ.eq_of_singleton new)) ∙ same))
      ])

events_of-refused :
    (t : Transition) (s : Store) (system : System) (counterpart : Option System) (c : ErrorCode)
    → get_system t.system_id s ≡ some system
    → find_counterpart t s ≡ ok counterpart
    → insert_events (events_of t system counterpart) (set t s) ≡ err c
    → Refuses t s c
unfolding events_of find_counterpart
events_of-refused t s system none c found other h = elim (Option-cases t.related_system_id) [
  | inl absent ↦
      own_event-refused t s system c (get_system-any t.system_id s system found) (rw absent refl)
        (insert_events-one (own_event t system) (set t s) c h)
  | inr (id, given) ↦ elim (Option-cases (get_system id s)) [
    | inl missing ↦ absurd (ground (arith, given, missing, other))
    | inr (row, there) ↦ absurd (ground (arith, given, there, other))
  ]
]
events_of-refused t s system (some row) c found other h = elim (Option-cases t.related_system_id) [
  | inl absent ↦ absurd (ground (arith, absent, other))
  | inr (id, given) ↦ elim (Option-cases (get_system id s)) [
    | inl missing ↦ absurd (ground (arith, given, missing, other))
    | inr (found_row, there) ↦
        let same : found_row ≡ row = ground (arith, given, there, other) in
        let here : get_system id s ≡ some row = there ∙ ap some same in
        let present = get_system-any id s row here in
        let named : id ≡ row.id = sym (get_system-id id s row here) in
        elim (insert_events-two (own_event t system) (counterpart_event t row) (set t s) c h) [
          | inl first ↦
              own_event-refused t s system c (get_system-any t.system_id s system found)
                (rw given present) first
          | inr (s', kept, logged, second) ↦
              counterpart_event-refused t s s' system row c found
                (subst (λ i. get_system i s ≡ some row) named here) kept logged second
        ]
  ]
]

find_counterpart-refused :
    (t : Transition) (s : Store) (c : ErrorCode) → find_counterpart t s ≡ err c → Refuses t s c
unfolding find_counterpart
find_counterpart-refused t s c h = elim (Option-cases t.related_system_id) [
  | inl absent ↦ absurd (ground (arith, absent, h))
  | inr (id, given) ↦ elim (Option-cases (get_system id s)) [
    | inr (row, there) ↦ absurd (ground (arith, given, there, h))
    | inl missing ↦
        let code : c ≡ scope_slug_invalid = ground (arith, given, missing, h) in
        subst (Refuses t s) (sym code) (no_counterpart id given (get_system-IsUnknown id s missing))
  ]
]

transition_body-refused :
    (t : Transition) (s : Store) (c : ErrorCode) → transition_body t s ≡ err c → Refuses t s c
unfolding transition_body
transition_body-refused t s c h = elim (Option-cases (get_system t.system_id s)) [
  | inl missing ↦
      let code : c ≡ scope_slug_invalid = ground (arith, missing, h) in
      subst (Refuses t s) (sym code) (no_system (get_system-IsUnknown t.system_id s missing))
  | inr (system, found) ↦ elim (Result-cases (find_counterpart t s)) [
    | inr (d, bad) ↦ find_counterpart-refused t s c (bad ∙ ap err (ground (arith, found, bad, h)))
    | inl (counterpart, other) ↦ events_of-refused t s system counterpart c found other (
        write_transition-refused t (events_of t system counterpart) s c
          (ground (arith, found, other, h)))
  ]
]

own_counterpart :
    (t : Transition) → is_own_counterpart t ≡ true → t.related_system_id ≡ some t.system_id
own_counterpart t e = elim (Option-cases t.related_system_id) [
  | inl absent ↦ absurd (ground (arith, absent, e))
  | inr (id, given) ↦ given ∙ ap some ((eq_iff id t.system_id).0 (ground (arith, given, e)))
]

-- A transition that fails does so for a reason, with its code.
pub transition-Refuses :
    (t : Transition) (s : Store) (c : ErrorCode) → (transition t s).0 ≡ err c → Refuses t s c
unfolding transition transaction
transition-Refuses t s c h = elim (Bool-cases (is_own_counterpart t)) [
  | inl same ↦
      let code : c ≡ scope_violation = ground (arith, same, h) in
      subst (Refuses t s) (sym code) (own (own_counterpart t same))
  | inr apart ↦ elim (Result-cases (transition_body t s)) [
    | inl ((events, s'), done) ↦ absurd (ground (arith, apart, done, h))
    | inr (d, bad) ↦ transition_body-refused t s c (bad ∙ ap err (ground (arith, apart, bad, h)))
  ]
]
