-- ===== src/Scope/Answers.antt =====
-- packages/adopt-scope/src/adopt_scope/lifecycle.py: what `transition` answers and leaves, read off the
-- rows of the store.
use onboard_core.Base.{
  eq_refl, false, ◌≡◌, ◌≢◌, refl, sym, ap, ◌∙◌, subst, Option, none, some, List, [], ◌∷◌, ◌++◌, map,
  Memᴰ, inl, inr, arith, Option-cases, ◌==◌, eq_iff, if◌then◌else◌, find?-some,
}
use onboard_core.Obs.{Result, ok, err, ErrorCode}
use onboard_core.Model.Tables.{System, SystemLifecycleEvent}
use onboard_core.Store.Tables.{Store}
use onboard_core.Scope.Statements.{get_system, with_state}
use onboard_core.Scope.Lifecycle.{
  Transition, is_own_counterpart, find_counterpart, events_of, own_event, counterpart_event,
  transition,
}
use onboard_core.Scope.Refusals.{Refuses, transition-Refuses}
use onboard_core.Scope.Events.{Outcome, transitioned, refused, Transitioned, transition-Outcome}

-- The event of the system that moved, read off its row as it stood before.
pub record IsOwnEvent (t : Transition) (before : System) (e : SystemLifecycleEvent) : Type 0 where
  pub id : e.id ≡ t.event_id
  pub system : e.system_id ≡ t.system_id
  pub from : e.from_state ≡ some before.lifecycle_state
  pub to : e.to_state ≡ t.to_state
  pub reason : e.reason ≡ t.reason
  pub related : e.related_system_id ≡ t.related_system_id
  pub at : e.occurred_at ≡ t.occurred_at
  pub actor : e.actor_id ≡ t.actor_id

-- The event of the counterpart, which stays in its state.
pub record IsPairedEvent (t : Transition) (before : System) (e : SystemLifecycleEvent)
    : Type 0 where
  pub id : e.id ≡ t.counterpart_event_id
  pub system : e.system_id ≡ before.id
  pub from : e.from_state ≡ some before.lifecycle_state
  pub to : e.to_state ≡ before.lifecycle_state
  pub reason : e.reason ≡ t.reason
  pub related : e.related_system_id ≡ some t.system_id
  pub at : e.occurred_at ≡ t.occurred_at
  pub actor : e.actor_id ≡ t.actor_id

-- One event where no counterpart is named, and else two, the own first. The counterpart is a row of
-- the store with the id that is named.
pub data AreEvents (t : Transition) (s : Store) (before : System)
    : List SystemLifecycleEvent → Type 0 where
  alone :
      (e : SystemLifecycleEvent)
      → t.related_system_id ≡ none
      → IsOwnEvent t before e
      → AreEvents t s before (e ∷ [])
  paired :
      (other : System) (e f : SystemLifecycleEvent)
      → Memᴰ other s.scope.systems
      → t.related_system_id ≡ some other.id
      → IsOwnEvent t before e
      → IsPairedEvent t other f
      → AreEvents t s before (e ∷ f ∷ [])

-- The rows of the store after the transition: the system that it names has the new state and its
-- time, and the others are as they were.
abbrev pub moved_rows : Transition → List System → List System
moved_rows t [] = []
moved_rows t (r ∷ l) =
    (if r.id == t.system_id
      then record r { lifecycle_state = t.to_state; updated_at = t.occurred_at }
      else r)
    ∷ moved_rows t l

-- A transition that went through.
pub record Moves (t : Transition) (s : Store) (events : List SystemLifecycleEvent) (s' : Store)
    : Type 0 where
  pub before : System
  pub listed : Memᴰ before s.scope.systems
  pub named : before.id ≡ t.system_id
  pub apart : t.related_system_id ≢ some t.system_id
  pub events_are : AreEvents t s before events
  pub rows : s'.scope.systems ≡ moved_rows t s.scope.systems
  pub logged : s'.scope.lifecycle_events ≡ s.scope.lifecycle_events ++ events

get_system-listed :
    (id : _) (s : Store) (r : System)
    → get_system id s ≡ some r
    → Memᴰ r s.scope.systems × (r.id ≡ id)
unfolding get_system
get_system-listed id s r e =
    let (m, test) = find?-some (λ q. q.id == id) s.scope.systems e in (m, (eq_iff r.id id).0 test)

map-moved_rows :
    (t : Transition) (l : List System)
    → map (with_state t.system_id t.to_state t.occurred_at) l ≡ moved_rows t l
map-moved_rows t [] = refl
map-moved_rows t (r ∷ l) =
    ap (λ m. with_state t.system_id t.to_state t.occurred_at r ∷ m) (map-moved_rows t l)

own_event-IsOwnEvent : (t : Transition) (r : System) → IsOwnEvent t r (own_event t r)
own_event-IsOwnEvent t r = record {
  id = refl;
  system = refl;
  from = refl;
  to = refl;
  reason = refl;
  related = refl;
  at = refl;
  actor = refl;
}

counterpart_event-IsPairedEvent :
    (t : Transition) (r : System) → IsPairedEvent t r (counterpart_event t r)
counterpart_event-IsPairedEvent t r = record {
  id = refl;
  system = refl;
  from = refl;
  to = refl;
  reason = refl;
  related = refl;
  at = refl;
  actor = refl;
}

events_of-AreEvents :
    (t : Transition) (s : Store) (before : System) (counterpart : Option System)
    → find_counterpart t s ≡ ok counterpart
    → AreEvents t s before (events_of t before counterpart)
unfolding events_of find_counterpart
events_of-AreEvents t s before none e = elim (Option-cases t.related_system_id) [
  | inl absent ↦ alone (own_event t before) absent (own_event-IsOwnEvent t before)
  | inr (related, given) ↦ elim (Option-cases (get_system related s)) [
    | inl missing ↦ absurd (ground (arith, given, missing, e))
    | inr (row, found) ↦ absurd (ground (arith, given, found, e))
  ]
]
events_of-AreEvents t s before (some other) e = elim (Option-cases t.related_system_id) [
  | inl absent ↦ absurd (ground (arith, absent, e))
  | inr (related, given) ↦ elim (Option-cases (get_system related s)) [
    | inl missing ↦ absurd (ground (arith, given, missing, e))
    | inr (row, found) ↦
        let same : row ≡ other = ground (arith, given, found, e) in
        let (listed, named) = get_system-listed related s row found in
        paired other (own_event t before) (counterpart_event t other)
          (subst (λ r. Memᴰ r s.scope.systems) same listed)
          (given ∙ ap some (sym named ∙ ap System.id same)) (own_event-IsOwnEvent t before)
          (counterpart_event-IsPairedEvent t other)
  ]
]

-- What `transition` may answer, and the store that it leaves.
pub data Answers (t : Transition) (s : Store)
    : Result (List SystemLifecycleEvent) × Store → Type 0 where
  moves :
      {events : List SystemLifecycleEvent} {s' : Store}
      → Moves t s events s'
      → Answers t s (ok events, s')
  fails : {c : ErrorCode} → Refuses t s c → Answers t s (err c, s)

apart_of : (t : Transition) → is_own_counterpart t ≡ false → t.related_system_id ≢ some t.system_id
apart_of t e same = ground (arith, e, same, eq_refl t.system_id)

Transitioned-Moves :
    (t : Transition) (s s' : Store) (events : List SystemLifecycleEvent)
    → is_own_counterpart t ≡ false
    → Transitioned t s events s'
    → Moves t s events s'
Transitioned-Moves t s s' events apart d =
    let (listed, named) = get_system-listed t.system_id s d.system d.found in
    record {
      before = d.system;
      listed = listed;
      named = named;
      apart = apart_of t apart;
      events_are =
          subst (AreEvents t s d.system) (sym d.written)
            (events_of-AreEvents t s d.system d.counterpart d.other);
      rows = d.moved ∙ map-moved_rows t s.scope.systems;
      logged = d.logged;
    }

Outcome-Answers :
    (t : Transition) (s : Store) {o : Result (List SystemLifecycleEvent) × Store}
    → Outcome t s o
    → ((c : ErrorCode) → o.0 ≡ err c → Refuses t s c)
    → Answers t s o
Outcome-Answers t s (refused {c}) why = fails (why c refl)
Outcome-Answers t s (transitioned apart d) why = moves (Transitioned-Moves t s _ _ apart d)

-- A transition either fails and leaves the store as it was, with SCOPE_VIOLATION because it names
-- the system as its own counterpart, with SCOPE_SLUG_INVALID because the store has no system with
-- the id or none with that of the counterpart, or with SCHEMA_MIGRATION_FAILED because an id that
-- it gives to an event is in the log already or it gives both events the same; or it is not of a
-- system against itself, and then: the system is in the store; the events returned are one of that
-- system, from the state in its row to the new one, and, exactly where a counterpart is named, one
-- more of the counterpart, which is in the store and stays in the state of its row, both with the
-- reason, actor and time of the call and each with the other system as the related one; the log is
-- extended by exactly these; and the rows of the systems are as before but for the new state and
-- time of the system that is named.
pub transition-Answers : (t : Transition) (s : Store) → Answers t s (transition t s)
transition-Answers t s = Outcome-Answers t s (transition-Outcome t s) (transition-Refuses t s)
