-- ===== src/Scope/Lifecycle.antt =====
-- packages/adopt-scope/src/adopt_scope/lifecycle.py: `transition`. The ids of the events and the
-- reading of the clock are arguments.
use onboard_core.Base.{
  ℕ, String, Bool, false, Option, none, some, List, [], ◌∷◌, if◌then◌else◌, ◌==◌,
}
use onboard_core.Obs.{Result, ok, err, scope_violation, scope_slug_invalid}
use onboard_core.Model.Enums.{LifecycleState}
use onboard_core.Model.Tables.{System, SystemLifecycleEvent}
use onboard_core.Store.Tables.{Store, Tx, ◌>>◌, pure, transaction}
use onboard_core.Scope.Statements.{get_system, set_system_state, insert_lifecycle_event}

pub record Transition : Type 0 where
  pub system_id : String
  pub to_state : LifecycleState
  pub reason : String
  pub actor_id : Option String
  pub related_system_id : Option String
  pub event_id : String
  pub counterpart_event_id : String
  pub occurred_at : ℕ

abbrev pub is_own_counterpart : Transition → Bool
is_own_counterpart t = elim t.related_system_id [
  | none ↦ false
  | some related ↦ related == t.system_id
]

-- `none` for a transition without a counterpart.
unfoldable pub find_counterpart : Transition → Store → Result (Option System)
find_counterpart t s = elim t.related_system_id [
  | none ↦ ok none
  | some related ↦ elim (get_system related s) [
    | none ↦ err scope_slug_invalid
    | some row ↦ ok (some row)
  ]
]

abbrev pub own_event : Transition → System → SystemLifecycleEvent
own_event t system = record {
  id = t.event_id;
  system_id = t.system_id;
  from_state = some system.lifecycle_state;
  to_state = t.to_state;
  reason = t.reason;
  related_system_id = t.related_system_id;
  occurred_at = t.occurred_at;
  actor_id = t.actor_id;
}

abbrev pub counterpart_event : Transition → System → SystemLifecycleEvent
counterpart_event t counterpart = record {
  id = t.counterpart_event_id;
  system_id = counterpart.id;
  from_state = some counterpart.lifecycle_state;
  to_state = counterpart.lifecycle_state;
  reason = t.reason;
  related_system_id = some t.system_id;
  occurred_at = t.occurred_at;
  actor_id = t.actor_id;
}

unfoldable pub events_of : Transition → System → Option System → List SystemLifecycleEvent
events_of t system none = own_event t system ∷ []
events_of t system (some counterpart) = own_event t system ∷ counterpart_event t counterpart ∷ []

unfoldable pub insert_events : List SystemLifecycleEvent → Tx Unit
insert_events [] = pure tt
insert_events (e ∷ es) = do insert_lifecycle_event e; insert_events es

-- The statements of the transaction, once the systems are found.
unfoldable pub write_transition :
    Transition → List SystemLifecycleEvent → Tx (List SystemLifecycleEvent)
write_transition t events = do
  set_system_state t.system_id t.to_state t.occurred_at
  insert_events events
  pure events

unfoldable pub transition_body : Transition → Tx (List SystemLifecycleEvent)
transition_body t s = elim (get_system t.system_id s) [
  | none ↦ err scope_slug_invalid
  | some system ↦ elim (find_counterpart t s) [
    | err e ↦ err e
    | ok counterpart ↦ write_transition t (events_of t system counterpart) s
  ]
]

unfoldable pub transition : Transition → Store → Result (List SystemLifecycleEvent) × Store
transition t s =
    if is_own_counterpart t then (err scope_violation, s) else transaction (transition_body t) s
