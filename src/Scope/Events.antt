-- ===== src/Scope/Events.antt =====
-- packages/adopt-scope/src/adopt_scope/lifecycle.py: what `transition` writes.
use mathlib.Core.List.{append-nil, append_assoc}
use onboard_core.Base.{
  false, ◌≡◌, sym, ap, ◌∙◌, subst, Option, some, List, [], ◌∷◌, ◌++◌, map, inl, inr, arith,
  Bool-cases, Option-cases,
}
use onboard_core.Obs.{Result-cases, Result, ok, err, ErrorCode, scope_violation}
use onboard_core.Model.Tables.{System, SystemLifecycleEvent}
use onboard_core.Store.Tables.{Store, transaction}
use onboard_core.Scope.Statements.{get_system, set_system_state, insert_lifecycle_event, with_state}
use onboard_core.Scope.Lifecycle.{
  Transition, is_own_counterpart, find_counterpart, events_of, insert_events, write_transition,
  transition_body, transition,
}

insert_events-ok :
    (es : List SystemLifecycleEvent) (s s' : Store) (u : Unit {0})
    → insert_events es s ≡ ok (u, s')
    → (s'.scope.systems ≡ s.scope.systems)
      × (s'.scope.lifecycle_events ≡ s.scope.lifecycle_events ++ es)
unfolding insert_events insert_lifecycle_event
insert_events-ok [] s s' u e =
    let same : s' ≡ s = ground (arith, e) in
    (
      ap (λ r. r.scope.systems) same,
      ap (λ r. r.scope.lifecycle_events) same ∙ sym (append-nil s.scope.lifecycle_events),
    )
insert_events-ok (x ∷ es) s s' u e = elim (Result-cases (insert_lifecycle_event x s)) [
  | inr (c, refused) ↦ absurd (ground (arith, refused, e))
  | inl ((v, s1), inserted) ↦
      let (kept, logged) = insert_events-ok es s1 s' u (ground (arith, inserted, e)) in
      let one : s1.scope.lifecycle_events ≡ s.scope.lifecycle_events ++ x ∷ [] =
        ground (arith, inserted) in
      (
        kept ∙ ground (arith, inserted),
        logged ∙ ap (λ l. l ++ es) one ∙ append_assoc s.scope.lifecycle_events (x ∷ []) es,
      )
]

-- What a transition that succeeds has done.
pub record Transitioned (t : Transition) (s : Store) (events : List SystemLifecycleEvent)
    (s' : Store) : Type 0 where
  pub system : System
  pub found : get_system t.system_id s ≡ some system
  pub counterpart : Option System
  pub other : find_counterpart t s ≡ ok counterpart
  pub written : events ≡ events_of t system counterpart
  pub moved :
      s'.scope.systems ≡ map (with_state t.system_id t.to_state t.occurred_at) s.scope.systems
  pub logged : s'.scope.lifecycle_events ≡ s.scope.lifecycle_events ++ events

write_transition-ok :
    (t : Transition) (es out : List SystemLifecycleEvent) (s s' : Store)
    → write_transition t es s ≡ ok (out, s')
    → (out ≡ es)
      × (s'.scope.systems ≡ map (with_state t.system_id t.to_state t.occurred_at) s.scope.systems)
      × (s'.scope.lifecycle_events ≡ s.scope.lifecycle_events ++ es)
unfolding write_transition set_system_state
write_transition-ok t es out s s' e =
    let s1 : Store = record s {
      scope = record s.scope {
        systems = map (with_state t.system_id t.to_state t.occurred_at) s.scope.systems;
      };
    } in
    elim (Result-cases (insert_events es s1)) [
      | inr (c, refused) ↦ absurd (ground (arith, refused, e))
      | inl ((v, s2), inserted) ↦
          let (kept, logged) = insert_events-ok es s1 s2 v inserted in
          let last : s' ≡ s2 = ground (arith, inserted, e) in
          (
            ground (arith, inserted, e),
            ap (λ r. r.scope.systems) last ∙ kept,
            ap (λ r. r.scope.lifecycle_events) last ∙ logged,
          )
    ]

transition_body-ok :
    (t : Transition) (s s' : Store) (events : List SystemLifecycleEvent)
    → transition_body t s ≡ ok (events, s')
    → Transitioned t s events s'
unfolding transition_body
transition_body-ok t s s' events e = elim (Option-cases (get_system t.system_id s)) [
  | inl missing ↦ absurd (ground (arith, missing, e))
  | inr (system, found) ↦ elim (Result-cases (find_counterpart t s)) [
    | inr (c, refused) ↦ absurd (ground (arith, found, refused, e))
    | inl (counterpart, other) ↦
        let (same, moved, logged) =
          write_transition-ok t (events_of t system counterpart) events s s'
            (ground (arith, found, other, e)) in
        record {
          system = system;
          found = found;
          counterpart = counterpart;
          other = other;
          written = same;
          moved = moved;
          logged = logged ∙ ap (λ l. s.scope.lifecycle_events ++ l) (sym same);
        }
  ]
]

-- What `transition` may answer, and the store that it leaves.
pub data Outcome (t : Transition) (s : Store)
    : Result (List SystemLifecycleEvent) × Store → Type 0 where
  transitioned :
      {events : List SystemLifecycleEvent} {s' : Store}
      → is_own_counterpart t ≡ false
      → Transitioned t s events s'
      → Outcome t s (ok events, s')
  refused : {c : ErrorCode} → Outcome t s (err c, s)

-- What a transition answers, in the terms of the code.
pub transition-Outcome : (t : Transition) (s : Store) → Outcome t s (transition t s)
unfolding transition transaction
transition-Outcome t s = elim (Bool-cases (is_own_counterpart t)) [
  | inl own ↦
      let left : transition t s ≡ (err scope_violation, s) = ground (arith, own) in
      subst (Outcome t s) (sym left) refused
  | inr apart ↦ elim (Result-cases (transition_body t s)) [
    | inr (c, failed) ↦
        let left : transition t s ≡ (err c, s) = ground (arith, apart, failed) in
        subst (Outcome t s) (sym left) refused
    | inl ((events, s'), done) ↦
        let left : transition t s ≡ (ok events, s') = ground (arith, apart, done) in
        subst (Outcome t s) (sym left) (transitioned apart (transition_body-ok t s s' events done))
  ]
]
