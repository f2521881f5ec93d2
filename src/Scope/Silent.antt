-- ===== src/Scope/Silent.antt =====
-- packages/adopt-scope/src/adopt_scope/lifecycle.py: the states of the systems against the log of
-- their lifecycle events.
use mathlib.Core.List.Memᴰ
use onboard_core.Base.{
  String, true, false, ◌≡◌, refl, sym, ap, ◌∙◌, Option, none, some, List, [], ◌∷◌, ◌++◌, Memᴰ, ◌≢◌,
  ◌⊎◌, inl, inr, arith, eq_iff, ◌==◌, if◌then◌else◌, any, Bool-cases, Option-cases, find?-some,
  any-mem, mem-any,
}
use onboard_core.Obs.{Result, ok}
use onboard_core.Model.Enums.{LifecycleState}
use onboard_core.Model.Tables.{System, SystemLifecycleEvent}
use onboard_core.Store.Tables.{Store}
use onboard_core.Scope.Statements.{get_system, with_state}
use onboard_core.Scope.Lifecycle.{Transition, is_own_counterpart, find_counterpart, events_of}
use onboard_core.Scope.Events.{Transitioned, Outcome, transitioned, refused}

-- The state that a log ends in for a system, from a first state on.
unfoldable pub logged_state : String → LifecycleState → List SystemLifecycleEvent → LifecycleState
logged_state id first [] = first
logged_state id first (e ∷ es) =
    logged_state id (if e.system_id == id then e.to_state else first) es

logged_state-append :
    (id : String) (first : LifecycleState) (es fs : List SystemLifecycleEvent)
    → logged_state id first (es ++ fs) ≡ logged_state id (logged_state id first es) fs
unfolding logged_state
logged_state-append id first [] fs = refl
logged_state-append id first (e ∷ es) fs =
    logged_state-append id (if e.system_id == id then e.to_state else first) es fs

-- Every system is in the state that the log ends in, DISCOVERED where the log says nothing of it, and
-- the log speaks only of systems that are there.
pub record IsLogged (s : Store) : Type 0 where
  pub states :
      (r : System)
      → Memᴰ r s.scope.systems
      → r.lifecycle_state ≡ logged_state r.id LifecycleState.discovered s.scope.lifecycle_events
  pub known :
      (e : SystemLifecycleEvent)
      → Memᴰ e s.scope.lifecycle_events
      → any (λ (r : System). r.id == e.system_id) s.scope.systems ≡ true

get_system-mem :
    (id : String) (s : Store) (r : System)
    → get_system id s ≡ some r
    → Memᴰ r s.scope.systems × (r.id ≡ id)
unfolding get_system
get_system-mem id s r e =
    let (m, h) = find?-some (λ r. r.id == id) s.scope.systems e in (m, (eq_iff r.id id).0 h)

find_counterpart-found :
    (t : Transition) (s : Store) (c : System)
    → find_counterpart t s ≡ ok (some c)
    → (related : String) × (t.related_system_id ≡ some related) × (get_system related s ≡ some c)
unfolding find_counterpart
find_counterpart-found t s c e = elim (Option-cases t.related_system_id) [
  | inl alone ↦ absurd (ground (arith, alone, e))
  | inr (related, named) ↦ elim (Option-cases (get_system related s)) [
    | inl missing ↦ absurd (ground (arith, named, missing, e))
    | inr (row, found) ↦ (related, named, ground (arith, named, found, e))
  ]
]

-- What a transition's own events make of the state of a system.
events_of-logged :
    (t : Transition) (system : System) (counterpart : Option System) (id : String)
    (state : LifecycleState)
    → ((c : System) → counterpart ≡ some c → c.id ≢ t.system_id)
    → ((c : System) → counterpart ≡ some c → c.id ≡ id → c.lifecycle_state ≡ state)
    → logged_state id state (events_of t system counterpart)
      ≡ (if id == t.system_id then t.to_state else state)
unfolding logged_state events_of
events_of-logged t system none id state apart agrees =
    ground (arith, eq_iff t.system_id id, eq_iff id t.system_id)
events_of-logged t system (some c) id state apart agrees = elim (Bool-cases (c.id == id)) [
  | inr elsewhere ↦ ground (arith, elsewhere, eq_iff t.system_id id, eq_iff id t.system_id)
  | inl here ↦
      let at : c.id ≡ id = (eq_iff c.id id).0 here in
      let same = agrees c refl at in
      let other = apart c refl in ground (arith, here, at, same, other, eq_iff id t.system_id)
]

events_of-mem :
    (t : Transition) (system : System) (counterpart : Option System) (e : SystemLifecycleEvent)
    → Memᴰ e (events_of t system counterpart)
    → (e.system_id ≡ t.system_id) ⊎ ((c : System) × (counterpart ≡ some c) × (e.system_id ≡ c.id))
unfolding events_of
events_of-mem t system none e m =
    inl (ap (λ (x : SystemLifecycleEvent). x.system_id) (Memᴰ.eq_of_singleton m))
events_of-mem t system (some c) e m = elim (Memᴰ.cases_cons m) [
  | inl own ↦ inl (ap (λ (x : SystemLifecycleEvent). x.system_id) own)
  | inr other ↦
      inr (c, refl, ap (λ (x : SystemLifecycleEvent). x.system_id) (Memᴰ.eq_of_singleton other))
]

module _ (t : Transition) (s s' : Store) (events : List SystemLifecycleEvent)
    (alone : is_own_counterpart t ≡ false) (d : Transitioned t s events s')
    (before : IsLogged s) where
  apart : (c : System) → d.counterpart ≡ some c → c.id ≢ t.system_id
  apart c e same =
      let (related, named, found) = find_counterpart-found t s c (d.other ∙ ap ok e) in
      let (m, at) = get_system-mem related s c found in
      ground (arith, alone, named, (eq_iff related t.system_id).1 (sym at ∙ same))

  agrees :
      (r : System)
      → Memᴰ r s.scope.systems
      → (c : System) → d.counterpart ≡ some c
      → c.id ≡ r.id
      → c.lifecycle_state ≡ r.lifecycle_state
  agrees r m c e same =
      let (related, named, found) = find_counterpart-found t s c (d.other ∙ ap ok e) in
      let (k, at) = get_system-mem related s c found in
      before.states c k
      ∙ ap (λ id. logged_state id LifecycleState.discovered s.scope.lifecycle_events) same
      ∙ sym (before.states r m)

  moved-states :
      (r : System)
      → Memᴰ r s.scope.systems
      → (with_state t.system_id t.to_state t.occurred_at r).lifecycle_state
        ≡ logged_state r.id LifecycleState.discovered s'.scope.lifecycle_events
  moved-states r m =
      let log : logged_state r.id LifecycleState.discovered s'.scope.lifecycle_events
          ≡ logged_state r.id r.lifecycle_state events =
        ap (logged_state r.id LifecycleState.discovered) d.logged
        ∙ logged_state-append r.id LifecycleState.discovered s.scope.lifecycle_events events
        ∙ ap (λ first. logged_state r.id first events) (sym (before.states r m)) in
      let own =
        events_of-logged t d.system d.counterpart r.id r.lifecycle_state apart (agrees r m) in
      ground (arith, log, own, d.written)

  kept_ids :
      (id : String)
      → any (λ (r : System). r.id == id) s.scope.systems ≡ true
      → any (λ (r : System). r.id == id) s'.scope.systems ≡ true
  kept_ids id h =
      let (r, m, at) = any-mem (λ (r : System). r.id == id) s.scope.systems h in
      mem-any (λ (r : System). r.id == id) s'.scope.systems
        (with_state t.system_id t.to_state t.occurred_at r)
        (rw d.moved (Memᴰ.map (with_state t.system_id t.to_state t.occurred_at) m))
        (ground (arith, at))

  about :
      (e : SystemLifecycleEvent)
      → Memᴰ e events
      → any (λ (r : System). r.id == e.system_id) s.scope.systems ≡ true
  about e m = elim (events_of-mem t d.system d.counterpart e (rw d.written at m)) [
    | inl own ↦
        let (k, at) = get_system-mem t.system_id s d.system d.found in
        mem-any (λ (r : System). r.id == e.system_id) s.scope.systems d.system k
          ((eq_iff d.system.id e.system_id).1 (at ∙ sym own))
    | inr (c, given, of) ↦
        let (related, named, found) = find_counterpart-found t s c (d.other ∙ ap ok given) in
        let (k, at) = get_system-mem related s c found in
        mem-any (λ (r : System). r.id == e.system_id) s.scope.systems c k
          ((eq_iff c.id e.system_id).1 (sym of))
  ]

  Transitioned-IsLogged : IsLogged s'
  Transitioned-IsLogged = record {
    states = λ r m.
        let (old, k, made) =
          Memᴰ.of_map (with_state t.system_id t.to_state t.occurred_at) s.scope.systems
            (rw d.moved at m) in
        let new = moved-states old k in
        let id : old.id ≡ r.id = ground (arith, made) in
        sym (ap (λ (q : System). q.lifecycle_state) made)
        ∙ new
        ∙ ap (λ i. logged_state i LifecycleState.discovered s'.scope.lifecycle_events) id;
    known = λ e m. elim (Memᴰ.append_cases s.scope.lifecycle_events (rw d.logged at m)) [
      | inl old ↦ kept_ids e.system_id (before.known e old)
      | inr new ↦ kept_ids e.system_id (about e new)
    ];
  }

pub Outcome-IsLogged :
    (t : Transition) (s : Store) (o : Result (List SystemLifecycleEvent) × Store)
    → Outcome t s o
    → IsLogged s
    → IsLogged (o.1)
Outcome-IsLogged t s o refused before = before
Outcome-IsLogged t s o (transitioned {events} {s'} alone d) before =
    Transitioned-IsLogged t s s' events alone d before

-- A system that a log does not speak of is where it started.
pub logged_state-silent :
    (id : String) (first : LifecycleState) (es : List SystemLifecycleEvent)
    → ((e : SystemLifecycleEvent) → Memᴰ e es → e.system_id ≢ id)
    → logged_state id first es ≡ first
unfolding logged_state
logged_state-silent id first [] h = refl
logged_state-silent id first (e ∷ es) h =
    let no = h e (Memᴰ.head refl) in
    let rest = logged_state-silent id first es (λ f m. h f (Memᴰ.tail m)) in
    ground (arith, eq_iff e.system_id id, no, rest)
