-- ===== src/Scope/Reach.antt =====
-- packages/adopt-scope: the stores that the operations of the scope lead to.
use mathlib.Core.List.Memᴰ
use onboard_core.Base.{
  Memᴰ, false, find?-some, ap, String, Bool, true, ◌≡◌, sym, ◌∙◌, subst, some, List, [], ◌∷◌, ◌++◌,
  map, inl, inr, arith, ◌==◌, ◌&&◌, any, find?, any-mem, mem-any,
}
use onboard_core.Obs.{Result}
use onboard_core.Model.Enums.{LifecycleState}
use onboard_core.Model.Tables.{System, SystemLifecycleEvent}
use onboard_core.Store.Tables.{Store}
use onboard_core.Scope.Statements.{with_state, find_system}
use onboard_core.Scope.Hierarchy.{create_system, create_firm, create_engagement, create_environment}
use onboard_core.Scope.Lifecycle.{Transition, transition}
use onboard_core.Scope.Events.{Outcome, transitioned, refused, transition-Outcome}
use onboard_core.Scope.Silent.{IsLogged, logged_state-silent, Outcome-IsLogged}
use onboard_core.Scope.Steps.{
  Created, unchanged, added, create_system-Created, Untouched, create_firm-Untouched,
  create_engagement-Untouched, create_environment-Untouched, Step, created_firm, created_engagement,
  created_system, created_environment, moved, Reaches, start, next,
}

Untouched-IsLogged : (s s' : Store) → Untouched s s' → IsLogged s → IsLogged s'
Untouched-IsLogged s s' u before = record {
  states = λ r m. rw u.events (before.states r (rw u.systems at m));
  known = λ e m. rw u.systems (before.known e (rw u.events at m));
}

Created-IsLogged : (s s' : Store) → Created s s' → IsLogged s → IsLogged s'
Created-IsLogged s s' unchanged before = before
Created-IsLogged s s' (added row fresh free first systems events) before = record {
  states = λ r m. elim (Memᴰ.append_cases s.scope.systems (rw systems at m)) [
    | inl old ↦ rw events (before.states r old)
    | inr new ↦
        let same = Memᴰ.eq_of_singleton new in
        let silent =
          logged_state-silent row.id LifecycleState.discovered s.scope.lifecycle_events (λ e k at.
            let held =
              subst (λ i. any (λ (q : System). q.id == i) s.scope.systems ≡ true) at
                (before.known e k) in
            absurd (ground (arith, held, fresh))) in
        rw (events, same) (first ∙ sym silent)
  ];
  known = λ e m.
      let (r, k, at) =
        any-mem (λ (q : System). q.id == e.system_id) s.scope.systems
          (before.known e (rw events at m)) in
      mem-any (λ (q : System). q.id == e.system_id) s'.scope.systems r
        (rw systems (Memᴰ.append_left (row ∷ []) k)) at;
}

Step-IsLogged : (s s' : Store) → Step s s' → IsLogged s → IsLogged s'
Step-IsLogged s s' (created_firm slug name id now) =
    Untouched-IsLogged s (create_firm slug name id now s).1
      (create_firm-Untouched slug name id now s)
Step-IsLogged s s' (created_engagement firm_id slug name client_label id now) =
    Untouched-IsLogged s (create_engagement firm_id slug name client_label id now s).1
      (create_engagement-Untouched firm_id slug name client_label id now s)
Step-IsLogged s s' (created_system engagement_id slug name archetype deployment_mode id now) =
    Created-IsLogged s (create_system engagement_id slug name archetype deployment_mode id now s).1
      (create_system-Created engagement_id slug name archetype deployment_mode id now s)
Step-IsLogged s s'
      (created_environment system_id slug name is_billable data_residency_region id now) =
    Untouched-IsLogged s
      (create_environment system_id slug name is_billable data_residency_region id now s).1
      (create_environment-Untouched system_id slug name is_billable data_residency_region id now s)
Step-IsLogged s s' (moved t) = Outcome-IsLogged t s (transition t s) (transition-Outcome t s)

-- Let a store be logged if every system is in the state that the log of lifecycle events ends in
-- for it, DISCOVERED where the log says nothing, and every event is of a system that is there.
-- Then every store is logged that creations of firms, engagements, systems and environments and
-- transitions lead to from a logged one: no transition is silent.
pub Reaches-IsLogged : (s s' : Store) → IsLogged s → Reaches s s' → IsLogged s'
Reaches-IsLogged s s' before start = before
Reaches-IsLogged s s' before (next {s1} r step) =
    Step-IsLogged s1 s' step (Reaches-IsLogged s s1 before r)

find?-same :
    (p : System → Bool) (f : System → System) (l : List System)
    → ((r : System) → p (f r) ≡ p r)
    → (r : System) → find? p l ≡ some r
    → find? p (map f l) ≡ some (f r)
find?-same p f [] h r e = cc
find?-same p f (x ∷ l) h r e = ground (arith, h x, e, find?-same p f l h r)

find?-append :
    (p : System → Bool) (l m : List System) (r : System)
    → find? p l ≡ some r
    → find? p (l ++ m) ≡ some r
find?-append p [] m r e = cc
find?-append p (x ∷ l) m r e = ground (arith, e, find?-append p l m r)

-- Under the engagement the slug names one system, the one with that id: it is found, and no other
-- system there has the slug.
pub record IsNamedBy (engagement_id slug id : String) (s : Store) : Type 0 where
  pub system : System
  pub found : find_system engagement_id slug s ≡ some system
  pub same : system.id ≡ id
  pub only :
      (r : System)
      → Memᴰ r s.scope.systems
      → r.engagement_id ≡ engagement_id
      → r.slug ≡ slug
      → r.id ≡ id

module _ (engagement_id slug id : String) where
  abbrev is_named : System → Bool
  is_named q = q.engagement_id == engagement_id && q.slug == slug

  abbrev KeepsName : Store → Store → Type 0
  KeepsName s s' = IsNamedBy engagement_id slug id s → IsNamedBy engagement_id slug id s'

  Untouched-KeepsName : (s s' : Store) → Untouched s s' → KeepsName s s'
  unfolding find_system
  Untouched-KeepsName s s' u b = record {
    system = b.system;
    found = rw u.systems b.found;
    same = b.same;
    only = λ r m. b.only r (rw u.systems at m);
  }

  -- The new row has another slug or stands under another engagement.
  apart :
      (s : Store) (row : System)
      → IsNamedBy engagement_id slug id s
      → any
          (λ (r : System). r.engagement_id == row.engagement_id && r.slug == row.slug)
          s.scope.systems
        ≡ false
      → row.engagement_id ≡ engagement_id
      → ¬ (row.slug ≡ slug)
  unfolding find_system
  apart s row b free e f =
      let (listed, test) = find?-some is_named s.scope.systems b.found in
      let held =
        mem-any (λ (r : System). r.engagement_id == row.engagement_id && r.slug == row.slug)
          s.scope.systems b.system listed (rw (e, f) test) in
      absurd (ground (arith, held, free))

  Created-KeepsName : (s s' : Store) → Created s s' → KeepsName s s'
  unfolding find_system
  Created-KeepsName s s' unchanged b = b
  Created-KeepsName s s' (added row fresh free first systems events) b = record {
    system = b.system;
    found = rw systems (find?-append is_named s.scope.systems (row ∷ []) b.system b.found);
    same = b.same;
    only = λ r m e f. elim (Memᴰ.append_cases s.scope.systems (rw systems at m)) [
      | inl old ↦ b.only r old e f
      | inr new ↦
          let is_row = Memᴰ.eq_of_singleton new in
          absurd (
            apart s row b free (ap System.engagement_id (sym is_row) ∙ e)
              (ap System.slug (sym is_row) ∙ f))
    ];
  }

  Outcome-KeepsName :
      (t : Transition) (s : Store) (o : Result (List SystemLifecycleEvent) × Store)
      → Outcome t s o
      → KeepsName s (o.1)
  unfolding find_system
  Outcome-KeepsName t s o refused b = b
  Outcome-KeepsName t s o (transitioned alone d) b =
      let move = with_state t.system_id t.to_state t.occurred_at in
      record {
        system = move b.system;
        found =
            rw d.moved
              (find?-same is_named move s.scope.systems (λ q. ground arith) b.system b.found);
        same = ground (arith, b.same);
        only = λ r m e f.
            let (q, k, made) = Memᴰ.of_map move s.scope.systems (rw d.moved at m) in
            let kept = b.only q k in ground (arith, made, e, f, kept);
      }

  Step-KeepsName : (s s' : Store) → Step s s' → KeepsName s s'
  Step-KeepsName s s' (created_firm slug name id now) =
      Untouched-KeepsName s (create_firm slug name id now s).1
        (create_firm-Untouched slug name id now s)
  Step-KeepsName s s' (created_engagement firm_id slug name client_label id now) =
      Untouched-KeepsName s (create_engagement firm_id slug name client_label id now s).1
        (create_engagement-Untouched firm_id slug name client_label id now s)
  Step-KeepsName s s' (created_system engagement_id slug name archetype deployment_mode id now) =
      Created-KeepsName s
        (create_system engagement_id slug name archetype deployment_mode id now s).1
        (create_system-Created engagement_id slug name archetype deployment_mode id now s)
  Step-KeepsName s s' (created_environment system_id slug name is_billable region id now) =
      Untouched-KeepsName s (create_environment system_id slug name is_billable region id now s).1
        (create_environment-Untouched system_id slug name is_billable region id now s)
  Step-KeepsName s s' (moved t) = Outcome-KeepsName t s (transition t s) (transition-Outcome t s)

  -- A slug is never reissued: if a slug names one system under an engagement, in that it is found
  -- under the slug and every system there with the slug has its id, then in every store that
  -- creations and transitions lead to it still names that one system, and no system with another
  -- id has the slug under that engagement.
  pub Reaches-IsNamedBy :
      (s s' : Store)
      → IsNamedBy engagement_id slug id s
      → Reaches s s'
      → IsNamedBy engagement_id slug id s'
  Reaches-IsNamedBy s s' b start = b
  Reaches-IsNamedBy s s' b (next {s1} reach step) =
      Step-KeepsName s1 s' step (Reaches-IsNamedBy s s1 b reach)
