-- ===== src/Freshness/Rules.antt =====
-- packages/adopt-freshness/src/adopt_freshness/resolve.py: `_load_bearing_blocker` against its rules as
-- they read on the rows.
use onboard_core.Base.{
  String, true, false, ◌≡◌, ◌≢◌, ◌↔◌, ◌⊎◌, sym, ap, ◌∙◌, subst, Option, some, List, Memᴰ, inl, inr,
  arith, KeysDiffer, text_le, text_le_antisym, Bool-cases, Option-cases,
}
use onboard_core.Model.Enums.{
  BindingStatus, FreshnessState, IdentityStatus, is_identity_dead, is_identity_moved,
  is_binding_moved, is_binding_retired, is_stale,
}
use onboard_core.Model.Tables.{Binding}
use onboard_core.Freshness.Resolve.{
  FreshnessLevel, Rule, source, binding, load_bearing_identity_dead, load_bearing_identity_moved,
  load_bearing_binding_retired, load_bearing_binding_stale, is_consulted, binding_blocker,
  load_bearing_blocker,
}
use onboard_core.Freshness.Bindings.{
  by_id, Blocks, load_bearing_blocker-some, load_bearing_blocker-none,
}

is_identity_dead_iff :
    (o : Option IdentityStatus) → (is_identity_dead o ≡ true) ↔ (o ≡ some IdentityStatus.dead)
is_identity_dead_iff o = ground arith

is_identity_moved_iff :
    (o : Option IdentityStatus) → (is_identity_moved o ≡ true) ↔ (o ≡ some IdentityStatus.moved)
is_identity_moved_iff o = ground arith

is_binding_moved_iff :
    (o : Option BindingStatus) → (is_binding_moved o ≡ true) ↔ (o ≡ some BindingStatus.moved)
is_binding_moved_iff o = ground arith

is_binding_retired_iff :
    (o : Option BindingStatus) → (is_binding_retired o ≡ true) ↔ (o ≡ some BindingStatus.retired)
is_binding_retired_iff o = ground arith

is_stale_iff :
    (f : FreshnessState)
    → (is_stale f ≡ true) ↔ ((f ≡ FreshnessState.stale) ⊎ (f ≡ FreshnessState.observation_stale))
is_stale_iff f = ground arith

module _ (statuses : String → Option BindingStatus)
    (identities : String → Option IdentityStatus) where
  -- What a binding says against its item, the first that holds.
  pub data Says (b : Binding) : FreshnessLevel × Rule → Type 0 where
    dead :
        identities b.identity_id ≡ some IdentityStatus.dead
        → Says b (source, load_bearing_identity_dead)
    moved :
        identities b.identity_id ≡ some IdentityStatus.moved
        → Says b (source, load_bearing_identity_moved)
    retired :
        identities b.identity_id ≢ some IdentityStatus.dead
        → identities b.identity_id ≢ some IdentityStatus.moved
        → statuses b.id ≡ some BindingStatus.retired
        → Says b (binding, load_bearing_binding_retired)
    stale :
        identities b.identity_id ≢ some IdentityStatus.dead
        → identities b.identity_id ≢ some IdentityStatus.moved
        → statuses b.id ≢ some BindingStatus.retired
        → (b.freshness_state ≡ FreshnessState.stale)
          ⊎ (b.freshness_state ≡ FreshnessState.observation_stale)
        → Says b (binding, load_bearing_binding_stale)

  -- A load-bearing binding that did not move, and what it says.
  pub record Stops (b : Binding) (v : FreshnessLevel × Rule) : Type 0 where
    pub bearing : b.is_load_bearing ≡ true
    pub current : statuses b.id ≢ some BindingStatus.moved
    pub says : Says b v

  binding_blocker-Says :
      (b : Binding) (v : FreshnessLevel × Rule)
      → binding_blocker statuses identities b ≡ some v
      → Says b v
  unfolding binding_blocker
  binding_blocker-Says b v e = elim (Bool-cases (is_identity_dead (identities b.identity_id))) [
    | inl d ↦
        let same : (source, load_bearing_identity_dead) ≡ v = ground (arith, d, e) in
        subst (Says b) same (dead ((is_identity_dead_iff (identities b.identity_id)).0 d))
    | inr nd ↦ elim (Bool-cases (is_identity_moved (identities b.identity_id))) [
      | inl m ↦
          let same : (source, load_bearing_identity_moved) ≡ v = ground (arith, nd, m, e) in
          subst (Says b) same (moved ((is_identity_moved_iff (identities b.identity_id)).0 m))
      | inr nm ↦ elim (Bool-cases (is_binding_retired (statuses b.id))) [
        | inl r ↦
            let same : (binding, load_bearing_binding_retired) ≡ v = ground (arith, nd, nm, r, e) in
            subst (Says b) same (
              retired (λ d. absurd (ground (arith, nd, d))) (λ m. absurd (ground (arith, nm, m)))
                ((is_binding_retired_iff (statuses b.id)).0 r))
        | inr nr ↦ elim (Bool-cases (is_stale b.freshness_state)) [
          | inr quiet ↦ absurd (ground (arith, nd, nm, nr, quiet, e))
          | inl f ↦
              let same : (binding, load_bearing_binding_stale) ≡ v =
                ground (arith, nd, nm, nr, f, e) in
              subst (Says b) same (
                stale (λ d. absurd (ground (arith, nd, d))) (λ m. absurd (ground (arith, nm, m)))
                  (λ r. absurd (ground (arith, nr, r))) ((is_stale_iff b.freshness_state).0 f))
        ]
      ]
    ]
  ]

  Says-binding_blocker :
      (b : Binding) (v : FreshnessLevel × Rule)
      → Says b v
      → binding_blocker statuses identities b ≡ some v
  unfolding binding_blocker
  Says-binding_blocker b v (dead d) = ground (arith, d)
  Says-binding_blocker b v (moved m) = ground (arith, m)
  Says-binding_blocker b v (retired nd nm r) = ground (arith, nd, nm, r)
  Says-binding_blocker b v (stale nd nm nr f) = ground (arith, nd, nm, nr, f)

  Blocks-Stops :
      (b : Binding) (v : FreshnessLevel × Rule) → Blocks statuses identities b v → Stops b v
  unfolding is_consulted
  Blocks-Stops b v (consulted, said) = record {
    bearing = ground (arith, consulted);
    current = λ m. absurd (ground (arith, consulted, m));
    says = binding_blocker-Says b v said;
  }

  Stops-Blocks :
      (b : Binding) (v : FreshnessLevel × Rule) → Stops b v → Blocks statuses identities b v
  unfolding is_consulted
  Stops-Blocks b v h =
      let settled : is_binding_moved (statuses b.id) ≡ false =
        elim (Bool-cases (is_binding_moved (statuses b.id))) [
          | inl m ↦ absurd (h.current ((is_binding_moved_iff (statuses b.id)).0 m))
          | inr still ↦ still
        ] in
      (ground (arith, h.bearing, settled), Says-binding_blocker b v h.says)

  -- A binding of the list that stops the item with `v`, and none of those that stop it has a lesser
  -- id.
  pub record IsFirstStop (l : List Binding) (v : FreshnessLevel × Rule) : Type 0 where
    pub stop : Binding
    pub listed : Memᴰ stop l
    pub stops : Stops stop v
    pub first :
        (c : Binding) (w : FreshnessLevel × Rule)
        → Memᴰ c l
        → Stops c w
        → text_le stop.id c.id ≡ true

  blocker-IsFirstStop :
      (l : List Binding) (v : FreshnessLevel × Rule)
      → load_bearing_blocker statuses identities l ≡ some v
      → IsFirstStop l v
  blocker-IsFirstStop l v e =
      let f = load_bearing_blocker-some statuses identities l v e in
      record {
        stop = f.blocker;
        listed = f.listed;
        stops = Blocks-Stops f.blocker v f.blocks;
        first = λ c w m h. f.first c w m (Stops-Blocks c w h);
      }

  IsFirstStop-blocker :
      (l : List Binding) (v : FreshnessLevel × Rule)
      → KeysDiffer by_id l
      → IsFirstStop l v
      → load_bearing_blocker statuses identities l ≡ some v
  IsFirstStop-blocker l v differ f =
      elim (Option-cases (load_bearing_blocker statuses identities l)) [
        | inl quiet ↦ absurd (
            load_bearing_blocker-none statuses identities l quiet f.stop v f.listed
              (Stops-Blocks f.stop v f.stops))
        | inr (w, found) ↦
            let g = blocker-IsFirstStop l w found in
            let ids : f.stop.id ≡ g.stop.id =
              text_le_antisym f.stop.id g.stop.id (f.first g.stop w g.listed g.stops)
                (g.first f.stop v f.listed f.stops) in
            let same = differ f.stop g.stop f.listed g.listed ids in
            let said_f = Says-binding_blocker f.stop v f.stops.says in
            let said_g = Says-binding_blocker g.stop w g.stops.says in
            found ∙ sym said_g ∙ ap (binding_blocker statuses identities) (sym same) ∙ said_f
      ]

  -- If no two bindings of a list share an id, then what the list says against its item is what a
  -- binding says that stops it and that has the least id of those that do, and nothing else. A
  -- binding stops the item if it is load-bearing, its head revision does not say that it moved,
  -- and one of these holds, of which the first counts: its identity is dead, its identity has
  -- moved, its head revision is retired, its own state is stale or observation stale.
  pub load_bearing_blocker_iff :
      (l : List Binding) (v : FreshnessLevel × Rule)
      → KeysDiffer by_id l
      → (load_bearing_blocker statuses identities l ≡ some v) ↔ IsFirstStop l v
  load_bearing_blocker_iff l v differ = (blocker-IsFirstStop l v, IsFirstStop-blocker l v differ)
