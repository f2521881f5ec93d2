-- ===== src/Ports/Keyed.antt =====
-- packages/adopt-store/src/adopt_store/sqlite/records.py: what the answers of `SqliteFreshnessRecords`
-- depend on, and the keys of the rows that `SqliteCoverageRecords` gives.
use mathlib.Core.Option
use onboard_core.Base.{
  String, Bool, true, false, ◌≡◌, refl, sym, ap, ◌∙◌, subst, Option, none, some, List, [], ◌∷◌,
  ◌++◌, Memᴰ, arith, mem-any, filter, mem-filter, ◌&&◌, ◌==◌, eq_iff, eq_refl, Bool-cases,
  Option-cases, inl, inr, mem-sort_by, KeysDiffer,
}
use onboard_core.Model.Tables.{Binding, BindingRevision, Identity, IdentityRevision}
use onboard_core.Store.Tables.{Store}
use onboard_core.Freshness.Propagation.{IsKeyed}
use onboard_core.Coverage.Disagreements.{IdsDiffer}
use onboard_core.Revisions.Statements.{newest}
use onboard_core.Ports.Queries.{
  is_among, is_unsuperseded, last_identity_status, binding_join, binding_rows, last_under,
}
use onboard_core.Ports.Freshness.{head_binding_statuses, head_identity_statuses, freshness_records}
use onboard_core.Ports.Coverage.{is_in_scope, identities_in_scope, coverage_records}

last_under-append {ℓ} :
    {A : Type ℓ} (key : String) (l m : List (String × A))
    → last_under key (l ++ m)
      ≡ (elim (last_under key m) [ some later ↦ some later | none ↦ last_under key l ])
unfolding last_under
last_under-append key [] m = elim (Option-cases (last_under key m)) [
  | inl e ↦ rw e refl
  | inr (a, e) ↦ rw e refl
]
last_under-append key (row ∷ l) m =
    let on = last_under-append key l m in
    elim (Option-cases (last_under key m)) [
      | inl e ↦ ground (arith, e, on)
      | inr (a, e) ↦ ground (arith, e, on)
    ]

-- The rows of a binding stand under its own id.
binding_join-other :
    (id : String) (b : Binding) (revisions : List BindingRevision)
    → (b.id == id) ≡ false
    → last_under id (binding_join revisions b) ≡ none
unfolding last_under
binding_join-other id b [] e = refl
binding_join-other id b (r ∷ rs) e = ground (arith, e, binding_join-other id b rs e)

-- Only what is asked of the bindings with an id bears on the status under it.
binding_rows-agree :
    (id : String) (asked also : Binding → Bool) (revisions : List BindingRevision)
    (bindings : List Binding)
    → ((b : Binding) → (b.id == id) ≡ true → asked b ≡ also b)
    → last_under id (binding_rows asked revisions bindings)
      ≡ last_under id (binding_rows also revisions bindings)
unfolding binding_rows last_under
binding_rows-agree id asked also revisions [] same = refl
binding_rows-agree id asked also revisions (b ∷ bs) same =
    let on = binding_rows-agree id asked also revisions bs same in
    let here = binding_join revisions b in
    let one = last_under-append id here (binding_rows asked revisions bs) in
    let two = last_under-append id here (binding_rows also revisions bs) in
    elim (Bool-cases (b.id == id)) [
      | inl e ↦ ground (arith, same b e, on, one, two)
      | inr e ↦ ground (arith, binding_join-other id b revisions e, on, one, two)
    ]

filter-agree {ℓ} :
    {A : Type ℓ} (p q : A → Bool) (l : List A) → ((a : A) → p a ≡ q a) → filter p l ≡ filter q l
filter-agree p q [] same = refl
filter-agree p q (a ∷ l) same = ground (arith, same a, filter-agree p q l same)

is_among-same :
    (ids : List String) (id other : String)
    → Memᴰ id ids
    → (other == id) ≡ true
    → is_among ids other ≡ is_among (id ∷ []) other
is_among-same ids id other m e =
    let same : other ≡ id = (eq_iff other id).0 e in
    subst (λ t. is_among ids t ≡ is_among (id ∷ []) t) (sym same)
      (mem-any (λ one. one == id) ids id m (eq_refl id) ∙ ground (arith, eq_refl id))

module _ (s : Store) where
  -- What the store says of an id does not depend on the other ids that it is asked for.
  pub freshness_records-IsKeyed : IsKeyed (freshness_records s)
  unfolding freshness_records head_binding_statuses head_identity_statuses last_identity_status
  freshness_records-IsKeyed = record {
    bindings_keyed = λ ids id m.
        binding_rows-agree id (λ b. is_among ids b.id) (λ b. is_among (id ∷ []) b.id)
          s.revisions.binding_revisions s.parents.bindings (λ b e. is_among-same ids id b.id m e);
    identities_keyed = λ ids id m.
        let rows = s.revisions.identity_revisions in
        ap
          (λ (l : List IdentityRevision).
            Option.map (λ (r : IdentityRevision). r.status) (newest l))
          (filter-agree
            (λ r. (is_among ids r.identity_id && is_unsuperseded rows r) && r.identity_id == id)
            (λ r.
              (is_among (id ∷ []) r.identity_id && is_unsuperseded rows r) && r.identity_id == id)
            rows
            (λ r. elim (Bool-cases (r.identity_id == id)) [
              | inl e ↦ ground (arith, is_among-same ids id r.identity_id m e)
              | inr e ↦ ground (arith, e)
            ]));
  }

  -- PRIMARY KEY (id) of the table `identity`.
  pub coverage_records-IdsDiffer :
      (system_id : String) (environment_id : Option String)
      → KeysDiffer (λ (i : Identity). i.id) s.parents.identities
      → IdsDiffer (coverage_records s) system_id environment_id
  unfolding coverage_records identities_in_scope
  coverage_records-IdsDiffer system_id environment_id unique a b ma mb same =
      let listed = λ (i : Identity) (m : Memᴰ i (identities_in_scope s system_id environment_id)).
        (mem-filter (is_in_scope s system_id environment_id) s.parents.identities (
          (mem-sort_by (λ row. row.id)
              (filter (is_in_scope s system_id environment_id) s.parents.identities)).0
            m)).0 in
      unique a b (listed a ma) (listed b mb) same
