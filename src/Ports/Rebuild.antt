-- ===== src/Ports/Rebuild.antt =====
-- packages/adopt-coverage/src/adopt_coverage/cache.py over the tables of
-- packages/adopt-store/src/adopt_store/sqlite/records.py: `rebuild_cache` on a store.
use onboard_core.Base.{
  ℕ, String, Bool, true, ◌≡◌, refl, sym, ap, ◌∙◌, subst, Option, none, List, [], ◌∷◌, map, arith,
  any, filter, ◌&&◌, ◌==◌, insert_by, sort_by, KeysDiffer,
}
use onboard_core.Model.Tables.{Identity}
use onboard_core.Store.Tables.{Store}
use onboard_core.Coverage.Recompute.{CoverageResult, recompute_coverage, rebuild_cache}
use onboard_core.Coverage.Cache.{
  Keeps, stamp_all, stamp_all-Keeps, write_caches-map, after_rebuild, rebuild_cache-agrees,
}
use onboard_core.Ports.Queries.{
  in_environment, is_unsuperseded, last_identity_status, binding_rows, last_under,
}
use onboard_core.Ports.Coverage.{
  is_in_scope, joins_scope, identities_in_scope, scoped_identity_statuses, bindings_in_scope,
  scoped_binding_statuses, items_in_scope, head_item_verifications, audience_counts,
  boundaries_for_system, coverage_records,
}
use onboard_core.Ports.Keyed.{coverage_records-IdsDiffer}

module _ {ℓ} {A : Type ℓ} (f : A → A) where
  filter-map :
      (p : A → Bool) (l : List A)
      → ((a : A) → p (f a) ≡ p a)
      → filter p (map f l) ≡ map f (filter p l)
  filter-map p [] same = refl
  filter-map p (a ∷ l) same = ground (arith, same a, filter-map p l same)

  any-map : (p : A → Bool) (l : List A) → ((a : A) → p (f a) ≡ p a) → any p (map f l) ≡ any p l
  any-map p [] same = refl
  any-map p (a ∷ l) same = ground (arith, same a, any-map p l same)

  insert_by-map :
      (key : A → String) (a : A) (l : List A)
      → ((b : A) → key (f b) ≡ key b)
      → insert_by key (f a) (map f l) ≡ map f (insert_by key a l)
  unfolding insert_by
  insert_by-map key a [] same = refl
  insert_by-map key a (b ∷ l) same = ground (arith, same a, same b, insert_by-map key a l same)

  sort_by-map :
      (key : A → String) (l : List A)
      → ((b : A) → key (f b) ≡ key b)
      → sort_by key (map f l) ≡ map f (sort_by key l)
  unfolding sort_by
  sort_by-map key [] same = refl
  sort_by-map key (a ∷ l) same =
      ap (insert_by key (f a)) (sort_by-map key l same) ∙ insert_by-map key a (sort_by key l) same

-- The store after `rebuild_cache`.
unfoldable pub rebuild_store : CoverageResult → Store → Store
unfolding rebuild_cache
rebuild_store result s = record s {
  parents = record s.parents { identities = (rebuild_cache result s.parents.identities).0 };
}

module _ (result : CoverageResult) (s : Store) where
  abbrev after : Store
  after = rebuild_store result s

  abbrev rewritten : Identity → Identity
  rewritten = stamp_all result.computed_at result.identities

  kept : (row : Identity) → Keeps row (rewritten row)
  kept row = stamp_all-Keeps result.computed_at result.identities row

  after-identities : after.parents.identities ≡ map rewritten s.parents.identities
  unfolding rebuild_store
  after-identities = write_caches-map result.computed_at result.identities s.parents.identities

  is_in_scope-rewritten :
      (system_id : String) (environment_id : Option String) (row : Identity)
      → is_in_scope s system_id environment_id (rewritten row)
        ≡ is_in_scope s system_id environment_id row
  is_in_scope-rewritten system_id environment_id row =
      let k = kept row in
      ap (λ t. (t == system_id) && in_environment environment_id (rewritten row).environment_id)
        k.system_id
      ∙ ap (λ t. (row.system_id == system_id) && in_environment environment_id t) k.environment_id

  identities_in_scope-after :
      (system_id : String) (environment_id : Option String)
      → identities_in_scope after system_id environment_id
        ≡ (rebuild_cache result (identities_in_scope s system_id environment_id)).0
  unfolding identities_in_scope rebuild_cache
  identities_in_scope-after system_id environment_id =
      let p = is_in_scope s system_id environment_id in
      ap (λ l. sort_by (λ (row : Identity). row.id) (filter p l)) after-identities
      ∙ ap (sort_by (λ (row : Identity). row.id)) (
          filter-map rewritten p s.parents.identities
            (is_in_scope-rewritten system_id environment_id))
      ∙ sort_by-map rewritten (λ row. row.id) (filter p s.parents.identities) (λ row. (kept row).id)
      ∙ sym (
          write_caches-map result.computed_at result.identities
            (sort_by (λ row. row.id) (filter p s.parents.identities)))

  joins_scope-after :
      (system_id : String) (environment_id : Option String) (id : String)
      → joins_scope after system_id environment_id id ≡ joins_scope s system_id environment_id id
  joins_scope-after system_id environment_id id =
      let p = λ (i : Identity). i.id == id && is_in_scope s system_id environment_id i in
      ap (any p) after-identities
      ∙ any-map rewritten p s.parents.identities (λ row.
        ap (λ t. (t == id) && is_in_scope s system_id environment_id (rewritten row)) (kept row).id
        ∙ ap (λ t. (row.id == id) && t) (is_in_scope-rewritten system_id environment_id row))

  -- The port over the rebuilt store is the port over the store, after a rebuild.
  coverage_records-after :
      coverage_records after ≡ after_rebuild (coverage_records s) "" none result
  unfolding coverage_records scoped_identity_statuses bindings_in_scope scoped_binding_statuses
      rebuild_store identities_in_scope items_in_scope head_item_verifications audience_counts
      boundaries_for_system
  coverage_records-after = λ i. record (coverage_records s) {
    identities_in_scope =
        λ system_id environment_id. identities_in_scope-after system_id environment_id i;
    head_identity_statuses = λ system_id environment_id id.
        let rows = s.revisions.identity_revisions in
        last_identity_status
          (λ r.
            joins_scope-after system_id environment_id r.identity_id i && is_unsuperseded rows r)
          id rows;
    bindings_in_scope = λ system_id environment_id.
        sort_by (λ row. row.id)
          (filter (λ b. joins_scope-after system_id environment_id b.identity_id i)
            s.parents.bindings);
    head_binding_statuses = λ system_id environment_id id. last_under id (
        binding_rows (λ b. joins_scope-after system_id environment_id b.identity_id i)
          s.revisions.binding_revisions s.parents.bindings);
  }

-- If no two identities of a store share an id, then after the cache of the store was rebuilt from
-- a recomputation over it, for a system and perhaps an environment, a later recomputation over the
-- store gives the same verdicts, finds no disagreement and raises no alarm.
pub rebuild_store-agrees :
    (s : Store) (system_id : String) (environment_id : Option String) (now later : ℕ)
    (compare_cache : Bool)
    → KeysDiffer (λ (i : Identity). i.id) s.parents.identities
    → let result =
        (recompute_coverage (coverage_records s) system_id environment_id now compare_cache).0 in
      let (again, alarm) =
        recompute_coverage
          (coverage_records (rebuild_store result s))
          system_id
          environment_id
          later
          true in
      (again.identities ≡ result.identities) × (again.disagreements ≡ []) × (alarm ≡ none)
rebuild_store-agrees s system_id environment_id now later compare_cache unique =
    let result =
      (recompute_coverage (coverage_records s) system_id environment_id now compare_cache).0 in
    subst
      (λ port.
        let (again, alarm) = recompute_coverage port system_id environment_id later true in
        (again.identities ≡ result.identities) × (again.disagreements ≡ []) × (alarm ≡ none))
      (sym (coverage_records-after result s))
      (rebuild_cache-agrees (coverage_records s) system_id environment_id
        (coverage_records-IdsDiffer s system_id environment_id unique) now later compare_cache)
