-- ===== src/Ports/Retirement.antt =====
-- packages/adopt-store/src/adopt_store/revisions.py and sqlite/records.py with
-- packages/adopt-freshness/src/adopt_freshness/resolve.py: `retire`, and then `resolve_freshness` over
-- the same store.
use onboard_core.Base.{
  ℕ, String, ◌≡◌, refl, sym, ap, ◌∙◌, Option, none, some, List, [], ◌∷◌, map, find?, arith, ◌==◌,
  Option-cases, inl, inr,
}
use onboard_core.Obs.{ok, Result-cases}
use onboard_core.Model.Enums.{FreshnessState}
use onboard_core.Model.Tables.{KnowledgeItem}
use onboard_core.Store.Tables.{Store, transaction}
use onboard_core.Freshness.Resolve.{FreshnessResolution, resolve_freshness, resolve_item}
use onboard_core.Revisions.Families.{knowledge, has_head_pointer}
use onboard_core.Revisions.Inserts.{draft_family}
use onboard_core.Revisions.Statements.{get_item, head_of, heads, pointed, set_item_freshness}
use onboard_core.Revisions.Rows.{Stamp}
use onboard_core.Revisions.Heads.{freshened}
use onboard_core.Revisions.Writer.{
  append_to, retire_in, finish_retirement, terminal_draft, current_head,
}
use onboard_core.Revisions.Chains.{Appended, append-Appended, append_to-ok}
use onboard_core.Revisions.Affirmation.{retire_in-retired}
use onboard_core.Ports.Freshness.{freshness_records}

-- An item with a head is there.
pointed-missing :
    (id : String) (items : List KnowledgeItem)
    → find? (λ r. r.id == id) items ≡ none
    → pointed id (map (λ r. (r.id, r.current_revision_id)) items) ≡ none
unfolding pointed
pointed-missing id [] e = refl
pointed-missing id (k ∷ ks) e = ground (arith, e, pointed-missing id ks)

freshened-missing :
    (id : String) (value : FreshnessState) (at : ℕ) (items : List KnowledgeItem)
    → find? (λ r. r.id == id) (freshened id value at items) ≡ none
    → find? (λ r. r.id == id) items ≡ none
freshened-missing id value at [] e = refl
freshened-missing id value at (k ∷ ks) e = ground (arith, e, freshened-missing id value at ks)

module _ (item_id reason revision_id : String) (created now : ℕ) (actor_id : Option String)
    (s : Store) where
  abbrev terminal_stamp : Stamp
  terminal_stamp = record {
    revision_id = revision_id;
    parent_id = item_id;
    supersedes = current_head knowledge item_id s;
    created = created;
    actor_id = actor_id;
  }

  -- The two commits of a retirement that succeeded.
  retire_in-commits :
      (id : String) (s' : Store)
      → retire_in knowledge item_id reason revision_id created now actor_id s ≡ (ok id, s')
      → (t : Store) × Appended knowledge terminal_stamp s t
        × (set_item_freshness item_id FreshnessState.retired now t ≡ ok (tt, s'))
  unfolding retire_in finish_retirement transaction set_item_freshness draft_family terminal_draft
      has_head_pointer
  retire_in-commits id s' e =
      let draft = terminal_draft knowledge reason in
      let first = append_to knowledge terminal_stamp draft s in
      elim (Result-cases (first.0)) [
        | inr (c, bad) ↦ absurd (ground (arith, bad, e))
        | inl (j, done) ↦
            let made : append_to knowledge terminal_stamp draft s ≡ (ok j, first.1) =
              ground (arith, done) in
            (
              first.1,
              (append-Appended knowledge terminal_stamp draft s first.1 j refl refl
                  (append_to-ok knowledge terminal_stamp draft s first.1 j made)).1,
              ground (arith, done, e),
            )
      ]

  found_after :
      (t s' : Store)
      → Appended knowledge terminal_stamp s t
      → set_item_freshness item_id FreshnessState.retired now t ≡ ok (tt, s')
      → (item : KnowledgeItem) × (get_item item_id s' ≡ some item)
  unfolding set_item_freshness get_item head_of heads
  found_after t s' a last = elim (Option-cases (get_item item_id s')) [
    | inr (item, found) ↦ (item, found)
    | inl missing ↦
        let kept : s'.parents.items ≡ freshened item_id FreshnessState.retired now t.parents.items =
          ground (arith, last) in
        let before =
          freshened-missing item_id FreshnessState.retired now t.parents.items
            (sym (ap (find? (λ (r : KnowledgeItem). r.id == item_id)) kept) ∙ missing) in
        let headless = pointed-missing item_id t.parents.items before in
        absurd (ground (arith, headless, a.head))
  ]

  -- After a retirement of a knowledge item has succeeded, the item resolves over the store that it
  -- left, at any time, and it resolves as retired.
  pub retire_in-resolves :
      (id : String) (s' : Store) (at : ℕ)
      → retire_in knowledge item_id reason revision_id created now actor_id s ≡ (ok id, s')
      → (r : FreshnessResolution) × (resolve_freshness (freshness_records s') at item_id ≡ ok r)
        × (r.state ≡ FreshnessState.retired)
  unfolding resolve_freshness resolve_item freshness_records
  retire_in-resolves id s' at e =
      let (t, a, last) = retire_in-commits id s' e in
      let (item, found) = found_after t s' a last in
      let r = resolve_item (freshness_records s') at item_id item in
      let resolves : resolve_freshness (freshness_records s') at item_id ≡ ok r =
        ground (arith, found) in
      (
        r,
        resolves,
        retire_in-retired (freshness_records s') at item_id reason revision_id id created now
            actor_id s s' r e refl resolves,
      )
