-- ===== src/Revisions/Affirmation.antt =====
-- packages/adopt-store/src/adopt_store/revisions.py: what `append_revision` and `retire` make of the
-- freshness of an item.
use mathlib.Core.List.Memᴰ
use onboard_core.Base.{
  ℕ, String, true, ◌≡◌, Option, some, inl, inr, arith, ◌==◌, if◌then◌else◌, Bool-cases, find?-some,
  Option-cases,
}
use onboard_core.Obs.{Result-cases, ok}
use onboard_core.Model.Enums.{FreshnessState}
use onboard_core.Model.Tables.{KnowledgeItem}
use onboard_core.Store.Tables.{Store, transaction}
use onboard_core.Freshness.Resolve.{
  FreshnessRecords, FreshnessResolution, resolve_freshness, resolve_item,
}
use onboard_core.Revisions.Families.{knowledge, RevisionDraft, has_head_pointer}
use onboard_core.Revisions.Statements.{
  with_freshness, set_item_freshness, get_item, advance_head, point_heads,
}
use onboard_core.Revisions.Writer.{
  affirms, publish, append_body, append_to, retire_in, finish_retirement, terminal_draft,
  current_head, same_head,
}
use onboard_core.Revisions.Rows.{Stamp, insert}
use onboard_core.Revisions.Heads.{freshened}
use onboard_core.Revisions.Chains.{append_to-ok}

-- The item that a statement freshened is found with the state that it was given.
pub get_item-freshened :
    (id : String) (value : FreshnessState) (at : ℕ) (s s' : Store) (u : Unit {0})
    (item : KnowledgeItem)
    → set_item_freshness id value at s ≡ ok (u, s')
    → get_item id s' ≡ some item
    → item.freshness_state ≡ value
unfolding set_item_freshness get_item
get_item-freshened id value at s s' u item e found =
    let kept : s'.parents.items ≡ freshened id value at s.parents.items = ground arith in
    let (listed, named) = find?-some (λ r. r.id == id) s'.parents.items found in
    let (old, m, made) =
      Memᴰ.of_map (λ r. if r.id == id then with_freshness value at r else r) s.parents.items
        (rw kept at listed) in
    elim (Bool-cases (old.id == id)) [
      | inl same ↦ ground (arith, same, made)
      | inr other ↦ absurd (ground (arith, other, made, named))
    ]

-- After a successful append of a verified knowledge revision, the item that it revises, if it is
-- found, is stored as fresh.
pub append_to-affirmed :
    (stamp : Stamp) (draft : RevisionDraft) (s s' : Store) (id : String) (item : KnowledgeItem)
    → affirms knowledge draft ≡ true
    → append_to knowledge stamp draft s ≡ (ok id, s')
    → get_item stamp.parent_id s' ≡ some item
    → item.freshness_state ≡ FreshnessState.fresh
unfolding append_body publish advance_head has_head_pointer set_item_freshness
append_to-affirmed stamp draft s s' id item vouched e found =
    let done = append_to-ok knowledge stamp draft s s' id e in
    elim (Bool-cases (same_head (current_head knowledge stamp.parent_id s) stamp.supersedes)) [
      | inr stale ↦ absurd (ground (arith, stale, done))
      | inl current ↦ elim (Result-cases (insert stamp draft s)) [
        | inr (c, refused) ↦ absurd (ground (arith, current, refused, done))
        | inl ((u, s1), inserted) ↦
            let moved : Store = record s1 {
              parents = point_heads knowledge stamp.parent_id stamp.revision_id s1.parents;
            } in
            let freshening : set_item_freshness stamp.parent_id FreshnessState.fresh stamp.created
                  moved
                ≡ ok (tt, s') =
              ground (arith, current, inserted, done, vouched) in
            get_item-freshened stamp.parent_id FreshnessState.fresh stamp.created moved s' tt item
              freshening found
      ]
    ]

pub retire_in-last :
    (item_id reason revision_id id : String) (created now : ℕ) (actor_id : Option String)
    (s s' : Store)
    → retire_in knowledge item_id reason revision_id created now actor_id s ≡ (ok id, s')
    → (t : Store) × (set_item_freshness item_id FreshnessState.retired now t ≡ ok (tt, s'))
unfolding retire_in finish_retirement transaction set_item_freshness
retire_in-last item_id reason revision_id id created now actor_id s s' e =
    let stamp : Stamp = record {
      revision_id = revision_id;
      parent_id = item_id;
      supersedes = current_head knowledge item_id s;
      created = created;
      actor_id = actor_id;
    } in
    let first = append_to knowledge stamp (terminal_draft knowledge reason) s in
    elim (Result-cases (first.0)) [
      | inr (c, failed) ↦ absurd (ground (arith, failed, e))
      | inl (j, done) ↦ (first.1, ground (arith, done, e))
    ]

-- After a retirement of a knowledge item has succeeded, and as long as the records give the item
-- as the store then holds it, if the item resolves then it resolves retired, whatever else the
-- records hold.
pub retire_in-retired :
    (records : FreshnessRecords) (at : ℕ) (item_id reason revision_id id : String) (created now : ℕ)
    (actor_id : Option String) (s s' : Store) (r : FreshnessResolution)
    → retire_in knowledge item_id reason revision_id created now actor_id s ≡ (ok id, s')
    → records.get_item item_id ≡ get_item item_id s'
    → resolve_freshness records at item_id ≡ ok r
    → r.state ≡ FreshnessState.retired
unfolding resolve_freshness resolve_item
retire_in-retired records at item_id reason revision_id id created now actor_id s s' r e reads
      resolved =
    let (t, last) = retire_in-last item_id reason revision_id id created now actor_id s s' e in
    elim (Option-cases (get_item item_id s')) [
      | inl missing ↦ absurd (ground (arith, missing, reads, resolved))
      | inr (item, found) ↦
          let final =
            get_item-freshened item_id FreshnessState.retired now t s' tt item last found in
          ground (arith, found, reads, resolved, final)
    ]
