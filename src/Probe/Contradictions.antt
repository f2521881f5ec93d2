-- ===== src/Probe/Contradictions.antt =====
-- packages/adopt-probe/src/adopt_probe/conflict.py: what `conflicting_intents` reports.
use onboard_core.Base.{
  String, false, ◌≡◌, ◌↔◌, refl, sym, ap, ◌∙◌, some, List, [], Memᴰ, mem-any, any-mem, inl, inr,
  sort_by, mem-sort_by,
}
use onboard_core.Model.Tables.{Identity, Binding, KnowledgeItem, KnowledgeRevision}
use onboard_core.Coverage.Recompute.{by_key}
use onboard_core.Probe.Conflicts.{
  ConflictIntent, Rows, head_binding_status, is_withdrawn, intent, of_exercises, same_pair,
  found_from, conflicting_intents,
}
use onboard_core.Probe.Found.{
  same_pair_iff, Apart, found_from-Apart, Apart-one, found_from-Has, mem-found_from,
}
use onboard_core.Probe.Join.{
  IsConfirmed, mem-of_binding, of_binding-mem, mem-of_bindings, of_bindings-mem, mem-of_exercises,
  of_exercises-mem,
}

module _ (rows : Rows) where
  -- A human confirmed knowledge that a live binding of an exercised identity carries.
  pub record Contradicts (exercises : List String) (identity_id revision_id : String) : Type 0 where
    pub uri : String
    pub exercised : Memᴰ uri exercises
    pub identity : Identity
    pub resolved : by_key (λ i. i.uri) rows.identities uri ≡ some identity
    pub binding : Binding
    pub listed : Memᴰ binding rows.bindings
    pub bound : binding.identity_id ≡ identity.id
    pub live : is_withdrawn (head_binding_status rows.binding_revisions binding) ≡ false
    pub item : KnowledgeItem
    pub revision : KnowledgeRevision
    pub confirmed : IsConfirmed rows binding item revision
    pub named : identity.id ≡ identity_id
    pub revised : revision.id ≡ revision_id

  contradicts :
      (exercises : List String) (identity_id revision_id : String) (c : ConflictIntent)
      → Memᴰ c (of_exercises rows exercises)
      → c.identity_id ≡ identity_id
      → c.intent_revision_id ≡ revision_id
      → Contradicts exercises identity_id revision_id
  contradicts exercises identity_id revision_id c m named revised =
      let (uri, exercised, (i, resolved, within)) = mem-of_exercises rows exercises c m in
      let (b, listed, here) = mem-of_bindings rows i rows.bindings c within in
      let (bound, live, (item, revision, sure, made)) = mem-of_binding rows i b c here in
      record {
        uri = uri;
        exercised = exercised;
        identity = i;
        resolved = resolved;
        binding = b;
        listed = listed;
        bound = bound;
        live = live;
        item = item;
        revision = revision;
        confirmed = sure;
        named = sym (ap ConflictIntent.identity_id made) ∙ named;
        revised = sym (ap ConflictIntent.intent_revision_id made) ∙ revised;
      }

  mem-conflicting_intents :
      {c : ConflictIntent} (exercises : List String)
      → Memᴰ c (conflicting_intents exercises rows)
        ↔ Memᴰ c (found_from [] (of_exercises rows exercises))
  unfolding conflicting_intents
  mem-conflicting_intents {c} exercises =
      let found = found_from [] (of_exercises rows exercises) in
      let inner = mem-sort_by (λ (d : ConflictIntent). d.intent_revision_id) {a = c} found in
      let outer =
        mem-sort_by (λ (d : ConflictIntent). d.identity_uri) {a = c}
          (sort_by (λ (d : ConflictIntent). d.intent_revision_id) found) in
      (λ m. inner.0 (outer.0 m), λ m. outer.1 (inner.1 m))

  -- `conflicting_intents` has an entry for an identity and a revision exactly when an exercised
  -- URI names the identity, a live binding of the identity carries an item that is not retired,
  -- and the revision is the current one of the item and is verified; and it has at most one entry
  -- for them.
  pub conflicting_intents-Contradicts :
      (exercises : List String) (identity_id revision_id : String)
      → (((c : ConflictIntent) × Memᴰ c (conflicting_intents exercises rows)
            × (c.identity_id ≡ identity_id)
            × (c.intent_revision_id ≡ revision_id))
          ↔ Contradicts exercises identity_id revision_id)
        × ((a b : ConflictIntent)
            → Memᴰ a (conflicting_intents exercises rows)
            → Memᴰ b (conflicting_intents exercises rows)
            → a.identity_id ≡ b.identity_id
            → a.intent_revision_id ≡ b.intent_revision_id
            → a ≡ b)
  unfolding Apart
  conflicting_intents-Contradicts exercises identity_id revision_id =
      let all_of = of_exercises rows exercises in
      let found = found_from [] all_of in
      (
        (
          λ reported.
              let (c, m, named, revised) = reported in
              contradicts exercises identity_id revision_id c
                (elim (mem-found_from [] all_of ((mem-conflicting_intents exercises).0 m)) [
                  | inl nowhere ↦ elim nowhere [ ]
                  | inr there ↦ there
                ])
                named revised,
          λ p.
              let q = intent rows p.identity (p.item, p.revision) in
              let there =
                of_exercises-mem rows exercises p.uri p.identity q p.exercised p.resolved (
                  of_bindings-mem rows p.identity rows.bindings p.binding q p.listed (
                    of_binding-mem rows p.identity p.binding p.item p.revision p.bound p.live
                      p.confirmed)) in
              let hit = mem-any (same_pair q) all_of q there ((same_pair_iff q q).1 (refl, refl)) in
              let (c, m, same) =
                any-mem (same_pair q) found (found_from-Has q [] all_of (inr hit)) in
              let (i, r) = (same_pair_iff q c).0 same in
              (c, (mem-conflicting_intents exercises).1 m, sym i ∙ p.named, sym r ∙ p.revised),
        ),
        λ a b ma mb i r.
            Apart-one found a b (found_from-Apart [] all_of tt)
              ((mem-conflicting_intents exercises).0 ma) ((mem-conflicting_intents exercises).0 mb)
              ((same_pair_iff a b).1 (i, r)),
      )
