-- ===== src/Probe/Join.antt =====
-- packages/adopt-probe/src/adopt_probe/conflict.py: the loops of `conflicting_intents`.
use mathlib.Core.List.Memᴰ
use onboard_core.Base.{
  String, true, false, ◌≡◌, refl, sym, ap, ◌∙◌, subst, none, some, List, [], ◌∷◌, ◌++◌, Memᴰ, arith,
  ◌==◌, eq_iff, Bool-cases, Option-cases, inl, inr,
}
use onboard_core.Model.Enums.{is_retired, is_verified}
use onboard_core.Model.Tables.{Identity, Binding, KnowledgeItem, KnowledgeRevision}
use onboard_core.Coverage.Recompute.{by_key}
use onboard_core.Probe.Conflicts.{
  ConflictIntent, Rows, head_binding_status, is_withdrawn, confirmed, intent, of_binding,
  of_bindings, of_exercises,
}

module _ (rows : Rows) where
  -- The item of the binding is maintained, and a human confirmed its current revision.
  pub record IsConfirmed (b : Binding) (item : KnowledgeItem) (revision : KnowledgeRevision)
      : Type 0 where
    pub held : by_key (λ k. k.id) rows.items b.item_id ≡ some item
    pub maintained : is_retired item.freshness_state ≡ false
    pub revision_id : String
    pub current : item.current_revision_id ≡ some revision_id
    pub found : by_key (λ r. r.id) rows.knowledge_revisions revision_id ≡ some revision
    pub verified : is_verified revision.verification ≡ true

  confirmed-some :
      (b : Binding) (item : KnowledgeItem) (revision : KnowledgeRevision)
      → confirmed rows b ≡ some (item, revision)
      → IsConfirmed b item revision
  unfolding confirmed
  confirmed-some b item revision e = elim (Option-cases (by_key (λ k. k.id) rows.items b.item_id)) [
    | inl gone ↦ absurd (ground (arith, gone, e))
    | inr (k, held) ↦ elim (Option-cases k.current_revision_id) [
      | inl headless ↦ absurd (ground (arith, held, headless, e))
      | inr (id, current) ↦ elim (Bool-cases (is_retired k.freshness_state)) [
        | inl over ↦ absurd (ground (arith, held, current, over, e))
        | inr kept ↦ elim (Option-cases (by_key (λ r. r.id) rows.knowledge_revisions id)) [
          | inl gone ↦ absurd (ground (arith, held, current, kept, gone, e))
          | inr (r, found) ↦ elim (Bool-cases (is_verified r.verification)) [
            | inr unsure ↦ absurd (ground (arith, held, current, kept, found, unsure, e))
            | inl sure ↦
                let same_item : k ≡ item = ground (arith, held, current, kept, found, sure, e) in
                let same_revision : r ≡ revision =
                  ground (arith, held, current, kept, found, sure, e) in
                record {
                  held = held ∙ ap some same_item;
                  maintained =
                      sym (ap (λ (t : KnowledgeItem). is_retired t.freshness_state) same_item)
                      ∙ kept;
                  revision_id = id;
                  current =
                      sym (ap (λ (t : KnowledgeItem). t.current_revision_id) same_item) ∙ current;
                  found = found ∙ ap some same_revision;
                  verified =
                      sym (ap (λ (t : KnowledgeRevision). is_verified t.verification) same_revision)
                      ∙ sure;
                }
          ]
        ]
      ]
    ]
  ]

  IsConfirmed-confirmed :
      (b : Binding) (item : KnowledgeItem) (revision : KnowledgeRevision)
      → IsConfirmed b item revision
      → confirmed rows b ≡ some (item, revision)
  unfolding confirmed
  IsConfirmed-confirmed b item revision c =
      ground (arith, c.held, c.current, c.maintained, c.found, c.verified)

  pub mem-of_binding :
      (i : Identity) (b : Binding) (q : ConflictIntent)
      → Memᴰ q (of_binding rows i b)
      → (b.identity_id ≡ i.id)
        × (is_withdrawn (head_binding_status rows.binding_revisions b) ≡ false)
        × ((item : KnowledgeItem) × (revision : KnowledgeRevision) × IsConfirmed b item revision
            × (q ≡ intent rows i (item, revision)))
  unfolding of_binding
  mem-of_binding i b q m = elim (Bool-cases (b.identity_id == i.id)) [
    | inr other ↦ elim (rw other at m) [ ]
    | inl same ↦ elim (Bool-cases (is_withdrawn (head_binding_status rows.binding_revisions b))) [
      | inl out ↦ elim (rw (same, out) at m) [ ]
      | inr live ↦ elim (Option-cases (confirmed rows b)) [
        | inl unsure ↦ elim (rw (same, live, unsure) at m) [ ]
        | inr (found, e) ↦ (
          (eq_iff b.identity_id i.id).0 same,
          live,
          (
            found.0,
            found.1,
            confirmed-some b found.0 found.1 e,
            Memᴰ.eq_of_singleton (rw (same, live, e) at m),
          ),
        )
      ]
    ]
  ]

  pub of_binding-mem :
      (i : Identity) (b : Binding) (item : KnowledgeItem) (revision : KnowledgeRevision)
      → b.identity_id ≡ i.id
      → is_withdrawn (head_binding_status rows.binding_revisions b) ≡ false
      → IsConfirmed b item revision
      → Memᴰ (intent rows i (item, revision)) (of_binding rows i b)
  unfolding of_binding
  of_binding-mem i b item revision e live c =
      let same = (eq_iff b.identity_id i.id).1 e in
      rw (same, live, IsConfirmed-confirmed b item revision c) (Memᴰ.head refl)

  pub mem-of_bindings :
      (i : Identity) (bs : List Binding) (q : ConflictIntent)
      → Memᴰ q (of_bindings rows i bs)
      → (b : Binding) × Memᴰ b bs × Memᴰ q (of_binding rows i b)
  unfolding of_bindings
  mem-of_bindings i [] q m = elim m [ ]
  mem-of_bindings i (b ∷ bs) q m = elim (Memᴰ.append_cases (of_binding rows i b) m) [
    | inl here ↦ (b, Memᴰ.head refl, here)
    | inr later ↦ let (c, k, there) = mem-of_bindings i bs q later in (c, Memᴰ.tail k, there)
  ]

  pub of_bindings-mem :
      (i : Identity) (bs : List Binding) (b : Binding) (q : ConflictIntent)
      → Memᴰ b bs
      → Memᴰ q (of_binding rows i b)
      → Memᴰ q (of_bindings rows i bs)
  unfolding of_bindings
  of_bindings-mem i [] b q m k = elim m [ ]
  of_bindings-mem i (c ∷ bs) b q m k = elim (Memᴰ.cases_cons m) [
    | inl here ↦
        Memᴰ.append_left (of_bindings rows i bs) (subst (λ t. Memᴰ q (of_binding rows i t)) here k)
    | inr later ↦ Memᴰ.append_right (of_binding rows i c) (of_bindings-mem i bs b q later k)
  ]

  of_exercises-unknown :
      (uri : String) (es : List String)
      → by_key (λ i. i.uri) rows.identities uri ≡ none
      → of_exercises rows (uri ∷ es) ≡ of_exercises rows es
  unfolding of_exercises
  of_exercises-unknown uri es e = ground (arith, e)

  of_exercises-known :
      (uri : String) (es : List String) (i : Identity)
      → by_key (λ i. i.uri) rows.identities uri ≡ some i
      → of_exercises rows (uri ∷ es) ≡ of_bindings rows i rows.bindings ++ of_exercises rows es
  unfolding of_exercises
  of_exercises-known uri es i e = ground (arith, e)

  pub mem-of_exercises :
      (es : List String) (q : ConflictIntent)
      → Memᴰ q (of_exercises rows es)
      → (uri : String) × Memᴰ uri es
        × ((i : Identity) × (by_key (λ i. i.uri) rows.identities uri ≡ some i)
            × Memᴰ q (of_bindings rows i rows.bindings))
  unfolding of_exercises
  mem-of_exercises [] q m = elim m [ ]
  mem-of_exercises (uri ∷ es) q m =
      elim (Option-cases (by_key (λ (i : Identity). i.uri) rows.identities uri)) [
        | inl unknown ↦
            let (u, k, rest) =
              mem-of_exercises es q
                (subst (λ l. Memᴰ q l) (of_exercises-unknown uri es unknown) m) in
            (u, Memᴰ.tail k, rest)
        | inr (i, e) ↦
            elim (Memᴰ.append_cases (of_bindings rows i rows.bindings)
              (subst (λ l. Memᴰ q l) (of_exercises-known uri es i e) m)) [
                | inl here ↦ (uri, Memᴰ.head refl, (i, e, here))
                | inr later ↦
                    let (u, k, rest) = mem-of_exercises es q later in (u, Memᴰ.tail k, rest)
              ]
      ]

  pub of_exercises-mem :
      (es : List String) (uri : String) (i : Identity) (q : ConflictIntent)
      → Memᴰ uri es
      → by_key (λ i. i.uri) rows.identities uri ≡ some i
      → Memᴰ q (of_bindings rows i rows.bindings)
      → Memᴰ q (of_exercises rows es)
  unfolding of_exercises
  of_exercises-mem [] uri i q m e k = elim m [ ]
  of_exercises-mem (u ∷ es) uri i q m e k = elim (Memᴰ.cases_cons m) [
    | inl here ↦
        let known = sym (ap (by_key (λ (t : Identity). t.uri) rows.identities) here) ∙ e in
        subst (λ l. Memᴰ q l) (sym (of_exercises-known u es i known))
          (Memᴰ.append_left (of_exercises rows es) k)
    | inr later ↦
        let rest = of_exercises-mem es uri i q later e k in
        elim (Option-cases (by_key (λ (t : Identity). t.uri) rows.identities u)) [
          | inl unknown ↦ subst (λ l. Memᴰ q l) (sym (of_exercises-unknown u es unknown)) rest
          | inr (j, known) ↦
              subst (λ l. Memᴰ q l) (sym (of_exercises-known u es j known))
                (Memᴰ.append_right (of_bindings rows j rows.bindings) rest)
        ]
  ]
