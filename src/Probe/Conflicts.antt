-- ===== src/Probe/Conflicts.antt =====
-- packages/adopt-probe/src/adopt_probe/conflict.py: `conflicting_intents`.
use onboard_core.Base.{
  String, Bool, true, Option, none, some, List, [], ◌∷◌, ◌++◌, filter, find?, ltb, nat_eq, text_le,
  sort_by, ◌==◌, ◌&&◌, ◌||◌, not, if◌then◌else◌,
}
use onboard_core.Model.Enums.{BindingStatus, is_binding_retired, is_retired, is_verified}
use onboard_core.Model.Tables.{Identity, Binding, BindingRevision, KnowledgeItem, KnowledgeRevision}
use onboard_core.Coverage.Recompute.{by_key}

pub record ConflictIntent : Type 0 where
  pub identity_id : String
  pub identity_uri : String
  pub item_id : String
  pub intent_revision_id : String

-- The later of two rows in the order of `(created_at, id)`.
abbrev pub is_later : BindingRevision → BindingRevision → Bool
is_later a b =
    ltb b.created_at a.created_at || nat_eq a.created_at b.created_at && not (text_le a.id b.id)

-- sorted(revisions, key=...)[-1]
unfoldable pub last_revision : List BindingRevision → Option BindingRevision
last_revision [] = none
last_revision (r ∷ rs) = elim (last_revision rs) [
  | none ↦ some r
  | some q ↦ some (if is_later r q then r else q)
]

abbrev pub status_in : Option BindingRevision → Option BindingStatus
status_in none = none
status_in (some r) = some r.status

-- The revision that a head pointer names, where it names one.
abbrev pub pointed_revision : Option String → List BindingRevision → Option BindingRevision
pointed_revision none rows = none
pointed_revision (some id) rows = find? (λ r. r.id == id) rows

-- `_head_binding_status`
unfoldable pub head_binding_status : List BindingRevision → Binding → Option BindingStatus
unfolding last_revision
head_binding_status binding_revisions b =
    let rows = filter (λ r. r.binding_id == b.id) binding_revisions in
    elim (pointed_revision b.current_revision_id rows) [
      | some r ↦ some r.status
      | none ↦ status_in (last_revision rows)
    ]

-- `status is None or status == "retired"`
abbrev pub is_withdrawn : Option BindingStatus → Bool
is_withdrawn none = true
is_withdrawn (some status) = is_binding_retired (some status)

-- The rows that the join reads.
pub record Rows : Type 0 where
  pub identities : List Identity
  pub bindings : List Binding
  pub binding_revisions : List BindingRevision
  pub items : List KnowledgeItem
  pub knowledge_revisions : List KnowledgeRevision

module _ (rows : Rows) where
  -- The revision of the item of a binding, if a human confirmed it and the item is maintained.
  unfoldable pub confirmed : Binding → Option (KnowledgeItem × KnowledgeRevision)
  confirmed b = elim (by_key (λ k. k.id) rows.items b.item_id) [
    | none ↦ none
    | some item ↦ elim item.current_revision_id [
      | none ↦ none
      | some revision_id ↦
          if is_retired item.freshness_state
          then none
          else (elim (by_key (λ r. r.id) rows.knowledge_revisions revision_id) [
            | none ↦ none
            | some revision ↦
                if is_verified revision.verification then some (item, revision) else none
          ])
    ]
  ]

  abbrev pub intent : Identity → KnowledgeItem × KnowledgeRevision → ConflictIntent
  intent i found = record {
    identity_id = i.id;
    identity_uri = i.uri;
    item_id = found.0.id;
    intent_revision_id = found.1.id;
  }

  -- The body of the inner loop.
  unfoldable pub of_binding : Identity → Binding → List ConflictIntent
  unfolding confirmed head_binding_status
  of_binding i b =
      if not (b.identity_id == i.id)
      then []
      else if is_withdrawn (head_binding_status rows.binding_revisions b)
      then []
      else (elim (confirmed b) [ none ↦ [] | some found ↦ intent i found ∷ [] ])

  -- The inner loop.
  unfoldable pub of_bindings : Identity → List Binding → List ConflictIntent
  unfolding of_binding
  of_bindings i [] = []
  of_bindings i (b ∷ bs) = of_binding i b ++ of_bindings i bs

  -- The outer loop.
  unfoldable pub of_exercises : List String → List ConflictIntent
  unfolding of_bindings
  of_exercises [] = []
  of_exercises (uri ∷ uris) =
      let rest = of_exercises uris in
      elim (by_key (λ i. i.uri) rows.identities uri) [
        | none ↦ rest
        | some i ↦ of_bindings i rows.bindings ++ rest
      ]

-- The keys of `found`.
abbrev pub same_pair : ConflictIntent → ConflictIntent → Bool
same_pair a b = a.identity_id == b.identity_id && a.intent_revision_id == b.intent_revision_id

-- `found[(identity.id, revision.id)] = ...`, in the order of the assignments.
unfoldable pub set_found : ConflictIntent → List ConflictIntent → List ConflictIntent
set_found c [] = c ∷ []
set_found c (d ∷ ds) = let rest = set_found c ds in if same_pair d c then c ∷ ds else d ∷ rest

unfoldable pub found_from : List ConflictIntent → List ConflictIntent → List ConflictIntent
unfolding set_found
found_from found [] = found
found_from found (c ∷ cs) = found_from (set_found c found) cs

-- `sorted` by two texts is a stable sort by the second and then by the first.
unfoldable pub conflicting_intents : List String → Rows → List ConflictIntent
unfolding found_from of_exercises
conflicting_intents exercises rows =
    sort_by (λ c. c.identity_uri)
      (sort_by (λ c. c.intent_revision_id) (found_from [] (of_exercises rows exercises)))
