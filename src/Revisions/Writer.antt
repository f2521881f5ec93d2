-- ===== src/Revisions/Writer.antt =====
-- packages/adopt-store/src/adopt_store/revisions.py: `RevisionWriter`. The ids that `new_id` mints and
-- the readings of the clock are arguments.
use mathlib.Core.Option
use onboard_core.Base.{ℕ, String, Bool, true, false, Option, none, some, ◌==◌, not, if◌then◌else◌}
use onboard_core.Obs.{Result, ok, err, scope_violation, revision_chain_fork}
use onboard_core.Model.Enums.{
  AuthorityClass, BindingStatus, DiffMethod, FreshnessState, IdentityStatus, ItemKind,
  ProbeDefinitionStatus, SafePath, is_verified,
}
use onboard_core.Model.Tables.{KnowledgeItem}
use onboard_core.Model.Scopes.{Scope}
use onboard_core.Store.Tables.{Store, Tx, ◌>>◌, pure, transaction}
use onboard_core.Revisions.Families.{
  Family, identity, knowledge, binding, probe_definition, family_of, has_head_pointer,
  KnowledgeRevisionDraft, RevisionDraft, knowledge_draft, identity_draft, binding_draft,
  probe_definition_draft,
}
use onboard_core.Revisions.Rows.{Stamp, knowledge_row, insert}
use onboard_core.Revisions.Statements.{
  insert_item, insert_knowledge_revision, advance_head, head_of, derived_identity_head,
  set_item_freshness,
}

-- `_affirms`
unfoldable pub affirms : Family → RevisionDraft → Bool
affirms knowledge (knowledge_draft d) = is_verified d.verification
affirms _ _ = false

-- `_current_head`
unfoldable pub current_head : Family → String → Store → Option String
current_head f parent_id s =
    if has_head_pointer f then head_of f parent_id s else derived_identity_head parent_id s

abbrev pub same_head : Option String → Option String → Bool
same_head none none = true
same_head none (some b) = false
same_head (some a) none = false
same_head (some a) (some b) = a == b

-- `if family.has_head_pointer: advance_head(...)`, and the affirmation that follows.
unfoldable pub publish : Family → Stamp → RevisionDraft → Tx Unit
publish f stamp draft = do
  if has_head_pointer f then advance_head f stamp.parent_id stamp.revision_id else pure tt
  if affirms f draft
      then set_item_freshness stamp.parent_id FreshnessState.fresh stamp.created
      else pure tt

-- The body of the transaction of `append_revision`, once its family is known.
unfoldable pub append_body : Family → Stamp → RevisionDraft → Tx String
unfolding publish
append_body f stamp draft s =
    if not (same_head (current_head f stamp.parent_id s) stamp.supersedes)
    then err revision_chain_fork
    else (do insert stamp draft; publish f stamp draft; pure stamp.revision_id) s

unfoldable pub append_to : Family → Stamp → RevisionDraft → Store → Result String × Store
append_to f stamp draft = transaction (append_body f stamp draft)

-- `append_revision`; the stamp's `supersedes` is `expected_head_id`, which is the head that the row
-- supersedes once the two were found equal. `none` is the `UnknownFamilyError`.
unfoldable pub append_revision : Stamp → RevisionDraft → Store → Option (Result String) × Store
unfolding append_to
append_revision stamp draft s = elim (family_of stamp.parent_id) [
  | none ↦ (none, s)
  | some f ↦ let (r, s') = append_to f stamp draft s in (some r, s')
]

-- `_terminal_draft`
unfoldable pub terminal_draft : Family → String → RevisionDraft
terminal_draft identity reason = identity_draft (record {
  status = IdentityStatus.dead;
  extractor = none;
  extractor_version = none;
  source_version = some reason;
  source_ref = none;
  confidence = none;
  alias_of_identity_id = none;
})
terminal_draft binding reason = binding_draft (record {
  status = BindingStatus.retired;
  extractor = none;
  extractor_version = none;
  confidence = none;
  locator_rung = none;
})
terminal_draft probe_definition reason = probe_definition_draft (record {
  interaction = reason;
  safe_path = SafePath.mock;
  diff_method = DiffMethod.exact;
  capability_manifest = "{}";
  status = ProbeDefinitionStatus.retired;
  artifact_signature = none;
  approved_by = none;
  approved_at = none;
  approval_expires_at = none;
})
terminal_draft knowledge reason = knowledge_draft (record {
  authority_class = AuthorityClass.human_confirmed;
  body_md = some reason;
  recipe_json = none;
  verification = none;
  confidence = none;
  snapshot_date = none;
  source_version = none;
  classifier_version_id = none;
})

abbrev pub is_knowledge : Family → Bool
is_knowledge knowledge = true
is_knowledge _ = false

-- The statement after the transaction of `retire`, which commits on its own.
unfoldable pub finish_retirement : Family → String → ℕ → Tx Unit
finish_retirement f parent_id now =
    if is_knowledge f then set_item_freshness parent_id FreshnessState.retired now else pure tt

-- `retire`, once the family is known.
unfoldable pub retire_in :
    Family → String → String → String → ℕ → ℕ → Option String → Store → Result String × Store
unfolding append_to finish_retirement
retire_in f parent_id reason revision_id created now actor_id s =
    let stamp : Stamp = record {
      revision_id = revision_id;
      parent_id = parent_id;
      supersedes = current_head f parent_id s;
      created = created;
      actor_id = actor_id;
    } in
    let (r, s') = append_to f stamp (terminal_draft f reason) s in
    elim r [
      | err e ↦ (err e, s')
      | ok id ↦ transaction (do finish_retirement f parent_id now; pure id) s'
    ]

-- `retire`; `none` is the `UnknownFamilyError`.
unfoldable pub retire :
    String → String → String → ℕ → ℕ → Option String → Store → Option (Result String) × Store
retire parent_id reason revision_id created now actor_id s = elim (family_of parent_id) [
  | none ↦ (none, s)
  | some f ↦
      let (r, s') = retire_in f parent_id reason revision_id created now actor_id s in (some r, s')
]

-- `create_item`
unfoldable pub create_item :
    Scope
    → ItemKind
    → String
    → KnowledgeRevisionDraft
    → String
    → String
    → ℕ
    → Option String
    → Store
    → Result (String × String) × Store
create_item scope kind title revision item_id revision_id created actor_id s =
    elim scope.engagement [
      | none ↦ (err scope_violation, s)
      | some engagement ↦ elim scope.system [
        | none ↦ (err scope_violation, s)
        | some system ↦
            let item : KnowledgeItem = record {
              id = item_id;
              firm_id = scope.firm.id;
              engagement_id = engagement.id;
              system_id = system.id;
              environment_id = Option.map (λ e. e.id) scope.environment;
              kind = kind;
              title = title;
              current_revision_id = none;
              freshness_state =
                  if affirms knowledge (knowledge_draft revision)
                  then FreshnessState.fresh
                  else FreshnessState.unverified;
              created_at = created;
              updated_at = created;
            } in
            let stamp : Stamp = record {
              revision_id = revision_id;
              parent_id = item_id;
              supersedes = none;
              created = created;
              actor_id = actor_id;
            } in
            transaction
              (do
                insert_item item
                insert_knowledge_revision (knowledge_row stamp revision)
                advance_head knowledge item_id revision_id
                pure (item_id, revision_id))
              s
      ]
    ]
