-- ===== src/Revisions/Rows.antt =====
-- packages/adopt-store/src/adopt_store/revisions.py: the rows that the writer makes of its drafts.
use onboard_core.Base.{ℕ, String, Option}
use onboard_core.Model.Tables.{
  KnowledgeRevision, IdentityRevision, BindingRevision, ProbeDefinitionRevision,
}
use onboard_core.Store.Tables.{Tx}
use onboard_core.Revisions.Families.{
  KnowledgeRevisionDraft, IdentityRevisionDraft, BindingRevisionDraft, ProbeDefinitionRevisionDraft,
  RevisionDraft, knowledge_draft, identity_draft, binding_draft, probe_definition_draft,
}
use onboard_core.Revisions.Statements.{
  insert_knowledge_revision, insert_identity_revision, insert_binding_revision,
  insert_probe_definition_revision,
}

-- What the writer knows of a revision besides its draft.
pub record Stamp : Type 0 where
  pub revision_id : String
  pub parent_id : String
  pub supersedes : Option String
  pub created : ℕ
  pub actor_id : Option String

abbrev pub knowledge_row : Stamp → KnowledgeRevisionDraft → KnowledgeRevision
knowledge_row s d = record {
  id = s.revision_id;
  item_id = s.parent_id;
  body_md = d.body_md;
  recipe_json = d.recipe_json;
  authority_class = d.authority_class;
  verification = d.verification;
  confidence = d.confidence;
  snapshot_date = d.snapshot_date;
  source_version = d.source_version;
  classifier_version_id = d.classifier_version_id;
  supersedes_revision_id = s.supersedes;
  created_at = s.created;
  created_by_actor_id = s.actor_id;
}

abbrev pub identity_row : Stamp → IdentityRevisionDraft → IdentityRevision
identity_row s d = record {
  id = s.revision_id;
  identity_id = s.parent_id;
  extractor = d.extractor;
  extractor_version = d.extractor_version;
  source_version = d.source_version;
  source_ref = d.source_ref;
  confidence = d.confidence;
  alias_of_identity_id = d.alias_of_identity_id;
  status = d.status;
  supersedes_revision_id = s.supersedes;
  created_at = s.created;
  created_by_actor_id = s.actor_id;
}

abbrev pub binding_row : Stamp → BindingRevisionDraft → BindingRevision
binding_row s d = record {
  id = s.revision_id;
  binding_id = s.parent_id;
  extractor = d.extractor;
  extractor_version = d.extractor_version;
  confidence = d.confidence;
  locator_rung = d.locator_rung;
  status = d.status;
  supersedes_revision_id = s.supersedes;
  created_at = s.created;
  created_by_actor_id = s.actor_id;
}

abbrev pub probe_definition_row : Stamp → ProbeDefinitionRevisionDraft → ProbeDefinitionRevision
probe_definition_row s d = record {
  id = s.revision_id;
  probe_definition_id = s.parent_id;
  interaction = d.interaction;
  safe_path = d.safe_path;
  diff_method = d.diff_method;
  status = d.status;
  capability_manifest = d.capability_manifest;
  artifact_signature = d.artifact_signature;
  approved_by = d.approved_by;
  approved_at = d.approved_at;
  approval_expires_at = d.approval_expires_at;
  supersedes_revision_id = s.supersedes;
  created_at = s.created;
}

-- `_insert`: the draft's type, not the family, chooses the table.
unfoldable pub insert : Stamp → RevisionDraft → Tx Unit
insert s (knowledge_draft d) = insert_knowledge_revision (knowledge_row s d)
insert s (identity_draft d) = insert_identity_revision (identity_row s d)
insert s (binding_draft d) = insert_binding_revision (binding_row s d)
insert s (probe_definition_draft d) = insert_probe_definition_revision (probe_definition_row s d)
