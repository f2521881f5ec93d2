-- ===== src/Revisions/Families.antt =====
-- packages/adopt-store/src/adopt_store/revisions.py: the four families and their drafts.
use Prim.Native.Char.{code}
use onboard_core.Base.{
  ℕ, String, Bool, true, false, Option, none, some, nat_eq, if◌then◌else◌, ◌==◌,
}
use onboard_core.Model.Enums.{
  AuthorityClass, BindingStatus, DiffMethod, IdentityStatus, LocatorRung, ProbeDefinitionStatus,
  SafePath, Verification,
}

pub data Family : Type 0 where
  identity knowledge binding probe_definition : Family

-- `parent_id.split("_", 1)[0]`
unfoldable pub prefix_of : String → String
prefix_of String.[] = String.[]
prefix_of (String.◌∷◌ c s) = if nat_eq (code c) b'_' then String.[] else String.◌∷◌ c (prefix_of s)

-- `none` is the `UnknownFamilyError`.
unfoldable pub family_of : String → Option Family
unfolding prefix_of
family_of parent_id =
    let prefix = prefix_of parent_id in
    if prefix == "idn"
    then some identity
    else if prefix == "ki"
    then some knowledge
    else if prefix == "bnd"
    then some binding
    else if prefix == "pd"
    then some probe_definition
    else none

unfoldable pub has_head_pointer : Family → Bool
has_head_pointer identity = false
has_head_pointer _ = true

pub record KnowledgeRevisionDraft : Type 0 where
  pub authority_class : AuthorityClass
  pub body_md : Option String
  pub recipe_json : Option String
  pub verification : Option Verification
  pub confidence : Option ℕ
  pub snapshot_date : Option ℕ
  pub source_version : Option String
  pub classifier_version_id : Option String

pub record IdentityRevisionDraft : Type 0 where
  pub status : IdentityStatus
  pub extractor : Option String
  pub extractor_version : Option String
  pub source_version : Option String
  pub source_ref : Option String
  pub confidence : Option ℕ
  pub alias_of_identity_id : Option String

pub record BindingRevisionDraft : Type 0 where
  pub status : BindingStatus
  pub extractor : Option String
  pub extractor_version : Option String
  pub confidence : Option ℕ
  pub locator_rung : Option LocatorRung

pub record ProbeDefinitionRevisionDraft : Type 0 where
  pub interaction : String
  pub safe_path : SafePath
  pub diff_method : DiffMethod
  pub capability_manifest : String
  pub status : ProbeDefinitionStatus
  pub artifact_signature : Option String
  pub approved_by : Option String
  pub approved_at : Option ℕ
  pub approval_expires_at : Option ℕ

pub data RevisionDraft : Type 0 where
  knowledge_draft : KnowledgeRevisionDraft → RevisionDraft
  identity_draft : IdentityRevisionDraft → RevisionDraft
  binding_draft : BindingRevisionDraft → RevisionDraft
  probe_definition_draft : ProbeDefinitionRevisionDraft → RevisionDraft
