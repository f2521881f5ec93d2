-- ===== src/Revisions/Inserts.antt =====
-- What the statements of the writer do to the chains and the heads.
use mathlib.Core.List.{map-append}
use onboard_core.Base.{true, ◌≡◌, refl, ap, ◌∙◌, [], ◌∷◌, ◌++◌, ◌≢◌, arith}
use onboard_core.Obs.{ok}
use onboard_core.Store.Tables.{Store, RevisionTables}
use onboard_core.Revisions.Families.{
  Family, identity, knowledge, binding, probe_definition, RevisionDraft, knowledge_draft,
  identity_draft, binding_draft, probe_definition_draft,
}
use onboard_core.Revisions.Statements.{
  Link, links, accepts, knowledge_link, identity_link, binding_link, probe_definition_link,
  insert_knowledge_revision, insert_identity_revision, insert_binding_revision,
  insert_probe_definition_revision,
}
use onboard_core.Revisions.Rows.{
  Stamp, insert, knowledge_row, identity_row, binding_row, probe_definition_row,
}
use onboard_core.Model.Tables.{
  IdentityRevision, KnowledgeRevision, BindingRevision, ProbeDefinitionRevision,
}

-- The family whose table a draft is a row of.
unfoldable pub draft_family : RevisionDraft → Family
draft_family (knowledge_draft d) = knowledge
draft_family (identity_draft d) = identity
draft_family (binding_draft d) = binding
draft_family (probe_definition_draft d) = probe_definition

abbrev pub stamp_link : Stamp → Link
stamp_link s = record { id = s.revision_id; parent = s.parent_id; supersedes = s.supersedes }

-- What an accepted row changes.
pub record Inserted (f : Family) (link : Link) (s s' : Store) : Type 0 where
  pub accepted : accepts f link s ≡ true
  pub scope : s'.scope ≡ s.scope
  pub parents : s'.parents ≡ s.parents
  pub observed : s'.observed ≡ s.observed
  pub appended : links f s'.revisions ≡ links f s.revisions ++ link ∷ []
  pub others : (g : Family) → g ≢ f → links g s'.revisions ≡ links g s.revisions

abbrev with_knowledge : RevisionTables → KnowledgeRevision → RevisionTables
with_knowledge t row = record t { knowledge_revisions = t.knowledge_revisions ++ row ∷ [] }

with_knowledge-links :
    (t : RevisionTables) (row : KnowledgeRevision)
    → links knowledge (with_knowledge t row) ≡ links knowledge t ++ knowledge_link row ∷ []
unfolding links
with_knowledge-links t row = map-append knowledge_link t.knowledge_revisions (row ∷ [])

with_knowledge-others :
    (t : RevisionTables) (row : KnowledgeRevision) (g : Family)
    → g ≢ knowledge
    → links g (with_knowledge t row) ≡ links g t
unfolding links
with_knowledge-others t row knowledge n = absurd (n refl)
with_knowledge-others t row identity n = refl
with_knowledge-others t row binding n = refl
with_knowledge-others t row probe_definition n = refl

abbrev with_identity : RevisionTables → IdentityRevision → RevisionTables
with_identity t row = record t { identity_revisions = t.identity_revisions ++ row ∷ [] }

with_identity-links :
    (t : RevisionTables) (row : IdentityRevision)
    → links identity (with_identity t row) ≡ links identity t ++ identity_link row ∷ []
unfolding links
with_identity-links t row = map-append identity_link t.identity_revisions (row ∷ [])

with_identity-others :
    (t : RevisionTables) (row : IdentityRevision) (g : Family)
    → g ≢ identity
    → links g (with_identity t row) ≡ links g t
unfolding links
with_identity-others t row knowledge n = refl
with_identity-others t row identity n = absurd (n refl)
with_identity-others t row binding n = refl
with_identity-others t row probe_definition n = refl

abbrev with_binding : RevisionTables → BindingRevision → RevisionTables
with_binding t row = record t { binding_revisions = t.binding_revisions ++ row ∷ [] }

with_binding-links :
    (t : RevisionTables) (row : BindingRevision)
    → links binding (with_binding t row) ≡ links binding t ++ binding_link row ∷ []
unfolding links
with_binding-links t row = map-append binding_link t.binding_revisions (row ∷ [])

with_binding-others :
    (t : RevisionTables) (row : BindingRevision) (g : Family)
    → g ≢ binding
    → links g (with_binding t row) ≡ links g t
unfolding links
with_binding-others t row knowledge n = refl
with_binding-others t row identity n = refl
with_binding-others t row binding n = absurd (n refl)
with_binding-others t row probe_definition n = refl

abbrev with_probe_definition : RevisionTables → ProbeDefinitionRevision → RevisionTables
with_probe_definition t row = record t {
  probe_definition_revisions = t.probe_definition_revisions ++ row ∷ [];
}

with_probe_definition-links :
    (t : RevisionTables) (row : ProbeDefinitionRevision)
    → links probe_definition (with_probe_definition t row)
      ≡ links probe_definition t ++ probe_definition_link row ∷ []
unfolding links
with_probe_definition-links t row =
    map-append probe_definition_link t.probe_definition_revisions (row ∷ [])

with_probe_definition-others :
    (t : RevisionTables) (row : ProbeDefinitionRevision) (g : Family)
    → g ≢ probe_definition
    → links g (with_probe_definition t row) ≡ links g t
unfolding links
with_probe_definition-others t row knowledge n = refl
with_probe_definition-others t row identity n = refl
with_probe_definition-others t row binding n = refl
with_probe_definition-others t row probe_definition n = absurd (n refl)

pub insert-Inserted :
    (stamp : Stamp) (draft : RevisionDraft) (s s' : Store) (u : Unit {0})
    → insert stamp draft s ≡ ok (u, s')
    → Inserted (draft_family draft) (stamp_link stamp) s s'
unfolding insert insert_knowledge_revision insert_identity_revision insert_binding_revision
    insert_probe_definition_revision draft_family
insert-Inserted stamp (knowledge_draft d) s s' u e =
    let kept : s'.revisions ≡ with_knowledge s.revisions (knowledge_row stamp d) = ground arith in
    record {
      accepted = ground arith;
      scope = ground arith;
      parents = ground arith;
      observed = ground arith;
      appended =
          ap (links knowledge) kept ∙ with_knowledge-links s.revisions (knowledge_row stamp d);
      others =
          λ g n. ap (links g) kept ∙ with_knowledge-others s.revisions (knowledge_row stamp d) g n;
    }
insert-Inserted stamp (identity_draft d) s s' u e =
    let kept : s'.revisions ≡ with_identity s.revisions (identity_row stamp d) = ground arith in
    record {
      accepted = ground arith;
      scope = ground arith;
      parents = ground arith;
      observed = ground arith;
      appended = ap (links identity) kept ∙ with_identity-links s.revisions (identity_row stamp d);
      others =
          λ g n. ap (links g) kept ∙ with_identity-others s.revisions (identity_row stamp d) g n;
    }
insert-Inserted stamp (binding_draft d) s s' u e =
    let kept : s'.revisions ≡ with_binding s.revisions (binding_row stamp d) = ground arith in
    record {
      accepted = ground arith;
      scope = ground arith;
      parents = ground arith;
      observed = ground arith;
      appended = ap (links binding) kept ∙ with_binding-links s.revisions (binding_row stamp d);
      others = λ g n. ap (links g) kept ∙ with_binding-others s.revisions (binding_row stamp d) g n;
    }
insert-Inserted stamp (probe_definition_draft d) s s' u e =
    let kept : s'.revisions ≡ with_probe_definition s.revisions (probe_definition_row stamp d) =
      ground arith in
    record {
      accepted = ground arith;
      scope = ground arith;
      parents = ground arith;
      observed = ground arith;
      appended =
          ap (links probe_definition) kept
          ∙ with_probe_definition-links s.revisions (probe_definition_row stamp d);
      others = λ g n.
          ap (links g) kept
          ∙ with_probe_definition-others s.revisions (probe_definition_row stamp d) g n;
    }
