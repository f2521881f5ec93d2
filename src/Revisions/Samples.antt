-- ===== src/Revisions/Samples.antt =====
-- A store with one knowledge item and its first revision, and what the writer does to it.
use onboard_core.Base.{
  ℕ, String, ◌≡◌, refl, Option, none, some, List, [], ◌∷◌, inl, inr, ◌==◌, Bool-cases,
}
use onboard_core.Obs.{ok, err, revision_chain_fork}
use onboard_core.Model.Enums.{AuthorityClass, FreshnessState, ItemKind, Verification}
use onboard_core.Model.Tables.{KnowledgeItem, KnowledgeRevision}
use onboard_core.Store.Tables.{Store, transaction}
use onboard_core.Freshness.Resolve.{FreshnessResolution, resolve_freshness}
use onboard_core.Revisions.Families.{knowledge, RevisionDraft, knowledge_draft, has_head_pointer}
use onboard_core.Revisions.Statements.{
  links, heads, pointed, head_of, get_item, accepts, insert_knowledge_revision, advance_head,
  point_heads, set_item_freshness,
}
use onboard_core.Revisions.Writer.{
  affirms, publish, current_head, append_body, append_to, retire_in, finish_retirement,
  terminal_draft,
}
use onboard_core.Revisions.Rows.{Stamp, insert}
use onboard_core.Revisions.Inserts.{draft_family}
use onboard_core.Revisions.Chains.{Outcome, append_to-Outcome, append_to-second_writer}
use onboard_core.Revisions.Invariant.{IsChain, HeadsAreChains, append_to-HeadsAreChains}
use onboard_core.Revisions.Affirmation.{append_to-affirmed}
use onboard_core.Ports.Freshness.{freshness_records}
use onboard_core.Ports.Retirement.{retire_in-resolves}

abbrev item : FreshnessState → Option String → ℕ → KnowledgeItem
item freshness head updated = record {
  id = "ki_1";
  firm_id = "firm_1";
  engagement_id = "eng_1";
  system_id = "sys_1";
  environment_id = none;
  kind = ItemKind.procedure;
  title = "Retry a payment";
  current_revision_id = head;
  freshness_state = freshness;
  created_at = 0;
  updated_at = updated;
}

abbrev verified : RevisionDraft
verified = knowledge_draft (record {
  authority_class = AuthorityClass.human_confirmed;
  body_md = some "Press retry.";
  recipe_json = none;
  verification = some Verification.verified;
  confidence = none;
  snapshot_date = none;
  source_version = none;
  classifier_version_id = none;
})

abbrev revision : String → Option String → String → Option Verification → ℕ → KnowledgeRevision
revision id supersedes body verification created = record {
  id = id;
  item_id = "ki_1";
  body_md = some body;
  recipe_json = none;
  authority_class = AuthorityClass.human_confirmed;
  verification = verification;
  confidence = none;
  snapshot_date = none;
  source_version = none;
  classifier_version_id = none;
  supersedes_revision_id = supersedes;
  created_at = created;
  created_by_actor_id = none;
}

abbrev store : List KnowledgeItem → List KnowledgeRevision → Store
store items revisions = record {
  scope = record {
    firms = [];
    engagements = [];
    systems = [];
    environments = [];
    lifecycle_events = [];
  };
  parents = record { identities = []; items = items; bindings = []; probe_definitions = [] };
  revisions = record {
    identity_revisions = [];
    knowledge_revisions = revisions;
    binding_revisions = [];
    probe_definition_revisions = [];
  };
  observed = record {
    sensors = [];
    heartbeats = [];
    boundaries = [];
    audience_tags = [];
    classifier_versions = [];
  };
}

abbrev before : Store
before =
    store (item FreshnessState.unverified (some "krev_1") 0 ∷ [])
      (revision "krev_1" none "Draft." none 0 ∷ [])

abbrev after : Store
after = store (item FreshnessState.fresh (some "krev_2") 5 ∷ []) (
    revision "krev_1" none "Draft." none 0
    ∷ revision "krev_2" (some "krev_1") "Press retry." (some Verification.verified) 5
    ∷ [])

abbrev over : Store
over = store (item FreshnessState.retired (some "krev_2") 6 ∷ []) (
    revision "krev_1" none "Draft." none 0
    ∷ revision "krev_2" (some "krev_1") "Obsolete." none 5
    ∷ [])

abbrev stamp : String → Stamp
stamp id = record {
  revision_id = id;
  parent_id = "ki_1";
  supersedes = some "krev_1";
  created = 5;
  actor_id = none;
}

program : Unit {0}
unfolding append_to transaction append_body current_head has_head_pointer head_of pointed heads
    links insert insert_knowledge_revision accepts publish advance_head point_heads affirms
    set_item_freshness draft_family retire_in finish_retirement terminal_draft get_item
program = tt

appends : append_to knowledge (stamp "krev_2") verified before ≡ (ok "krev_2", after)
unfolding program
appends = refl

append_to-Outcome_example :
    Outcome knowledge (stamp "krev_2") before (append_to knowledge (stamp "krev_2") verified before)
unfolding program
append_to-Outcome_example = append_to-Outcome knowledge (stamp "krev_2") verified before refl refl

append_to-second_writer_example :
    append_to knowledge (stamp "krev_3") verified after ≡ (err revision_chain_fork, after)
unfolding program
append_to-second_writer_example =
    append_to-second_writer knowledge (stamp "krev_2") (stamp "krev_3") verified verified before
      after "krev_2" refl refl appends refl refl

one_chain : HeadsAreChains knowledge before
unfolding program IsChain
one_chain q = elim (Bool-cases ("ki_1" == q)) [
  | inl same ↦ rw same (refl, refl)
  | inr other ↦ rw other refl
]

append_to-HeadsAreChains_example :
    HeadsAreChains knowledge (append_to knowledge (stamp "krev_2") verified before).1
unfolding program
append_to-HeadsAreChains_example =
    append_to-HeadsAreChains knowledge knowledge (stamp "krev_2") verified before refl refl
      one_chain

append_to-affirmed_example :
    (item FreshnessState.fresh (some "krev_2") 5).freshness_state ≡ FreshnessState.fresh
unfolding program
append_to-affirmed_example =
    append_to-affirmed (stamp "krev_2") verified before after "krev_2"
      (item FreshnessState.fresh (some "krev_2") 5) refl appends refl

retires : retire_in knowledge "ki_1" "Obsolete." "krev_2" 5 6 none before ≡ (ok "krev_2", over)
unfolding program
retires = refl

retire_in-resolves_example :
    (r : FreshnessResolution) × (resolve_freshness (freshness_records over) 9 "ki_1" ≡ ok r)
    × (r.state ≡ FreshnessState.retired)
retire_in-resolves_example =
    retire_in-resolves "ki_1" "Obsolete." "krev_2" 5 6 none before "krev_2" over 9 retires
