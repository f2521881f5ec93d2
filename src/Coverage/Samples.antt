-- ===== src/Coverage/Samples.antt =====
-- A store with two identities, of which one is covered, and what a recomputation says of it.
use onboard_core.Base.{
  String, true, false, ◌≡◌, ◌≢◌, refl, none, some, [], ◌∷◌, Memᴰ, ◌↔◌, pair-KeysDiffer,
}
use onboard_core.Model.Enums.{BindingStatus, FreshnessState, IdentityStatus, ItemKind, Verification}
use onboard_core.Model.Tables.{Identity, KnowledgeItem, Binding, ObservabilityBoundary}
use onboard_core.Coverage.Evaluate.{Facts, is_nonempty, candidate_blockers, evaluate}
use onboard_core.Coverage.Recompute.{
  CoverageRecords, Disagreement, disagreement_row, verdict_on, recompute_coverage,
}
use onboard_core.Coverage.Verdict.{
  Carries, IsCovered, candidate_blockers-Carries, evaluate-IsCovered,
}
use onboard_core.Coverage.Disagreements.{IdsDiffer, recompute_coverage-disagreements}
use onboard_core.Coverage.Cache.{after_rebuild, rebuild_cache-agrees}
use onboard_core.Store.Tables.{Store}
use onboard_core.Ports.Coverage.{coverage_records}
use onboard_core.Ports.Rebuild.{rebuild_store, rebuild_store-agrees}

abbrev identity : String → Identity
identity id = record {
  id = id;
  uri = "adopt://acme";
  system_id = "sys_1";
  environment_id = "env_1";
  covered_cache = false;
  covered_cache_at = none;
}

abbrev item : KnowledgeItem
item = record {
  id = "ki_1";
  firm_id = "firm_1";
  engagement_id = "eng_1";
  system_id = "sys_1";
  environment_id = none;
  kind = ItemKind.procedure;
  title = "Retry a payment";
  current_revision_id = some "krev_1";
  freshness_state = FreshnessState.fresh;
  created_at = 0;
  updated_at = 0;
}

abbrev bound : Binding
bound = record {
  id = "bnd_1";
  item_id = "ki_1";
  identity_id = "idn_1";
  current_revision_id = none;
  is_load_bearing = true;
  freshness_state = FreshnessState.fresh;
  created_at = 0;
}

abbrev boundary : ObservabilityBoundary
boundary = record { id = "obs_1"; system_id = "sys_1"; environment_id = some "env_1" }

abbrev facts : Facts
facts = record {
  binding_statuses = λ id. some BindingStatus.active;
  items = λ id. some item;
  verifications = λ id. some (some Verification.verified);
  audience_counts = λ id. 1;
  boundaries = boundary ∷ [];
}

candidate_blockers-Carries_example :
    (is_nonempty (candidate_blockers facts "env_1" bound) ≡ false) ↔ Carries facts "env_1" bound
candidate_blockers-Carries_example = candidate_blockers-Carries facts "env_1" bound

evaluate-IsCovered_example :
    ((evaluate facts (identity "idn_1") (some IdentityStatus.active) (bound ∷ [])).covered ≡ true)
    ↔ IsCovered facts (identity "idn_1") (some IdentityStatus.active) (bound ∷ [])
evaluate-IsCovered_example =
    evaluate-IsCovered facts (identity "idn_1") (some IdentityStatus.active) (bound ∷ [])

abbrev port : CoverageRecords
port = record {
  identities_in_scope = λ s e. identity "idn_1" ∷ identity "idn_2" ∷ [];
  head_identity_statuses = λ s e id. some IdentityStatus.active;
  bindings_in_scope = λ s e. bound ∷ [];
  head_binding_statuses = λ s e id. some BindingStatus.active;
  items_in_scope = λ s. item ∷ [];
  head_item_verifications = λ s id. some (some Verification.verified);
  audience_counts = λ s id. some 1;
  boundaries_for_system = λ s. boundary ∷ [];
}

ids_differ : IdsDiffer port "sys_1" none
ids_differ = pair-KeysDiffer (λ row. row.id) (identity "idn_1") (identity "idn_2") refl

abbrev disagrees : Disagreement
disagrees = record {
  identity_id = "idn_1";
  uri = "adopt://acme";
  cached = false;
  recomputed = true;
}

recompute_coverage-disagreements_example :
    Memᴰ disagrees (recompute_coverage port "sys_1" none 5000 true).0.disagreements ↔ (
      (row : Identity) × Memᴰ row (port.identities_in_scope "sys_1" none)
      × (row.covered_cache ≢ (verdict_on port "sys_1" none row).covered)
      × (disagrees ≡ disagreement_row row (verdict_on port "sys_1" none row)))
recompute_coverage-disagreements_example =
    recompute_coverage-disagreements port "sys_1" none ids_differ 5000 disagrees

rebuild_cache-agrees_example :
    let result = (recompute_coverage port "sys_1" none 5000 true).0 in
    let (again, alarm) =
      recompute_coverage (after_rebuild port "sys_1" none result) "sys_1" none 9000 true in
    (again.identities ≡ result.identities) × (again.disagreements ≡ []) × (alarm ≡ none)
rebuild_cache-agrees_example = rebuild_cache-agrees port "sys_1" none ids_differ 5000 9000 true

abbrev store : Store
store = record {
  scope = record {
    firms = [];
    engagements = [];
    systems = [];
    environments = [];
    lifecycle_events = [];
  };
  parents = record {
    identities = identity "idn_2" ∷ identity "idn_1" ∷ [];
    items = item ∷ [];
    bindings = bound ∷ [];
    probe_definitions = [];
  };
  revisions = record {
    identity_revisions = [];
    knowledge_revisions = [];
    binding_revisions = [];
    probe_definition_revisions = [];
  };
  observed = record {
    sensors = [];
    heartbeats = [];
    boundaries = boundary ∷ [];
    audience_tags = record { item_id = "ki_1"; audience = "operator" } ∷ [];
    classifier_versions = [];
  };
}

rebuild_store-agrees_example :
    let result = (recompute_coverage (coverage_records store) "sys_1" none 5000 true).0 in
    let (again, alarm) =
      recompute_coverage (coverage_records (rebuild_store result store)) "sys_1" none 9000 true in
    (again.identities ≡ result.identities) × (again.disagreements ≡ []) × (alarm ≡ none)
rebuild_store-agrees_example =
    rebuild_store-agrees store "sys_1" none 5000 9000 true
      (pair-KeysDiffer (λ row. row.id) (identity "idn_2") (identity "idn_1") refl)
