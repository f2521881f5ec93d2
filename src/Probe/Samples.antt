-- ===== src/Probe/Samples.antt =====
-- A probe that exercises one identity, with one confirmed item bound to it.
use onboard_core.Base.{true, false, ◌≡◌, ◌↔◌, none, some, [], ◌∷◌, Memᴰ}
use onboard_core.Model.Enums.{AuthorityClass, BindingStatus, FreshnessState, ItemKind, Verification}
use onboard_core.Probe.Conflicts.{ConflictIntent, Rows, conflicting_intents}
use onboard_core.Probe.Contradictions.{Contradicts, conflicting_intents-Contradicts}

abbrev rows : Rows
rows = record {
  identities =
      record {
        id = "idn_1";
        uri = "adopt://acme";
        system_id = "sys_1";
        environment_id = "env_1";
        covered_cache = false;
        covered_cache_at = none;
      }
      ∷ [];
  bindings =
      record {
        id = "bnd_1";
        item_id = "ki_1";
        identity_id = "idn_1";
        current_revision_id = none;
        is_load_bearing = true;
        freshness_state = FreshnessState.fresh;
        created_at = 0;
      }
      ∷ [];
  binding_revisions =
      record {
        id = "brev_1";
        binding_id = "bnd_1";
        extractor = none;
        extractor_version = none;
        confidence = none;
        locator_rung = none;
        status = BindingStatus.active;
        supersedes_revision_id = none;
        created_at = 0;
        created_by_actor_id = none;
      }
      ∷ [];
  items =
      record {
        id = "ki_1";
        firm_id = "firm_1";
        engagement_id = "eng_1";
        system_id = "sys_1";
        environment_id = none;
        kind = ItemKind.procedure;
        title = "Retry a payment";
        current_revision_id = some "krev_1";
        freshness_state = FreshnessState.fresh;
        created_at = 0;
        updated_at = 0;
      }
      ∷ [];
  knowledge_revisions =
      record {
        id = "krev_1";
        item_id = "ki_1";
        body_md = none;
        recipe_json = none;
        authority_class = AuthorityClass.human_confirmed;
        verification = some Verification.verified;
        confidence = none;
        snapshot_date = none;
        source_version = none;
        classifier_version_id = none;
        supersedes_revision_id = none;
        created_at = 0;
        created_by_actor_id = none;
      }
      ∷ [];
}

conflicting_intents-Contradicts_example :
    (((c : ConflictIntent) × Memᴰ c (conflicting_intents ("adopt://acme" ∷ []) rows)
        × (c.identity_id ≡ "idn_1")
        × (c.intent_revision_id ≡ "krev_1"))
      ↔ Contradicts rows ("adopt://acme" ∷ []) "idn_1" "krev_1")
    × ((a b : ConflictIntent)
        → Memᴰ a (conflicting_intents ("adopt://acme" ∷ []) rows)
        → Memᴰ b (conflicting_intents ("adopt://acme" ∷ []) rows)
        → a.identity_id ≡ b.identity_id
        → a.intent_revision_id ≡ b.intent_revision_id
        → a ≡ b)
conflicting_intents-Contradicts_example =
    conflicting_intents-Contradicts rows ("adopt://acme" ∷ []) "idn_1" "krev_1"
