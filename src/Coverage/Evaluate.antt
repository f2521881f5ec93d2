-- ===== src/Coverage/Evaluate.antt =====
-- packages/adopt-coverage/src/adopt_coverage/recompute.py: the six inputs, for one binding and for
-- one identity.
use onboard_core.Base.{
  ℕ, String, Bool, true, false, Option, none, some, List, [], ◌∷◌, map, ◌||◌, not, any, all,
  is_some, nat_eq, if◌then◌else◌, ◌==◌, sort_by,
}
use onboard_core.Model.Enums.{
  BindingStatus, IdentityStatus, Verification, is_binding_retired, is_identity_active, is_retired,
  is_verified, is_conflicted,
}
use onboard_core.Model.Tables.{Identity, KnowledgeItem, Binding, ObservabilityBoundary}
use onboard_core.Coverage.Reasons.{
  Reason, identity_not_active, no_live_binding, no_active_knowledge_revision,
  audience_or_environment, no_observability_boundary, verification_conflicted,
  verification_unverified, reason_text, add, update_all,
}

pub record IdentityCoverage : Type 0 where
  pub identity_id : String
  pub uri : String
  pub covered : Bool
  pub reasons : List Reason

-- A missing environment stands for every environment.
unfoldable pub environment_matches : Option String → String → Bool
environment_matches none environment_id = true
environment_matches (some e) environment_id = e == environment_id

unfoldable pub boundary_applies : ObservabilityBoundary → String → Bool
unfolding environment_matches
boundary_applies boundary environment_id =
    environment_matches boundary.environment_id environment_id

unfoldable pub environment_applies : KnowledgeItem → String → Bool
unfolding environment_matches
environment_applies item environment_id = environment_matches item.environment_id environment_id

-- `status is None or status == "retired"`
abbrev pub is_dead_link : Option BindingStatus → Bool
is_dead_link none = true
is_dead_link status = is_binding_retired status

-- `item is None or item.current_revision_id is None or item.freshness_state == "retired"`
abbrev pub lacks_revision : Option KnowledgeItem → Bool
lacks_revision none = true
lacks_revision (some item) =
    not (is_some item.current_revision_id) || is_retired item.freshness_state

-- Input 4, read of an item that is there.
abbrev pub is_inapplicable : Option KnowledgeItem → ℕ → String → Bool
is_inapplicable none audience_count environment_id = true
is_inapplicable (some item) audience_count environment_id =
    nat_eq audience_count 0 || not (environment_applies item environment_id)

abbrev pub add_if : Bool → Reason → List Reason → List Reason
add_if test reason l = if test then add reason l else l

-- Input 6. A mapping to `str | None` tells a missing row from a row that holds none.
unfoldable pub verification_blockers : Option (Option Verification) → List Reason → List Reason
verification_blockers none l = add verification_unverified l
verification_blockers (some verification) l =
    if is_conflicted verification
    then add verification_conflicted l
    else if is_verified verification
    then l
    else add verification_unverified l

-- Inputs 2, 3, 4 and 6.
unfoldable pub binding_blockers :
    Option BindingStatus
    → Option KnowledgeItem
    → Option (Option Verification)
    → ℕ
    → String
    → List Reason
unfolding verification_blockers
binding_blockers binding_status item verification audience_count environment_id =
    let blockers = add_if (is_dead_link binding_status) no_live_binding [] in
    if lacks_revision item
    then add no_active_knowledge_revision blockers
    else verification_blockers verification (
        add_if (is_inapplicable item audience_count environment_id) audience_or_environment
          blockers)

-- What the port's mappings say, `none` for a key that they lack.
pub record Facts : Type 0 where
  pub binding_statuses : String → Option BindingStatus
  pub items : String → Option KnowledgeItem
  pub verifications : String → Option (Option Verification)
  pub audience_counts : String → ℕ
  pub boundaries : List ObservabilityBoundary

abbrev pub is_nonempty : List Reason → Bool
is_nonempty [] = false
is_nonempty (r ∷ rs) = true

module _ (facts : Facts) where
  unfoldable pub candidate_blockers : String → Binding → List Reason
  unfolding binding_blockers
  candidate_blockers environment_id b =
      binding_blockers (facts.binding_statuses b.id) (facts.items b.item_id)
        (facts.verifications b.item_id) (facts.audience_counts b.item_id) environment_id

  unfoldable pub binding_inputs : String → List Binding → List Reason → List Reason
  binding_inputs environment_id [] blockers = add no_live_binding blockers
  binding_inputs environment_id (b ∷ bs) blockers =
      let per_binding = map (candidate_blockers environment_id) (b ∷ bs) in
      if all is_nonempty per_binding then update_all per_binding blockers else blockers

  unfoldable pub identity_blockers : Identity → Option IdentityStatus → List Binding → List Reason
  unfolding binding_inputs candidate_blockers
  identity_blockers identity identity_status bindings =
      binding_inputs identity.environment_id bindings (
        add_if (not (any (λ row. boundary_applies row identity.environment_id) facts.boundaries))
          no_observability_boundary
          (add_if (not (is_identity_active identity_status)) identity_not_active []))

  unfoldable pub evaluate : Identity → Option IdentityStatus → List Binding → IdentityCoverage
  unfolding identity_blockers
  evaluate identity identity_status bindings =
      let blockers = identity_blockers identity identity_status bindings in
      record {
        identity_id = identity.id;
        uri = identity.uri;
        covered = not (is_nonempty blockers);
        reasons = sort_by reason_text blockers;
      }
