-- ===== src/Coverage/Verdict.antt =====
-- packages/adopt-coverage/src/adopt_coverage/recompute.py: `covered` against the six inputs, written
-- as conditions on the rows.
use onboard_core.Base.{
  ◌<◌, String, Bool, true, false, ◌≡◌, ◌≢◌, refl, sym, ap, ◌∙◌, Option, none, some, List, [], ◌∷◌,
  map, Memᴰ, ◌⊎◌, ◌↔◌, inl, inr, ◌&&◌, ◌||◌, not, arith, any, all, any-mem, mem-any, all-false,
  all-mem, Option-cases, eq_iff,
}
use mathlib.Core.List.Memᴰ
use onboard_core.Model.Enums.{
  BindingStatus, FreshnessState, IdentityStatus, Verification, is_identity_active, is_verified,
}
use onboard_core.Model.Tables.{Identity, KnowledgeItem, Binding, ObservabilityBoundary}
use onboard_core.Coverage.Reasons.{
  no_live_binding, identity_not_active, no_observability_boundary, Reason,
}
use onboard_core.Coverage.Evaluate.{
  environment_matches, boundary_applies, environment_applies, is_dead_link, lacks_revision,
  is_inapplicable, add_if, Facts, candidate_blockers, is_nonempty, binding_inputs,
  identity_blockers, evaluate,
}
use onboard_core.Coverage.Blockers.{
  add-nonempty, add_if-nonempty, update_all-nonempty, binding_blockers-nonempty, stated,
}

-- An environment that is missing, or the one that is asked about.
abbrev pub Matches : Option String → String → Type 0
Matches e environment = (e ≡ none) ⊎ (e ≡ some environment)

environment_matches_iff :
    (e : Option String) (environment : String)
    → (environment_matches e environment ≡ true) ↔ Matches e environment
unfolding environment_matches
environment_matches_iff none environment = (λ _. inl refl, λ _. refl)
environment_matches_iff (some e) environment = (
  λ h. inr (ap some ((eq_iff e environment).0 h)),
  λ h. elim h [ inl n ↦ cc | inr k ↦ (eq_iff e environment).1 (cc) ],
)

module _ (facts : Facts) (environment : String) where
  -- What contracts §6 asks of a binding: it is live, its item has a current revision, is not retired,
  -- applies in the environment and has an audience, and that revision is verified.
  pub record Carries (b : Binding) : Type 0 where
    pub status : BindingStatus
    pub asserted : facts.binding_statuses b.id ≡ some status
    pub live : status ≢ BindingStatus.retired
    pub item : KnowledgeItem
    pub bound : facts.items b.item_id ≡ some item
    pub revision : String
    pub current : item.current_revision_id ≡ some revision
    pub in_service : item.freshness_state ≢ FreshnessState.retired
    pub audience : 0 < facts.audience_counts b.item_id
    pub applies : Matches item.environment_id environment
    pub verified : facts.verifications b.item_id ≡ some (some Verification.verified)

  -- The four tests of a binding, on what the mappings say.
  candidate_tests :
      (b : Binding)
      → is_nonempty (candidate_blockers facts environment b) ≡ (
          is_dead_link (facts.binding_statuses b.id)
          || lacks_revision (facts.items b.item_id)
          || is_inapplicable (facts.items b.item_id) (facts.audience_counts b.item_id) environment
          || not (is_verified (stated (facts.verifications b.item_id))))
  unfolding candidate_blockers
  candidate_tests b =
      binding_blockers-nonempty (facts.binding_statuses b.id) (facts.items b.item_id)
        (facts.verifications b.item_id) (facts.audience_counts b.item_id) environment

  candidate-Carries :
      (b : Binding) → is_nonempty (candidate_blockers facts environment b) ≡ false → Carries b
  unfolding environment_applies
  candidate-Carries b e =
      let tests = sym (candidate_tests b) ∙ e in
      elim (Option-cases (facts.binding_statuses b.id)) [
        | inl none_said ↦ absurd (ground (arith, tests))
        | inr (status, said) ↦ elim (Option-cases (facts.items b.item_id)) [
          | inl no_item ↦ absurd (ground (arith, tests))
          | inr (item, bound) ↦ elim (Option-cases item.current_revision_id) [
            | inl no_head ↦ absurd (ground (arith, tests))
            | inr (revision, current) ↦ record {
              status = status;
              asserted = said;
              live = ground (arith, tests);
              item = item;
              bound = bound;
              revision = revision;
              current = current;
              in_service = ground (arith, tests);
              audience = ground (arith, tests);
              applies =
                  (environment_matches_iff item.environment_id environment).0
                    (ground (arith, tests));
              verified = ground (arith, tests);
            }
          ]
        ]
      ]

  Carries-candidate :
      (b : Binding) → Carries b → is_nonempty (candidate_blockers facts environment b) ≡ false
  unfolding environment_applies
  Carries-candidate b c =
      let tests = candidate_tests b in
      let matches = (environment_matches_iff c.item.environment_id environment).1 c.applies in
      ground (
        arith, tests, matches, c.asserted, c.live, c.bound, c.current, c.in_service, c.audience,
        c.verified,
      )

  -- A binding has no blocker exactly when it is asserted and not retired, its item is there, has a
  -- current revision, is not retired, applies in the environment and has an audience, and the
  -- current revision of the item is verified.
  pub candidate_blockers-Carries :
      (b : Binding) → (is_nonempty (candidate_blockers facts environment b) ≡ false) ↔ Carries b
  candidate_blockers-Carries b = (candidate-Carries b, Carries-candidate b)

  binding_inputs-nonempty :
      (bs : List Binding) (l : List Reason)
      → is_nonempty (binding_inputs facts environment bs l)
        ≡ (is_nonempty l || all is_nonempty (map (candidate_blockers facts environment) bs))
  unfolding binding_inputs
  binding_inputs-nonempty [] l = ground (arith, add-nonempty no_live_binding l)
  binding_inputs-nonempty (b ∷ bs) l =
      let sets = map (candidate_blockers facts environment) (b ∷ bs) in
      ground (arith, update_all-nonempty sets l)

-- All six inputs of contracts §6.
pub record IsCovered (facts : Facts) (identity : Identity) (status : Option IdentityStatus)
    (bindings : List Binding) : Type 0 where
  pub active : status ≡ some IdentityStatus.active
  pub boundary : ObservabilityBoundary
  pub declared : Memᴰ boundary facts.boundaries
  pub governs : Matches boundary.environment_id identity.environment_id
  pub carrier : Binding
  pub listed : Memᴰ carrier bindings
  pub carries : Carries facts identity.environment_id carrier

module _ (facts : Facts) (identity : Identity) (status : Option IdentityStatus)
    (bindings : List Binding) where
  abbrev governs : ObservabilityBoundary → Bool
  governs row = boundary_applies row identity.environment_id

  covered_tests : (evaluate facts identity status bindings).covered ≡ (
      is_identity_active status
      && any governs facts.boundaries
      && not (all is_nonempty (map (candidate_blockers facts identity.environment_id) bindings)))
  unfolding evaluate identity_blockers
  covered_tests =
      let inactive = add_if (not (is_identity_active status)) identity_not_active [] in
      let undeclared =
        add_if (not (any governs facts.boundaries)) no_observability_boundary inactive in
      ground (
        arith,
        binding_inputs-nonempty facts identity.environment_id bindings undeclared,
        add_if-nonempty (not (any governs facts.boundaries)) no_observability_boundary inactive,
        add_if-nonempty (not (is_identity_active status)) identity_not_active [],
      )

  some-Carries :
      all is_nonempty (map (candidate_blockers facts identity.environment_id) bindings) ≡ false
      → (b : Binding) × Memᴰ b bindings × Carries facts identity.environment_id b
  some-Carries e =
      let (rs, m, empty) =
        all-false is_nonempty (map (candidate_blockers facts identity.environment_id) bindings) e in
      let (b, k, made) =
        Memᴰ.of_map (candidate_blockers facts identity.environment_id) bindings m in
      (b, k, candidate-Carries facts identity.environment_id b (ap is_nonempty made ∙ empty))

  -- An identity is evaluated as covered exactly when all six inputs hold: the status of its head
  -- revision is active, some observability boundary governs its environment, and some binding of
  -- it is asserted and not retired, to an item that has a current revision, is not retired,
  -- applies in the environment, has an audience, and whose current revision is verified.
  pub evaluate-IsCovered :
      ((evaluate facts identity status bindings).covered ≡ true)
      ↔ IsCovered facts identity status bindings
  unfolding boundary_applies
  evaluate-IsCovered = (
    λ h.
        let tests = sym covered_tests ∙ h in
        let (row, declared, applies) = any-mem governs facts.boundaries (ground (arith, tests)) in
        let (b, listed, carries) = some-Carries (ground (arith, tests)) in
        record {
          active = ground (arith, tests);
          boundary = row;
          declared = declared;
          governs = (environment_matches_iff row.environment_id identity.environment_id).0 applies;
          carrier = b;
          listed = listed;
          carries = carries;
        },
    λ c.
        let applies = mem-any governs facts.boundaries c.boundary c.declared (
          (environment_matches_iff c.boundary.environment_id identity.environment_id).1
            c.governs) in
        let open_one = Carries-candidate facts identity.environment_id c.carrier c.carries in
        let failing =
          λ (k : all is_nonempty (map (candidate_blockers facts identity.environment_id) bindings)
              ≡ true).
            all-mem is_nonempty (map (candidate_blockers facts identity.environment_id) bindings) k
              (candidate_blockers facts identity.environment_id c.carrier)
              (Memᴰ.map (candidate_blockers facts identity.environment_id) c.listed) in
        ground (arith, covered_tests, applies, open_one, failing, c.active),
  )
