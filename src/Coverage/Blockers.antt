-- ===== src/Coverage/Blockers.antt =====
-- packages/adopt-coverage/src/adopt_coverage/recompute.py: when a set of blockers is empty.
use onboard_core.Base.{
  ℕ, String, Bool, true, false, ◌≡◌, refl, Option, none, some, List, [], ◌∷◌, ◌||◌, not, arith, any,
}
use onboard_core.Model.Enums.{BindingStatus, Verification, is_verified}
use onboard_core.Model.Tables.{KnowledgeItem}
use onboard_core.Coverage.Reasons.{
  no_live_binding, no_active_knowledge_revision, audience_or_environment, verification_conflicted,
  verification_unverified, Reason, add, update, update_all,
}
use onboard_core.Coverage.Evaluate.{
  is_dead_link, lacks_revision, is_inapplicable, add_if, verification_blockers, binding_blockers,
  is_nonempty,
}

pub add-nonempty : (r : Reason) (l : List Reason) → is_nonempty (add r l) ≡ true
unfolding add
add-nonempty r [] = refl
add-nonempty r (q ∷ l) = ground arith

pub add_if-nonempty :
    (t : Bool) (r : Reason) (l : List Reason) → is_nonempty (add_if t r l) ≡ (t || is_nonempty l)
add_if-nonempty true r l = add-nonempty r l
add_if-nonempty false r l = refl

pub update-nonempty :
    (rs l : List Reason) → is_nonempty (update rs l) ≡ (is_nonempty l || is_nonempty rs)
unfolding update
update-nonempty [] l = ground arith
update-nonempty (r ∷ rs) l = ground (arith, update-nonempty rs (add r l), add-nonempty r l)

pub update_all-nonempty :
    (ls : List (List Reason)) (l : List Reason)
    → is_nonempty (update_all ls l) ≡ (is_nonempty l || any is_nonempty ls)
unfolding update_all
update_all-nonempty [] l = ground arith
update_all-nonempty (rs ∷ ls) l =
    ground (arith, update_all-nonempty ls (update rs l), update-nonempty rs l)

-- `verifications.get(item_id)`: a missing row and a row that holds none are the same.
abbrev pub stated : Option (Option Verification) → Option Verification
stated none = none
stated (some v) = v

pub verification_blockers-nonempty :
    (v : Option (Option Verification)) (l : List Reason)
    → is_nonempty (verification_blockers v l) ≡ (is_nonempty l || not (is_verified (stated v)))
unfolding verification_blockers
verification_blockers-nonempty none l = ground (arith, add-nonempty verification_unverified l)
verification_blockers-nonempty (some v) l =
    ground (arith, add-nonempty verification_unverified l, add-nonempty verification_conflicted l)

pub binding_blockers-nonempty :
    (status : Option BindingStatus) (item : Option KnowledgeItem)
    (verification : Option (Option Verification)) (count : ℕ) (environment : String)
    → is_nonempty (binding_blockers status item verification count environment) ≡ (
        is_dead_link status
        || lacks_revision item
        || is_inapplicable item count environment
        || not (is_verified (stated verification)))
unfolding binding_blockers
binding_blockers-nonempty status item verification count environment =
    let links = add_if (is_dead_link status) no_live_binding [] in
    let applied = add_if (is_inapplicable item count environment) audience_or_environment links in
    ground (
      arith,
      add_if-nonempty (is_dead_link status) no_live_binding [],
      add_if-nonempty (is_inapplicable item count environment) audience_or_environment links,
      add-nonempty no_active_knowledge_revision links,
      verification_blockers-nonempty verification applied,
    )
