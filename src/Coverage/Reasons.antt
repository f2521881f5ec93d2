-- ===== src/Coverage/Reasons.antt =====
-- packages/adopt-coverage/src/adopt_coverage/recompute.py: why an identity is not covered. A set of
-- reasons is a list without repetitions.
use mathlib.Core.List.Memᴰ
use onboard_core.Base.{
  String, Bool, true, ◌≡◌, refl, sym, ap, ◌∙◌, ◌↔◌, inl, inr, List, [], ◌∷◌, Memᴰ, any, any-mem,
  Bool-cases, if◌then◌else◌, ◌==◌, eq_iff,
}

pub data Reason : Type 0 where
  identity_not_active no_live_binding no_active_knowledge_revision : Reason
  audience_or_environment no_observability_boundary : Reason
  verification_conflicted verification_unverified : Reason

unfoldable pub reason_text : Reason → String
reason_text identity_not_active = "identity_revision_not_active"
reason_text no_live_binding = "no_live_binding"
reason_text no_active_knowledge_revision = "no_active_knowledge_revision"
reason_text audience_or_environment = "audience_or_environment_inapplicable"
reason_text no_observability_boundary = "no_observability_boundary"
reason_text verification_conflicted = "verification_conflicted"
reason_text verification_unverified = "verification_unverified"

-- The reason with a given text; every text but the seven goes to the last one.
reason_of : String → Reason
reason_of t =
    if t == "identity_revision_not_active"
    then identity_not_active
    else if t == "no_live_binding"
    then no_live_binding
    else if t == "no_active_knowledge_revision"
    then no_active_knowledge_revision
    else if t == "audience_or_environment_inapplicable"
    then audience_or_environment
    else if t == "no_observability_boundary"
    then no_observability_boundary
    else if t == "verification_conflicted"
    then verification_conflicted
    else verification_unverified

reason_of-reason_text : (r : Reason) → reason_of (reason_text r) ≡ r
unfolding reason_of reason_text
reason_of-reason_text identity_not_active = refl
reason_of-reason_text no_live_binding = refl
reason_of-reason_text no_active_knowledge_revision = refl
reason_of-reason_text audience_or_environment = refl
reason_of-reason_text no_observability_boundary = refl
reason_of-reason_text verification_conflicted = refl
reason_of-reason_text verification_unverified = refl

pub reason_text-injective : (q r : Reason) → reason_text q ≡ reason_text r → q ≡ r
reason_text-injective q r e =
    sym (reason_of-reason_text q) ∙ ap reason_of e ∙ reason_of-reason_text r

abbrev pub has_reason : List Reason → Reason → Bool
has_reason l r = any (λ q. reason_text q == reason_text r) l

pub has_reason-mem : (l : List Reason) (r : Reason) → has_reason l r ≡ true → Memᴰ r l
has_reason-mem l r h =
    let (q, m, e) = any-mem (λ q. reason_text q == reason_text r) l h in
    Memᴰ.cast (sym (reason_text-injective q r ((eq_iff (reason_text q) (reason_text r)).0 e))) m

-- `blockers.add(reason)`
unfoldable pub add : Reason → List Reason → List Reason
add r l = if has_reason l r then l else r ∷ l

pub mem-add : (r : Reason) (l : List Reason) {q : Reason} → Memᴰ q (add r l) ↔ Memᴰ q (r ∷ l)
unfolding add
mem-add r l = elim (Bool-cases (has_reason l r)) [
  | inl old ↦ rw old (
    λ m. Memᴰ.tail m,
    λ m. elim (Memᴰ.cases_cons m) [ inl e ↦ Memᴰ.cast e (has_reason-mem l r old) | inr t ↦ t ],
  )
  | inr new ↦ rw new (λ m. m, λ m. m)
]

-- `blockers.update(reasons)`
unfoldable pub update : List Reason → List Reason → List Reason
unfolding add
update [] l = l
update (r ∷ rs) l = update rs (add r l)

-- `blockers.update(*sets)`
unfoldable pub update_all : List (List Reason) → List Reason → List Reason
unfolding update
update_all [] l = l
update_all (rs ∷ rest) l = update_all rest (update rs l)
