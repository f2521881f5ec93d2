-- ===== src/Obs.antt =====
-- packages/adopt-obs/src/adopt_obs/errors.py: the codes that the modelled components raise, their
-- categories, and results for code that may raise an `AdoptError` or another exception.
use onboard_core.Base.{◌≡◌, refl, ◌⊎◌, inl, inr}

pub data ErrorCategory : Type 0 where
  usage policy integrity transient internal : ErrorCategory

pub data ErrorCode : Type 0 where
  schema_migration_failed : ErrorCode
  scope_slug_invalid scope_slug_immutable scope_slug_reused scope_violation : ErrorCode
  uri_malformed uri_too_long uri_scheme_unknown uri_double_encoded : ErrorCode
  revision_chain_fork : ErrorCode
  agent_output_schema agent_provider_error : ErrorCode
  workflow_step_exhausted workflow_body_impure workflow_duplicate_start : ErrorCode

unfoldable pub category : ErrorCode → ErrorCategory
category schema_migration_failed = integrity
category scope_slug_invalid = usage
category scope_slug_immutable = policy
category scope_slug_reused = policy
category scope_violation = policy
category uri_malformed = usage
category uri_too_long = usage
category uri_scheme_unknown = usage
category uri_double_encoded = usage
category revision_chain_fork = integrity
category agent_output_schema = internal
category agent_provider_error = transient
category workflow_step_exhausted = internal
category workflow_body_impure = policy
category workflow_duplicate_start = usage

-- An `AdoptError` is its code: no caller reads the message or the hint.
pub data Result {ℓ} (A : Type ℓ) : Type ℓ where
  ok : A → Result A
  err : ErrorCode → Result A

-- Code that may also let an exception through that is no `AdoptError`.
pub data Answer {ℓ} (A : Type ℓ) : Type ℓ where
  answered : A → Answer A
  refused : ErrorCode → Answer A
  broke : Answer A

pub Result-cases {ℓ} :
    {A : Type ℓ} (r : Result A) → ((a : A) × (r ≡ ok a)) ⊎ ((e : ErrorCode) × (r ≡ err e))
Result-cases (ok a) = inl (a, refl)
Result-cases (err e) = inr (e, refl)

pub Answer-cases {ℓ} :
    {A : Type ℓ} (r : Answer A)
    → ((a : A) × (r ≡ answered a)) ⊎ (((e : ErrorCode) × (r ≡ refused e)) ⊎ (r ≡ broke))
Answer-cases (answered a) = inl (a, refl)
Answer-cases (refused e) = inr (inl (e, refl))
Answer-cases broke = inr (inr refl)
