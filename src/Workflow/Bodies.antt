-- ===== src/Workflow/Bodies.antt =====
-- packages/adopt-workflow/src/adopt_workflow/inproc/client.py: a workflow body under `_Context`, and
-- `_drive`, with JSON as the parameter `json` that Steps has. A body is a program of the caller, which reaches the world only by `ctx.step`.
use onboard_core.Base.{
  ℕ, suc, String, Bool, false, Option, none, some, List, [], ◌∷◌, ◌++◌, any, ◌==◌, if◌then◌else◌,
}
use onboard_core.Obs.{
  Answer, answered, refused, broke, ErrorCode, usage, policy, integrity, transient, internal,
  category,
}
use onboard_core.Workflow.Api.{WorkflowStatus, completed, failed}
use onboard_core.Workflow.Steps.{
  Record, run_args, run_finished, StepDefinition, StepOutcome, run_step,
}

-- How a body goes on: it returns, it raises an `AdoptError`, it lets the `_Cancelled` of a step
-- through, it raises anything else, or it calls a step and goes on with what the call made.
pub data Body (V : Type 0) : Type 0 where
  returns : V → Body V
  raises : ErrorCode → Body V
  stops : Body V
  breaks : Body V
  calls : StepDefinition V → (StepOutcome V → Body V) → Body V

pub data BodyEnd (V : Type 0) : Type 0 where
  value : V → BodyEnd V
  adopt_error : ErrorCode → BodyEnd V
  stopped : BodyEnd V
  other_exception : BodyEnd V

pub record WorkflowDefinition (V : Type 0) : Type 0 where
  pub name : String
  pub version : ℕ
  pub fn : V → Body V

-- `self._ordinals[name] = ordinal + 1`, where a name that is not there stands at 0.
abbrev pub next_ordinal : String → (String → ℕ) → String → ℕ
next_ordinal name ordinals other = if other == name then suc (ordinals name) else ordinals other

module _ {V : Type 0} where
  abbrev pub is_args : String → Record V → Bool
  is_args run_id (run_args r args) = r == run_id
  is_args run_id _ = false

  -- `_finish`, of a result as it reads back.
  abbrev pub finish : String → WorkflowStatus → Option V → List (Record V) → List (Record V)
  finish run_id status result journal = journal ++ run_finished run_id status result ∷ []

  module _ (json : V → Option V) where
    -- The body from where it stands, with the ordinals that its context has counted.
    unfoldable pub run_body :
        String → Body V → (String → ℕ) → List (Record V) → BodyEnd V × List (Record V)
    run_body run_id (returns v) ordinals journal = (value v, journal)
    run_body run_id (raises e) ordinals journal = (adopt_error e, journal)
    run_body run_id stops ordinals journal = (stopped, journal)
    run_body run_id breaks ordinals journal = (other_exception, journal)
    run_body run_id (calls d k) ordinals journal =
        let stepped = run_step json run_id d (ordinals d.name) journal in
        run_body run_id (k stepped.0) (next_ordinal d.name ordinals) stepped.1

    -- The journal that the body of a run starts from, unless the arguments cannot be written.
    unfoldable pub with_args : String → V → List (Record V) → Option (List (Record V))
    with_args run_id args journal =
        if any (is_args run_id) journal then some journal else (elim (json args) [
          | none ↦ none
          | some written ↦ some (journal ++ run_args run_id written ∷ [])
        ])

    -- The `try` of `_drive`, after the body, and the `_finish` behind it.
    unfoldable pub settle :
        String → BodyEnd V × List (Record V) → Answer (Unit {0}) × List (Record V)
    settle run_id (value v, journal) = elim (json v) [
      | none ↦ (broke, journal)
      | some written ↦ (answered tt, finish run_id completed (some written) journal)
    ]
    settle run_id (stopped, journal) =
        (answered tt, finish run_id WorkflowStatus.cancelled none journal)
    settle run_id (other_exception, journal) = (broke, journal)
    settle run_id (adopt_error e, journal) = elim (category e) [
      | usage ↦ (refused e, journal)
      | policy ↦ (refused e, journal)
      | integrity ↦ (answered tt, finish run_id failed none journal)
      | transient ↦ (answered tt, finish run_id failed none journal)
      | internal ↦ (answered tt, finish run_id failed none journal)
    ]

    -- `_drive`
    unfoldable pub drive :
        String → WorkflowDefinition V → V → List (Record V) → Answer (Unit {0}) × List (Record V)
    unfolding run_body settle with_args
    drive run_id definition args journal = elim (with_args run_id args journal) [
      | none ↦ (broke, journal)
      | some begun ↦ settle run_id (run_body run_id (definition.fn args) (λ name. 0) begun)
    ]
