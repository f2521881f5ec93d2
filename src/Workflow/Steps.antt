-- ===== src/Workflow/Steps.antt =====
-- packages/adopt-workflow/src/adopt_workflow/inproc/client.py: `dedupe` and `_run_step`, over the
-- records of the journal. The JSON module is a parameter: `json` gives what `json.loads` reads of what
-- `json.dumps` writes of a value, and none where `json.dumps` raises, which is `json_error`.
use onboard_core.Base.{
  ℕ, zero, suc, ◌+◌, String, Bool, true, false, Option, none, some, List, [], ◌∷◌, ◌++◌, any,
  nat_eq, if◌then◌else◌, ◌==◌, ◌&&◌,
}
use onboard_core.Workflow.Api.{WorkflowStatus}
use onboard_core.Workflow.Retries.{RetryPolicy, backoff_delays_ms}

pub data Record (V : Type 0) : Type 0 where
  run_started : String → String → ℕ → String → Record V
  run_args : String → V → Record V
  run_finished : String → WorkflowStatus → Option V → Record V
  step_started : String → String → ℕ → ℕ → Record V
  step_finished : String → String → ℕ → V → Record V
  effect : String → String → Record V
  cancel_requested : String → Record V
  signal : String → String → V → Record V

pub record StepDefinition (V : Type 0) : Type 0 where
  pub name : String
  pub retries : RetryPolicy
  -- The body of the step in an attempt: its value, `none` where it raises, and the journal after it.
  pub fn : ℕ → List (Record V) → Option V × List (Record V)

pub data StepOutcome (V : Type 0) : Type 0 where
  returned : V → StepOutcome V
  raised_cancelled : StepOutcome V
  step_exhausted : StepOutcome V
  index_error : StepOutcome V
  json_error : StepOutcome V

module _ {V : Type 0} where
  abbrev pub is_effect : String → Record V → Bool
  is_effect key (effect k run_id) = k == key
  is_effect key _ = false

  -- `StepContext.dedupe`
  unfoldable pub dedupe : String → String → List (Record V) → Bool × List (Record V)
  dedupe run_id key journal =
      if any (is_effect key) journal
      then (false, journal)
      else (true, journal ++ effect key run_id ∷ [])

  abbrev pub is_cancel : String → Record V → Bool
  is_cancel run_id (cancel_requested r) = r == run_id
  is_cancel run_id _ = false

  -- `_cancelled`
  abbrev pub cancelled : String → List (Record V) → Bool
  cancelled run_id journal = any (is_cancel run_id) journal

  -- The value under a key in `_completed_steps`: the last record of a step stays.
  unfoldable pub completed_step : String → String → ℕ → List (Record V) → Option V
  completed_step run_id step ordinal [] = none
  completed_step run_id step ordinal (r ∷ rs) = elim (completed_step run_id step ordinal rs) [
    | some later ↦ some later
    | none ↦ elim r [
      | step_finished run name n result ↦
          if run == run_id && name == step && nat_eq n ordinal then some result else none
      | _ ↦ none
    ]
  ]

  module _ (json : V → Option V) where
    -- The rest of the loop: `left` attempts, of which this is the first, and the delays that are left.
    -- The last part is what was slept, in milliseconds.
    unfoldable pub attempts :
        String
        → StepDefinition V
        → ℕ
        → ℕ
        → ℕ
        → List ℕ
        → List (Record V)
        → StepOutcome V × List (Record V) × List ℕ
    attempts run_id d ordinal zero attempt delays journal = (step_exhausted, journal, [])
    attempts run_id d ordinal (suc left) attempt delays journal =
        let begun = journal ++ step_started run_id d.name ordinal attempt ∷ [] in
        let (value, after) = d.fn attempt begun in
        elim value [
          | some result ↦ elim (json result) [
            | none ↦ (json_error, after, [])
            | some written ↦
                (returned result, after ++ step_finished run_id d.name ordinal written ∷ [], [])
          ]
          | none ↦ elim left [
            | zero ↦ (step_exhausted, after, [])
            | suc more ↦ elim delays [
              | [] ↦ (index_error, after, [])
              | delay ∷ later ↦
                  let (o, j, slept) = attempts run_id d ordinal left (attempt + 1) later after in
                  (o, j, delay ∷ slept)
            ]
          ]
        ]

    -- `_run_step`
    unfoldable pub run_step :
        String → StepDefinition V → ℕ → List (Record V) → StepOutcome V × List (Record V) × List ℕ
    unfolding completed_step attempts
    run_step run_id d ordinal journal =
        if cancelled run_id journal
        then (raised_cancelled, journal, [])
        else (elim (completed_step run_id d.name ordinal journal) [
          | some recorded ↦ (returned recorded, journal, [])
          | none ↦
              attempts run_id d ordinal d.retries.max_attempts 1 (backoff_delays_ms d.retries)
                journal
        ])
