-- ===== src/Workflow/Written.antt =====
-- packages/adopt-workflow/src/adopt_workflow/inproc/client.py: steps whose results JSON can write.
use onboard_core.Base.{
  ℕ, zero, suc, ◌+◌, String, true, ◌≡◌, ◌≢◌, Option, some, List, [], ◌∷◌, ◌++◌, arith, is_some,
  Bool-cases, Option-cases, inl, inr,
}
use onboard_core.Workflow.Retries.{backoff_delays_ms}
use onboard_core.Workflow.Steps.{
  Record, step_started, StepDefinition, json_error, cancelled, completed_step, attempts, run_step,
}

module _ {V : Type 0} (json : V → Option V) where
  -- What the body of the step returns can be written.
  abbrev pub IsWritten : StepDefinition V → Type 0
  IsWritten d =
      (attempt : ℕ) (journal : List (Record V)) (v : V)
      → (d.fn attempt journal).0 ≡ some v
      → is_some (json v) ≡ true

  module _ (run_id : String) (d : StepDefinition V) (at : ℕ) (w : IsWritten d) where
    abbrev called : ℕ → List (Record V) → Option V × List (Record V)
    called attempt j = d.fn attempt (j ++ step_started run_id d.name at attempt ∷ [])

    attempts-written_some :
        (left attempt : ℕ) (delays : List ℕ) (j : List (Record V)) (v : V)
        → (called attempt j).0 ≡ some v
        → (attempts json run_id d at (suc left) attempt delays j).0 ≢ json_error
    unfolding attempts
    attempts-written_some left attempt delays j v got e = elim (Option-cases (json v)) [
      | inl lost ↦
          let written = w attempt (j ++ step_started run_id d.name at attempt ∷ []) v got in
          absurd (ground (arith, lost, written))
      | inr (x, writes) ↦ absurd (ground (arith, got, writes, e))
    ]

    attempts-written :
        (left attempt : ℕ) (delays : List ℕ) (j : List (Record V))
        → (attempts json run_id d at left attempt delays j).0 ≢ json_error
    unfolding attempts
    attempts-written zero attempt delays j e = cc
    attempts-written (suc zero) attempt delays j e = elim (Option-cases (called attempt j).0) [
      | inr (v, got) ↦ attempts-written_some zero attempt delays j v got e
      | inl failed ↦ absurd (ground (arith, failed, e))
    ]
    attempts-written (suc (suc more)) attempt [] j e = elim (Option-cases (called attempt j).0) [
      | inr (v, got) ↦ attempts-written_some (suc more) attempt [] j v got e
      | inl failed ↦ absurd (ground (arith, failed, e))
    ]
    attempts-written (suc (suc more)) attempt (delay ∷ later) j e =
        elim (Option-cases (called attempt j).0) [
          | inr (v, got) ↦ attempts-written_some (suc more) attempt (delay ∷ later) j v got e
          | inl failed ↦
              attempts-written (suc more) (attempt + 1) later (called attempt j).1
                (ground (arith, failed, e))
        ]

    -- Such a step does not fail for what it returned.
    pub run_step-written : (j : List (Record V)) → (run_step json run_id d at j).0 ≢ json_error
    unfolding run_step
    run_step-written j e = elim (Bool-cases (cancelled run_id j)) [
      | inl gone ↦ absurd (ground (arith, gone, e))
      | inr live ↦ elim (Option-cases (completed_step run_id d.name at j)) [
        | inr (v, recorded) ↦ absurd (ground (arith, live, recorded, e))
        | inl new ↦
            attempts-written d.retries.max_attempts 1 (backoff_delays_ms d.retries) j
              (ground (arith, live, new, e))
      ]
    ]
