-- ===== src/Workflow/Schedule.antt =====
-- packages/adopt-workflow/src/adopt_workflow/inproc/client.py: `_run_step` against the schedule of its
-- policy.
use onboard_core.Base.{
  ℕ, zero, suc, ◌+◌, String, true, ◌≡◌, ◌≢◌, refl, sym, ap, subst, Option, List, [], ◌∷◌, ◌++◌,
  arith, Bool-cases, Option-cases, length, inl, inr,
}
use onboard_core.Workflow.Retries.{is_policy, backoff_delays_ms, backoff_delays_ms-length, pred}
use onboard_core.Workflow.Steps.{
  Record, step_started, step_finished, cancelled, completed_step, StepDefinition, StepOutcome,
  returned, raised_cancelled, step_exhausted, index_error, json_error, attempts, run_step,
}

module _ {V : Type 0} where
  -- What was slept is a first part of the schedule, all of it if the step is exhausted, and the
  -- schedule was long enough.
  pub record KeepsTo (delays : List ℕ) (o : StepOutcome V × List (Record V) × List ℕ) : Type 0 where
    pub rest : List ℕ
    pub part : o.2 ++ rest ≡ delays
    pub all_of_it : o.0 ≡ step_exhausted → rest ≡ []
    pub long_enough : o.0 ≢ index_error

  stays :
      (delays : List ℕ) (o : StepOutcome V) (j : List (Record V))
      → (o ≡ step_exhausted → delays ≡ [])
      → o ≢ index_error
      → KeepsTo delays (o, j, [])
  stays delays o j h k = record { rest = delays; part = refl; all_of_it = h; long_enough = k }

  abbrev called : String → StepDefinition V → ℕ → ℕ → List (Record V) → Option V × List (Record V)
  called run_id d ordinal attempt journal =
      d.fn attempt (journal ++ step_started run_id d.name ordinal attempt ∷ [])

  module _ (json : V → Option V) where
    attempts-KeepsTo :
        (run_id : String) (d : StepDefinition V) (ordinal left attempt : ℕ) (delays : List ℕ)
        (journal : List (Record V))
        → length delays ≡ left
        → KeepsTo delays (attempts json run_id d ordinal (suc left) attempt delays journal)
    unfolding attempts
    attempts-KeepsTo run_id d ordinal zero attempt (delay ∷ later) journal e = absurd (ground arith)
    attempts-KeepsTo run_id d ordinal (suc more) attempt [] journal e = absurd (ground arith)
    attempts-KeepsTo run_id d ordinal zero attempt [] journal e =
        let after = (called run_id d ordinal attempt journal).1 in
        elim (Option-cases ((called run_id d ordinal attempt journal).0)) [
          | inr (w, got) ↦ elim (Option-cases (json w)) [
            | inl refused ↦
                let made : attempts json run_id d ordinal 1 attempt [] journal
                    ≡ (json_error, after, []) =
                  ground (arith, got, refused) in
                subst (KeepsTo []) (sym made) (stays [] json_error after (λ k. cc) (λ k. cc))
            | inr (x, writes) ↦
                let j = after ++ step_finished run_id d.name ordinal x ∷ [] in
                let made : attempts json run_id d ordinal 1 attempt [] journal
                    ≡ (returned w, j, []) =
                  ground (arith, got, writes) in
                subst (KeepsTo []) (sym made) (stays [] (returned w) j (λ k. cc) (λ k. cc))
          ]
          | inl failed ↦
              let made : attempts json run_id d ordinal 1 attempt [] journal
                  ≡ (step_exhausted, after, []) =
                ground (arith, failed) in
              subst (KeepsTo []) (sym made) (stays [] step_exhausted after (λ k. refl) (λ k. cc))
        ]
    attempts-KeepsTo run_id d ordinal (suc more) attempt (delay ∷ later) journal e =
        let after = (called run_id d ordinal attempt journal).1 in
        elim (Option-cases ((called run_id d ordinal attempt journal).0)) [
          | inr (w, got) ↦ elim (Option-cases (json w)) [
            | inl refused ↦
                let made : attempts json run_id d ordinal (suc (suc more)) attempt (delay ∷ later)
                      journal
                    ≡ (json_error, after, []) =
                  ground (arith, got, refused) in
                subst (KeepsTo (delay ∷ later)) (sym made)
                  (stays (delay ∷ later) json_error after (λ k. cc) (λ k. cc))
            | inr (x, writes) ↦
                let j = after ++ step_finished run_id d.name ordinal x ∷ [] in
                let made : attempts json run_id d ordinal (suc (suc more)) attempt (delay ∷ later)
                      journal
                    ≡ (returned w, j, []) =
                  ground (arith, got, writes) in
                subst (KeepsTo (delay ∷ later)) (sym made)
                  (stays (delay ∷ later) (returned w) j (λ k. cc) (λ k. cc))
          ]
          | inl failed ↦
              let next = attempts json run_id d ordinal (suc more) (attempt + 1) later after in
              let k =
                attempts-KeepsTo run_id d ordinal more (attempt + 1) later after
                  (ground (arith, e)) in
              let made : attempts json run_id d ordinal (suc (suc more)) attempt (delay ∷ later)
                    journal
                  ≡ (next.0, next.1, delay ∷ next.2) =
                ground (arith, failed) in
              subst (KeepsTo (delay ∷ later)) (sym made) (record {
                rest = k.rest;
                part = ap (λ l. delay ∷ l) k.part;
                all_of_it = k.all_of_it;
                long_enough = k.long_enough;
              })
        ]

    -- For a valid policy, what a step sleeps is a first part of the delays of the policy, all of
    -- them if the step ends as exhausted, and the step never looks for a delay that is not there.
    pub run_step-KeepsTo :
        (run_id : String) (d : StepDefinition V) (ordinal : ℕ) (journal : List (Record V))
        → is_policy d.retries ≡ true
        → KeepsTo (backoff_delays_ms d.retries) (run_step json run_id d ordinal journal)
    unfolding run_step is_policy
    run_step-KeepsTo run_id d ordinal journal e = elim (Bool-cases (cancelled run_id journal)) [
      | inl stopped ↦
          rw stopped
            (stays (backoff_delays_ms d.retries) raised_cancelled journal (λ k. cc) (λ k. cc))
      | inr going ↦ elim (Option-cases (completed_step run_id d.name ordinal journal)) [
        | inr (w, recorded) ↦
            rw (going, recorded)
              (stays (backoff_delays_ms d.retries) (returned w) journal (λ k. cc) (λ k. cc))
        | inl new ↦
            let many : suc (pred d.retries.max_attempts) ≡ d.retries.max_attempts =
              ground (arith, e) in
            rw (going, new)
              (subst
                (λ n.
                  KeepsTo (backoff_delays_ms d.retries)
                    (attempts json run_id d ordinal n 1 (backoff_delays_ms d.retries) journal))
                many
                (attempts-KeepsTo run_id d ordinal (pred d.retries.max_attempts) 1
                  (backoff_delays_ms d.retries) journal (backoff_delays_ms-length d.retries)))
      ]
    ]
