-- ===== src/Workflow/Replay.antt =====
-- packages/adopt-workflow/src/adopt_workflow/inproc/client.py: `_run_step` and `dedupe` under replay.
use onboard_core.Base.{
  ◌⊎◌, none, refl, sym, ℕ, zero, suc, ◌+◌, String, Bool, true, false, ◌≡◌, ap, ◌∙◌, Option, some,
  List, [], ◌∷◌, ◌++◌, any, arith, eq_refl, Bool-cases, Option-cases, inl, inr,
}
use onboard_core.Workflow.Retries.{backoff_delays_ms}
use onboard_core.Workflow.Steps.{
  Record, effect, step_started, step_finished, is_effect, dedupe, cancelled, completed_step,
  StepDefinition, returned, attempts, run_step,
}

module _ {V : Type 0} where
  any-append_left :
      (p : Record V → Bool) (l m : List (Record V)) → any p l ≡ true → any p (l ++ m) ≡ true
  any-append_left p [] m e = cc
  any-append_left p (r ∷ l) m e = ground (arith, e, any-append_left p l m)

  any-snoc :
      (p : Record V → Bool) (l : List (Record V)) (r : Record V)
      → p r ≡ true
      → any p (l ++ r ∷ []) ≡ true
  any-snoc p [] r e = ground (arith, e)
  any-snoc p (x ∷ l) r e = ground (arith, any-snoc p l r e)

  dedupe-recorded :
      (run_id key : String) (journal : List (Record V))
      → any (is_effect key) (dedupe run_id key journal).1 ≡ true
  unfolding dedupe
  dedupe-recorded run_id key journal =
      ground (arith, any-snoc (is_effect key) journal (effect key run_id) (eq_refl key))

  dedupe-found :
      (run_id key : String) (journal : List (Record V))
      → any (is_effect key) journal ≡ true
      → dedupe run_id key journal ≡ (false, journal)
  unfolding dedupe
  dedupe-found run_id key journal e = ground (arith, e)

  -- Once an effect was asked to commit under a key, every later question for that key, in whatever
  -- run and whatever was appended since, answers False and appends nothing.
  pub dedupe-once :
      (run_id other key : String) (journal more : List (Record V))
      → dedupe other key ((dedupe run_id key journal).1 ++ more)
        ≡ (false, (dedupe run_id key journal).1 ++ more)
  dedupe-once run_id other key journal more =
      dedupe-found other key ((dedupe run_id key journal).1 ++ more) (
        any-append_left (is_effect key) (dedupe run_id key journal).1 more
          (dedupe-recorded run_id key journal))

  completed_step-snoc :
      (run_id step : String) (ordinal : ℕ) (v : V) (l : List (Record V))
      → completed_step run_id step ordinal (l ++ step_finished run_id step ordinal v ∷ []) ≡ some v
  unfolding completed_step
  completed_step-snoc run_id step ordinal v [] = ground (arith, eq_refl run_id, eq_refl step)
  completed_step-snoc run_id step ordinal v (r ∷ l) =
      ground (arith, completed_step-snoc run_id step ordinal v l)

  abbrev called : String → StepDefinition V → ℕ → ℕ → List (Record V) → Option V × List (Record V)
  called run_id d ordinal attempt journal =
      d.fn attempt (journal ++ step_started run_id d.name ordinal attempt ∷ [])

  module _ (json : V → Option V) where
    -- An attempt whose body returned.
    attempts-finished :
        (run_id : String) (d : StepDefinition V) (ordinal left attempt : ℕ) (delays : List ℕ)
        (journal j : List (Record V)) (slept : List ℕ) (v result : V)
        → (called run_id d ordinal attempt journal).0 ≡ some result
        → attempts json run_id d ordinal (suc left) attempt delays journal ≡ (returned v, j, slept)
        → (w : V) × (json v ≡ some w) × (completed_step run_id d.name ordinal j ≡ some w)
    unfolding attempts
    attempts-finished run_id d ordinal left attempt delays journal j slept v result got e =
        let after = (called run_id d ordinal attempt journal).1 in
        elim (Option-cases (json result)) [
          | inl refused ↦ absurd (ground (arith, got, refused, e))
          | inr (w, writes) ↦
              let same : j ≡ (after ++ step_finished run_id d.name ordinal w ∷ []) =
                ground (arith, got, writes, e) in
              let value : result ≡ v = ground (arith, got, writes, e) in
              (
                w,
                ap json (sym value) ∙ writes,
                ap (completed_step run_id d.name ordinal) same
                    ∙ completed_step-snoc run_id d.name ordinal w after,
              )
        ]

    attempts-returned :
        (run_id : String) (d : StepDefinition V) (ordinal left attempt : ℕ) (delays : List ℕ)
        (journal j : List (Record V)) (slept : List ℕ) (v : V)
        → attempts json run_id d ordinal left attempt delays journal ≡ (returned v, j, slept)
        → (w : V) × (json v ≡ some w) × (completed_step run_id d.name ordinal j ≡ some w)
    unfolding attempts
    attempts-returned run_id d ordinal zero attempt delays journal j slept v e = cc
    attempts-returned run_id d ordinal (suc zero) attempt delays journal j slept v e =
        elim (Option-cases ((called run_id d ordinal attempt journal).0)) [
          | inr (w, got) ↦
              attempts-finished run_id d ordinal zero attempt delays journal j slept v w got e
          | inl failed ↦ absurd (ground (arith, failed, e))
        ]
    attempts-returned run_id d ordinal (suc (suc more)) attempt [] journal j slept v e =
        elim (Option-cases ((called run_id d ordinal attempt journal).0)) [
          | inr (w, got) ↦
              attempts-finished run_id d ordinal (suc more) attempt [] journal j slept v w got e
          | inl failed ↦ absurd (ground (arith, failed, e))
        ]
    attempts-returned run_id d ordinal (suc (suc more)) attempt (delay ∷ later) journal j slept v
          e =
        let after = (called run_id d ordinal attempt journal).1 in
        let rest = attempts json run_id d ordinal (suc more) (attempt + 1) later after in
        elim (Option-cases ((called run_id d ordinal attempt journal).0)) [
          | inr (w, got) ↦
              attempts-finished run_id d ordinal (suc more) attempt (delay ∷ later) journal j slept
                v w got e
          | inl failed ↦
              attempts-returned run_id d ordinal (suc more) (attempt + 1) later after j (rest.2) v
                (ground (arith, failed, e))
        ]

    -- The value `w` that a step that returned `v` has left in the journal: `v` itself if it was
    -- read there, and else what JSON reads back of it.
    abbrev pub IsLeft : Option V → V → V → Type 0
    IsLeft recorded v w = ((recorded ≡ some v) × (w ≡ v)) ⊎ ((recorded ≡ none) × (json v ≡ some w))

    pub run_step-returned :
        (run_id : String) (d : StepDefinition V) (ordinal : ℕ) (journal j : List (Record V))
        (slept : List ℕ) (v : V)
        → run_step json run_id d ordinal journal ≡ (returned v, j, slept)
        → (w : V) × IsLeft (completed_step run_id d.name ordinal journal) v w
          × (completed_step run_id d.name ordinal j ≡ some w)
    unfolding run_step
    run_step-returned run_id d ordinal journal j slept v e =
        elim (Bool-cases (cancelled run_id journal)) [
          | inl stopped ↦ absurd (ground (arith, stopped, e))
          | inr going ↦ elim (Option-cases (completed_step run_id d.name ordinal journal)) [
            | inr (w, recorded) ↦
                let same : j ≡ journal = ground (arith, going, recorded, e) in
                let value : w ≡ v = ground (arith, going, recorded, e) in
                (
                  v,
                  inl (recorded ∙ ap some value, refl),
                  ap (completed_step run_id d.name ordinal) same ∙ recorded ∙ ap some value,
                )
            | inl new ↦
                let (w, writes, held) =
                  attempts-returned run_id d ordinal d.retries.max_attempts 1
                    (backoff_delays_ms d.retries) journal j slept v
                    (ground (arith, going, new, e)) in
                (w, inr (new, writes), held)
          ]
        ]

    pub run_step-held :
        (run_id : String) (d : StepDefinition V) (ordinal : ℕ) (j : List (Record V)) (v : V)
        → cancelled run_id j ≡ false
        → completed_step run_id d.name ordinal j ≡ some v
        → run_step json run_id d ordinal j ≡ (returned v, j, [])
    unfolding run_step
    run_step-held run_id d ordinal j v live held = ground (arith, live, held)

    -- If a step of a run returned a value, then running a step of that name and ordinal again on
    -- the journal that it left, if no cancellation of the run stands there, leaves the journal as
    -- it is, does not sleep and returns a value: the same one, if the first call had read it from
    -- the journal, and else what JSON reads back of the value that the body of the step returned.
    pub run_step-replay :
        (run_id : String) (d again : StepDefinition V) (ordinal : ℕ) (journal j : List (Record V))
        (slept : List ℕ) (v : V)
        → run_step json run_id d ordinal journal ≡ (returned v, j, slept)
        → again.name ≡ d.name
        → cancelled run_id j ≡ false
        → (w : V) × IsLeft (completed_step run_id d.name ordinal journal) v w
          × (run_step json run_id again ordinal j ≡ (returned w, j, []))
    run_step-replay run_id d again ordinal journal j slept v e same live =
        let (w, left, held) = run_step-returned run_id d ordinal journal j slept v e in
        (
          w,
          left,
          run_step-held run_id again ordinal j w live
              (ap (λ name. completed_step run_id name ordinal j) same ∙ held),
        )
