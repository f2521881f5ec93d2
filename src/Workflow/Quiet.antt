-- ===== src/Workflow/Quiet.antt =====
-- packages/adopt-workflow/src/adopt_workflow/inproc/client.py: what the steps of a run leave as they
-- found it, when the bodies of the steps append effects and signals only.
use onboard_core.Base.{
  Option, ℕ, zero, suc, ◌+◌, String, Bool, true, false, ◌≡◌, refl, ap, ◌∙◌, none, List, [], ◌∷◌,
  ◌++◌, any, all, arith, ◌==◌, ◌&&◌, nat_eq, Bool-cases, Option-cases, inl, inr,
}
use onboard_core.Workflow.Retries.{backoff_delays_ms}
use onboard_core.Workflow.Steps.{
  Record, effect, signal, step_started, step_finished, completed_step, cancelled, StepDefinition,
  attempts, run_step,
}

module _ {V : Type 0} where
  abbrev pub is_side : Record V → Bool
  is_side (effect key run_id) = true
  is_side (signal run_id name payload) = true
  is_side _ = false

  -- The body of the step appends effects and signals, and nothing else.
  abbrev pub IsQuiet : StepDefinition V → Type 0
  IsQuiet d =
      (attempt : ℕ) (journal : List (Record V))
      → (more : List (Record V)) × ((d.fn attempt journal).1 ≡ journal ++ more)
        × (all is_side more ≡ true)

  -- A record of the result of that step of the run.
  abbrev pub finishes : String → String → ℕ → Record V → Bool
  finishes run_id name ordinal (step_finished r s n v) =
      r == run_id && s == name && nat_eq n ordinal
  finishes run_id name ordinal _ = false

  module _ (run_id name : String) (ordinal : ℕ) where
    completed_step-none :
        (m : List (Record V))
        → any (finishes run_id name ordinal) m ≡ false
        → completed_step run_id name ordinal m ≡ none
    unfolding completed_step
    completed_step-none [] e = refl
    completed_step-none (r ∷ m) e = ground (arith, e, completed_step-none m)

    pub completed_step-append :
        (l m : List (Record V))
        → any (finishes run_id name ordinal) m ≡ false
        → completed_step run_id name ordinal (l ++ m) ≡ completed_step run_id name ordinal l
    unfolding completed_step
    completed_step-append [] m e = completed_step-none m e
    completed_step-append (r ∷ l) m e = ground (arith, completed_step-append l m e)

    side-finishes :
        (m : List (Record V)) → all is_side m ≡ true → any (finishes run_id name ordinal) m ≡ false
    side-finishes [] e = refl
    side-finishes (r ∷ m) e = ground (arith, e, side-finishes m)

    called-keeps :
        (d : StepDefinition V) (at attempt : ℕ) (journal : List (Record V))
        → IsQuiet d
        → completed_step run_id name ordinal
            (d.fn attempt (journal ++ step_started run_id d.name at attempt ∷ [])).1
          ≡ completed_step run_id name ordinal journal
    called-keeps d at attempt journal q =
        let begun = journal ++ step_started run_id d.name at attempt ∷ [] in
        let (more, made, side) = q attempt begun in
        ap (completed_step run_id name ordinal) made
        ∙ completed_step-append begun more (side-finishes more side)
        ∙ completed_step-append journal (step_started run_id d.name at attempt ∷ []) refl

    recorded-keeps :
        (d : StepDefinition V) (at : ℕ) (after : List (Record V)) (v : V)
        → (d.name == name && nat_eq at ordinal) ≡ false
        → completed_step run_id name ordinal (after ++ step_finished run_id d.name at v ∷ [])
          ≡ completed_step run_id name ordinal after
    recorded-keeps d at after v e =
        completed_step-append after (step_finished run_id d.name at v ∷ []) (ground (arith, e))

    module _ (json : V → Option V) where
      attempts-keeps :
          (d : StepDefinition V) (at left attempt : ℕ) (delays : List ℕ) (journal : List (Record V))
          → IsQuiet d
          → (d.name == name && nat_eq at ordinal) ≡ false
          → completed_step run_id name ordinal
              (attempts json run_id d at left attempt delays journal).1
            ≡ completed_step run_id name ordinal journal
      unfolding attempts
      attempts-keeps d at zero attempt delays journal q e = refl
      attempts-keeps d at (suc zero) attempt delays journal q e =
          let (got, after) = d.fn attempt (journal ++ step_started run_id d.name at attempt ∷ []) in
          let same = called-keeps d at attempt journal q in
          elim (Option-cases got) [
            | inr (v, r) ↦ elim (Option-cases (json v)) [
              | inr (w, writes) ↦ ground (arith, r, e, same, writes, recorded-keeps d at after w)
              | inl refused ↦ ground (arith, r, same, refused)
            ]
            | inl failed ↦ ground (arith, failed, same)
          ]
      attempts-keeps d at (suc (suc left)) attempt [] journal q e =
          let (got, after) = d.fn attempt (journal ++ step_started run_id d.name at attempt ∷ []) in
          let same = called-keeps d at attempt journal q in
          elim (Option-cases got) [
            | inr (v, r) ↦ elim (Option-cases (json v)) [
              | inr (w, writes) ↦ ground (arith, r, e, same, writes, recorded-keeps d at after w)
              | inl refused ↦ ground (arith, r, same, refused)
            ]
            | inl failed ↦ ground (arith, failed, same)
          ]
      attempts-keeps d at (suc (suc left)) attempt (delay ∷ delays) journal q e =
          let (got, after) = d.fn attempt (journal ++ step_started run_id d.name at attempt ∷ []) in
          let same = called-keeps d at attempt journal q in
          let on = attempts-keeps d at (suc left) (attempt + 1) delays after q e in
          elim (Option-cases got) [
            | inr (v, r) ↦ elim (Option-cases (json v)) [
              | inr (w, writes) ↦ ground (arith, r, e, same, writes, recorded-keeps d at after w)
              | inl refused ↦ ground (arith, r, same, refused)
            ]
            | inl failed ↦ ground (arith, failed, same, on)
          ]

      -- A quiet step leaves the results of the other steps as they are.
      pub run_step-keeps :
          (d : StepDefinition V) (at : ℕ) (journal : List (Record V))
          → IsQuiet d
          → (d.name == name && nat_eq at ordinal) ≡ false
          → completed_step run_id name ordinal (run_step json run_id d at journal).1
            ≡ completed_step run_id name ordinal journal
      unfolding run_step
      run_step-keeps d at journal q e =
          let delays = backoff_delays_ms d.retries in
          let tried = attempts-keeps d at d.retries.max_attempts 1 delays journal q e in
          elim (Bool-cases (cancelled run_id journal)) [
            | inl gone ↦ ground (arith, gone)
            | inr live ↦ elim (Option-cases (completed_step run_id d.name at journal)) [
              | inr (v, recorded) ↦ ground (arith, live, recorded)
              | inl new ↦ ground (arith, live, new, tried)
            ]
          ]
