-- ===== src/Workflow/Adds.antt =====
-- packages/adopt-workflow/src/adopt_workflow/inproc/client.py: what the steps of a run append, when the
-- bodies of the steps append effects and signals only.
use mathlib.Core.List.{append_assoc, append-nil}
use onboard_core.Base.{
  ℕ, zero, suc, ◌+◌, String, Bool, true, false, ◌≡◌, refl, sym, ap, ◌∙◌, subst, Option, some, List,
  [], ◌∷◌, ◌++◌, all, arith, Bool-cases, Option-cases, inl, inr,
}
use onboard_core.Workflow.Retries.{backoff_delays_ms}
use onboard_core.Workflow.Steps.{
  Record, run_started, run_finished, step_started, step_finished, StepDefinition, attempts,
  run_step, cancelled, completed_step,
}
use onboard_core.Workflow.Quiet.{is_side, IsQuiet}

module _ {V : Type 0} where
  -- A record that `_runs` reads over.
  abbrev pub is_plain : Record V → Bool
  is_plain (run_started r name version key) = false
  is_plain (run_finished r status outcome) = false
  is_plain _ = true

  pub record Adds (j l : List (Record V)) : Type 0 where
    pub more : List (Record V)
    pub made : l ≡ j ++ more
    pub plain : all is_plain more ≡ true

  pub Adds-none : (j : List (Record V)) → Adds j j
  Adds-none j = record { more = []; made = sym (append-nil j); plain = refl }

  pub Adds-one : (j : List (Record V)) (r : Record V) → is_plain r ≡ true → Adds j (j ++ r ∷ [])
  Adds-one j r e = record { more = r ∷ []; made = refl; plain = ground (arith, e) }

  all-append :
      (l m : List (Record V))
      → all is_plain l ≡ true
      → all is_plain m ≡ true
      → all is_plain (l ++ m) ≡ true
  all-append [] m e f = f
  all-append (r ∷ l) m e f = ground (arith, e, f, all-append l m)

  pub Adds-both : {j k l : List (Record V)} → Adds j k → Adds k l → Adds j l
  Adds-both {j} {k} {l} a b = record {
    more = a.more ++ b.more;
    made = b.made ∙ ap (λ t. t ++ b.more) a.made ∙ append_assoc j a.more b.more;
    plain = all-append a.more b.more a.plain b.plain;
  }

  side-plain : (m : List (Record V)) → all is_side m ≡ true → all is_plain m ≡ true
  side-plain [] e = refl
  side-plain (r ∷ m) e = ground (arith, e, side-plain m)

  called-Adds :
      (run_id : String) (d : StepDefinition V) (at attempt : ℕ) (j : List (Record V))
      → IsQuiet d
      → Adds j (d.fn attempt (j ++ step_started run_id d.name at attempt ∷ [])).1
  called-Adds run_id d at attempt j q =
      let begun = j ++ step_started run_id d.name at attempt ∷ [] in
      let (more, made, side) = q attempt begun in
      Adds-both (Adds-one j (step_started run_id d.name at attempt) refl)
        (record { more = more; made = made; plain = side-plain more side })

  module _ (json : V → Option V) (run_id : String) (d : StepDefinition V) (at : ℕ) where
    abbrev called : ℕ → List (Record V) → Option V × List (Record V)
    called attempt j = d.fn attempt (j ++ step_started run_id d.name at attempt ∷ [])

    -- An attempt whose body returned.
    attempts-Adds-some :
        (left attempt : ℕ) (delays : List ℕ) (j : List (Record V)) (v : V)
        → IsQuiet d
        → (called attempt j).0 ≡ some v
        → Adds j (attempts json run_id d at (suc left) attempt delays j).1
    unfolding attempts
    attempts-Adds-some left attempt delays j v q got =
        let after = (called attempt j).1 in
        elim (Option-cases (json v)) [
          | inl refused ↦
              let same : (attempts json run_id d at (suc left) attempt delays j).1 ≡ after =
                ground (arith, got, refused) in
              subst (Adds j) (sym same) (called-Adds run_id d at attempt j q)
          | inr (w, writes) ↦
              let result = step_finished run_id d.name at w in
              let same : (attempts json run_id d at (suc left) attempt delays j).1
                  ≡ after ++ result ∷ [] =
                ground (arith, got, writes) in
              subst (Adds j) (sym same)
                (Adds-both (called-Adds run_id d at attempt j q) (Adds-one after result refl))
        ]

    attempts-Adds :
        (left attempt : ℕ) (delays : List ℕ) (j : List (Record V))
        → IsQuiet d
        → Adds j (attempts json run_id d at left attempt delays j).1
    unfolding attempts
    attempts-Adds zero attempt delays j q = Adds-none j
    attempts-Adds (suc zero) attempt delays j q = elim (Option-cases (called attempt j).0) [
      | inr (v, got) ↦ attempts-Adds-some zero attempt delays j v q got
      | inl lost ↦
          let same : (attempts json run_id d at 1 attempt delays j).1 ≡ (called attempt j).1 =
            ground (arith, lost) in
          subst (Adds j) (sym same) (called-Adds run_id d at attempt j q)
    ]
    attempts-Adds (suc (suc left)) attempt [] j q = elim (Option-cases (called attempt j).0) [
      | inr (v, got) ↦ attempts-Adds-some (suc left) attempt [] j v q got
      | inl lost ↦
          let same : (attempts json run_id d at (suc (suc left)) attempt [] j).1
              ≡ (called attempt j).1 =
            ground (arith, lost) in
          subst (Adds j) (sym same) (called-Adds run_id d at attempt j q)
    ]
    attempts-Adds (suc (suc left)) attempt (delay ∷ delays) j q =
        let after = (called attempt j).1 in
        let on = attempts-Adds (suc left) (attempt + 1) delays after q in
        elim (Option-cases (called attempt j).0) [
          | inr (v, got) ↦ attempts-Adds-some (suc left) attempt (delay ∷ delays) j v q got
          | inl lost ↦
              let same : (attempts json run_id d at (suc (suc left)) attempt (delay ∷ delays) j).1
                  ≡ (attempts json run_id d at (suc left) (attempt + 1) delays after).1 =
                ground (arith, lost) in
              subst (Adds j) (sym same) (Adds-both (called-Adds run_id d at attempt j q) on)
        ]

    pub run_step-Adds : (j : List (Record V)) → IsQuiet d → Adds j (run_step json run_id d at j).1
    unfolding run_step
    run_step-Adds j q =
        let tried = attempts-Adds d.retries.max_attempts 1 (backoff_delays_ms d.retries) j q in
        elim (Bool-cases (cancelled run_id j)) [
          | inl gone ↦
              let same : (run_step json run_id d at j).1 ≡ j = ground (arith, gone) in
              subst (Adds j) (sym same) (Adds-none j)
          | inr live ↦ elim (Option-cases (completed_step run_id d.name at j)) [
            | inr (v, recorded) ↦
                let same : (run_step json run_id d at j).1 ≡ j = ground (arith, live, recorded) in
                subst (Adds j) (sym same) (Adds-none j)
            | inl new ↦ rw (live, new) tried
          ]
        ]
