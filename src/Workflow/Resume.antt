-- ===== src/Workflow/Resume.antt =====
-- packages/adopt-workflow/src/adopt_workflow/inproc/client.py: `_drive` after a crash in the middle of
-- a body.
use onboard_core.Base.{
  Option, some, ℕ, ◌<◌, String, Bool, true, false, ◌≡◌, refl, sym, ap, ◌∙◌, List, [], ◌∷◌, ◌++◌,
  any, arith, ◌==◌, eq_iff, eq_refl, ◌&&◌, nat_eq, Bool-cases, inl, inr,
}
use onboard_core.Workflow.Steps.{
  Record, step_finished, completed_step, cancelled, StepDefinition, StepOutcome, returned, run_step,
}
use onboard_core.Workflow.Bodies.{
  Body, calls, next_ordinal, run_body, WorkflowDefinition, is_args, settle, drive, with_args,
}
use onboard_core.Workflow.Quiet.{IsQuiet, finishes, completed_step-append, run_step-keeps}
use onboard_core.Workflow.Replay.{run_step-returned, run_step-held}

module _ {V : Type 0} (json : V → Option V) where
  -- The body has come from one point to another, and every step that it called on the way returned
  -- a value that JSON reads back as it was.
  pub data Comes (run_id : String)
      : Body V
        → (String → ℕ)
        → List (Record V)
        → Body V
        → (String → ℕ)
        → List (Record V)
        → Type 0 where
    here : {b : Body V} {o : String → ℕ} {j : List (Record V)} → Comes run_id b o j b o j
    past :
        (d : StepDefinition V) {k : StepOutcome V → Body V} {o p : String → ℕ} (v : V)
        {j i l : List (Record V)} {c : Body V} (slept : List ℕ)
        → IsQuiet d
        → run_step json run_id d (o d.name) j ≡ (returned v, i, slept)
        → json v ≡ some v
        → Comes run_id (k (returned v)) (next_ordinal d.name o) i c p l
        → Comes run_id (calls d k) o j c p l

  returned-plain :
      (run_id : String) (d : StepDefinition V) (ordinal : ℕ) (journal j : List (Record V))
      (slept : List ℕ) (v : V)
      → run_step json run_id d ordinal journal ≡ (returned v, j, slept)
      → json v ≡ some v
      → completed_step run_id d.name ordinal j ≡ some v
  returned-plain run_id d ordinal journal j slept v e same =
      let (w, left, held) = run_step-returned json run_id d ordinal journal j slept v e in
      elim left [
        | inl (recorded, value) ↦ held ∙ ap some value
        | inr (new, writes) ↦ held ∙ sym writes ∙ same
      ]

  module _ (run_id : String) where
    apart :
        (d : StepDefinition V) (o : String → ℕ) (name : String) (ordinal : ℕ)
        → ordinal < o name
        → (d.name == name && nat_eq (o d.name) ordinal) ≡ false
    apart d o name ordinal h = elim (Bool-cases (d.name == name)) [
      | inl same ↦ ground (arith, same, h, ap o ((eq_iff d.name name).0 same))
      | inr other ↦ ground (arith, other)
    ]

    grows :
        (d : StepDefinition V) (o : String → ℕ) (name : String) (ordinal : ℕ)
        → ordinal < o name
        → ordinal < next_ordinal d.name o name
    grows d o name ordinal h = elim (Bool-cases (name == d.name)) [
      | inl same ↦ ground (arith, same, h, ap o ((eq_iff name d.name).0 same))
      | inr other ↦ ground (arith, other, h)
    ]

    counts : (d : StepDefinition V) (o : String → ℕ) → o d.name < next_ordinal d.name o d.name
    counts d o = ground (arith, eq_refl d.name)

    -- The result of a step that the context has counted stays.
    Comes-keeps :
        (name : String) (ordinal : ℕ) {b c : Body V} {o p : String → ℕ} {j l : List (Record V)}
        → Comes run_id b o j c p l
        → ordinal < o name
        → completed_step run_id name ordinal l ≡ completed_step run_id name ordinal j
    Comes-keeps name ordinal here h = refl
    Comes-keeps name ordinal {o = o} {j = j} (past d v slept q e same on) h =
        let counted = apart d o name ordinal h in
        let kept = run_step-keeps run_id name ordinal json d (o d.name) j q counted in
        Comes-keeps name ordinal on (grows d o name ordinal h)
        ∙ sym (ap (λ t. completed_step run_id name ordinal t.1) e)
        ∙ kept

    -- A record of the result of a step of the run.
    abbrev pub is_result : Record V → Bool
    is_result (step_finished r step ordinal v) = r == run_id
    is_result _ = false

    not-finishes :
        (name : String) (ordinal : ℕ) (m : List (Record V))
        → any is_result m ≡ false
        → any (finishes run_id name ordinal) m ≡ false
    not-finishes name ordinal [] e = refl
    not-finishes name ordinal (r ∷ m) e = ground (arith, e, not-finishes name ordinal m)

    pub Comes-resumes :
        {b c : Body V} {o p : String → ℕ} {j l : List (Record V)} (more : List (Record V))
        → Comes run_id b o j c p l
        → any is_result more ≡ false
        → cancelled run_id (l ++ more) ≡ false
        → run_body json run_id b o (l ++ more) ≡ run_body json run_id c p (l ++ more)
    unfolding run_body
    Comes-resumes more here plain live = refl
    Comes-resumes {o = o} {l = l} more (past d v slept q e same on) plain live =
        let name = d.name in
        let ordinal = o d.name in
        let held =
          completed_step-append run_id name ordinal l more (not-finishes name ordinal more plain)
          ∙ Comes-keeps name ordinal on (counts d o)
          ∙ returned-plain run_id d ordinal _ _ slept v e same in
        let replayed = run_step-held json run_id d ordinal (l ++ more) v live held in
        let further = Comes-resumes more on plain live in rw (replayed) further

    -- A run whose arguments stand in the journal, whose body came to a point over steps that
    -- returned values which JSON reads back as they were and whose bodies append effects and
    -- signals only, and that then crashed, goes on from that point when it is driven again with
    -- the same arguments, whatever was recorded since, if that is no result of a step of the run
    -- and no cancellation of the run stands in the journal.
    pub drive-resumes :
        (definition : WorkflowDefinition V) (args : V) (j l more : List (Record V)) (c : Body V)
        (p : String → ℕ)
        → Comes run_id (definition.fn args) (λ name. 0) j c p l
        → any (is_args run_id) (l ++ more) ≡ true
        → any is_result more ≡ false
        → cancelled run_id (l ++ more) ≡ false
        → drive json run_id definition args (l ++ more)
          ≡ settle json run_id (run_body json run_id c p (l ++ more))
    unfolding drive with_args
    drive-resumes definition args j l more c p came begun plain live =
        ground (arith, begun, ap (settle json run_id) (Comes-resumes more came plain live))
