-- ===== src/Workflow/Arguments.antt =====
-- packages/adopt-workflow/src/adopt_workflow/inproc/client.py: the arguments that a run is resumed with.
use onboard_core.Base.{
  String, true, false, ◌≡◌, refl, ap, ◌∙◌, Option, some, List, [], ◌∷◌, ◌++◌, any, arith, is_some,
  Bool-cases, Option-cases, inl, inr,
}
use onboard_core.Workflow.Steps.{Record, run_args}
use onboard_core.Workflow.Bodies.{is_args, with_args}
use onboard_core.Workflow.Client.{recorded_args}

module _ {V : Type 0} where
  recorded_args-none :
      (empty : V) (run_id : String) (j : List (Record V))
      → any (is_args run_id) j ≡ false
      → recorded_args empty run_id j ≡ empty
  unfolding recorded_args
  recorded_args-none empty run_id [] e = refl
  recorded_args-none empty run_id (r ∷ j) e = ground (arith, e, recorded_args-none empty run_id j)

  -- The arguments that a run is resumed with can be recorded.
  pub with_args-recorded :
      (json : V → Option V) (empty : V) (run_id : String) (j : List (Record V))
      → is_some (json empty) ≡ true
      → (begun : List (Record V)) × (with_args json run_id (recorded_args empty run_id j) j
          ≡ some begun)
  unfolding with_args
  with_args-recorded json empty run_id j e = elim (Bool-cases (any (is_args run_id) j)) [
    | inl there ↦ (j, ground (arith, there))
    | inr new ↦ elim (Option-cases (json empty)) [
      | inl lost ↦ absurd (ground (arith, lost, e))
      | inr (w, writes) ↦ (
        j ++ run_args run_id w ∷ [],
        ground (arith, new, ap json (recorded_args-none empty run_id j new) ∙ writes),
      )
    ]
  ]
