-- ===== src/Workflow/Settling.antt =====
-- packages/adopt-workflow/src/adopt_workflow/inproc/client.py: what `_drive` appends for a body that
-- settles, and what `_runs` makes of it.
use onboard_core.Base.{
  is_some, ◌≢◌, Option-cases, subst, ℕ, String, Bool, true, false, ◌≡◌, refl, ap, ◌∙◌, Option, none,
  some, List, [], ◌∷◌, ◌++◌, map, all, any, arith, Bool-cases, inl, inr,
}
use onboard_core.Obs.{answered, ErrorCode, usage, policy, category}
use onboard_core.Workflow.Api.{WorkflowStatus, completed, failed, is_terminal}
use onboard_core.Workflow.Steps.{
  Record, run_args, run_finished, StepDefinition, StepOutcome, run_step, json_error,
}
use onboard_core.Workflow.Bodies.{
  Body, returns, raises, stops, calls, WorkflowDefinition, run_body, settle, adopt_error,
  next_ordinal, with_args, is_args, finish, drive,
}
use onboard_core.Workflow.Written.{IsWritten, run_step-written}
use onboard_core.Workflow.Client.{Run, end_run, fold_record, fold_records, runs}
use onboard_core.Workflow.Quiet.{IsQuiet}
use onboard_core.Workflow.Adds.{Adds, is_plain, Adds-none, Adds-one, Adds-both, run_step-Adds}

-- The error is the failure of the work, and not a statement about the request or the body.
unfoldable pub is_own_failure : ErrorCode → Bool
unfolding category
is_own_failure e = elim (category e) [ usage ↦ false | policy ↦ false | _ ↦ true ]

module _ {V : Type 0} where
  -- What a drive that settles appends: records that `_runs` reads over, and then one end.
  pub record Ends (run_id : String) (j l : List (Record V)) : Type 0 where
    pub before : List (Record V)
    pub adds : Adds j before
    pub status : WorkflowStatus
    pub outcome : Option V
    pub terminal : is_terminal status ≡ true
    pub finished : l ≡ finish run_id status outcome before

  module _ (json : V → Option V) where
    -- Whatever its steps make, the body returns what can be written, stops, or fails by its own
    -- work.
    pub data Settles : Body V → Type 0 where
      by_value : (v : V) → is_some (json v) ≡ true → Settles (returns v)
      by_stop : Settles stops
      by_failure : (e : ErrorCode) → is_own_failure e ≡ true → Settles (raises e)
      by_step :
          (d : StepDefinition V) (k : StepOutcome V → Body V)
          → IsQuiet d
          → IsWritten json d
          → ((o : StepOutcome V) → o ≢ json_error → Settles (k o))
          → Settles (calls d k)

    settle-own_failure :
        (run_id : String) (e : ErrorCode) (k : List (Record V))
        → is_own_failure e ≡ true
        → settle json run_id (adopt_error e, k) ≡ (answered tt, finish run_id failed none k)
    unfolding settle category is_own_failure
    settle-own_failure run_id e k own = ground (arith, own)

    settle-Ends :
        (run_id : String) (e : ErrorCode) (j k : List (Record V))
        → Adds j k
        → is_own_failure e ≡ true
        → ((settle json run_id (adopt_error e, k)).0 ≡ answered tt)
          × Ends run_id j (settle json run_id (adopt_error e, k)).1
    settle-Ends run_id e j k a own = rw (settle-own_failure run_id e k own) (
      refl,
      record {
        before = k;
        adds = a;
        status = failed;
        outcome = none;
        terminal = refl;
        finished = refl;
      },
    )

    run_body-Ends :
        (run_id : String) {b : Body V} (o : String → ℕ) (i j : List (Record V))
        → Settles b
        → Adds i j
        → ((settle json run_id (run_body json run_id b o j)).0 ≡ answered tt)
          × Ends run_id i (settle json run_id (run_body json run_id b o j)).1
    unfolding run_body settle
    run_body-Ends run_id o i j (by_value v written) a = elim (Option-cases (json v)) [
      | inl lost ↦ absurd (ground (arith, lost, written))
      | inr (w, writes) ↦ rw writes (
        refl,
        record {
          before = j;
          adds = a;
          status = completed;
          outcome = some w;
          terminal = refl;
          finished = refl;
        },
      )
    ]
    run_body-Ends run_id o i j by_stop a = (
      refl,
      record {
        before = j;
        adds = a;
        status = WorkflowStatus.cancelled;
        outcome = none;
        terminal = refl;
        finished = refl;
      },
    )
    run_body-Ends run_id o i j (by_failure e own) a = settle-Ends run_id e i j a own
    run_body-Ends run_id o i j (by_step d k q w on) a =
        let stepped = run_step json run_id d (o d.name) j in
        run_body-Ends run_id (next_ordinal d.name o) i stepped.1
          (on stepped.0 (run_step-written json run_id d (o d.name) w j))
          (Adds-both a (run_step-Adds json run_id d (o d.name) j q))

    with_args-Adds :
        (run_id : String) (args : V) (j begun : List (Record V))
        → with_args json run_id args j ≡ some begun
        → Adds j begun
    unfolding with_args
    with_args-Adds run_id args j begun e = elim (Bool-cases (any (is_args run_id) j)) [
      | inl there ↦
          let same : j ≡ begun = ground (arith, there, e) in subst (Adds j) same (Adds-none j)
      | inr new ↦ elim (Option-cases (json args)) [
        | inl lost ↦ absurd (ground (arith, new, lost, e))
        | inr (w, writes) ↦
            let same : (j ++ run_args run_id w ∷ []) ≡ begun = ground (arith, new, writes, e) in
            subst (Adds j) same (Adds-one j (run_args run_id w) refl)
      ]
    ]

    -- A body that settles ends its run, once its arguments are recorded.
    pub drive-Ends :
        (run_id : String) (d : WorkflowDefinition V) (args : V) (j begun : List (Record V))
        → with_args json run_id args j ≡ some begun
        → Settles (d.fn args)
        → ((drive json run_id d args j).0 ≡ answered tt)
          × Ends run_id j (drive json run_id d args j).1
    unfolding drive
    drive-Ends run_id d args j begun e s =
        rw (drive, e)
          (run_body-Ends run_id (λ name. 0) j begun s (with_args-Adds run_id args j begun e))

  pub fold_records-append :
      (l m : List (Record V)) (entries : List (Run V))
      → fold_records (l ++ m) entries ≡ fold_records m (fold_records l entries)
  unfolding fold_records
  fold_records-append [] m entries = refl
  fold_records-append (r ∷ l) m entries = fold_records-append l m (fold_record r entries)

  pub fold_records-plain :
      (m : List (Record V)) (entries : List (Run V))
      → all is_plain m ≡ true
      → fold_records m entries ≡ entries
  unfolding fold_records
  fold_records-plain [] entries e = refl
  fold_records-plain (r ∷ m) entries e = ground (arith, e, fold_records-plain m entries)

  -- The runs after a run has ended.
  pub Ends-runs :
      (run_id : String) (j l : List (Record V)) (e : Ends run_id j l)
      → runs l ≡ map (end_run run_id e.status e.outcome) (runs j)
  unfolding runs
  Ends-runs run_id j l e =
      let ending = run_finished run_id e.status e.outcome ∷ [] in
      ap runs e.finished
      ∙ fold_records-append e.before ending []
      ∙ ap (λ t. fold_records ending (fold_records t [])) e.adds.made
      ∙ ap (fold_records ending) (fold_records-append j e.adds.more [])
      ∙ ap (fold_records ending) (fold_records-plain e.adds.more (runs j) e.adds.plain)
