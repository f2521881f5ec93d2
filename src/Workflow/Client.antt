-- ===== src/Workflow/Client.antt =====
-- packages/adopt-workflow/src/adopt_workflow/inproc/client.py and decorators.py: `resolve`, and the
-- calls of `InProcessWorkflowClient` over the records of the journal. JSON is the parameter `json` that
-- Steps has.
use onboard_core.Base.{
  ℕ, String, Option, none, some, List, [], ◌∷◌, ◌++◌, map, filter, find?, nat_eq, ◌==◌, ◌&&◌,
  if◌then◌else◌,
}
use onboard_core.Obs.{
  Answer, answered, refused, broke, Result, ok, err, workflow_step_exhausted,
  workflow_duplicate_start,
}
use onboard_core.Workflow.Api.{
  WorkflowStatus, running, is_terminal, same_status, WorkflowHandle, validate_idempotency_key,
}
use onboard_core.Workflow.Steps.{
  Record, run_started, run_args, run_finished, cancel_requested, signal,
}
use onboard_core.Workflow.Bodies.{WorkflowDefinition, finish, drive}

-- An entry of the dictionary that `_runs` folds the journal into.
pub record Run (V : Type 0) : Type 0 where
  pub run_id : String
  pub name : String
  pub version : ℕ
  pub idempotency_key : String
  pub status : WorkflowStatus
  pub outcome : Option V

abbrev one_handle : {J : Type 0} → Answer WorkflowHandle × J → Answer (List WorkflowHandle) × J
one_handle (answered h, j) = (answered (h ∷ []), j)
one_handle (refused e, j) = (refused e, j)
one_handle (broke, j) = (broke, j)

module _ {V : Type 0} where
  -- `runs[run_id] = {...}`: in the place of the entry that is there, or at the end.
  unfoldable pub set_run : Run V → List (Run V) → List (Run V)
  set_run run [] = run ∷ []
  set_run run (r ∷ rs) =
      let rest = set_run run rs in if r.run_id == run.run_id then run ∷ rs else r ∷ rest

  abbrev pub end_run : String → WorkflowStatus → Option V → Run V → Run V
  end_run run_id status outcome r =
      if r.run_id == run_id then record r { status = status; outcome = outcome } else r

  -- One record of the loop.
  unfoldable pub fold_record : Record V → List (Run V) → List (Run V)
  unfolding set_run
  fold_record (run_started run_id name version key) entries =
      set_run
        (record {
          run_id = run_id;
          name = name;
          version = version;
          idempotency_key = key;
          status = running;
          outcome = none;
        })
        entries
  fold_record (run_finished run_id status outcome) entries =
      map (end_run run_id status outcome) entries
  fold_record _ entries = entries

  unfoldable pub fold_records : List (Record V) → List (Run V) → List (Run V)
  unfolding fold_record
  fold_records [] entries = entries
  fold_records (r ∷ rs) entries = fold_records rs (fold_record r entries)

  -- `_runs`
  unfoldable pub runs : List (Record V) → List (Run V)
  unfolding fold_records
  runs journal = fold_records journal []

  -- `_runs().get(run_id)`
  abbrev pub get_run : String → List (Run V) → Option (Run V)
  get_run run_id = find? (λ r. r.run_id == run_id)

  -- `_handle`
  abbrev pub handle : Run V → WorkflowHandle
  handle r = record {
    run_id = r.run_id;
    name = r.name;
    version = r.version;
    idempotency_key = r.idempotency_key;
    status = r.status;
  }

  -- What `_drive` and then `_handle(_runs()[run_id])` make.
  unfoldable pub handle_after :
      String → Answer (Unit {0}) × List (Record V) → Answer WorkflowHandle × List (Record V)
  unfolding runs
  handle_after run_id (refused e, journal) = (refused e, journal)
  handle_after run_id (broke, journal) = (broke, journal)
  handle_after run_id (answered u, journal) = elim (get_run run_id (runs journal)) [
    | none ↦ (broke, journal)
    | some run ↦ (answered (handle run), journal)
  ]

  -- `status`
  unfoldable pub status_of : String → List (Record V) → Result WorkflowStatus
  unfolding runs
  status_of run_id journal = elim (get_run run_id (runs journal)) [
    | none ↦ err workflow_step_exhausted
    | some run ↦ ok run.status
  ]

  -- `result`
  unfoldable pub result_of : String → List (Record V) → Result (Option V)
  unfolding runs
  result_of run_id journal = elim (get_run run_id (runs journal)) [
    | none ↦ err workflow_step_exhausted
    | some run ↦ if is_terminal run.status then ok run.outcome else err workflow_step_exhausted
  ]

  unfoldable pub cancel : String → List (Record V) → Result (Unit {0}) × List (Record V)
  unfolding status_of
  cancel run_id journal =
      let asked = journal ++ cancel_requested run_id ∷ [] in
      elim (status_of run_id asked) [
        | err e ↦ (err e, asked)
        | ok found ↦
            if is_terminal found
            then (ok tt, asked)
            else (ok tt, finish run_id WorkflowStatus.cancelled none asked)
      ]

  -- `_recorded_args`: the first that were recorded, or the empty dictionary.
  unfoldable pub recorded_args : V → String → List (Record V) → V
  recorded_args empty run_id [] = empty
  recorded_args empty run_id (run_args r args ∷ rs) =
      let rest = recorded_args empty run_id rs in if r == run_id then args else rest
  recorded_args empty run_id (r ∷ rs) = recorded_args empty run_id rs

  -- `resolve("workflow", name, version)`
  abbrev pub resolve : List (WorkflowDefinition V) → String → ℕ → Option (WorkflowDefinition V)
  resolve registry name version = find? (λ d. d.name == name && nat_eq d.version version) registry

  -- `list`
  unfoldable pub list_runs : Option WorkflowStatus → List (Record V) → List WorkflowHandle
  unfolding runs
  list_runs none journal = map handle (runs journal)
  list_runs (some status) journal =
      map handle (filter (λ run. same_status run.status status) (runs journal))

  module _ (json : V → Option V) where
    -- `start` once the key and the definition are there: `fresh` is the id that `new_id` draws.
    unfoldable pub start_keyed :
        String
        → WorkflowDefinition V
        → V
        → String
        → List (Record V)
        → Answer WorkflowHandle × List (Record V)
    unfolding runs handle_after
    start_keyed fresh d args key journal =
        elim (find? (λ run. run.idempotency_key == key) (runs journal)) [
          | some run ↦
              if run.name == d.name && nat_eq run.version d.version
              then (answered (handle run), journal)
              else (refused workflow_duplicate_start, journal)
          | none ↦
              handle_after fresh
                (drive json fresh d args (journal ++ run_started fresh d.name d.version key ∷ []))
        ]

    -- `start`, where `none` stands for a function that is no `@workflow`.
    unfoldable pub start :
        String
        → Option (WorkflowDefinition V)
        → V
        → String
        → List (Record V)
        → Answer WorkflowHandle × List (Record V)
    unfolding validate_idempotency_key start_keyed
    start fresh definition args key journal = elim (validate_idempotency_key key) [
      | err e ↦ (refused e, journal)
      | ok valid ↦ elim definition [
        | none ↦ (refused workflow_duplicate_start, journal)
        | some d ↦ start_keyed fresh d args key journal
      ]
    ]

    -- `signal`: `broke` where the payload cannot be written.
    unfoldable pub send_signal :
        String → String → V → List (Record V) → Answer (Unit {0}) × List (Record V)
    send_signal run_id name payload journal = elim (json payload) [
      | none ↦ (broke, journal)
      | some written ↦ (answered tt, journal ++ signal run_id name written ∷ [])
    ]

    -- The body of the loop of `recover`: what it appends to `resumed`.
    unfoldable pub resume :
        List (WorkflowDefinition V)
        → V
        → Run V
        → List (Record V)
        → Answer (List WorkflowHandle) × List (Record V)
    unfolding handle_after recorded_args
    resume registry empty run journal =
        if is_terminal run.status
        then (answered [], journal)
        else (elim (resolve registry run.name run.version) [
          | none ↦ (refused workflow_step_exhausted, journal)
          | some d ↦ one_handle (
              handle_after run.run_id
                (drive json run.run_id d (recorded_args empty run.run_id journal) journal))
        ])

    -- The loop, over the runs that were there when it began.
    unfoldable pub recover_each :
        List (WorkflowDefinition V)
        → V
        → List (Run V)
        → List (Record V)
        → Answer (List WorkflowHandle) × List (Record V)
    recover_each registry empty [] journal = (answered [], journal)
    recover_each registry empty (run ∷ rest) journal =
        let (first, left) = resume registry empty run journal in
        let (others, last) = recover_each registry empty rest left in
        elim first [
          | refused e ↦ (refused e, left)
          | broke ↦ (broke, left)
          | answered here ↦ elim others [
            | refused e ↦ (refused e, last)
            | broke ↦ (broke, last)
            | answered later ↦ (answered (here ++ later), last)
          ]
        ]

    unfoldable pub recover :
        List (WorkflowDefinition V)
        → V
        → List (Record V)
        → Answer (List WorkflowHandle) × List (Record V)
    unfolding recover_each runs
    recover registry empty journal = recover_each registry empty (runs journal) journal
