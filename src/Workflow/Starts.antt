-- ===== src/Workflow/Starts.antt =====
-- packages/adopt-workflow/src/adopt_workflow/inproc/client.py: `start` under one key, twice.
use onboard_core.Base.{
  ◌≢◌, String, Bool, true, ◌≡◌, refl, sym, ap, ◌∙◌, subst, Option, none, some, List, [], ◌∷◌, ◌++◌,
  map, all, arith, ◌==◌, ◌&&◌, eq_iff, eq_refl, find?, nat_eq, Bool-cases, Option-cases, inl, inr,
}
use onboard_core.Obs.{answered, Result-cases}
use onboard_core.Workflow.Api.{WorkflowStatus, running, WorkflowHandle, validate_idempotency_key}
use onboard_core.Workflow.Steps.{Record, run_started}
use onboard_core.Workflow.Bodies.{WorkflowDefinition, drive, with_args}
use onboard_core.Workflow.Client.{
  Run, set_run, end_run, runs, get_run, handle, handle_after, start_keyed, start,
}
use onboard_core.Workflow.Adds.{is_plain}
use onboard_core.Workflow.Settling.{
  Settles, drive-Ends, Ends-runs, fold_records-append, fold_records-plain,
}

module _ {V : Type 0} where
  runs-plain : (j more : List (Record V)) → all is_plain more ≡ true → runs (j ++ more) ≡ runs j
  unfolding runs
  runs-plain j more e = fold_records-append j more [] ∙ fold_records-plain more (runs j) e

  set_run-new :
      (run : Run V) (l : List (Run V)) → get_run run.run_id l ≡ none → set_run run l ≡ l ++ run ∷ []
  unfolding set_run
  set_run-new run [] e = refl
  set_run-new run (r ∷ l) e = ground (arith, e, set_run-new run l)

  -- A test that the end of a run does not change.
  module _ (p : Run V → Bool) (run_id : String) (status : WorkflowStatus) (outcome : Option V)
      (blind : (r : Run V) → p (end_run run_id status outcome r) ≡ p r) where
    find?-ended :
        (l : List (Run V)) (r : Run V)
        → find? p l ≡ none
        → p r ≡ true
        → find? p (map (end_run run_id status outcome) (l ++ r ∷ []))
          ≡ some (end_run run_id status outcome r)
    find?-ended [] r e t = ground (arith, t, blind r)
    find?-ended (x ∷ l) r e t = ground (arith, e, t, blind x, find?-ended l r)

  key-blind :
      (key run_id : String) (status : WorkflowStatus) (outcome : Option V) (r : Run V)
      → ((end_run run_id status outcome r).idempotency_key == key) ≡ (r.idempotency_key == key)
  key-blind key run_id status outcome r = ground arith

  id-blind :
      (key run_id : String) (status : WorkflowStatus) (outcome : Option V) (r : Run V)
      → ((end_run run_id status outcome r).run_id == key) ≡ (r.run_id == key)
  id-blind key run_id status outcome r = ground arith

  -- The first run under the key is of that workflow, and has that handle.
  abbrev Holds : String → WorkflowDefinition V → WorkflowHandle → List (Record V) → Type 0
  Holds key d h l =
      (r : Run V) × (find? (λ run. run.idempotency_key == key) (runs l) ≡ some r)
      × (handle r ≡ h)
      × (r.name ≡ d.name)
      × (r.version ≡ d.version)

  module _ (json : V → Option V) where
    module _ (fresh key : String) (d : WorkflowDefinition V) (args : V) (j : List (Record V)) where
      abbrev opened : List (Record V)
      opened = j ++ run_started fresh d.name d.version key ∷ []

      abbrev entry : Run V
      entry = record {
        run_id = fresh;
        name = d.name;
        version = d.version;
        idempotency_key = key;
        status = running;
        outcome = none;
      }

      start_keyed-found :
          (r : Run V)
          → find? (λ run. run.idempotency_key == key) (runs j) ≡ some r
          → (r.name == d.name && nat_eq r.version d.version) ≡ true
          → start_keyed json fresh d args key j ≡ (answered (handle r), j)
      unfolding start_keyed
      start_keyed-found r found same = ground (arith, found, same)

      runs-opened : get_run fresh (runs j) ≡ none → runs opened ≡ runs j ++ entry ∷ []
      unfolding runs
      runs-opened new =
          fold_records-append j (run_started fresh d.name d.version key ∷ []) []
          ∙ set_run-new entry (runs j) new

      -- A key that was not there: the run that `start` makes is the first under it.
      start_keyed-new :
          (begun : List (Record V))
          → with_args json fresh args opened ≡ some begun
          → Settles json (d.fn args)
          → get_run fresh (runs j) ≡ none
          → find? (λ run. run.idempotency_key == key) (runs j) ≡ none
          → (r : Run V) × (start_keyed json fresh d args key j
              ≡ (answered (handle r), (drive json fresh d args opened).1))
            × (find? (λ run. run.idempotency_key == key) (runs (drive json fresh d args opened).1)
                ≡ some r)
            × (r.name ≡ d.name)
            × (r.version ≡ d.version)
      unfolding start_keyed handle_after
      start_keyed-new begun recorded s new unkeyed =
          let (done, ends) = drive-Ends json fresh d args opened begun recorded s in
          let ended = end_run fresh ends.status ends.outcome entry in
          let entries =
            Ends-runs fresh opened (drive json fresh d args opened).1 ends
            ∙ ap (map (end_run fresh ends.status ends.outcome)) (runs-opened new) in
          let found =
            ap (find? (λ (run : Run V). run.idempotency_key == key)) entries
            ∙ find?-ended (λ (run : Run V). run.idempotency_key == key) fresh ends.status
                ends.outcome (key-blind key fresh ends.status ends.outcome) (runs j) entry unkeyed
                (eq_refl key) in
          let got =
            ap (get_run fresh) entries
            ∙ find?-ended (λ (run : Run V). run.run_id == fresh) fresh ends.status ends.outcome
                (id-blind fresh fresh ends.status ends.outcome) (runs j) entry new
                (eq_refl fresh) in
          (
            ended,
            ground (arith, unkeyed, done, got),
            found,
            ground (arith, eq_refl fresh),
            ground (arith, eq_refl fresh),
          )

    -- Arguments that cannot be recorded give no handle.
    start_keyed-lost :
        (fresh key : String) (d : WorkflowDefinition V) (args : V) (j : List (Record V))
        → with_args json fresh args (opened fresh key d args j) ≡ none
        → find? (λ run. run.idempotency_key == key) (runs j) ≡ none
        → (h : WorkflowHandle) (l : List (Record V))
        → start_keyed json fresh d args key j ≢ (answered h, l)
    unfolding start_keyed drive handle_after
    start_keyed-lost fresh key d args j lost unkeyed h l e = ground (arith, lost, unkeyed, e)

    start_keyed-Holds :
        (fresh key : String) (d : WorkflowDefinition V) (args : V) (j l : List (Record V))
        (h : WorkflowHandle)
        → Settles json (d.fn args)
        → get_run fresh (runs j) ≡ none
        → start_keyed json fresh d args key j ≡ (answered h, l)
        → Holds key d h l
    unfolding start_keyed
    start_keyed-Holds fresh key d args j l h s new e =
        elim (Option-cases (find? (λ run. run.idempotency_key == key) (runs j))) [
          | inr (r, found) ↦ elim (Bool-cases (r.name == d.name && nat_eq r.version d.version)) [
            | inl same ↦ (
              r,
              ap (λ t. find? (λ (run : Run V). run.idempotency_key == key) (runs t))
                    (sym
                      (ap (λ t. t.1) (sym (start_keyed-found fresh key d args j r found same) ∙ e)))
                  ∙ found,
              ground (arith, sym (start_keyed-found fresh key d args j r found same) ∙ e),
              ground (arith, same, (eq_iff r.name d.name).0),
              ground (arith, same),
            )
            | inr other ↦ absurd (ground (arith, found, other, e))
          ]
          | inl unkeyed ↦
              elim (Option-cases (with_args json fresh args (opened fresh key d args j))) [
                | inl lost ↦ absurd (start_keyed-lost fresh key d args j lost unkeyed h l e)
                | inr (begun, recorded) ↦
                    let (ended, made, found, name, version) =
                      start_keyed-new fresh key d args j begun recorded s new unkeyed in
                    let whole = sym made ∙ e in
                    (
                      ended,
                      subst
                          (λ t.
                            find? (λ (run : Run V). run.idempotency_key == key) (runs t)
                            ≡ some ended)
                          (ap (λ t. t.1) whole) found,
                      ground (arith, whole),
                      name,
                      version,
                    )
              ]
        ]

    start_keyed-again :
        (other key : String) (d again : WorkflowDefinition V) (args : V) (l : List (Record V))
        (h : WorkflowHandle)
        → Holds key d h l
        → again.name ≡ d.name
        → again.version ≡ d.version
        → start_keyed json other again args key l ≡ (answered h, l)
    unfolding start_keyed
    start_keyed-again other key d again args l h (r, found, same, name, version) n v =
        ground (arith, found, same, eq_iff r.name again.name, name ∙ sym n, version ∙ sym v)

    -- If `start` drew a new run id and answered with a handle, for a body that settles, then
    -- `start` again with the same key, on the journal that it left and whatever was recorded since
    -- that begins or ends no run, for a workflow of the same name and version and with whatever
    -- arguments, answers with the same handle and records nothing.
    pub start-replays :
        (fresh other key : String) (d again : WorkflowDefinition V) (args changed : V)
        (j l more : List (Record V)) (h : WorkflowHandle)
        → Settles json (d.fn args)
        → get_run fresh (runs j) ≡ none
        → again.name ≡ d.name
        → again.version ≡ d.version
        → all is_plain more ≡ true
        → start json fresh (some d) args key j ≡ (answered h, l)
        → start json other (some again) changed key (l ++ more) ≡ (answered h, l ++ more)
    unfolding start
    start-replays fresh other key d again args changed j l more h s new n v plain e =
        elim (Result-cases (validate_idempotency_key key)) [
          | inr (code, bad) ↦ absurd (ground (arith, bad, e))
          | inl (k, valid) ↦
              let holds =
                start_keyed-Holds fresh key d args j l h s new (ground (arith, valid, e)) in
              let still : Holds key d h (l ++ more) = (
                holds.0,
                ap (find? (λ (run : Run V). run.idempotency_key == key)) (runs-plain l more plain)
                    ∙ holds.1,
                holds.2,
                holds.3,
                holds.4,
              ) in
              ground
                (arith, valid, start_keyed-again other key d again changed (l ++ more) h still n v)
        ]
