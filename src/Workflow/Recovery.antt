-- ===== src/Workflow/Recovery.antt =====
-- packages/adopt-workflow/src/adopt_workflow/inproc/client.py: `recover` over the runs of a journal.
use mathlib.Core.List.Memᴰ
use onboard_core.Base.{
  String, true, false, ◌≡◌, ◌⊎◌, refl, sym, ap, ◌∙◌, subst, Option, some, List, [], ◌∷◌, ◌++◌, map,
  Memᴰ, arith, ◌==◌, eq_iff, eq_refl, is_some, Bool-cases, Option-cases, inl, inr,
}
use onboard_core.Workflow.Api.{WorkflowStatus, is_terminal, WorkflowHandle}
use onboard_core.Workflow.Steps.{Record}
use onboard_core.Obs.{Answer, answered}
use onboard_core.Workflow.Bodies.{WorkflowDefinition, drive}
use onboard_core.Workflow.Client.{
  Run, end_run, runs, get_run, handle, handle_after, recorded_args, resolve, resume, recover_each,
  recover,
}
use onboard_core.Workflow.Arguments.{with_args-recorded}
use onboard_core.Workflow.Settling.{Settles, Ends, drive-Ends, Ends-runs}

module _ {V : Type 0} where
  get_run-end_run :
      (key run_id : String) (status : WorkflowStatus) (outcome : Option V) (l : List (Run V))
      → is_some (get_run key (map (end_run run_id status outcome) l)) ≡ is_some (get_run key l)
  get_run-end_run key run_id status outcome [] = refl
  get_run-end_run key run_id status outcome (r ∷ l) =
      ground (arith, get_run-end_run key run_id status outcome l)

  module _ (json : V → Option V) (registry : List (WorkflowDefinition V)) (empty : V) where
    -- The registry has the workflow of the run, and its body settles on whatever arguments.
    abbrev pub IsResumable : Run V → Type 0
    IsResumable r =
        (d : WorkflowDefinition V) × (resolve registry r.name r.version ≡ some d)
        × ((args : V) → Settles json (d.fn args))

    -- Every run that has not ended is still to be visited, and every run to be visited is there.
    abbrev Pending : List (Run V) → List (Run V) → Type 0
    Pending rest entries =
        (r : Run V)
        → Memᴰ r entries
        → (is_terminal r.status ≡ true)
          ⊎ ((q : Run V) × Memᴰ q rest × (q.run_id ≡ r.run_id) × (is_terminal q.status ≡ false))

    abbrev Known : List (Run V) → List (Run V) → Type 0
    Known rest entries = (q : Run V) → Memᴰ q rest → is_some (get_run q.run_id entries) ≡ true

    Pending-terminal :
        (q : Run V) (rest entries : List (Run V))
        → is_terminal q.status ≡ true
        → Pending (q ∷ rest) entries
        → Pending rest entries
    Pending-terminal q rest entries done p r m = elim (p r m) [
      | inl ended ↦ inl ended
      | inr (w, mw, same, live) ↦ elim (Memᴰ.cases_cons mw) [
        | inl e ↦ absurd (ground (arith, done, live, ap (λ x. is_terminal (Run.status x)) e))
        | inr later ↦ inr (w, later, same, live)
      ]
    ]

    ended-here :
        (q r : Run V) (rest entries : List (Run V)) (status : WorkflowStatus) (outcome : Option V)
        → is_terminal status ≡ true
        → Pending (q ∷ rest) entries
        → Memᴰ r entries
        → (is_terminal (end_run q.run_id status outcome r).status ≡ true)
          ⊎ ((x : Run V) × Memᴰ x rest
              × (x.run_id ≡ (end_run q.run_id status outcome r).run_id)
              × (is_terminal x.status ≡ false))
    ended-here q r rest entries status outcome done p m = elim (Bool-cases (r.run_id == q.run_id)) [
      | inl same ↦ inl (ground (arith, same, done))
      | inr other ↦ elim (p r m) [
        | inl ended ↦ inl (ground (arith, other, ended))
        | inr (w, mw, same, live) ↦ elim (Memᴰ.cases_cons mw) [
          | inl e ↦ absurd (
              ground (
                arith,
                other,
                same,
                ap Run.run_id e,
                (eq_iff r.run_id q.run_id).1,
                eq_refl r.run_id,
              ))
          | inr later ↦ inr (w, later, ground (arith, other, same), live)
        ]
      ]
    ]

    Pending-ended :
        (q : Run V) (rest entries : List (Run V)) (status : WorkflowStatus) (outcome : Option V)
        → is_terminal status ≡ true
        → Pending (q ∷ rest) entries
        → Pending rest (map (end_run q.run_id status outcome) entries)
    Pending-ended q rest entries status outcome done p r m =
        let (before, k, made) = Memᴰ.of_map (end_run q.run_id status outcome) entries m in
        rw (← made) (ended-here q before rest entries status outcome done p k)

    resume-terminal :
        (q : Run V) (j : List (Record V))
        → is_terminal q.status ≡ true
        → resume json registry empty q j ≡ (answered [], j)
    unfolding resume
    resume-terminal q j done = ground (arith, done)

    -- A run that can be resumed has ended after its turn.
    resume-Ends :
        (q : Run V) (j : List (Record V))
        → is_terminal q.status ≡ false
        → IsResumable q
        → is_some (json empty) ≡ true
        → is_some (get_run q.run_id (runs j)) ≡ true
        → (l : List (Record V)) × (h : WorkflowHandle) × Ends q.run_id j l
          × (resume json registry empty q j ≡ (answered (h ∷ []), l))
    unfolding resume handle_after
    resume-Ends q j live (d, found, settles) writable there =
        let args = recorded_args empty q.run_id j in
        let (begun, recorded) = with_args-recorded json empty q.run_id j writable in
        let (done, ends) = drive-Ends json q.run_id d args j begun recorded (settles args) in
        let driven = drive json q.run_id d args j in
        let l = driven.1 in
        let after = get_run-end_run q.run_id q.run_id ends.status ends.outcome (runs j) in
        let entries = Ends-runs q.run_id j l ends in
        elim (Option-cases (get_run q.run_id (runs l))) [
          | inl gone ↦
              absurd
                (ground (arith, gone, there, after, ap (λ t. is_some (get_run q.run_id t)) entries))
          | inr (run, got) ↦ (l, handle run, ends, ground (arith, live, found, done, got))
        ]

    recover_each-next :
        (q : Run V) (rest : List (Run V)) (j l : List (Record V))
        (first later : List WorkflowHandle)
        → resume json registry empty q j ≡ (answered first, l)
        → (recover_each json registry empty rest l).0 ≡ answered later
        → recover_each json registry empty (q ∷ rest) j
          ≡ (answered (first ++ later), (recover_each json registry empty rest l).1)
    unfolding recover_each
    recover_each-next q rest j l first later e f = ground (arith, e, f)

    -- The call answers, and every run has ended.
    abbrev pub Drains : Answer (List WorkflowHandle) × List (Record V) → Type 0
    Drains o =
        (handles : List WorkflowHandle) × (o.0 ≡ answered handles)
        × ((r : Run V) → Memᴰ r (runs o.1) → is_terminal r.status ≡ true)

    recover_each-Drains :
        (rest : List (Run V)) (j : List (Record V))
        → Pending rest (runs j)
        → Known rest (runs j)
        → is_some (json empty) ≡ true
        → ((q : Run V) → Memᴰ q rest → is_terminal q.status ≡ false → IsResumable q)
        → Drains (recover_each json registry empty rest j)
    unfolding recover_each
    recover_each-Drains [] j p k writable can = (
      [],
      refl,
      λ r m. elim (p r m) [ inl ended ↦ ended | inr (w, mw, same, live) ↦ elim mw [ ] ],
    )
    recover_each-Drains (q ∷ rest) j p k writable can =
        let can_rest = λ (w : Run V) (m : Memᴰ w rest). can w (Memᴰ.tail m) in
        elim (Bool-cases (is_terminal q.status)) [
          | inl done ↦
              let (hs, e, drained) =
                recover_each-Drains rest j (Pending-terminal q rest (runs j) done p)
                  (λ w m. k w (Memᴰ.tail m)) writable can_rest in
              subst Drains (sym (recover_each-next q rest j j [] hs (resume-terminal q j done) e))
                (hs, refl, drained)
          | inr live ↦
              let (l, h, ends, e) =
                resume-Ends q j live (can q (Memᴰ.head refl) live) writable
                  (k q (Memᴰ.head refl)) in
              let entries = Ends-runs q.run_id j l ends in
              let pending =
                Pending-ended q rest (runs j) ends.status ends.outcome ends.terminal p in
              let known : Known rest (map (end_run q.run_id ends.status ends.outcome) (runs j)) =
                λ w m.
                  get_run-end_run w.run_id q.run_id ends.status ends.outcome (runs j)
                  ∙ k w (Memᴰ.tail m) in
              let (hs, f, drained) =
                recover_each-Drains rest l (subst (Pending rest) (sym entries) pending)
                  (subst (Known rest) (sym entries) known) writable can_rest in
              subst Drains (sym (recover_each-next q rest j l (h ∷ []) hs e f))
                (h ∷ hs, refl, drained)
        ]

    Memᴰ-get_run :
        (q : Run V) (entries : List (Run V))
        → Memᴰ q entries
        → is_some (get_run q.run_id entries) ≡ true
    Memᴰ-get_run q [] m = elim m [ ]
    Memᴰ-get_run q (r ∷ l) (Memᴰ.head e) =
        ground (arith, ap Run.run_id e, eq_refl r.run_id, eq_refl q.run_id)
    Memᴰ-get_run q (r ∷ l) (Memᴰ.tail m) = ground (arith, Memᴰ-get_run q l m)

    -- If the workflow of every run that has not ended is registered, its body settles on whatever
    -- arguments, and JSON can write an empty dictionary, then recover answers, and every run of
    -- the journal that it leaves has ended. A body settles if, whatever its steps make, it returns
    -- a value that JSON can write, lets a cancellation through, or raises an error that is neither
    -- of usage nor of policy, and if its steps append effects and signals only and return values
    -- that JSON can write.
    pub recover-Drains :
        (journal : List (Record V))
        → is_some (json empty) ≡ true
        → ((r : Run V) → Memᴰ r (runs journal) → is_terminal r.status ≡ false → IsResumable r)
        → Drains (recover json registry empty journal)
    unfolding recover
    recover-Drains journal writable can =
        recover_each-Drains (runs journal) journal
          (λ r m. elim (Bool-cases (is_terminal r.status)) [
            | inl done ↦ inl done
            | inr live ↦ inr (r, m, refl, live)
          ])
          (λ q m. Memᴰ-get_run q (runs journal) m) writable can
