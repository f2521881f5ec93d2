-- ===== src/Workflow/SampleRuns.antt =====
-- A workflow of two steps, of which the first fails once, and a journal that a crash cut off.
use mathlib.Core.List.{append-nil}
use mathlib.Core.List.Memᴰ
use onboard_core.Base.{
  Bool-cases, inl, inr, ◌≢◌, arith, true, ap, is_some, ℕ, false, ◌≡◌, refl, sym, none, some, List,
  [], ◌∷◌, ◌++◌, Memᴰ, nat_eq, codes, subst, if◌then◌else◌,
}
use onboard_core.Obs.{answered, workflow_step_exhausted}
use onboard_core.Workflow.Retries.{RetryPolicy, flat, backoff_delays_ms}
use onboard_core.Workflow.Api.{WorkflowHandle, completed, is_terminal}
use onboard_core.Workflow.Steps.{
  Record, run_started, run_args, run_finished, step_started, step_finished, signal, StepDefinition,
  StepOutcome, returned, raised_cancelled, step_exhausted, index_error, json_error, run_step,
}
use onboard_core.Workflow.Bodies.{
  Body, returns, raises, stops, breaks, calls, WorkflowDefinition, run_body, settle, drive,
  next_ordinal,
}
use onboard_core.Workflow.Client.{Run, runs, start, recover}
use onboard_core.Workflow.Quiet.{IsQuiet}
use onboard_core.Workflow.Resume.{Comes, drive-resumes}
use onboard_core.Workflow.Settling.{Settles, is_own_failure, by_value, by_stop, by_failure, by_step}
use onboard_core.Workflow.Recovery.{IsResumable, Drains, recover-Drains}
use onboard_core.Workflow.Written.{IsWritten}
use onboard_core.Workflow.Values.{Value, number, json}
use onboard_core.Workflow.Starts.{start-replays}

abbrev policy : RetryPolicy
policy = record { max_attempts = 2; backoff = flat; base_ms = 0; max_ms = 0 }

abbrev charge : StepDefinition Value
charge = record {
  name = "charge";
  retries = policy;
  fn = λ attempt journal. (if nat_eq attempt 1 then none else some (number 7), journal);
}

abbrev notify : StepDefinition Value
notify = record {
  name = "notify";
  retries = policy;
  fn = λ attempt journal. (some (number 8), journal);
}

-- A body that lets an error of a step through.
abbrev or_error : (Value → Body Value) → StepOutcome Value → Body Value
or_error k (returned v) = k v
or_error k raised_cancelled = stops
or_error k step_exhausted = raises workflow_step_exhausted
or_error k index_error = raises workflow_step_exhausted
or_error k json_error = breaks

abbrev after_charge : StepOutcome Value → Body Value
after_charge = or_error (λ v. calls notify (or_error (λ w. returns (number 8))))

abbrev billing : WorkflowDefinition Value
billing = record { name = "billing"; version = 1; fn = λ args. calls charge after_charge }

charge-IsQuiet : IsQuiet charge
charge-IsQuiet attempt journal = ([], sym (append-nil journal), refl)

notify-IsQuiet : IsQuiet notify
notify-IsQuiet attempt journal = ([], sym (append-nil journal), refl)

number-written : (n : ℕ) (v : Value) → some (number n) ≡ some v → is_some (json v) ≡ true
number-written n v e = let same : number n ≡ v = cc in ap (λ x. is_some (json x)) (sym same)

charge-IsWritten : IsWritten json charge
charge-IsWritten attempt journal v e = elim (Bool-cases (nat_eq attempt 1)) [
  | inl first ↦ absurd (ground (arith, first, e))
  | inr later ↦ number-written 7 v (ground (arith, later, e))
]

notify-IsWritten : IsWritten json notify
notify-IsWritten attempt journal v e = number-written 8 v e

notified-Settles :
    (o : StepOutcome Value) → o ≢ json_error → Settles json (or_error (λ w. returns (number 8)) o)
unfolding is_own_failure
notified-Settles (returned v) h = by_value (number 8) refl
notified-Settles raised_cancelled h = by_stop
notified-Settles step_exhausted h = by_failure workflow_step_exhausted refl
notified-Settles index_error h = by_failure workflow_step_exhausted refl
notified-Settles json_error h = absurd (h refl)

charged-Settles : (o : StepOutcome Value) → o ≢ json_error → Settles json (after_charge o)
unfolding is_own_failure
charged-Settles (returned v) h =
    by_step notify (or_error (λ w. returns (number 8))) notify-IsQuiet notify-IsWritten
      notified-Settles
charged-Settles raised_cancelled h = by_stop
charged-Settles step_exhausted h = by_failure workflow_step_exhausted refl
charged-Settles index_error h = by_failure workflow_step_exhausted refl
charged-Settles json_error h = absurd (h refl)

billing-Settles : (args : Value) → Settles json (billing.fn args)
billing-Settles args = by_step charge after_charge charge-IsQuiet charge-IsWritten charged-Settles

-- What stands in the journal when the body begins, and when it has charged.
abbrev begun : List (Record Value)
begun = run_started "run_1" "billing" 1 "key" ∷ run_args "run_1" (number 0) ∷ []

abbrev charged : List (Record Value)
charged =
    run_started "run_1" "billing" 1 "key"
    ∷ run_args "run_1" (number 0)
    ∷ step_started "run_1" "charge" 0 1
    ∷ step_started "run_1" "charge" 0 2
    ∷ step_finished "run_1" "charge" 0 (number 7)
    ∷ []

charges : run_step json "run_1" charge 0 begun ≡ (returned (number 7), charged, 0 ∷ [])
unfolding run_step backoff_delays_ms
charges = refl

-- The process died in the first attempt to notify.
abbrev torn_off : List (Record Value)
torn_off = step_started "run_1" "notify" 0 1 ∷ signal "run_1" "hurry" (number 1) ∷ []

drive-resumes_example :
    drive json "run_1" billing (number 0) (charged ++ torn_off)
    ≡ settle json "run_1" (
        run_body json "run_1"
          (calls notify (or_error (λ w. returns (number 8))))
          (next_ordinal "charge" (λ name. 0))
          (charged ++ torn_off))
drive-resumes_example =
    drive-resumes json "run_1" billing (number 0) begun charged torn_off
      (calls notify (or_error (λ w. returns (number 8)))) (next_ordinal "charge" (λ name. 0))
      (Comes.past charge (number 7) (0 ∷ []) charge-IsQuiet charges refl Comes.here) refl refl refl

resumable :
    (r : Run Value)
    → Memᴰ r (runs charged)
    → is_terminal r.status ≡ false
    → IsResumable json (billing ∷ []) (number 0) r
unfolding runs
resumable r m live =
    subst (IsResumable json (billing ∷ []) (number 0)) (sym (Memᴰ.eq_of_singleton m))
      (billing, refl, billing-Settles)

recover-Drains_example :
    Drains json (billing ∷ []) (number 0) (recover json (billing ∷ []) (number 0) charged)
recover-Drains_example = recover-Drains json (billing ∷ []) (number 0) charged refl resumable

abbrev started : List (Record Value)
started =
    charged
    ++ (step_started "run_1" "notify" 0 1
        ∷ step_finished "run_1" "notify" 0 (number 8)
        ∷ run_finished "run_1" completed (some (number 8))
        ∷ [])

abbrev billed : WorkflowHandle
billed = record {
  run_id = "run_1";
  name = "billing";
  version = 1;
  idempotency_key = "key";
  status = completed;
}

starts : start json "run_1" (some billing) (number 0) "key" [] ≡ (answered billed, started)
unfolding start drive run_step backoff_delays_ms codes
starts = refl

start-replays_example :
    start json "run_2" (some billing) (number 5) "key" (started ++ torn_off)
    ≡ (answered billed, started ++ torn_off)
unfolding runs
start-replays_example =
    start-replays json "run_1" "run_2" "key" billing billing (number 0) (number 5) [] started
      torn_off billed (billing-Settles (number 0)) refl refl refl refl starts
