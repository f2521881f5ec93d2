-- ===== src/Workflow/Samples.antt =====
-- A policy, a journal with a torn line, and a step that fails once.
use onboard_core.Base.{
  ℕ, ◌*◌, ◌^◌, min, Bool, true, false, ◌≡◌, refl, Option, none, some, List, [], ◌∷◌, ◌++◌, arith,
  newline, has_newline, nat_eq, if◌then◌else◌,
}
use onboard_core.Workflow.Retries.{
  RetryPolicy, exponential, backoff_delays_ms, backoff_delays_ms-nth, nth, is_policy,
}
use onboard_core.Workflow.Journal.{records, append}
use onboard_core.Workflow.Torn.{bare, after, IsCodec, records-append, records-append_torn}
use onboard_core.Workflow.Steps.{
  Record, step_started, step_finished, completed_step, dedupe, StepDefinition, returned, run_step,
}
use onboard_core.Workflow.Replay.{dedupe-once, IsLeft, run_step-replay}
use onboard_core.Workflow.Values.{Value, tuple, list, json}
use onboard_core.Workflow.Schedule.{KeepsTo, run_step-KeepsTo}

abbrev policy : RetryPolicy
policy = record { max_attempts = 3; backoff = exponential; base_ms = 250; max_ms = 30000 }

backoff_delays_ms-nth_example :
    nth (backoff_delays_ms policy) 1 ≡ some (min (policy.base_ms * 2 ^ 1) policy.max_ms)
backoff_delays_ms-nth_example = backoff_delays_ms-nth policy 1 refl (ground arith)

-- A record is a flag, and its line one digit.
abbrev encode : Bool → List ℕ
encode true = 49 ∷ []
encode false = 48 ∷ []

abbrev decode : List ℕ → Option Bool
decode [] = none
decode (c ∷ []) = if nat_eq c 49 then some true else if nat_eq c 48 then some false else none
decode (c ∷ d ∷ l) = none

encode-one_line : (r : Bool) → has_newline (encode r) ≡ false
encode-one_line true = refl
encode-one_line false = refl

decode-encode : (r : Bool) → decode (encode r) ≡ some r
decode-encode true = refl
decode-encode false = refl

codec : IsCodec encode decode
codec = record { one_line = encode-one_line; reads_back = decode-encode }

-- One line that is complete, and one that a crash cut off.
abbrev whole : List ℕ
whole = 48 ∷ newline ∷ []

abbrev cut : List ℕ
cut = 48 ∷ newline ∷ 49 ∷ []

records-append_example :
    records encode decode (append encode decode true whole)
    ≡ records encode decode whole ++ true ∷ []
records-append_example =
    records-append encode decode true whole codec (after (48 ∷ []) refl (bare refl))

records-append_torn_example :
    records encode decode (append encode decode true cut) ≡ records encode decode cut
records-append_torn_example =
    records-append_torn encode decode true (49 ∷ []) cut codec (after (48 ∷ []) refl (bare refl))
      refl

-- The first attempt raises.
abbrev flaky : StepDefinition Value
flaky = record {
  name = "charge";
  retries = policy;
  fn = λ attempt journal. (if nat_eq attempt 1 then none else some (tuple 7 8), journal);
}

abbrev ran : List (Record Value)
ran =
    step_started "run_1" "charge" 0 1
    ∷ step_started "run_1" "charge" 0 2
    ∷ step_finished "run_1" "charge" 0 (list 7 8)
    ∷ []

runs : run_step json "run_1" flaky 0 [] ≡ (returned (tuple 7 8), ran, 250 ∷ [])
unfolding run_step backoff_delays_ms
runs = refl

run_step-replay_example :
    (w : Value) × IsLeft json (completed_step "run_1" "charge" 0 []) (tuple 7 8) w
    × (run_step json "run_1" flaky 0 ran ≡ (returned w, ran, []))
run_step-replay_example =
    run_step-replay json "run_1" flaky flaky 0 [] ran (250 ∷ []) (tuple 7 8) runs refl refl

run_step-KeepsTo_example : KeepsTo (backoff_delays_ms policy) (run_step json "run_1" flaky 0 [])
unfolding is_policy
run_step-KeepsTo_example = run_step-KeepsTo json "run_1" flaky 0 [] refl

dedupe-once_example :
    dedupe "run_2" "invoice" ((dedupe "run_1" "invoice" ran).1 ++ ran)
    ≡ (false, (dedupe "run_1" "invoice" ran).1 ++ ran)
dedupe-once_example = dedupe-once "run_1" "run_2" "invoice" ran ran
