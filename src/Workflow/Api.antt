-- ===== src/Workflow/Api.antt =====
-- packages/adopt-workflow/src/adopt_workflow/api.py: the statuses of a run, its handle, and the keys
-- that `start` takes.
use onboard_core.Base.{ℕ, String, Bool, true, false, codes, length, ltb, nat_eq, if◌then◌else◌}
use onboard_core.Obs.{Result, ok, err, workflow_duplicate_start}

pub data WorkflowStatus : Type 0 where
  pending running completed failed cancelled : WorkflowStatus

-- TERMINAL_STATUSES
abbrev pub is_terminal : WorkflowStatus → Bool
is_terminal pending = false
is_terminal running = false
is_terminal completed = true
is_terminal failed = true
is_terminal WorkflowStatus.cancelled = true

abbrev pub same_status : WorkflowStatus → WorkflowStatus → Bool
same_status pending pending = true
same_status running running = true
same_status completed completed = true
same_status failed failed = true
same_status WorkflowStatus.cancelled WorkflowStatus.cancelled = true
same_status _ _ = false

pub record WorkflowHandle : Type 0 where
  pub run_id : String
  pub name : String
  pub version : ℕ
  pub idempotency_key : String
  pub status : WorkflowStatus

-- adopt_const: IDEMPOTENCY_KEY_MAX_CHARS
abbrev pub idempotency_key_max_chars : ℕ
idempotency_key_max_chars = 128

unfoldable pub validate_idempotency_key : String → Result String
validate_idempotency_key key =
    if nat_eq (length (codes key)) 0
    then err workflow_duplicate_start
    else if ltb idempotency_key_max_chars (length (codes key))
    then err workflow_duplicate_start
    else ok key
