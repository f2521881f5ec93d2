-- ===== src/Workflow/Values.antt =====
-- Values for the samples, and what JSON makes of them.
use onboard_core.Base.{ℕ, Option, none, some}

-- A tuple comes back as a list, and an object cannot be written.
pub data Value : Type 0 where
  number : ℕ → Value
  tuple list : ℕ → ℕ → Value
  object : Value

abbrev pub json : Value → Option Value
json (number n) = some (number n)
json (tuple a b) = some (list a b)
json (list a b) = some (list a b)
json object = none
