-- ===== src/Workflow/Journal.antt =====
-- packages/adopt-workflow/src/adopt_workflow/inproc/journal.py: the file and its complete records.
-- The JSON module is a parameter: `encode` gives the text of a line, `decode` reads a stripped one.
use onboard_core.Base.{newline, ℕ, Option, none, some, List, [], ◌∷◌, ◌++◌, nat_eq, if◌then◌else◌}

-- The lines that end in a newline. `line` is what was read of the current one.
unfoldable pub complete_lines : List ℕ → List ℕ → List (List ℕ)
complete_lines line [] = []
complete_lines line (c ∷ cs) =
    let here = complete_lines [] cs in
    let on = complete_lines (line ++ c ∷ []) cs in if nat_eq c newline then line ∷ here else on

module _ {R : Type 0} (encode : R → List ℕ) (decode : List ℕ → Option R) where
  unfoldable pub decoded : List (List ℕ) → List R
  decoded [] = []
  decoded (l ∷ ls) = elim (decode l) [ none ↦ decoded ls | some r ↦ r ∷ decoded ls ]

  unfoldable pub records : List ℕ → List R
  unfolding decoded complete_lines
  records file = decoded (complete_lines [] file)

  unfoldable pub append : R → List ℕ → List ℕ
  append r file = file ++ (encode r ++ newline ∷ [])
