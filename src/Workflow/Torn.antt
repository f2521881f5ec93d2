-- ===== src/Workflow/Torn.antt =====
-- packages/adopt-workflow/src/adopt_workflow/inproc/journal.py: the journal as a log.
use mathlib.Core.List.{append_assoc, append-nil}
use onboard_core.Base.{
  ℕ, false, ◌≡◌, refl, sym, ap, ◌∙◌, Option, none, some, List, [], ◌∷◌, ◌++◌, arith, newline,
  has_newline,
}
use onboard_core.Workflow.Journal.{complete_lines, decoded, records, append}

-- A file after whose last newline stands `torn`.
pub data EndsIn (torn : List ℕ) : List ℕ → Type 0 where
  bare : has_newline torn ≡ false → EndsIn torn torn
  after :
      (l : List ℕ) {file : List ℕ}
      → has_newline l ≡ false
      → EndsIn torn file
      → EndsIn torn (l ++ newline ∷ file)

complete_lines-line :
    (line text rest : List ℕ)
    → has_newline text ≡ false
    → complete_lines line (text ++ newline ∷ rest) ≡ (line ++ text) ∷ complete_lines [] rest
unfolding complete_lines
complete_lines-line line [] rest plain =
    ap (λ l. l ∷ complete_lines [] rest) (sym (append-nil line))
complete_lines-line line (c ∷ text) rest plain =
    let more = complete_lines-line (line ++ c ∷ []) text rest (ground (arith, plain)) in
    let whole = append_assoc line (c ∷ []) text in ground (arith, plain, more, whole)

complete_lines-none :
    (line text : List ℕ) → has_newline text ≡ false → complete_lines line text ≡ []
unfolding complete_lines
complete_lines-none line [] plain = refl
complete_lines-none line (c ∷ text) plain =
    ground (arith, plain, complete_lines-none (line ++ c ∷ []) text (ground (arith, plain)))

plain_append :
    (l m : List ℕ) → has_newline l ≡ false → has_newline m ≡ false → has_newline (l ++ m) ≡ false
plain_append [] m p q = q
plain_append (c ∷ l) m p q = ground (arith, p, plain_append l m (ground (arith, p)) q)

-- One more line: the torn text and the text that is appended make one.
complete_lines-append :
    (torn text file : List ℕ)
    → has_newline text ≡ false
    → EndsIn torn file
    → complete_lines [] (file ++ (text ++ newline ∷ []))
      ≡ complete_lines [] file ++ (torn ++ text) ∷ []
complete_lines-append torn text file plain (bare p) =
    ap (complete_lines []) (sym (append_assoc torn text (newline ∷ [])))
    ∙ complete_lines-line [] (torn ++ text) [] (plain_append torn text p plain)
    ∙ ap (λ ls. (torn ++ text) ∷ ls) (complete_lines-none [] [] refl)
    ∙ ap (λ ls. ls ++ (torn ++ text) ∷ []) (sym (complete_lines-none [] torn p))
complete_lines-append torn text file plain (after l {file = rest} p e) =
    ap (complete_lines []) (append_assoc l (newline ∷ rest) (text ++ newline ∷ []))
    ∙ complete_lines-line [] l (rest ++ (text ++ newline ∷ [])) p
    ∙ ap (λ ls. l ∷ ls) (complete_lines-append torn text rest plain e)
    ∙ ap (λ ls. ls ++ (torn ++ text) ∷ []) (sym (complete_lines-line [] l rest p))

module _ {R : Type 0} (encode : R → List ℕ) (decode : List ℕ → Option R) where
  decoded-append :
      (ls ms : List (List ℕ))
      → decoded encode decode (ls ++ ms) ≡ decoded encode decode ls ++ decoded encode decode ms
  unfolding decoded
  decoded-append [] ms = refl
  decoded-append (l ∷ ls) ms = ground (arith, decoded-append ls ms)

  -- What a journal needs of the JSON module: a record is one line, and reads back.
  pub record IsCodec : Type 0 where
    pub one_line : (r : R) → has_newline (encode r) ≡ false
    pub reads_back : (r : R) → decode (encode r) ≡ some r

  last : (r : R) → IsCodec → decoded encode decode (encode r ∷ []) ≡ r ∷ []
  unfolding decoded
  last r codec = ground (arith, codec.reads_back r)

  skipped :
      (r : R) (torn : List ℕ)
      → decode (torn ++ encode r) ≡ none
      → decoded encode decode ((torn ++ encode r) ∷ []) ≡ []
  unfolding decoded
  skipped r torn broken = ground (arith, broken)

  -- If an encoded record has no newline and reads back, then a record that is appended to a file
  -- of complete lines is read back after the records that were there.
  pub records-append :
      (r : R) (file : List ℕ)
      → IsCodec
      → EndsIn [] file
      → records encode decode (append encode decode r file) ≡ records encode decode file ++ r ∷ []
  unfolding records append
  records-append r file codec e =
      ap (decoded encode decode) (complete_lines-append [] (encode r) file (codec.one_line r) e)
      ∙ decoded-append (complete_lines [] file) (encode r ∷ [])
      ∙ ap (λ rs. decoded encode decode (complete_lines [] file) ++ rs) (last r codec)

  -- If an encoded record has no newline and reads back, then a record that is appended to a file
  -- whose last line a crash cut off is lost, if the cut line and the record together do not read
  -- as one: the records read are those that were there before.
  pub records-append_torn :
      (r : R) (torn file : List ℕ)
      → IsCodec
      → EndsIn torn file
      → decode (torn ++ encode r) ≡ none
      → records encode decode (append encode decode r file) ≡ records encode decode file
  unfolding records append
  records-append_torn r torn file codec e broken =
      ap (decoded encode decode) (complete_lines-append torn (encode r) file (codec.one_line r) e)
      ∙ decoded-append (complete_lines [] file) ((torn ++ encode r) ∷ [])
      ∙ ap (λ rs. decoded encode decode (complete_lines [] file) ++ rs) (skipped r torn broken)
      ∙ append-nil (decoded encode decode (complete_lines [] file))
