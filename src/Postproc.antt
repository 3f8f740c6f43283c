-- ===== src/Postproc.antt =====
-- internal/postproc/postproc.go: the chain of text stages and the vector that ties each word to the
-- words it was made from.
--
-- A span vector that is nil is `none`. A stage is what it answers for a word stream.
pub mod Segments
pub mod Spans
pub mod Filling
pub mod Scattering
mod Examples
use nano_asr.Prelude.{
  ℕ, zero, suc, ◌+◌, Bool, true, false, List, [], ◌∷◌, Option, none, some, ltb, ◌==◌, length,
  if◌then◌else◌,
}
use nano_asr.Core.{Word, Code}

-- What a stage or the chain answers: the words with their spans, or an error.
pub data Result : Type 0 where
  ok : List Word → Option (List ℕ) → Result
  err : Code → Result

abbrev pub Stage : Type 0
Stage = List Word → Result

unfoldable pub sum : List ℕ → ℕ
sum [] = 0
sum (n ∷ ns) = n + sum ns

abbrev pub any_below_one : List ℕ → Bool
any_below_one [] = false
any_below_one (n ∷ ns) = if ltb n 1 then true else any_below_one ns

-- checkSpans: whether the bookkeeping of a stage is refused. The source looks at the spans one by
-- one before it compares their sum; the error is the same.
unfoldable pub check_spans : ℕ → List Word → Option (List ℕ) → Option Code
check_spans inputs out none = if length out == inputs then none else some Code.internal
check_spans inputs out (some spans) =
    if length spans == length out
    then if any_below_one spans
      then some Code.internal
      else if sum spans == inputs
      then none
      else some Code.internal
    else some Code.internal

-- The sum of the next n entries, and what is left; an index past the end would panic.
unfoldable pub take_sum : ℕ → List ℕ → ℕ × List ℕ
take_sum zero ns = (0, ns)
take_sum (suc k) [] = (0, [])
take_sum (suc k) (n ∷ ns) = let (total, rest) = take_sum k ns in (n + total, rest)

unfoldable pub fold_spans : List ℕ → List ℕ → List ℕ
unfolding take_sum
fold_spans outer [] = []
fold_spans outer (n ∷ inner) = let (total, rest) = take_sum n outer in total ∷ fold_spans rest inner

-- composeSpans
unfoldable pub compose_spans : Option (List ℕ) → Option (List ℕ) → Option (List ℕ)
unfolding fold_spans
compose_spans outer none = outer
compose_spans none (some inner) = some inner
compose_spans (some outer) (some inner) = some (fold_spans outer inner)

-- Chain.Apply, with the words and the spans so far.
unfoldable pub run_stages : List Stage → List Word → Option (List ℕ) → Result
unfolding check_spans compose_spans
run_stages [] out spans = ok out spans
run_stages (s ∷ chain) out spans = elim (s out) [
  | err e ↦ err e
  | ok got more ↦ elim (check_spans (length out) got more) [
    | some e ↦ err e
    | none ↦ run_stages chain got (compose_spans spans more)
  ]
]

unfoldable pub apply_chain : List Stage → List Word → Result
unfolding run_stages
apply_chain chain words = run_stages chain words none
