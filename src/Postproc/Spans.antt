-- ===== src/Postproc/Spans.antt =====
-- internal/postproc/postproc.go: the spans of a chain account for every word.
use mathlib.Core.Path.{subst}
use nano_asr.Prelude.{
  ◌⊎◌, ℕ, zero, suc, ◌+◌, ◌≤◌, ◌<◌, ◌≡◌, refl, false, List, [], ◌∷◌, Option, none, some, arith,
  length, Option-cases, inl, inr,
}
use nano_asr.Core.{Word, Code}
use nano_asr.Postproc.{
  Result, ok, err, Stage, sum, any_below_one, check_spans, take_sum, fold_spans, compose_spans,
  run_stages, apply_chain,
}

-- Every entry is at least one.
abbrev pub Positive : List ℕ → Type 0
Positive [] = Unit {0}
Positive (n ∷ ns) = (0 < n) × Positive ns

-- The vector says, for each of the words, how many of the inputs it stands for, and leaves none out.
abbrev pub Accounts : ℕ → List Word → Option (List ℕ) → Type 0
Accounts inputs out none = length out ≡ inputs
Accounts inputs out (some spans) =
    (length spans ≡ length out) × Positive spans × (sum spans ≡ inputs)

any_below_one-Positive : (ns : List ℕ) → any_below_one ns ≡ false → Positive ns
any_below_one-Positive [] h = tt
any_below_one-Positive (n ∷ ns) h = (ground arith, any_below_one-Positive ns (ground arith))

any_below_of_Positive : (ns : List ℕ) → Positive ns → any_below_one ns ≡ false
any_below_of_Positive [] h = refl
any_below_of_Positive (n ∷ ns) h = ground (arith, any_below_of_Positive ns h.1)

-- checkSpans lets a stage pass exactly if its vector accounts for its inputs.
pub check_spans-Accounts :
    (inputs : ℕ) (out : List Word) (spans : Option (List ℕ))
    → (check_spans inputs out spans ≡ none → Accounts inputs out spans)
      × (Accounts inputs out spans → check_spans inputs out spans ≡ none)
unfolding check_spans
check_spans-Accounts inputs out none = ((λ h. ground arith), λ a. ground arith)
check_spans-Accounts inputs out (some spans) = (
  (λ h. (ground arith, any_below_one-Positive spans (ground arith), ground arith)),
  λ a. ground (arith, any_below_of_Positive spans a.1),
)

take_sum-sum :
    (k : ℕ) (ns : List ℕ)
    → k ≤ length ns
    → (sum ns ≡ (take_sum k ns).0 + sum (take_sum k ns).1)
      × (length ns ≡ k + length (take_sum k ns).1)
unfolding take_sum sum
take_sum-sum zero ns le = (omega arith, omega arith)
take_sum-sum (suc k) [] le = absurd (omega arith)
take_sum-sum (suc k) (n ∷ ns) le =
    let ih = take_sum-sum k ns (omega arith) in (omega (arith, ih.0), omega (arith, ih.1))

take_sum-Positive :
    (k : ℕ) (ns : List ℕ)
    → k ≤ length ns
    → Positive ns
    → (0 < k → 0 < (take_sum k ns).0) × Positive (take_sum k ns).1
unfolding take_sum
take_sum-Positive zero ns le a = ((λ h. absurd (omega arith)), a)
take_sum-Positive (suc k) [] le a = absurd (omega arith)
take_sum-Positive (suc k) (n ∷ ns) le a =
    ((λ h. omega arith), (take_sum-Positive k ns (omega arith) a.1).1)

fold_spans-Accounts :
    (inner outer : List ℕ)
    → Positive outer
    → Positive inner
    → sum inner ≡ length outer
    → (length (fold_spans outer inner) ≡ length inner)
      × Positive (fold_spans outer inner)
      × (sum (fold_spans outer inner) ≡ sum outer)
unfolding fold_spans sum
fold_spans-Accounts [] [] a b e = (refl, tt, refl)
fold_spans-Accounts [] (x ∷ outer) a b e = absurd (omega arith)
fold_spans-Accounts (n ∷ inner) outer a b e =
    let le : n ≤ length outer = omega arith in
    let taken = take_sum-sum n outer le in
    let pos = take_sum-Positive n outer le a in
    let ih = fold_spans-Accounts inner (take_sum n outer).1 pos.1 b.1 (omega (arith, taken.1)) in
    (omega (arith, ih.0), (pos.0 b.0, ih.1), omega (arith, ih.2, taken.0))

compose_spans-Accounts :
    (n m : ℕ) (mid out : List Word) (outer inner : Option (List ℕ))
    → length mid ≡ m
    → Accounts n mid outer
    → Accounts m out inner
    → Accounts n out (compose_spans outer inner)
unfolding compose_spans
compose_spans-Accounts n m mid out none none e a b = omega arith
compose_spans-Accounts n m mid out (some outer) none e a b = (omega arith, a.1, a.2)
compose_spans-Accounts n m mid out none (some inner) e a b = (b.0, b.1, omega arith)
compose_spans-Accounts n m mid out (some outer) (some inner) e a b =
    let folded = fold_spans-Accounts inner outer a.1 b.1 (omega arith) in
    (omega (arith, folded.0), folded.1, omega (arith, folded.2))

-- What a chain that does not fail answers accounts for its inputs.
abbrev pub Finished : ℕ → Result → Type 0
Finished n (ok out spans) = Accounts n out spans
Finished n (err e) = Unit {0}

Result-cases :
    (r : Result)
    → ((e : Code) × (r ≡ err e))
      ⊎ ((out : List Word) × (spans : Option (List ℕ)) × (r ≡ ok out spans))
Result-cases (err e) = inl (e, refl)
Result-cases (ok out spans) = inr (out, spans, refl)

run_stages-Finished :
    (chain : List Stage) (n : ℕ) (words : List Word) (spans : Option (List ℕ))
    → Accounts n words spans
    → Finished n (run_stages chain words spans)
unfolding run_stages
run_stages-Finished [] n words spans a = a
run_stages-Finished (s ∷ chain) n words spans a = elim (Result-cases (s words)) [
  | inl (e, failed) ↦ rw (failed, run_stages) tt
  | inr (got, more, ran) ↦ elim (Option-cases (check_spans (length words) got more)) [
    | inr (e, refused) ↦ rw (ran, refused, run_stages) tt
    | inl passed ↦
        rw (ran, passed, run_stages)
          (run_stages-Finished chain n got (compose_spans spans more) (
            compose_spans-Accounts n (length words) words got spans more refl a
              ((check_spans-Accounts (length words) got more).0 passed)))
  ]
]

-- Whatever the stages of a chain answer, if the chain does not fail then its span vector leaves no
-- input word out and counts none twice: it has one entry for each word of the result, each of at
-- least one, and they add up to the number of the words that the chain was given; without a vector
-- the result has as many words as the input.
pub apply_chain-Accounts :
    (chain : List Stage) (words out : List Word) (spans : Option (List ℕ))
    → apply_chain chain words ≡ ok out spans
    → Accounts (length words) out spans
unfolding apply_chain
apply_chain-Accounts chain words out spans e =
    subst (Finished (length words)) e (run_stages-Finished chain (length words) words none refl)
