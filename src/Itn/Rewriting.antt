-- ===== src/Itn/Rewriting.antt =====
-- internal/postproc/itn/engine.go: each word of the result stands for a run of the words that were
-- given.
use mathlib.Core.Path.{subst}
use Prim.Native.String.{String}
use text.Mathlib.Text.{◌==◌ as same_text}
use text.Mathlib.TextEquality.{eq_iff}
use nano_asr.Prelude.{
  ℕ, zero, suc, ◌-◌, ◌≤◌, ◌<◌, ◌||◌, ◌≡◌, refl, sym, ap, Bool, false, List, [], ◌∷◌, Option, none,
  some, arith, ltb, length, take, drop, length-drop, map, Bool-cases, Option-cases, inl, inr, ◌⊎◌,
}
use nano_asr.Core.{Word}
use nano_asr.Itn.Numbers.{Token, is_empty}
use nano_asr.Itn.Russian.Tables.{Match}
use nano_asr.Itn.Engine.{
  said, original_of, last_word, token, merged, accepted, rewrite_from, rewrite,
}
use nano_asr.Postproc.{sum, check_spans}
use nano_asr.Postproc.Spans.{Accounts, check_spans-Accounts}

-- A word stands for a run: it spans it, and if something was said it keeps what was said.
abbrev pub StandsFor : Word → List Word → Type 0
StandsFor v [] = ⊥
StandsFor v (w ∷ ws) =
    (v.start ≡ w.start)
    × (v.end ≡ (last_word w ws).end)
    × (is_empty (original_of (w ∷ ws)) ≡ false → said v ≡ original_of (w ∷ ws))

-- The words with their spans stand for consecutive runs, which are all of the input.
abbrev pub Covers : List Word → List Word → List ℕ → Type 0
Covers ins [] [] = ins ≡ []
Covers ins [] (n ∷ spans) = ⊥
Covers ins (v ∷ out) [] = ⊥
Covers ins (v ∷ out) (n ∷ spans) =
    (0 < n) × (n ≤ length ins) × StandsFor v (take n ins) × Covers (drop n ins) out spans

module _ (less : ℕ → ℕ → Bool) (to_lower : String → String) (rule : List Token → Option Match) where
  merged-said :
      (m : Match) (w : Word) (ws : List Word)
      → is_empty (original_of (w ∷ ws)) ≡ false
      → said (merged less to_lower rule m w ws) ≡ original_of (w ∷ ws)
  unfolding merged
  merged-said m w ws kept = elim (Bool-cases (same_text m.text (original_of (w ∷ ws)))) [
    | inl same ↦ rw (same, merged) ((eq_iff m.text (original_of (w ∷ ws))).0 same)
    | inr other ↦ rw (other, merged, kept) refl
  ]

  accepted-range :
      (ws : List Word) (m : Match)
      → accepted less to_lower rule ws ≡ some m
      → (0 < m.count) × (m.count ≤ length ws)
  unfolding accepted
  accepted-range ws m e = elim (Option-cases (rule (map (token less to_lower rule) ws))) [
    | inl nothing ↦ absurd (ground arith)
    | inr (x, found) ↦ elim (Bool-cases (ltb x.count 1 || ltb (length ws) x.count)) [
      | inl outside ↦ absurd (ground arith)
      | inr inside ↦ ground arith
    ]
  ]

  rewrite_from-Covers :
      (f : ℕ) (ws : List Word)
      → length ws ≤ f
      → Covers ws
          (rewrite_from less to_lower rule f ws).out
          (rewrite_from less to_lower rule f ws).spans
  unfolding rewrite_from
  rewrite_from-Covers zero [] le = refl
  rewrite_from-Covers zero (w ∷ ws) le = absurd (omega arith)
  rewrite_from-Covers (suc f) [] le = refl
  rewrite_from-Covers (suc f) (w ∷ ws) le =
      elim (Option-cases (accepted less to_lower rule (w ∷ ws))) [
        | inl nothing ↦
            rw (nothing, rewrite_from)
              (
                omega arith,
                omega arith,
                (refl, refl, λ kept. unfold original_of in refl),
                rewrite_from-Covers f ws (omega arith),
              )
        | inr (m, found) ↦
            let range = accepted-range (w ∷ ws) m found in
            rw (found, rewrite_from)
              (
                range.0,
                range.1,
                run m range.0,
                rewrite_from-Covers f (drop m.count (w ∷ ws))
                    (omega (arith, length-drop m.count (w ∷ ws))),
              )
      ]
    where
      made : Match → Word
      made m = merged less to_lower rule m w (take (m.count - 1) ws)

      run : (m : Match) → 0 < m.count → StandsFor (made m) (take m.count (w ∷ ws))
      run m pos =
          let e : suc (m.count - 1) ≡ m.count = omega arith in
          subst (λ k. StandsFor (made m) (take k (w ∷ ws))) e
            (refl, refl, merged-said m w (take (m.count - 1) ws))

  Covers-Accounts :
      (ins out : List Word) (spans : List ℕ)
      → Covers ins out spans
      → Accounts (length ins) out (some spans)
  unfolding sum
  Covers-Accounts ins [] [] c = (refl, tt, sym (ap length c))
  Covers-Accounts ins [] (n ∷ spans) c = elim c [ ]
  Covers-Accounts ins (v ∷ out) [] c = elim c [ ]
  Covers-Accounts ins (v ∷ out) (n ∷ spans) c =
      let rest = Covers-Accounts (drop n ins) out spans c.3 in
      (omega (arith, rest.0), (c.0, rest.1), omega (arith, rest.2, length-drop n ins, c.1))

  -- Whatever the rules answer: if Rewrite hands out spans, each word of its result stands for a run
  -- of one input word or more, the runs follow one another and are the whole input, a word starts
  -- and ends with its run and, if something was said in the run, keeps it; without spans the words
  -- are those that were given. So the check on a stage never refuses its result.
  pub rewrite-Covers :
      (ws : List Word)
      → let r = rewrite less to_lower rule ws in
        (((r.1 ≡ none) × (r.0 ≡ ws))
          ⊎ ((spans : List ℕ) × (r.1 ≡ some spans) × Covers ws r.0 spans))
        × (check_spans (length ws) r.0 r.1 ≡ none)
  unfolding rewrite
  rewrite-Covers ws = elim (Bool-cases (rewrite_from less to_lower rule (length ws) ws).rewrote) [
    | inr same ↦
        rw (same, rewrite) (inl (refl, refl), (check_spans-Accounts (length ws) ws none).1 refl)
    | inl changed ↦
        let r = rewrite_from less to_lower rule (length ws) ws in
        let c = rewrite_from-Covers (length ws) ws (omega arith) in
        rw (changed, rewrite)
          (
            inr (r.spans, refl, c),
            (check_spans-Accounts (length ws) r.out (some r.spans)).1
                (Covers-Accounts ws r.out r.spans c),
          )
  ]
