-- ===== src/Postproc/Examples.antt =====
-- internal/postproc: two segments whose words a stage joins.
use nano_asr.Prelude.{ℕ, ◌+◌, ◌-◌, ◌≡◌, refl, List, [], ◌∷◌, none, some, arith, ltb, ◌==◌}
use nano_asr.Core.{Word, Segment}
use nano_asr.Core.Float.{Float}
use nano_asr.Postproc.{Stage, ok, err, apply_chain}
use nano_asr.Postproc.Spans.{Accounts, apply_chain-Accounts}
use nano_asr.Postproc.Segments.{flat_words, apply}
use nano_asr.Postproc.Scattering.{NoneEmpty, Numbered, apply-flat_words}

-- An arithmetic of whole numbers in place of the processor's.
abbrev whole : Float
whole = record {
  less = ltb;
  same = λ a b. a == b;
  plus = λ a b. a + b;
  minus = λ a b. a - b;
  over = λ a b. a;
  of_int = λ n. n;
  milli = λ n. n;
}

abbrev word : ℕ → Word
word at = record {
  word = "да";
  start = at;
  end = at + 1;
  confidence = 900;
  original = "";
  speaker = none;
  speaker_confidence = 0;
  channel = 0;
}

-- The first stage joins two words, the second leaves them.
abbrev join_stage : Stage
join_stage ws = ok (word 0 ∷ word 2 ∷ []) (some (2 ∷ 1 ∷ []))

abbrev idle_stage : Stage
idle_stage ws = ok ws none

apply_chain-Accounts_example : Accounts 3 (word 0 ∷ word 2 ∷ []) (some (2 ∷ 1 ∷ []))
unfolding apply_chain nano_asr.Postproc.sum
apply_chain-Accounts_example =
    apply_chain-Accounts (join_stage ∷ idle_stage ∷ []) (word 0 ∷ word 1 ∷ word 2 ∷ [])
      (word 0 ∷ word 2 ∷ []) (some (2 ∷ 1 ∷ [])) refl

abbrev segment : ℕ → List Word → Segment
segment at ws = record {
  id = 7;
  start = at;
  end = at + 2;
  text = "";
  channel = 0;
  speaker = none;
  avg_confidence = 0;
  words = ws;
}

abbrev two_segments : List Segment
two_segments = segment 0 (word 0 ∷ word 1 ∷ []) ∷ segment 2 (word 2 ∷ []) ∷ []

apply-flat_words_example :
    (got : List Segment) × (apply whole (join_stage ∷ idle_stage ∷ []) two_segments
      ≡ some (got, none))
    × (flat_words got ≡ word 0 ∷ word 2 ∷ [])
    × NoneEmpty got
    × Numbered 0 got
unfolding flat_words apply_chain nano_asr.Postproc.sum
apply-flat_words_example =
    apply-flat_words whole (join_stage ∷ idle_stage ∷ []) two_segments (word 0 ∷ word 2 ∷ [])
      (some (2 ∷ 1 ∷ [])) (omega arith) (omega arith) refl
