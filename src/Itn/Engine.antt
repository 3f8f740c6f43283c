-- ===== src/Itn/Engine.antt =====
-- internal/postproc/itn/engine.go: a locale's rules over a word stream.
--
-- The rules are an argument; so are strings.ToLower and the comparison of float64.
use Prim.Native.String.{String, ◌++◌ as append}
use text.Mathlib.Text.{◌==◌ as same_text}
use nano_asr.Prelude.{
  ℕ, zero, suc, ◌-◌, ◌||◌, Bool, true, false, List, [], ◌∷◌, Option, none, some, ltb, length, take,
  drop, map, if◌then◌else◌,
}
use nano_asr.Core.{Word}
use nano_asr.Itn.Numbers.{Token, is_empty}
use nano_asr.Itn.Russian.Tables.{Match}

-- What was said of one word, and of a run; strings.Join(parts, " ").
abbrev pub said : Word → String
said w = if is_empty w.original then w.word else w.original

unfoldable pub original_of : List Word → String
original_of [] = ""
original_of (w ∷ []) = said w
original_of (w ∷ v ∷ ws) = append (said w) (append " " (original_of (v ∷ ws)))

abbrev pub last_word : Word → List Word → Word
last_word w [] = w
last_word w (v ∷ ws) = last_word v ws

module _ (less : ℕ → ℕ → Bool) (to_lower : String → String) (rule : List Token → Option Match) where
  abbrev pub token : Word → Token
  token w = record { text = w.word; lower = to_lower w.word; start = w.start; end = w.end }

  -- minConfidence of a run that is not empty.
  unfoldable pub min_from : ℕ → List Word → ℕ
  min_from least [] = least
  min_from least (w ∷ ws) = min_from (if less w.confidence least then w.confidence else least) ws

  -- The word that replaces a run.
  unfoldable pub merged : Match → Word → List Word → Word
  unfolding min_from original_of
  merged m first ws =
      let original : String = original_of (first ∷ ws) in
      record {
        word = m.text;
        start = first.start;
        end = (last_word first ws).end;
        confidence = min_from first.confidence ws;
        original = if same_text m.text original then "" else original;
        speaker = first.speaker;
        speaker_confidence = first.speaker_confidence;
        channel = first.channel;
      }

  -- What the loop of Rewrite collects: the words, their spans, and whether one was rewritten.
  pub record Rewritten : Type 0 where
    pub out : List Word
    pub spans : List ℕ
    pub rewrote : Bool

  abbrev pub add_word : Word → ℕ → Bool → Rewritten → Rewritten
  add_word w n changed r = record {
    out = w ∷ r.out;
    spans = n ∷ r.spans;
    rewrote = changed || r.rewrote;
  }

  -- The answer of the rules that the loop takes, or none.
  unfoldable pub accepted : List Word → Option Match
  accepted ws = elim (rule (map token ws)) [
    | none ↦ none
    | some m ↦ if ltb m.count 1 || ltb (length ws) m.count then none else some m
  ]

  -- The loop, on fuel: each turn takes a word at least.
  unfoldable pub rewrite_from : ℕ → List Word → Rewritten
  unfolding accepted merged original_of
  rewrite_from zero ws = record { out = []; spans = []; rewrote = false }
  rewrite_from (suc f) [] = record { out = []; spans = []; rewrote = false }
  rewrite_from (suc f) (w ∷ ws) = elim (accepted (w ∷ ws)) [
    | none ↦ add_word w 1 false (rewrite_from f ws)
    | some m ↦
        let made : Word = merged m w (take (m.count - 1) ws) in
        let original : String = original_of (w ∷ take (m.count - 1) ws) in
        add_word made m.count (if same_text m.text original then false else true)
          (rewrite_from f (drop m.count (w ∷ ws)))
  ]

  -- Rewrite; without a rewrite the input is handed back with no spans.
  unfoldable pub rewrite : List Word → List Word × Option (List ℕ)
  unfolding rewrite_from
  rewrite ws =
      let r : Rewritten = rewrite_from (length ws) ws in
      if r.rewrote then (r.out, some r.spans) else (ws, none)
