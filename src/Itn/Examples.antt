-- ===== src/Itn/Examples.antt =====
-- internal/postproc/itn: concrete runs of with no pause between them.
use Prim.Native.String.{String}
use nano_asr.Prelude.{
  ℕ, ◌+◌, ◌*◌, ◌^◌, ◌≤◌, ◌<◌, ◌⊎◌, ◌≡◌, refl, Bool, true, List, [], ◌∷◌, none, some, length, ltb,
}
use nano_asr.Core.{Word}
use nano_asr.Postproc.{check_spans}
use nano_asr.Itn.Numbers.{Token, parse_number}
use nano_asr.Itn.Russian.Rules.{match_russian}
use nano_asr.Itn.Bounds.{parse_number-Small}
use nano_asr.Itn.Runs.{Taken, match_russian-Taken}
use nano_asr.Itn.Spelling.{
  Spoken, ten_word, ten_value, digit_word, digit_value, scale_word, millions, counted, small, one,
  two, feminine, t20, d1, d2,
}
use nano_asr.Itn.Spelling.Reading.{parse_number-words}
use nano_asr.Itn.Engine.{rewrite}
use nano_asr.Itn.Rewriting.{Covers, rewrite-Covers}

abbrev no_pause : ℕ → ℕ → Bool
no_pause a b = true

abbrev heard : String → Token
heard w = record { text = w; lower = w; start = 0; end = 0 }

-- One million two thousand and twenty-one, of a feminine noun.
abbrev amount : Spoken
amount =
    millions (counted (small (one d1))) (some (counted (small (one d2))))
      (some (small (two t20 d1)))

abbrev amount_tokens : List Token
amount_tokens =
    heard "один"
    ∷ heard "миллион"
    ∷ heard "две"
    ∷ heard "тысячи"
    ∷ heard "двадцать"
    ∷ heard "одна"
    ∷ []

parse_number-words_example :
    parse_number no_pause amount_tokens ≡ some (record { value = 1002021; count = 6 })
unfolding ten_word digit_word scale_word digit_value ten_value
parse_number-words_example =
    parse_number-words no_pause feminine amount amount_tokens
      (refl, refl, (refl, refl, (refl, refl, (refl, refl, (refl, refl, (refl, refl, tt))))))

abbrev percent_tokens : List Token
percent_tokens = heard "двадцать" ∷ heard "пять" ∷ heard "процентов" ∷ []

match_russian-Taken_example : Taken no_pause percent_tokens (match_russian no_pause percent_tokens)
match_russian-Taken_example = match_russian-Taken no_pause percent_tokens

parse_number-Small_example :
    (5 ≤ 900000000000 * (length (heard "пять" ∷ []) + 1))
    × (length (heard "пять" ∷ []) ≤ 10000000 → 5 < 2 ^ 63)
unfolding parse_number
parse_number-Small_example =
    parse_number-Small no_pause (heard "пять" ∷ []) (record { value = 5; count = 1 }) refl

abbrev word : String → ℕ → Word
word w at = record {
  word = w;
  start = at;
  end = at + 1;
  confidence = 900;
  original = "";
  speaker = none;
  speaker_confidence = 0;
  channel = 0;
}

abbrev spoken_words : List Word
spoken_words = word "скидка" 0 ∷ word "двадцать" 1 ∷ word "пять" 2 ∷ word "процентов" 3 ∷ []

abbrev as_is : String → String
as_is s = s

rewrite-Covers_example :
    let r = rewrite ltb as_is (match_russian no_pause) spoken_words in
    (((r.1 ≡ none) × (r.0 ≡ spoken_words))
      ⊎ ((spans : List ℕ) × (r.1 ≡ some spans) × Covers spoken_words r.0 spans))
    × (check_spans (length spoken_words) r.0 r.1 ≡ none)
rewrite-Covers_example = rewrite-Covers ltb as_is (match_russian no_pause) spoken_words
