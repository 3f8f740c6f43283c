-- ===== src/Diarize/Examples.antt =====
-- internal/diarize: a segment in which two people speak.
use Prim.Native.String.{String}
use nano_asr.Prelude.{ℕ, ◌+◌, ◌-◌, ◌*◌, ◌≡◌, Bool, false, List, [], ◌∷◌, none, some, ltb, ◌==◌}
use nano_asr.Core.{Word, Segment}
use nano_asr.Core.Float.{Float}
use nano_asr.Postproc.Segments.{flat_words}
use nano_asr.Postproc.Scattering.{Numbered}
use nano_asr.Diarize.{split}
use nano_asr.Diarize.Splitting.{AllHonest, split-words}

-- Whole thousandths in place of the arithmetic of the processor.
abbrev whole : Float
whole = record {
  less = ltb;
  same = λ a b. a == b;
  plus = λ a b. a + b;
  minus = λ a b. a - b;
  over = λ a b. a;
  of_int = λ n. n * 1000;
  milli = λ n. n;
}

abbrev any_order : String → String → Bool
any_order a b = false

abbrev word : String → ℕ → Word
word who at = record {
  word = "да";
  start = at;
  end = at + 400;
  confidence = 900;
  original = "";
  speaker = some who;
  speaker_confidence = 800;
  channel = 0;
}

abbrev talk : List Segment
talk =
    record {
      id = 0;
      start = 0;
      end = 3000;
      text = "";
      channel = 0;
      speaker = none;
      avg_confidence = 0;
      words = word "spk_0" 0 ∷ word "spk_0" 500 ∷ word "spk_1" 1000 ∷ word "spk_1" 1500 ∷ [];
    }
    ∷ []

split-words_example :
    (flat_words (split whole any_order talk) ≡ flat_words talk)
    × AllHonest (split whole any_order talk)
    × Numbered 0 (split whole any_order talk)
split-words_example = split-words whole any_order talk
