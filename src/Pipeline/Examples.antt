-- ===== src/Pipeline/Examples.antt =====
-- internal/pipeline: a request that asks for speakers, with a diarizer that finds one turn.
use Prim.Native.String.{String}
use nano_asr.Prelude.{
  ℕ, ◌+◌, ◌-◌, ◌*◌, ◌≡◌, Bool, true, false, List, [], ◌∷◌, none, some, ltb, ◌==◌,
}
use nano_asr.Core.{Word, Segment, Request, Source, ChannelMode}
use nano_asr.Core.Float.{Float}
use nano_asr.Diarize.{Attribution}
use nano_asr.Pipeline.{turns, Diarizer, runs_diarizer, diarize}
use nano_asr.Pipeline.Speaking.{IsKept, diarize-IsKept}

-- Whole thousandths in place of the arithmetic of the processor.
abbrev whole : Float
whole = record {
  less = ltb;
  same = λ a b. a == b;
  plus = λ a b. a + b;
  minus = λ a b. a - b;
  over = λ a b. a;
  of_int = λ n. n * 1000;
  milli = λ n. n;
}

abbrev any_order : String → String → Bool
any_order a b = false

abbrev one_speaker : List Word → List ℕ → List Attribution
one_speaker ws ts = record { speaker = "spk_0"; confidence = 900 } ∷ []

abbrev diarizer : Diarizer ℕ
diarizer = record { process = λ n. turns (1 ∷ []); takes_speaker_count = false; advice = "" }

abbrev request : Request
request = record {
  audio = none;
  model_id = "";
  language = "";
  channel_mode = ChannelMode.unset;
  decoding_method = "";
  max_active_paths = 0;
  diarize = true;
  num_speakers = 2;
  punctuate = false;
  itn = false;
  hotwords = [];
  hotword_dicts = [];
  hotwords_score = 0;
  strict = false;
  source = Source.api;
  api_key_id = "";
  webhook_url = "";
}

abbrev said : List Segment
said =
    record {
      id = 0;
      start = 0;
      end = 900;
      text = "да";
      channel = 0;
      speaker = none;
      avg_confidence = 0;
      words =
          record {
            word = "да";
            start = 100;
            end = 500;
            confidence = 900;
            original = "";
            speaker = none;
            speaker_confidence = 0;
            channel = 0;
          }
          ∷ [];
    }
    ∷ []

diarize-IsKept_example :
    let (called, result) =
      diarize whole any_order one_speaker
        (some diarizer)
        ChannelMode.downmix
        false
        request
        1
        said in
    IsKept (some diarizer) false request said result
    × (called ≡ runs_diarizer true ChannelMode.downmix request 1 said)
diarize-IsKept_example =
    diarize-IsKept whole any_order one_speaker (some diarizer) ChannelMode.downmix false request 1
      said
