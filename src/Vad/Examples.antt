-- ===== src/Vad/Examples.antt =====
-- internal/vad/spans.go: two channels of a call, at 1000 samples a second.
use nano_asr.Prelude.{ℕ, ◌≡◌, ◌≤◌, ◌<◌, ◌*◌, ◌/◌, ◌+◌, false, List, [], ◌∷◌, arith}
use nano_asr.Vad.Merging.{speech_in, speech_at, Apart, merge_spans-speech_at}
use nano_asr.Vad.Quiet.{AllQuiet, Holds}
use nano_asr.Vad.Channels.{
  silences-spans, AllFit, silences_from-merge_spans, speech_samples-merge_spans,
}
use nano_asr.Vad.{Segment, silences, spans, Span, merge_spans, silences_from, speech_samples}

abbrev span : ℕ → ℕ → Span
span a b = record { start = a; end = b }

abbrev channels : List (List Span)
channels = (span 100 300 ∷ span 700 800 ∷ []) ∷ (span 250 400 ∷ []) ∷ []

abbrev identity : ℕ → ℕ
identity n = n

channels-AllFit : AllFit 1000 channels
channels-AllFit = ground arith

merge_spans-speech_at_example :
    ((x : ℕ) → speech_at x (merge_spans channels) ≡ speech_in x channels)
    × Apart (merge_spans channels)
merge_spans-speech_at_example = merge_spans-speech_at channels

silences_from-merge_spans_example :
    AllQuiet identity 1000
      (200 * 1000 / 1000)
      0
      (λ x. speech_in x channels)
      (silences_from identity (merge_spans channels) 1000 1000 200)
    × ((a b : ℕ)
        → a < b
        → a + 200 * 1000 / 1000 ≤ b
        → b ≤ 1000
        → ((x : ℕ) → a ≤ x → x < b → speech_in x channels ≡ false)
        → Holds identity 1000
            (200 * 1000 / 1000)
            a
            b
            (silences_from identity (merge_spans channels) 1000 1000 200))
silences_from-merge_spans_example =
    silences_from-merge_spans identity channels 1000 1000 200 (omega arith) channels-AllFit

speech_samples-merge_spans_example : speech_samples (merge_spans channels) ≤ 1000
speech_samples-merge_spans_example = speech_samples-merge_spans channels 1000 channels-AllFit

abbrev segments : List Segment
segments = record { start_sample = 2; samples = 11 ∷ 12 ∷ [] } ∷ []

silences-spans_example :
    silences identity segments 10 1000 3 ≡ silences_from identity (spans segments) 10 1000 3
silences-spans_example = silences-spans identity segments 10 1000 3
