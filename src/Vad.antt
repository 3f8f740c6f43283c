-- ===== src/Vad.antt =====
-- internal/vad/spans.go and vad.go: where there is speech, and the silences between.
--
-- Positions are sample indices, which are not negative. MergeSpans writes its result over the array
-- that it reads, at places that it has read already, so the result is a new list here. A time in
-- seconds is what the quotient `to_sec` gives, a parameter, since it is a float64.
pub mod Merging
pub mod Quiet
pub mod Channels
mod Examples
use nano_asr.Prelude.{
  ℕ, ◌+◌, ◌-◌, ◌*◌, ◌/◌, ◌&&◌, ◌||◌, Bool, true, false, List, [], ◌∷◌, ◌++◌, ltb, leb, ◌==◌, length,
  if◌then◌else◌,
}
use nano_asr.Core.{Silence}

pub record Segment : Type 0 where
  pub start_sample : ℕ
  pub samples : List ℕ

abbrev pub end_sample : Segment → ℕ
end_sample s = s.start_sample + length s.samples

pub record Span : Type 0 where
  pub start : ℕ
  pub end : ℕ

-- Spans
unfoldable pub spans : List Segment → List Span
spans [] = []
spans (s ∷ segs) = record { start = s.start_sample; end = end_sample s } ∷ spans segs

-- The order of the sort in MergeSpans.
unfoldable pub before : Span → Span → Bool
before a b = if a.start == b.start then ltb a.end b.end else ltb a.start b.start

unfoldable pub place : Span → List Span → List Span
place s [] = s ∷ []
place s (t ∷ ts) = if before t s then t ∷ place s ts else s ∷ t ∷ ts

unfoldable pub sort : List Span → List Span
sort [] = []
sort (s ∷ ss) = place s (sort ss)

-- The loop of MergeSpans, with the last span of the result so far.
unfoldable pub merge_from : Span → List Span → List Span
merge_from last [] = last ∷ []
merge_from last (s ∷ ss) = elim (leb s.start last.end) [
  | true ↦ merge_from (if ltb last.end s.end then record last { end = s.end } else last) ss
  | false ↦ last ∷ merge_from s ss
]

unfoldable pub merge_sorted : List Span → List Span
merge_sorted [] = []
merge_sorted (s ∷ ss) = merge_from s ss

unfoldable pub concat : List (List Span) → List Span
concat [] = []
concat (s ∷ sets) = s ++ concat sets

-- MergeSpans
unfoldable pub merge_spans : List (List Span) → List Span
merge_spans sets =
    if ltb (length (concat sets)) 2 then concat sets else merge_sorted (sort (concat sets))

module _ (to_sec : ℕ → ℕ) where
  -- The loop of SilencesFrom, from `cursor` on; a gap is compared by a sum, since it may be negative.
  unfoldable pub silences_loop : ℕ → ℕ → ℕ → List Span → List Silence
  silences_loop total min cursor [] =
      if leb (cursor + min) total
      then record { start = to_sec cursor; end = to_sec total } ∷ []
      else []
  silences_loop total min cursor (s ∷ ss) =
      let rest : List Silence =
        silences_loop total min (if ltb cursor s.end then s.end else cursor) ss in
      if leb (cursor + min) s.start
      then record { start = to_sec cursor; end = to_sec s.start } ∷ rest
      else rest

  -- SilencesFrom
  unfoldable pub silences_from : List Span → ℕ → ℕ → ℕ → List Silence
  silences_from ss total rate min_ms =
      if leb rate 0 || leb total 0 then [] else silences_loop total (min_ms * rate / 1000) 0 ss

  -- The loop of Silences.
  unfoldable pub segment_silences : ℕ → ℕ → ℕ → List Segment → List Silence
  segment_silences total min cursor [] =
      if leb (cursor + min) total
      then record { start = to_sec cursor; end = to_sec total } ∷ []
      else []
  segment_silences total min cursor (s ∷ segs) =
      let end : ℕ = end_sample s in
      let rest : List Silence =
        segment_silences total min (if ltb cursor end then end else cursor) segs in
      if leb (cursor + min) s.start_sample
      then record { start = to_sec cursor; end = to_sec s.start_sample } ∷ rest
      else rest

  -- Silences
  unfoldable pub silences : List Segment → ℕ → ℕ → ℕ → List Silence
  silences segs total rate min_ms =
      if leb rate 0 || leb total 0 then [] else segment_silences total (min_ms * rate / 1000) 0 segs

-- The sum in SpeechRatioFrom, before its division by the total.
unfoldable pub speech_samples : List Span → ℕ
speech_samples [] = 0
speech_samples (s ∷ ss) = (s.end - s.start) + speech_samples ss
