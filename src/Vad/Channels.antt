-- ===== src/Vad/Channels.antt =====
-- internal/vad/spans.go: the silences and the speech of several channels together.
use nano_asr.Prelude.{
  ℕ, ◌+◌, ◌*◌, ◌/◌, ◌≤◌, ◌<◌, ◌≡◌, refl, sym, ◌∙◌, false, List, [], ◌∷◌, ◌++◌, ltb, leb, arith,
  Bool-cases, inl, inr, if◌then◌else◌, length, ◌||◌,
}
use nano_asr.Vad.Merging.{speech_at, speech_in, merge_spans-speech_at, joined}
use nano_asr.Vad.Quiet.{Chain, AllQuiet, AllQuiet-mono, Holds, loop-AllQuiet, loop-Holds}
use nano_asr.Vad.{
  Segment, end_sample, spans, segment_silences, silences, Span, before, place, sort, concat,
  merge_from, merge_sorted, merge_spans, silences_loop, silences_from, speech_samples,
}

-- Spans of at least one sample, within the recording.
abbrev pub Fit : ℕ → List Span → Type 0
Fit total [] = Unit {0}
Fit total (s ∷ ss) = (s.start < s.end) × (s.end ≤ total) × Fit total ss

abbrev pub AllFit : ℕ → List (List Span) → Type 0
AllFit total [] = Unit {0}
AllFit total (s ∷ sets) = Fit total s × AllFit total sets

Fit-append : (total : ℕ) (ss ts : List Span) → Fit total ss → Fit total ts → Fit total (ss ++ ts)
Fit-append total [] ts a b = b
Fit-append total (s ∷ ss) ts a b = (a.0, a.1, Fit-append total ss ts a.2 b)

concat-Fit : (total : ℕ) (sets : List (List Span)) → AllFit total sets → Fit total (concat sets)
unfolding concat
concat-Fit total [] a = tt
concat-Fit total (s ∷ sets) a = Fit-append total s (concat sets) a.0 (concat-Fit total sets a.1)

place-Fit :
    (total : ℕ) (s : Span) (ss : List Span)
    → s.start < s.end
    → s.end ≤ total
    → Fit total ss
    → Fit total (place s ss)
unfolding place
place-Fit total s [] full inside a = (full, inside, tt)
place-Fit total s (t ∷ ts) full inside a = elim (Bool-cases (before t s)) [
  | inl first ↦ rw (first, place) (a.0, a.1, place-Fit total s ts full inside a.2)
  | inr last ↦ rw (last, place) (full, inside, a)
]

sort-Fit : (total : ℕ) (ss : List Span) → Fit total ss → Fit total (sort ss)
unfolding sort
sort-Fit total [] a = tt
sort-Fit total (s ∷ ss) a = place-Fit total s (sort ss) a.0 a.1 (sort-Fit total ss a.2)

merge_from-Chain :
    (total n : ℕ) (last : Span) (ss : List Span)
    → n ≤ last.start
    → last.start < last.end
    → last.end ≤ total
    → Fit total ss
    → Chain total n (merge_from last ss)
unfolding merge_from
merge_from-Chain total n last [] le full inside a = (le, full, inside, tt)
merge_from-Chain total n last (s ∷ ss) le full inside a = elim (Bool-cases (leb s.start last.end)) [
  | inl touch ↦
      rw (touch, merge_from)
        (merge_from-Chain total n (joined last s) ss (ground arith) (ground arith) (ground arith)
          a.2)
  | inr apart ↦
      rw (apart, merge_from)
        (le, full, inside, merge_from-Chain total last.end s ss (ground arith) a.0 a.1 a.2)
]

merge_spans-Chain :
    (total : ℕ) (sets : List (List Span)) → AllFit total sets → Chain total 0 (merge_spans sets)
unfolding merge_spans merge_sorted
merge_spans-Chain total sets a = elim (Bool-cases (ltb (length (concat sets)) 2)) [
  | inl few ↦
      rw (few, merge_spans) (few-Chain (concat sets) (ground arith) (concat-Fit total sets a))
  | inr many ↦
      rw (many, merge_spans)
        (merge_sorted-Chain (sort (concat sets))
          (sort-Fit total (concat sets) (concat-Fit total sets a)))
]
  where
    few-Chain : (ss : List Span) → length ss < 2 → Fit total ss → Chain total 0 ss
    few-Chain [] less f = tt
    few-Chain (s ∷ []) less f = (omega arith, f.0, f.1, tt)
    few-Chain (s ∷ t ∷ ss) less f = absurd (omega arith)

    merge_sorted-Chain : (ss : List Span) → Fit total ss → Chain total 0 (merge_sorted ss)
    merge_sorted-Chain [] f = tt
    merge_sorted-Chain (s ∷ ss) f = merge_from-Chain total 0 s ss (omega arith) f.0 f.1 f.2

-- The silences of several channels, whose spans hold at least one sample each and lie within the
-- recording, are right: each is at least the wanted length, lies within the recording and no channel
-- speaks in it; and every stretch of at least that length in which no channel speaks is inside one
-- of them, where the sample rate is not 0.
pub silences_from-merge_spans :
    (to_sec : ℕ → ℕ) (sets : List (List Span)) (total rate min_ms : ℕ)
    → 0 < rate
    → AllFit total sets
    → AllQuiet to_sec total
        (min_ms * rate / 1000)
        0
        (λ x. speech_in x sets)
        (silences_from to_sec (merge_spans sets) total rate min_ms)
      × ((a b : ℕ)
          → a < b
          → a + min_ms * rate / 1000 ≤ b
          → b ≤ total
          → ((x : ℕ) → a ≤ x → x < b → speech_in x sets ≡ false)
          → Holds to_sec total
              (min_ms * rate / 1000)
              a
              b
              (silences_from to_sec (merge_spans sets) total rate min_ms))
unfolding silences_from
silences_from-merge_spans to_sec sets total rate min_ms pos fit =
    let min = min_ms * rate / 1000 in
    let ss = merge_spans sets in
    let chain = merge_spans-Chain total sets fit in
    let same = (merge_spans-speech_at sets).0 in
    elim (Bool-cases (leb rate 0 || leb total 0)) [
      | inl nothing ↦
          rw (nothing, silences_from) (tt, λ a b less long inside quiet. absurd (ground arith))
      | inr on ↦
          rw (on, silences_from)
            (
              AllQuiet-mono to_sec total min 0 0 (λ x. speech_in x sets) (λ x. speech_at x ss)
                  (silences_loop to_sec total min 0 ss) (omega arith)
                  (λ x u quiet. sym (same x) ∙ quiet) (loop-AllQuiet to_sec total min 0 ss chain),
              λ a b less long inside quiet.
                  loop-Holds to_sec total min 0 a b ss chain (omega arith) less long inside
                    (λ x u w. same x ∙ quiet x u w),
            )
    ]

speech-Chain :
    (total n : ℕ) (ss : List Span) → n ≤ total → Chain total n ss → n + speech_samples ss ≤ total
unfolding speech_samples
speech-Chain total n [] le c = omega arith
speech-Chain total n (s ∷ ss) le c = omega (arith, speech-Chain total s.end ss c.2 c.3)

-- The speech of several channels, counted over their merged spans, is never more than the
-- recording, so that the speech ratio is at most 1, where the spans hold at least one sample each and
-- lie within the recording.
pub speech_samples-merge_spans :
    (sets : List (List Span)) (total : ℕ)
    → AllFit total sets
    → speech_samples (merge_spans sets) ≤ total
speech_samples-merge_spans sets total fit = omega (
  arith,
  speech-Chain total 0 (merge_spans sets) (omega arith) (merge_spans-Chain total sets fit),
)

segment_silences-spans :
    (to_sec : ℕ → ℕ) (total min cursor : ℕ) (segs : List Segment)
    → segment_silences to_sec total min cursor segs
      ≡ silences_loop to_sec total min cursor (spans segs)
unfolding segment_silences silences_loop spans
segment_silences-spans to_sec total min cursor [] = refl
segment_silences-spans to_sec total min cursor (s ∷ segs) = ground (
  arith,
  segment_silences-spans to_sec total min
      (if ltb cursor (end_sample s) then end_sample s else cursor) segs,
)

-- Silences on the segments of one channel is SilencesFrom on their extents.
pub silences-spans :
    (to_sec : ℕ → ℕ) (segs : List Segment) (total rate min_ms : ℕ)
    → silences to_sec segs total rate min_ms ≡ silences_from to_sec (spans segs) total rate min_ms
unfolding silences silences_from
silences-spans to_sec segs total rate min_ms = elim (Bool-cases (leb rate 0 || leb total 0)) [
  | inl nothing ↦ rw (nothing, silences, silences_from) refl
  | inr on ↦
      rw (on, silences, silences_from)
        (segment_silences-spans to_sec total (min_ms * rate / 1000) 0 segs)
]
