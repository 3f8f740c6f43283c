-- ===== src/Vad/Merging.antt =====
-- internal/vad/spans.go: merging keeps what is speech, and leaves the spans apart.
use nano_asr.Prelude.{
  ℕ, ◌≤◌, ◌<◌, ◌&&◌, ◌||◌, ◌≡◌, refl, ◌∙◌, Bool, false, List, [], ◌∷◌, ◌++◌, ltb, leb, length,
  arith, if◌then◌else◌, Bool-cases, inl, inr,
}
use nano_asr.Vad.{Span, before, place, sort, merge_from, merge_sorted, concat, merge_spans}

abbrev pub covers : ℕ → Span → Bool
covers x s = leb s.start x && ltb x s.end

-- Whether a sample is in one of the spans.
abbrev pub speech_at : ℕ → List Span → Bool
speech_at x [] = false
speech_at x (s ∷ ss) = covers x s || speech_at x ss

-- Every span starts at n or later.
abbrev pub From : ℕ → List Span → Type 0
From n [] = Unit {0}
From n (s ∷ ss) = (n ≤ s.start) × From n ss

abbrev pub IsSorted : List Span → Type 0
IsSorted [] = Unit {0}
IsSorted (s ∷ ss) = From s.start ss × IsSorted ss

-- Each span ends before the next one starts.
abbrev pub Gap : ℕ → List Span → Type 0
Gap e [] = Unit {0}
Gap e (s ∷ ss) = (e < s.start) × Gap s.end ss

abbrev pub Apart : List Span → Type 0
Apart [] = Unit {0}
Apart (s ∷ ss) = Gap s.end ss

pub From-mono : (n m : ℕ) (ss : List Span) → n ≤ m → From m ss → From n ss
From-mono n m [] le a = tt
From-mono n m (s ∷ ss) le a = (omega arith, From-mono n m ss le a.1)

place-From : (n : ℕ) (s : Span) (ss : List Span) → n ≤ s.start → From n ss → From n (place s ss)
unfolding place
place-From n s [] le a = (le, tt)
place-From n s (t ∷ ts) le a = elim (Bool-cases (before t s)) [
  | inl first ↦ rw (first, place) (a.0, place-From n s ts le a.1)
  | inr last ↦ rw (last, place) (le, a)
]

place-IsSorted : (s : Span) (ss : List Span) → IsSorted ss → IsSorted (place s ss)
unfolding place before
place-IsSorted s [] a = (tt, tt)
place-IsSorted s (t ∷ ts) a = elim (Bool-cases (before t s)) [
  | inl first ↦
      rw (first, place) (place-From t.start s ts (ground arith) a.0, place-IsSorted s ts a.1)
  | inr last ↦
      let le : s.start ≤ t.start = ground arith in
      rw (last, place) ((le, From-mono s.start t.start ts le a.0), a)
]

pub sort-IsSorted : (ss : List Span) → IsSorted (sort ss)
unfolding sort
sort-IsSorted [] = tt
sort-IsSorted (s ∷ ss) = place-IsSorted s (sort ss) (sort-IsSorted ss)

place-speech_at :
    (x : ℕ) (s : Span) (ss : List Span) → speech_at x (place s ss) ≡ (covers x s || speech_at x ss)
unfolding place
place-speech_at x s [] = refl
place-speech_at x s (t ∷ ts) = ground (arith, place-speech_at x s ts)

sort-speech_at : (x : ℕ) (ss : List Span) → speech_at x (sort ss) ≡ speech_at x ss
unfolding sort
sort-speech_at x [] = refl
sort-speech_at x (s ∷ ss) = ground (arith, place-speech_at x s (sort ss), sort-speech_at x ss)

abbrev pub joined : Span → Span → Span
joined last s = if ltb last.end s.end then record last { end = s.end } else last

joined-covers :
    (x : ℕ) (last s : Span)
    → last.start ≤ s.start
    → s.start ≤ last.end
    → covers x (joined last s) ≡ (covers x last || covers x s)
joined-covers x last s le touch = ground arith

pub joined-start : (last s : Span) → (joined last s).start ≡ last.start
joined-start last s = ground arith

merge_from-speech_at :
    (x : ℕ) (last : Span) (ss : List Span)
    → From last.start ss
    → IsSorted ss
    → speech_at x (merge_from last ss) ≡ (covers x last || speech_at x ss)
unfolding merge_from
merge_from-speech_at x last [] a b = refl
merge_from-speech_at x last (s ∷ ss) a b = elim (Bool-cases (leb s.start last.end)) [
  | inl touch ↦
      rw (touch, merge_from)
        (ground (
          arith,
          merge_from-speech_at x (joined last s) ss (rw (joined-start last s) a.1) b.1,
          joined-covers x last s,
        ))
  | inr apart ↦ rw (apart, merge_from) (ground (arith, merge_from-speech_at x s ss b.0 b.1))
]

merge_sorted-speech_at :
    (x : ℕ) (ss : List Span) → IsSorted ss → speech_at x (merge_sorted ss) ≡ speech_at x ss
unfolding merge_sorted
merge_sorted-speech_at x [] a = refl
merge_sorted-speech_at x (s ∷ ss) a = merge_from-speech_at x s ss a.0 a.1

merge_from-Gap :
    (e : ℕ) (last : Span) (ss : List Span) → e < last.start → Gap e (merge_from last ss)
unfolding merge_from
merge_from-Gap e last [] less = (less, tt)
merge_from-Gap e last (s ∷ ss) less = elim (Bool-cases (leb s.start last.end)) [
  | inl touch ↦
      rw (touch, merge_from) (merge_from-Gap e (joined last s) ss (rw (joined-start last s) less))
  | inr apart ↦ rw (apart, merge_from) (less, merge_from-Gap last.end s ss (ground arith))
]

merge_from-Apart : (last : Span) (ss : List Span) → Apart (merge_from last ss)
unfolding merge_from
merge_from-Apart last [] = tt
merge_from-Apart last (s ∷ ss) = elim (Bool-cases (leb s.start last.end)) [
  | inl touch ↦ rw (touch, merge_from) (merge_from-Apart (joined last s) ss)
  | inr apart ↦ rw (apart, merge_from) (merge_from-Gap last.end s ss (ground arith))
]

-- Whether a sample is in a span of one of the sets.
abbrev pub speech_in : ℕ → List (List Span) → Bool
speech_in x [] = false
speech_in x (s ∷ sets) = speech_at x s || speech_in x sets

speech_at-append :
    (x : ℕ) (ss ts : List Span) → speech_at x (ss ++ ts) ≡ (speech_at x ss || speech_at x ts)
speech_at-append x [] ts = refl
speech_at-append x (s ∷ ss) ts = ground (arith, speech_at-append x ss ts)

speech_at-concat : (x : ℕ) (sets : List (List Span)) → speech_at x (concat sets) ≡ speech_in x sets
unfolding concat
speech_at-concat x [] = refl
speech_at-concat x (s ∷ sets) =
    ground (arith, speech_at-append x s (concat sets), speech_at-concat x sets)

few-Apart : (ss : List Span) → length ss < 2 → Apart ss
few-Apart [] less = tt
few-Apart (s ∷ []) less = tt
few-Apart (s ∷ t ∷ ss) less = absurd (omega arith)

-- The merged spans cover exactly the samples that some span of some set covers, and each of them
-- ends before the next one starts, with at least one sample between.
pub merge_spans-speech_at :
    (sets : List (List Span))
    → ((x : ℕ) → speech_at x (merge_spans sets) ≡ speech_in x sets) × Apart (merge_spans sets)
unfolding merge_spans merge_sorted
merge_spans-speech_at sets = elim (Bool-cases (ltb (length (concat sets)) 2)) [
  | inl few ↦
      rw (few, merge_spans) ((λ x. speech_at-concat x sets), few-Apart (concat sets) (ground arith))
  | inr many ↦
      rw (many, merge_spans)
        (
          (λ x.
              merge_sorted-speech_at x (sort (concat sets)) (sort-IsSorted (concat sets))
              ∙ sort-speech_at x (concat sets)
              ∙ speech_at-concat x sets),
          merge_sorted-Apart (sort (concat sets)),
        )
]
  where
    merge_sorted-Apart : (ss : List Span) → Apart (merge_sorted ss)
    merge_sorted-Apart [] = tt
    merge_sorted-Apart (s ∷ ss) = merge_from-Apart s ss
