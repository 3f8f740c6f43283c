-- ===== src/Diarize/Splitting.antt =====
-- internal/diarize/split.go: cutting at the speakers loses no word, and a segment claims a speaker of
-- its own words.
use mathlib.Core.Path.{subst}
use mathlib.Core.List.{append_assoc, append-nil}
use Prim.Native.String.{String}
use text.Mathlib.Text.{◌==◌ as same_text}
use nano_asr.Prelude.{
  ℕ, ◌+◌, ◌≤◌, ◌<◌, ◌≡◌, refl, sym, ap, ◌∙◌, ◌⊎◌, inl, inr, ◌&&◌, ◌||◌, Bool, true, false, List, [],
  ◌∷◌, ◌++◌, Option, none, some, arith, length, leb, if◌then◌else◌, Bool-cases, Option-cases,
}
use nano_asr.Core.{Word, Segment}
use nano_asr.Core.Float.{Float}
use nano_asr.Postproc.Segments.{flat_words, renumber}
use nano_asr.Postproc.Scattering.{Numbered}
use nano_asr.Diarize.{
  Run, slice, add_time, times, best_from, dominant_speaker, child, children, speaker_runs,
  split_one, split_all, split,
}
use nano_asr.Diarize.Runs.{Chain, Chain-le, speaker_runs-Chain, slices, slices-words, length-slice}

-- The id stands in the list of times.
abbrev Key : String → List (String × ℕ) → Type 0
Key id [] = ⊥
Key id ((j, t) ∷ m) = (j ≡ id) ⊎ Key id m

-- A word is attributed to this id, and no word is attributed.
abbrev pub Named : String → List Word → Type 0
Named id [] = ⊥
Named id (w ∷ ws) = (w.speaker ≡ some id) ⊎ Named id ws

abbrev pub NoneNamed : List Word → Type 0
NoneNamed [] = Unit {0}
NoneNamed (w ∷ ws) = (w.speaker ≡ none) × NoneNamed ws

-- A speaker that a segment with these words may claim.
abbrev pub Claimed : Option String → List Word → Type 0
Claimed none ws = NoneNamed ws
Claimed (some id) ws = Named id ws ⊎ (id ≡ "")

abbrev pub IsHonest : Segment → List Word → Type 0
IsHonest s [] = Unit {0}
IsHonest s (w ∷ ws) = Claimed s.speaker (w ∷ ws)

abbrev pub AllHonest : List Segment → Type 0
AllHonest [] = Unit {0}
AllHonest (s ∷ segs) = IsHonest s s.words × AllHonest segs

flat_words-append : (xs ys : List Segment) → flat_words (xs ++ ys) ≡ flat_words xs ++ flat_words ys
unfolding flat_words
flat_words-append [] ys = refl
flat_words-append (x ∷ xs) ys =
    ap (λ z. x.words ++ z) (flat_words-append xs ys)
    ∙ sym (append_assoc x.words (flat_words xs) (flat_words ys))

AllHonest-append : (xs ys : List Segment) → AllHonest xs → AllHonest ys → AllHonest (xs ++ ys)
AllHonest-append [] ys a b = b
AllHonest-append (x ∷ xs) ys a b = (a.0, AllHonest-append xs ys a.1 b)

List-cases {ℓ} : {A : Type ℓ} (xs : List A) → (xs ≡ []) ⊎ ((x : A) × (r : List A) × (xs ≡ x ∷ r))
List-cases [] = inl refl
List-cases (x ∷ r) = inr (x, r, refl)

module _ (F : Float) (text_before : String → String → Bool) where
  add_time-Key :
      (id k : String) (t : ℕ) (m : List (String × ℕ))
      → Key k (add_time F text_before id t m)
      → (k ≡ id) ⊎ Key k m
  unfolding add_time
  add_time-Key id k t [] (inl e) = inl (sym e)
  add_time-Key id k t [] (inr none_left) = elim none_left [ ]
  add_time-Key id k t ((j, u) ∷ m) key = elim (Bool-cases (same_text j id)) [
    | inl same ↦ inr (rw (same, add_time) at key)
    | inr other ↦
        let there : (j ≡ k) ⊎ Key k (add_time F text_before id t m) = rw (other, add_time) at key in
        elim there [
          | inl e ↦ inr (inl e)
          | inr below ↦ elim (add_time-Key id k t m below) [
            | inl e ↦ inl e
            | inr old ↦ inr (inr old)
          ]
        ]
  ]

  add_time_some :
      (id : String) (t : ℕ) (m : List (String × ℕ)) → ¬ (add_time F text_before id t m ≡ [])
  unfolding add_time
  add_time_some id t [] e = cc
  add_time_some id t ((j, u) ∷ m) e = elim (Bool-cases (same_text j id)) [
    | inl same ↦ let no : ((j, F.plus u t) ∷ m) ≡ [] = rw (same, add_time) at e in cc
    | inr other ↦
        let no : ((j, u) ∷ add_time F text_before id t m) ≡ [] = rw (other, add_time) at e in cc
  ]

  times-Key :
      (ws : List Word) (m : List (String × ℕ)) (k : String)
      → Key k (times F text_before ws m)
      → Named k ws ⊎ Key k m
  unfolding times
  times-Key [] m k key = inr key
  times-Key (w ∷ ws) m k key = elim (Option-cases w.speaker) [
    | inl nobody ↦ elim (times-Key ws m k (rw (nobody, times) at key)) [
      | inl named ↦ inl (inr named)
      | inr old ↦ inr old
    ]
    | inr (id, named) ↦ elim (times-Key ws _ k (rw (named, times) at key)) [
      | inl later ↦ inl (inr later)
      | inr added ↦ elim (add_time-Key id k _ m added) [
        | inl e ↦ inl (inl (named ∙ ap some (sym e)))
        | inr old ↦ inr old
      ]
    ]
  ]

  times_empty :
      (ws : List Word) (m : List (String × ℕ))
      → times F text_before ws m ≡ []
      → (m ≡ []) × NoneNamed ws
  unfolding times
  times_empty [] m e = (e, tt)
  times_empty (w ∷ ws) m e = elim (Option-cases w.speaker) [
    | inl nobody ↦ let ih = times_empty ws m (rw (nobody, times) at e) in (ih.0, (nobody, ih.1))
    | inr (id, named) ↦
        let ih = times_empty ws _ (rw (named, times) at e) in absurd (add_time_some id _ m ih.0)
  ]

  best_from-Key :
      (best : String × ℕ) (m : List (String × ℕ))
      → ((best_from F text_before best m).0 ≡ best.0) ⊎ Key (best_from F text_before best m).0 m
  unfolding best_from
  best_from-Key best [] = inl refl
  best_from-Key best ((id, t) ∷ m) =
      let better : Bool = F.less best.1 t || (F.same t best.1 && text_before id best.0) in
      elim (best_from-Key (if better then (id, t) else best) m) [
        | inr key ↦ inr (inr key)
        | inl e ↦ elim (Bool-cases better) [
          | inl yes_it ↦ inr (inl (sym (e ∙ ap (λ b. (if b then (id, t) else best).0) yes_it)))
          | inr not_it ↦ inl (e ∙ ap (λ b. (if b then (id, t) else best).0) not_it)
        ]
      ]

  dominant_speaker-Claimed : (ws : List Word) → Claimed (dominant_speaker F text_before ws) ws
  unfolding dominant_speaker
  dominant_speaker-Claimed ws = elim (List-cases (times F text_before ws [])) [
    | inl nobody ↦ rw (nobody, dominant_speaker) (times_empty ws [] nobody).1
    | inr (x, m, named) ↦
        rw (named, dominant_speaker)
          (elim (best_from-Key ("", F.minus (F.milli 0) (F.milli 1000)) (x ∷ m)) [
            | inl none_better ↦ inr none_better
            | inr key ↦ elim (times-Key ws [] _ (subst (Key _) (sym named) key)) [
              | inl it ↦ inl it
              | inr none_left ↦ elim none_left [ ]
            ]
          ])
  ]

  child-words :
      (s : Segment) (first last : Bool) (ws : List Word)
      → 0 < length ws
      → ((child F text_before s first last ws).words ≡ ws)
        × IsHonest (child F text_before s first last ws) (child F text_before s first last ws).words
  unfolding child
  child-words s first last [] le = absurd (omega arith)
  child-words s first last (w ∷ ws) le = (refl, dominant_speaker-Claimed (w ∷ ws))

  -- The children of a chain of runs have the words of the runs.
  children-words :
      (s : Segment) (first : Bool) (a b : ℕ) (rs : List Run)
      → Chain a b rs
      → b ≤ length s.words
      → (flat_words (children F text_before s first rs) ≡ slices s.words rs)
        × AllHonest (children F text_before s first rs)
  unfolding children slices flat_words
  children-words s first a b [] c le = (refl, tt)
  children-words s first a b (r ∷ []) (e, more, c) le =
      let one =
        child-words s first true (slice s.words r)
          (length-slice s.words r (omega (arith, e, more)) (omega (arith, c, le))) in
      (ap (λ z. z ++ []) one.0, (one.1, tt))
  children-words s first a b (r ∷ q ∷ rs) (e, more, c) le =
      let one = child-words s first false (slice s.words r) (
        length-slice s.words r (omega (arith, e, more))
          (omega (arith, Chain-le r.to b (q ∷ rs) c, le))) in
      let rest = children-words s false r.to b (q ∷ rs) c le in
      (
        ap (λ z. z ++ flat_words (children F text_before s false (q ∷ rs))) one.0
            ∙ ap (λ z. slice s.words r ++ z) rest.0,
        (one.1, rest.1),
      )

  split_one-words :
      (s : Segment)
      → (flat_words (split_one F text_before s) ≡ s.words) × AllHonest (split_one F text_before s)
  unfolding split_one flat_words
  split_one-words s = elim (List-cases s.words) [
    | inl e ↦ rw (e, split_one) (append-nil s.words ∙ e, (subst (IsHonest s) (sym e) tt, tt))
    | inr (w, ws, e) ↦ elim (Bool-cases (leb (length (speaker_runs F text_before (w ∷ ws))) 1)) [
      | inl whole ↦
          rw (e, whole, split_one)
            (
              append-nil s.words ∙ e,
              (
                subst (IsHonest (record s { speaker = dominant_speaker F text_before (w ∷ ws) }))
                    (sym e) (dominant_speaker-Claimed (w ∷ ws)),
                tt,
              ),
            )
      | inr cut ↦
          let runs = speaker_runs F text_before (w ∷ ws) in
          let chain = speaker_runs-Chain F text_before (w ∷ ws) in
          let le : length (w ∷ ws) ≤ length s.words = omega (arith, ap length e) in
          let pieces = children-words s true 0 (length (w ∷ ws)) runs chain le in
          rw (e, cut, split_one)
            (pieces.0 ∙ ap (λ z. slices z runs) e ∙ slices-words (w ∷ ws) runs chain, pieces.1)
    ]
  ]

  split_all-words :
      (segs : List Segment)
      → (flat_words (split_all F text_before segs) ≡ flat_words segs)
        × AllHonest (split_all F text_before segs)
  unfolding split_all flat_words
  split_all-words [] = (refl, tt)
  split_all-words (s ∷ segs) =
      let one = split_one-words s in
      let rest = split_all-words segs in
      (
        flat_words-append (split_one F text_before s) (split_all F text_before segs)
            ∙ ap (λ z. z ++ flat_words (split_all F text_before segs)) one.0
            ∙ ap (λ z. s.words ++ z) rest.0,
        AllHonest-append (split_one F text_before s) (split_all F text_before segs) one.1 rest.1,
      )

  renumber-words :
      (n : ℕ) (segs : List Segment)
      → AllHonest segs
      → (flat_words (renumber F n segs) ≡ flat_words segs)
        × AllHonest (renumber F n segs)
        × Numbered n (renumber F n segs)
  unfolding renumber flat_words
  renumber-words n [] a = (refl, tt, tt)
  renumber-words n (s ∷ segs) a =
      let rest = renumber-words (n + 1) segs a.1 in
      (ap (λ z. s.words ++ z) rest.0, (a.0, rest.1), (refl, rest.2))

  -- Split keeps every word, once and in order, whatever the segments, the attributions and the
  -- thresholds of a turn; it numbers the segments from 0; and a segment with words that names no
  -- speaker has no attributed word, while one that names a speaker has a word of that speaker, or
  -- the name is the empty text that the search for the longest time starts with.
  pub split-words :
      (segs : List Segment)
      → (flat_words (split F text_before segs) ≡ flat_words segs)
        × AllHonest (split F text_before segs)
        × Numbered 0 (split F text_before segs)
  unfolding split
  split-words segs =
      let all = split_all-words segs in
      let numbered = renumber-words 0 (split_all F text_before segs) all.1 in
      (numbered.0 ∙ all.0, numbered.1, numbered.2)
