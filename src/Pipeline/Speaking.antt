-- ===== src/Pipeline/Speaking.antt =====
-- internal/pipeline/diarize.go: the speaker pass leaves the transcript as it is, and it takes inference
-- threads when it calls the diarizer.
use mathlib.Core.Path.{subst}
use Prim.Native.String.{String}
use text.Mathlib.Text.{◌==◌ as same_text}
use nano_asr.Prelude.{
  ℕ, ◌≡◌, refl, sym, ap, ◌∙◌, ◌&&◌, ◌||◌, Bool, true, false, List, [], ◌∷◌, ◌++◌, Option, none,
  some, arith, ltb, leb, ◌==◌, map, length, if◌then◌else◌, Bool-cases, Option-cases, inl, inr, ◌⊎◌,
}
use nano_asr.Core.{Word, Segment, Request, Code, ChannelMode}
use nano_asr.Core.Float.{Float}
use nano_asr.Audio.{is_split}
use nano_asr.Postproc.Segments.{flat_words}
use nano_asr.Diarize as Split
use nano_asr.Diarize.{Attribution, label_words, label_segments}
use nano_asr.Diarize.Splitting.{split-words}
use nano_asr.Pipeline.{
  Turns, turns, fails, Diarizer, Diarized, diarized, failed, is_unavailable, channel_mode,
  runs_diarizer, attribute, diarize,
}

-- A word without its speaker.
abbrev pub unattributed : Word → Word
unattributed w = record w { speaker = none; speaker_confidence = 0 }

map-append :
    (xs ys : List Word) → map unattributed (xs ++ ys) ≡ map unattributed xs ++ map unattributed ys
map-append [] ys = refl
map-append (x ∷ xs) ys = ap (λ z. unattributed x ∷ z) (map-append xs ys)

label_words-words :
    (ws : List Word) (as' : List Attribution)
    → map unattributed (label_words ws as').0 ≡ map unattributed ws
unfolding label_words
label_words-words [] as' = refl
label_words-words (w ∷ ws) [] = refl
label_words-words (w ∷ ws) (a ∷ as') = elim (Bool-cases (same_text a.speaker "")) [
  | inl nobody ↦ rw (nobody, label_words) (ap (λ z. unattributed w ∷ z) (label_words-words ws as'))
  | inr someone ↦
      rw (someone, label_words) (ap (λ z. unattributed w ∷ z) (label_words-words ws as'))
]

label_segments-words :
    (segs : List Segment) (as' : List Attribution)
    → map unattributed (flat_words (label_segments segs as')) ≡ map unattributed (flat_words segs)
unfolding label_segments flat_words
label_segments-words [] as' = refl
label_segments-words (s ∷ segs) as' =
    map-append (label_words s.words as').0
      (flat_words (label_segments segs (label_words s.words as').1))
    ∙ ap (λ z. z ++ map unattributed (flat_words (label_segments segs (label_words s.words as').1)))
        (label_words-words s.words as')
    ∙ ap (λ z. map unattributed s.words ++ z)
        (label_segments-words segs (label_words s.words as').1)
    ∙ sym (map-append s.words (flat_words segs))

apply-words :
    (segs labelled : List Segment) (as' : List Attribution)
    → Split.apply segs as' ≡ some labelled
    → map unattributed (flat_words labelled) ≡ map unattributed (flat_words segs)
unfolding nano_asr.Diarize.apply
apply-words segs labelled as' e = elim (Bool-cases (length (flat_words segs) == length as')) [
  | inl same ↦
      let it : some (label_segments segs as') ≡ some labelled = rw (same, Split.apply) at e in
      let made : label_segments segs as' ≡ labelled = cc in
      subst (λ l. map unattributed (flat_words l) ≡ map unattributed (flat_words segs)) made
        (label_segments-words segs as')
  | inr other ↦ let it : none ≡ some labelled = rw (other, Split.apply) at e in absurd (cc)
]

skips_lem :
    (is_cut known : Bool) (tracks : ℕ)
    → (is_cut && ltb 1 tracks) ≡ true
    → (known && ((if is_cut then false else true) || leb tracks 1)) ≡ false
skips_lem is_cut known tracks e = ground arith

goes_lem :
    (is_cut : Bool) (tracks : ℕ)
    → (is_cut && ltb 1 tracks) ≡ false
    → ((if is_cut then false else true) || leb tracks 1) ≡ true
goes_lem is_cut tracks e = ground arith

and_true : (b : Bool) → (b && true) ≡ b
and_true true = refl
and_true false = refl

Turns-cases :
    {T : Type 0} (r : Turns T)
    → ((ts : List T) × (r ≡ turns ts)) ⊎ ((c : Code) × (message : String) × (r ≡ fails c message))
Turns-cases (turns ts) = inl (ts, refl)
Turns-cases (fails c message) = inr (c, message, refl)

-- An error that comes out is the diarizer's own, and is not that it is unavailable to a request that
-- still waits; a transcript that comes out has the words that went in.
abbrev pub IsKept :
    {T : Type 0} → Option (Diarizer T) → Bool → Request → List Segment → Diarized → Type 0
IsKept known canceled req segs (diarized out speakers warnings) =
    map unattributed (flat_words out) ≡ map unattributed (flat_words segs)
IsKept {T} known canceled req segs (failed c) =
    (d : Diarizer T) × (message : String) × (known ≡ some d)
    × (d.process req.num_speakers ≡ fails c message)
    × ((is_unavailable c && (if canceled then false else true)) ≡ false)

module _ {T : Type 0} (F : Float) (text_before : String → String → Bool)
    (assign : List Word → List T → List Attribution) where
  attribute-IsKept :
      (known : Option (Diarizer T)) (canceled : Bool) (d : Diarizer T) (req : Request)
      (segs : List Segment) (ts : List T)
      → IsKept known canceled req segs (attribute F text_before assign d req segs ts)
  unfolding attribute
  attribute-IsKept known canceled d req segs [] = refl
  attribute-IsKept known canceled d req segs (t ∷ ts) =
      elim (Option-cases (Split.apply segs (assign (flat_words segs) (t ∷ ts)))) [
        | inl off ↦ rw (off, attribute) refl
        | inr (labelled, on) ↦
            let kept = apply-words segs labelled (assign (flat_words segs) (t ∷ ts)) on in
            rw (on, attribute) (ap (map unattributed) (split-words F text_before labelled).0 ∙ kept)
      ]

  -- Whatever the diarizer and the attribution answer, the speaker pass loses, adds, moves and
  -- rewrites no word, and only its speaker can change; it fails only with the diarizer's own error,
  -- which is then not that it is unavailable while the request still waits; and it calls the
  -- diarizer exactly when runsDiarizer says that it will.
  pub diarize-IsKept :
      (known : Option (Diarizer T)) (default : ChannelMode) (canceled : Bool) (req : Request)
      (tracks : ℕ) (segs : List Segment)
      → let is_known : Bool = elim known [ none ↦ false | some d ↦ true ] in
        let (called, result) =
          diarize F text_before assign known default canceled req tracks segs in
        IsKept known canceled req segs result
        × (called ≡ runs_diarizer is_known default req tracks segs)
  unfolding diarize runs_diarizer
  diarize-IsKept none default canceled req tracks segs = elim (Bool-cases req.diarize) [
    | inr unasked ↦ rw (unasked, diarize, runs_diarizer) (refl, refl)
    | inl asked ↦ elim (Bool-cases (is_split (channel_mode default req) && ltb 1 tracks)) [
      | inl skips ↦ rw (asked, skips, diarize, runs_diarizer) (refl, refl)
      | inr goes ↦ rw (asked, goes, diarize, runs_diarizer) (refl, refl)
    ]
  ]
  diarize-IsKept (some d) default canceled req tracks segs = elim (Bool-cases req.diarize) [
    | inr unasked ↦ rw (unasked, diarize, runs_diarizer) (refl, refl)
    | inl asked ↦ elim (Bool-cases (is_split (channel_mode default req) && ltb 1 tracks)) [
      | inl skips ↦
          let off =
            skips_lem (is_split (channel_mode default req)) (ltb 0 (length segs)) tracks skips in
          rw (asked, skips, off, diarize, runs_diarizer) (refl, refl)
      | inr goes ↦
          let on = goes_lem (is_split (channel_mode default req)) tracks goes in
          elim (Bool-cases (length segs == 0)) [
            | inl empty ↦
                let none_there : ltb 0 (length segs) ≡ false = ground arith in
                rw (asked, goes, empty, none_there, diarize, runs_diarizer) (refl, refl)
            | inr more ↦
                let some_there : ltb 0 (length segs) ≡ true = ground arith in
                elim (Turns-cases (d.process req.num_speakers)) [
                  | inl (ts, found) ↦
                      rw (asked, goes, on, more, some_there, found, diarize, runs_diarizer)
                        (attribute-IsKept (some d) canceled d req segs ts, refl)
                  | inr (c, message, broke) ↦
                      elim (Bool-cases (is_unavailable c && (if canceled then false else true))) [
                        | inl absent ↦
                            rw
                              (
                                asked, goes, on, more, some_there, broke, absent, diarize,
                                runs_diarizer,
                              )
                              (refl, refl)
                        | inr wrong ↦
                            rw
                              (
                                asked, goes, on, more, some_there, broke, wrong, diarize,
                                runs_diarizer,
                              )
                              ((d, message, refl, broke, wrong), refl)
                      ]
                ]
          ]
    ]
  ]
