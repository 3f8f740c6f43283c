-- ===== src/Diarize.antt =====
-- internal/diarize/split.go: segments are cut where the speaker changes.
--
-- A run is a pair of indices, as in the source, and words[from:to] is `slice`. The comparison of two
-- texts is an argument. byID is an association list in the order in which ids are met; the map is
-- gone through in any order. averageConfidence is word for word that of internal/postproc.
pub mod Runs
pub mod Splitting
mod Examples
use Prim.Native.String.{String, ◌++◌ as append}
use text.Mathlib.Text.{◌==◌ as same_text}
use nano_asr.Prelude.{
  ℕ, zero, suc, ◌+◌, ◌-◌, ◌&&◌, ◌||◌, Bool, true, false, List, [], ◌∷◌, ◌++◌, Option, none, some,
  ltb, leb, ◌==◌, get_elem?, length, take, drop, if◌then◌else◌,
}
use nano_asr.Core.{Word, Segment, Speaker}
use nano_asr.Core.Float.{Float}
use nano_asr.Postproc.Segments.{average_confidence, last_end, flat_words, renumber}

pub record Attribution : Type 0 where
  pub speaker : String
  pub confidence : ℕ

-- The words with their attributions, and the attributions that are left.
unfoldable pub label_words : List Word → List Attribution → List Word × List Attribution
label_words [] as' = ([], as')
label_words (w ∷ ws) [] = (w ∷ ws, [])
label_words (w ∷ ws) (a ∷ as') =
    let (labelled, rest) = label_words ws as' in
    (
      (if same_text a.speaker ""
            then w
            else record w { speaker = some a.speaker; speaker_confidence = a.confidence })
          ∷ labelled,
      rest,
    )

unfoldable pub label_segments : List Segment → List Attribution → List Segment
unfolding label_words
label_segments [] as' = []
label_segments (s ∷ segs) as' =
    let (labelled, rest) = label_words s.words as' in
    record s { words = labelled } ∷ label_segments segs rest

-- Apply; `none` is that the counts disagree, and then no segment is changed.
unfoldable pub apply : List Segment → List Attribution → Option (List Segment)
unfolding label_segments flat_words
apply segs as' =
    if length (flat_words segs) == length as' then some (label_segments segs as') else none

-- sameSpeaker, on the speakers of the two words.
unfoldable pub same_speaker : Option String → Option String → Bool
same_speaker none none = true
same_speaker none (some b) = false
same_speaker (some a) none = false
same_speaker (some a) (some b) = same_text a b

pub record Run : Type 0 where
  pub from : ℕ
  pub to : ℕ

abbrev pub slice : List Word → Run → List Word
slice ws r = take (r.to - r.from) (drop r.from ws)

abbrev pub speaker_at : List Word → ℕ → Option String
speaker_at ws i = elim (get_elem? ws i) [ none ↦ none | some w ↦ w.speaker ]

-- The first loop of speakerRuns, at index i, with the run that grows.
unfoldable pub group_from : ℕ → Word → List Word → Run → List Run
unfolding same_speaker
group_from i prev [] last = last ∷ []
group_from i prev (w ∷ ws) last =
    let same = same_speaker prev.speaker w.speaker in
    let rest =
      group_from (i + 1) w ws
        (if same then record last { to = i + 1 } else record { from = i; to = i + 1 }) in
    if same then rest else last ∷ rest

unfoldable pub group_runs : List Word → List Run
unfolding group_from
group_runs [] = []
group_runs (w ∷ ws) = group_from 1 w ws (record { from = 0; to = 1 })

-- wordsText
unfoldable pub words_text : String → List Word → String
words_text out [] = out
words_text out (w ∷ ws) = words_text (append (append out " ") w.word) ws

abbrev pub text_of : List Word → String
text_of [] = ""
text_of (w ∷ ws) = words_text w.word ws

-- The children take the number 0 until Split counts them.
abbrev pub no_id : ℕ
no_id = 0

module _ (F : Float) (text_before : String → String → Bool) where
  -- isTurn
  unfoldable pub is_turn : List Word → Bool
  is_turn [] = false
  is_turn (w ∷ ws) =
      let spoken : ℕ = F.minus (last_end F w ws) w.start in
      leb 2 (length (w ∷ ws)) && (F.less (F.milli 500) spoken || F.same spoken (F.milli 500))

  -- The second loop of speakerRuns, with the last run that is kept.
  unfoldable pub absorb : List Word → Run → List Run → List Run
  unfolding is_turn same_speaker
  absorb ws last [] = last ∷ []
  absorb ws last (r ∷ rs) =
      let joins =
        (if is_turn (slice ws r) then false else true)
        || same_speaker (speaker_at ws last.from) (speaker_at ws r.from) in
      let rest = absorb ws (if joins then record last { to = r.to } else r) rs in
      if joins then rest else last ∷ rest

  abbrev pub absorb_all : List Word → List Run → List Run
  absorb_all ws [] = []
  absorb_all ws (r ∷ rs) = absorb ws r rs

  unfoldable pub join_first : List Word → List Run → List Run
  unfolding is_turn
  join_first ws [] = []
  join_first ws (r ∷ []) = r ∷ []
  join_first ws (r ∷ s ∷ rs) =
      if is_turn (slice ws r) then r ∷ s ∷ rs else record s { from = r.from } ∷ rs

  unfoldable pub speaker_runs : List Word → List Run
  unfolding join_first absorb group_runs
  speaker_runs ws = join_first ws (absorb_all ws (group_runs ws))

  -- byID[id] += t
  unfoldable pub add_time : String → ℕ → List (String × ℕ) → List (String × ℕ)
  add_time id t [] = (id, F.plus (F.milli 0) t) ∷ []
  add_time id t ((j, u) ∷ m) =
      if same_text j id then (j, F.plus u t) ∷ m else (j, u) ∷ add_time id t m

  unfoldable pub times : List Word → List (String × ℕ) → List (String × ℕ)
  unfolding add_time
  times [] m = m
  times (w ∷ ws) m = elim w.speaker [
    | none ↦ times ws m
    | some id ↦
        let d : ℕ = F.minus w.end w.start in
        let counted : ℕ = if F.less d (F.milli 0) || F.same d (F.milli 0) then F.milli 0 else d in
        times ws (add_time id (F.plus counted (F.milli 10)) m)
  ]

  unfoldable pub best_from : String × ℕ → List (String × ℕ) → String × ℕ
  best_from best [] = best
  best_from best ((id, t) ∷ m) =
      best_from
        (if F.less best.1 t || (F.same t best.1 && text_before id best.0) then (id, t) else best) m

  unfoldable pub dominant_speaker : List Word → Option String
  unfolding times best_from
  dominant_speaker ws = elim (times ws []) [
    | [] ↦ none
    | x ∷ m ↦ some (best_from ("", F.minus (F.milli 0) (F.milli 1000)) (x ∷ m)).0
  ]

  -- A child of a segment, with the edges that it takes from its parent. On no words the source would
  -- panic; no run is empty.
  unfoldable pub child : Segment → Bool → Bool → List Word → Segment
  unfolding dominant_speaker words_text average_confidence
  child s first last [] = s
  child s first last (w ∷ ws) = record {
    id = no_id;
    start = if first then s.start else w.start;
    end = if last then s.end else last_end F w ws;
    text = text_of (w ∷ ws);
    channel = s.channel;
    speaker = dominant_speaker (w ∷ ws);
    avg_confidence = average_confidence F (w ∷ ws);
    words = w ∷ ws;
  }

  -- The loop of splitOne over the runs.
  unfoldable pub children : Segment → Bool → List Run → List Segment
  unfolding child
  children s first [] = []
  children s first (r ∷ []) = child s first true (slice s.words r) ∷ []
  children s first (r ∷ q ∷ rs) = child s first false (slice s.words r) ∷ children s false (q ∷ rs)

  unfoldable pub split_one : Segment → List Segment
  unfolding children speaker_runs dominant_speaker
  split_one s = elim s.words [
    | [] ↦ s ∷ []
    | w ∷ ws ↦
        let runs = speaker_runs (w ∷ ws) in
        if leb (length runs) 1
        then record s { speaker = dominant_speaker (w ∷ ws) } ∷ []
        else children s true runs
  ]

  unfoldable pub split_all : List Segment → List Segment
  unfolding split_one
  split_all [] = []
  split_all (s ∷ segs) = split_one s ++ split_all segs

  unfoldable pub split : List Segment → List Segment
  unfolding split_all renumber
  split segs = renumber F 0 (split_all segs)

  -- The speech and the segments of a speaker so far.
  pub record Tally : Type 0 where
    pub id : String
    pub speech : ℕ
    pub segments : ℕ

  unfoldable pub tally : String → ℕ → List Tally → List Tally
  tally id t [] = record { id = id; speech = F.plus (F.milli 0) t; segments = 1 } ∷ []
  tally id t (a ∷ m) =
      if same_text a.id id
      then record a { speech = F.plus a.speech t; segments = a.segments + 1 } ∷ m
      else a ∷ tally id t m

  unfoldable pub tallies : List Segment → List Tally → List Tally
  unfolding tally
  tallies [] m = m
  tallies (s ∷ segs) m = elim s.speaker [
    | none ↦ tallies segs m
    | some id ↦ tallies segs (tally id (F.minus s.end s.start) m)
  ]

  unfoldable pub place_speaker : Speaker → List Speaker → List Speaker
  place_speaker a [] = a ∷ []
  place_speaker a (b ∷ bs) = if text_before b.id a.id then b ∷ place_speaker a bs else a ∷ b ∷ bs

  unfoldable pub sorted_speakers : List Tally → List Speaker
  unfolding place_speaker
  sorted_speakers [] = []
  sorted_speakers (a ∷ m) =
      place_speaker
        (record { id = a.id; name = ""; total_speech = a.speech; segments = a.segments })
        (sorted_speakers m)

  -- Speakers
  unfoldable pub speakers : List Segment → List Speaker
  unfolding tallies sorted_speakers
  speakers segs = sorted_speakers (tallies segs [])
