-- ===== src/Postproc/Segments.antt =====
-- internal/postproc/segments.go: words out of their segments and back.
--
-- `cursor` of scatter is counted and never read. `n` is the number of words and of inputs, so the
-- index of a segment moves forward only while it is below the last one.
use Prim.Native.String.{String, ◌++◌ as append}
use nano_asr.Prelude.{
  ℕ, zero, suc, ◌+◌, ◌-◌, ◌&&◌, true, false, List, [], ◌∷◌, ◌++◌, Option, none, some, ltb, leb,
  ◌==◌, get_or, replicate, length, if◌then◌else◌,
}
use nano_asr.Core.{Word, Segment, Code}
use nano_asr.Core.Float.{Float}
use nano_asr.Postproc.{Stage, ok, err, apply_chain}

-- words.Text: strings.Join(parts, " ")
unfoldable pub join_words : List Word → String
join_words [] = ""
join_words (w ∷ []) = w.word
join_words (w ∷ v ∷ ws) = append w.word (append " " (join_words (v ∷ ws)))

-- flatten
unfoldable pub flat_words : List Segment → List Word
flat_words [] = []
flat_words (s ∷ segs) = s.words ++ flat_words segs

unfoldable pub layout : List Segment → List ℕ
layout [] = []
layout (s ∷ segs) = length s.words ∷ layout segs

-- The loop that goes to the segment which owns the next input; the fuel is the number of segments.
unfoldable pub advance : ℕ → List ℕ → ℕ × ℕ → ℕ × ℕ
advance zero sizes (seg, seen) = (seg, seen)
advance (suc f) sizes (seg, seen) =
    elim (ltb seg (length sizes - 1) && leb (get_or sizes seg 0) seen) [
      | true ↦ advance f sizes (seg + 1, 0)
      | false ↦ (seg, seen)
    ]

-- One input after another, as many as a word covered.
unfoldable pub consume : ℕ → List ℕ → ℕ × ℕ → ℕ × ℕ
unfolding advance
consume zero sizes at = at
consume (suc n) sizes (seg, seen) = consume n sizes (advance (length sizes) sizes (seg, seen + 1))

-- buckets[seg] = append(buckets[seg], w); an index out of range is a panic, `none`.
unfoldable pub put_word : ℕ → Word → List (List Word) → Option (List (List Word))
put_word i w [] = none
put_word zero w (b ∷ bs) = some ((b ++ w ∷ []) ∷ bs)
put_word (suc i) w (b ∷ bs) = elim (put_word i w bs) [ none ↦ none | some rest ↦ some (b ∷ rest) ]

-- spans[i], of which the spans before are taken off; past the end of the vector it is a panic.
abbrev pub next_span : Option (List ℕ) → Option ℕ
next_span none = some 1
next_span (some []) = none
next_span (some (n ∷ ns)) = some n

abbrev pub rest_spans : Option (List ℕ) → Option (List ℕ)
rest_spans none = none
rest_spans (some []) = some []
rest_spans (some (n ∷ ns)) = some ns

-- The loop of scatter over the words; `none` is a panic.
unfoldable pub fill :
    List ℕ → List Word → Option (List ℕ) → ℕ × ℕ → List (List Word) → Option (List (List Word))
unfolding consume put_word
fill sizes [] spans at buckets = some buckets
fill sizes (w ∷ ws) spans at buckets = elim (next_span spans) [
  | none ↦ none
  | some n ↦
      let (seg, seen) = advance (length sizes) sizes at in
      elim (put_word seg w buckets) [
        | none ↦ none
        | some filled ↦ fill sizes ws (rest_spans spans) (consume n sizes (seg, seen)) filled
      ]
]

abbrev pub empty_buckets : List Segment → List (List Word)
empty_buckets segs = replicate (length segs) []

module _ (F : Float) where
  -- averageConfidence
  unfoldable pub confidence_sum : List Word → ℕ × ℕ → ℕ × ℕ
  confidence_sum [] acc = acc
  confidence_sum (w ∷ ws) (sum, n) =
      confidence_sum ws
        (if F.less 0 w.confidence then (F.plus sum w.confidence, n + 1) else (sum, n))

  unfoldable pub average_confidence : List Word → ℕ
  unfolding confidence_sum
  average_confidence ws =
      let (sum, n) = confidence_sum ws (0, 0) in if n == 0 then 0 else F.over sum (F.of_int n)

  abbrev pub last_end : Word → List Word → ℕ
  last_end w [] = w.end
  last_end w (v ∷ ws) = last_end v ws

  -- retime
  unfoldable pub retime : Segment → Segment
  retime s = elim s.words [
    | [] ↦ s
    | w ∷ ws ↦
        let last : ℕ = last_end w ws in
        record s {
          start = if F.less w.start s.start then w.start else s.start;
          end = if F.less s.end last then last else s.end;
        }
  ]

  -- The segments that have words left, with what follows from them.
  unfoldable pub rebuild : List Segment → List (List Word) → List Segment
  unfolding retime average_confidence join_words
  rebuild [] buckets = []
  rebuild (s ∷ segs) [] = []
  rebuild (s ∷ segs) ([] ∷ buckets) = rebuild segs buckets
  rebuild (s ∷ segs) ((w ∷ ws) ∷ buckets) =
      retime (record s {
        words = w ∷ ws;
        text = join_words (w ∷ ws);
        avg_confidence = average_confidence (w ∷ ws);
      })
      ∷ rebuild segs buckets

  -- enforceOrder, with the segment before, which is final.
  abbrev pub after : Segment → Segment → Segment
  after before s =
      let start : ℕ = if F.less s.start before.end then before.end else s.start in
      record s { start = start; end = if F.less s.end start then start else s.end }

  unfoldable pub order_from : Segment → List Segment → List Segment
  order_from s [] = s ∷ []
  order_from s (t ∷ segs) = s ∷ order_from (after s t) segs

  unfoldable pub enforce_order : List Segment → List Segment
  unfolding order_from
  enforce_order [] = []
  enforce_order (s ∷ segs) = order_from s segs

  unfoldable pub renumber : ℕ → List Segment → List Segment
  renumber i [] = []
  renumber i (s ∷ segs) = record s { id = i } ∷ renumber (i + 1) segs

  unfoldable pub scatter :
      List Segment → List Word → Option (List ℕ) → List ℕ → Option (List Segment)
  unfolding fill rebuild enforce_order renumber
  scatter segs out spans sizes = elim (fill sizes out spans (0, 0) (empty_buckets segs)) [
    | none ↦ none
    | some buckets ↦ some (renumber 0 (enforce_order (rebuild segs buckets)))
  ]

  -- Apply; the order of the guards is that of the source, and `none` is a panic.
  unfoldable pub apply : List Stage → List Segment → Option (List Segment × Option Code)
  unfolding scatter flat_words layout
  apply [] segs = some (segs, none)
  apply (s ∷ chain) segs = elim (flat_words segs) [
    | [] ↦ some (segs, none)
    | w ∷ flat ↦ elim (apply_chain (s ∷ chain) (w ∷ flat)) [
      | err e ↦ some ([], some e)
      | ok out spans ↦ elim (scatter segs out spans (layout segs)) [
        | none ↦ none
        | some got ↦ some (got, none)
      ]
    ]
  ]
