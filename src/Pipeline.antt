-- ===== src/Pipeline.antt =====
-- internal/pipeline/channels.go and diarize.go: the segments of all channels in one transcript, and the
-- speaker pass over it.
--
-- The diarizer and the attribution of words to its turns (diarize.Assign) are arguments; of a
-- diarizer that is absent `none` is known. The tracks are given by their number. An error is its
-- code, which core.AsError reads, and its message.
pub mod Speaking
mod Examples
use Prim.Native.String.{String, ◌++◌ as append}
use text.Mathlib.Text.{◌==◌ as same_text}
use nano_asr.Prelude.{
  ℕ, zero, suc, ◌+◌, ◌&&◌, ◌||◌, Bool, true, false, List, [], ◌∷◌, ◌++◌, Option, none, some, ltb,
  leb, ◌==◌, length, if◌then◌else◌,
}
use nano_asr.Core.{Word, Segment, Speaker, Warning, Request, Code, ChannelMode}
use nano_asr.Core.Float.{Float}
use nano_asr.Audio.{is_split}
use nano_asr.Itn.Russian.Tables.{format_int}
use nano_asr.Postproc.Segments.{flat_words, renumber}
use nano_asr.Diarize as Split
use nano_asr.Diarize.{Attribution}

-- joinSegments: strings.Join of the texts that are not empty.
unfoldable pub join_segments : List Segment → String
join_segments [] = ""
join_segments (s ∷ segs) =
    let rest = join_segments segs in
    if same_text s.text ""
    then rest
    else if same_text rest ""
    then s.text
    else append s.text (append " " rest)

module _ (F : Float) where
  -- The order of merge, stable: a segment goes before those that are not before it.
  unfoldable pub goes_before : Segment → Segment → Bool
  goes_before a b =
      if F.same a.start b.start then ltb a.channel b.channel else F.less a.start b.start

  unfoldable pub place : Segment → List Segment → List Segment
  unfolding goes_before
  place s [] = s ∷ []
  place s (t ∷ ts) = if goes_before t s then t ∷ place s ts else s ∷ t ∷ ts

  unfoldable pub sort : List Segment → List Segment
  unfolding place
  sort [] = []
  sort (s ∷ ss) = place s (sort ss)

  unfoldable pub concat : List (List Segment) → List Segment
  concat [] = []
  concat (t ∷ ts) = t ++ concat ts

  unfoldable pub merge : List (List Segment) → List Segment
  unfolding sort concat renumber
  merge tracks = renumber F 0 (sort (concat tracks))

-- What the diarizer returns: its turns, or an error.
pub data Turns (T : Type 0) : Type 0 where
  turns : List T → Turns T
  fails : Code → String → Turns T

pub record Diarizer (T : Type 0) : Type 0 where
  pub process : ℕ → Turns T
  pub takes_speaker_count : Bool
  pub advice : String

-- What diarize returns: segments, speakers and warnings, or an error.
pub data Diarized : Type 0 where
  diarized : List Segment → List Speaker → List Warning → Diarized
  failed : Code → Diarized

abbrev pub warning : String → String → Warning
warning code message = record { code = code; message = message }

abbrev pub is_unavailable : Code → Bool
is_unavailable Code.capability_unavailable = true
is_unavailable other = false

abbrev pub or_default : ChannelMode → ChannelMode → ChannelMode
or_default default ChannelMode.unset = default
or_default default ChannelMode.downmix = ChannelMode.downmix
or_default default ChannelMode.first = ChannelMode.first
or_default default ChannelMode.split = ChannelMode.split

-- channelMode, with the mode of the server's options.
unfoldable pub channel_mode : ChannelMode → Request → ChannelMode
channel_mode default req = or_default default req.channel_mode

-- runsDiarizer; `known` is whether there is a diarizer.
unfoldable pub runs_diarizer : Bool → ChannelMode → Request → ℕ → List Segment → Bool
unfolding channel_mode
runs_diarizer known default req tracks segs =
    req.diarize
    && (known
        && (ltb 0 (length segs)
            && ((if is_split (channel_mode default req) then false else true) || leb tracks 1)))

abbrev pub with_advice : String → String → String
with_advice advice message =
    if same_text advice "" then message else append message (append "; " advice)

unfoldable pub count_warnings : Bool → String → ℕ → ℕ → ℕ → List Warning
unfolding format_int
count_warnings takes_count advice asked found turn_count =
    if ltb 1 asked && ltb found asked
    then warning "diarization_fewer_speakers" (
        with_advice advice (
          append "asked for " (
            append (format_int asked) (
              append " speakers, separated " (
                append (format_int found)
                  (append " from " (append (format_int turn_count) " turns")))))))
      ∷ []
    else if ltb 0 asked && (ltb asked found && (if takes_count then false else true))
    then warning "diarization_more_speakers" (
        with_advice advice (
          append "asked for "
            (append (format_int asked) (append " speakers, found " (format_int found)))))
      ∷ []
    else []

module _ {T : Type 0} (F : Float) (text_before : String → String → Bool)
    (assign : List Word → List T → List Attribution) where
  -- With the turns at hand.
  unfoldable pub attribute : Diarizer T → Request → List Segment → List T → Diarized
  unfolding count_warnings flat_words
  attribute d req segs [] = diarized segs [] (
      warning "diarization_found_no_speakers"
        "the diarizer found no speaker turns; every word is unattributed"
      ∷ [])
  attribute d req segs (t ∷ ts) = elim (Split.apply segs (assign (flat_words segs) (t ∷ ts))) [
    | none ↦ diarized segs [] (
        warning "diarization_unavailable"
          "speaker attribution did not line up with the transcript and was dropped"
        ∷ [])
    | some labelled ↦
        let cut = Split.split F text_before labelled in
        let speakers = Split.speakers F text_before cut in
        diarized cut speakers (
          count_warnings d.takes_speaker_count d.advice req.num_speakers (length speakers)
            (length (t ∷ ts)))
  ]

  -- diarize, with whether it called the diarizer.
  unfoldable pub diarize :
      Option (Diarizer T) → ChannelMode → Bool → Request → ℕ → List Segment → Bool × Diarized
  unfolding attribute channel_mode
  diarize known default canceled req tracks segs =
      if req.diarize
      then if is_split (channel_mode default req) && ltb 1 tracks
        then (
          false,
          diarized segs [] (
              warning "diarization_skipped_split"
                "channel_mode=split already separates the speakers by channel, so diarization was not run"
              ∷ []),
        )
        else elim known [
          | none ↦ (
            false,
            diarized segs [] (
                warning "diarization_unavailable"
                  "diarization is not configured on this server; set diarization.enabled"
                ∷ []),
          )
          | some d ↦
              if length segs == 0
              then (false, diarized segs [] [])
              else elim (d.process req.num_speakers) [
                | fails c message ↦ (
                  true,
                  if is_unavailable c && (if canceled then false else true)
                      then diarized segs [] (warning "diarization_unavailable" message ∷ [])
                      else failed c,
                )
                | turns ts ↦ (true, attribute d req segs ts)
              ]
        ]
      else (false, diarized segs [] [])
