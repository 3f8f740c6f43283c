-- ===== src/Audio/Samples.antt =====
-- internal/audio/wav.go: frames into tracks of float32 samples.
--
-- A float32 is its bit pattern, and its arithmetic is given. What the context answers at each block,
-- the number of frames that the duration limit allows at the rate (`none` for no limit) and the
-- resampler are given too. The block is read off the front of the reader with no copy.
use nano_asr.Prelude.{
  ℕ, zero, suc, ◌+◌, ◌-◌, ◌*◌, ◌/◌, ◌%◌, ◌||◌, Bool, true, false, List, [], ◌∷◌, ◌++◌, Option, none,
  some, ltb, ◌==◌, get_or, length, take, drop, replicate, if◌then◌else◌,
}
use nano_asr.Core.{Bytes, Code}
use nano_asr.Audio.{
  ℤ, pos, to_signed, uint16, uint32, Options, Answer, ok, err, check_decoded_bytes, split_channels,
  is_first,
}
use nano_asr.Audio.Header.{
  WavFormat, sample_width, wav_alaw, wav_mulaw, wav_ieee_float, read_wav_header,
}
use nano_asr.Audio.Companding.{alaw_to_linear, ulaw_to_linear}

pub record Float32 : Type 0 where
  pub of_int : ℤ → ℕ
  pub plus : ℕ → ℕ → ℕ
  pub minus : ℕ → ℕ → ℕ
  pub over : ℕ → ℕ → ℕ

-- preallocFrames; a missing limit is the -1 of the source.
unfoldable pub prealloc_frames : ℕ → ℕ → Option ℕ → ℕ
prealloc_frames data_size block_align max_frames =
    if data_size == 0 || block_align == 0
    then 0
    else let frames : ℕ = data_size / block_align in
      let allowed : ℕ = elim max_frames [
        | none ↦ frames
        | some m ↦ if ltb m frames then m else frames
      ] in
      if ltb 4194304 allowed then 4194304 else allowed

-- dst[c] = append(dst[c], ...) for each output.
unfoldable pub append_each : List (List ℕ) → List ℕ → List (List ℕ)
append_each [] vs = []
append_each (t ∷ ts) [] = t ∷ ts
append_each (t ∷ ts) (v ∷ vs) = (t ++ v ∷ []) ∷ append_each ts vs

module _ (F : Float32) where
  -- A signed sample as a share of full scale.
  abbrev pub share : ℤ → ℕ → ℕ
  share v full = F.over (F.of_int v) (F.of_int (pos full))

  unfoldable pub sample_to_float : WavFormat → Bytes → ℕ
  unfolding alaw_to_linear ulaw_to_linear uint16 uint32 to_signed
  sample_to_float f b =
      if f.tag == wav_alaw
      then share (alaw_to_linear (get_or b 0 0)) 32768
      else if f.tag == wav_mulaw
      then share (ulaw_to_linear (get_or b 0 0)) 32768
      else if f.tag == wav_ieee_float
      then uint32 b
      else if f.bits_per_sample == 8
      then F.over (F.minus (F.of_int (pos (get_or b 0 0))) (F.of_int (pos 128)))
          (F.of_int (pos 128))
      else if f.bits_per_sample == 16
      then share (to_signed 16 (uint16 b)) 32768
      else if f.bits_per_sample == 24
      then share (to_signed 24 (uint16 b + 65536 * get_or b 2 0)) 8388608
      else share (to_signed 32 (uint32 b)) 2147483648

  -- The sample of channel c in a frame. The slice of the source would panic past the end of the
  -- frame; a frame is block_align bytes, which decodes only as width for each of the channels.
  unfoldable pub channel_sample : WavFormat → ℕ → Bytes → ℕ → ℕ
  unfolding sample_to_float
  channel_sample f width frame c = sample_to_float f (take width (drop (c * width) frame))

  -- Those of n channels from c on.
  unfoldable pub channel_samples : WavFormat → ℕ → Bytes → ℕ → ℕ → List ℕ
  unfolding channel_sample
  channel_samples f width frame c zero = []
  channel_samples f width frame c (suc n) =
      channel_sample f width frame c ∷ channel_samples f width frame (c + 1) n

  unfoldable pub sum_samples : ℕ → List ℕ → ℕ
  sum_samples sum [] = sum
  sum_samples sum (v ∷ vs) = sum_samples (F.plus sum v) vs

  -- mixdown.frame: what a frame adds to each output.
  unfoldable pub frame_values : WavFormat → ℕ → ℕ → Bool → Bytes → List ℕ
  unfolding channel_samples sum_samples
  frame_values f width outputs only_first frame =
      if ltb 1 outputs
      then channel_samples f width frame 0 outputs
      else if only_first || f.channels == 1
      then sample_to_float f (take width frame) ∷ []
      else F.over (sum_samples 0 (channel_samples f width frame 0 f.channels))
          (F.of_int (pos f.channels))
        ∷ []

  -- The loop over the frames of a block.
  unfoldable pub mix_block : WavFormat → ℕ → ℕ → Bool → ℕ → Bytes → List (List ℕ) → List (List ℕ)
  unfolding frame_values append_each
  mix_block f width outputs only_first zero bs dst = dst
  mix_block f width outputs only_first (suc n) bs dst =
      mix_block f width outputs only_first n (drop f.block_align bs)
        (append_each dst (frame_values f width outputs only_first (take f.block_align bs)))

  -- The bytes of a block, and the whole frames among so many bytes.
  abbrev pub block_bytes : WavFormat → ℕ
  block_bytes f = 8192 * f.block_align

  unfoldable pub bytes_read : WavFormat → Bytes → ℕ
  bytes_read f bs = if ltb (length bs) (block_bytes f) then length bs else block_bytes f

  unfoldable pub whole_frames : WavFormat → ℕ → ℕ
  whole_frames f n = (n - n % f.block_align) / f.block_align

  -- The two limits, once so many frames are there.
  unfoldable pub over_limit : Options → Option ℕ → ℕ → ℕ → Option Code
  unfolding check_decoded_bytes
  over_limit o none outputs frames = check_decoded_bytes o frames outputs
  over_limit o (some m) outputs frames =
      if ltb m frames then some Code.duration_exceeded else check_decoded_bytes o frames outputs

  -- The end of readSamples.
  unfoldable pub finish : List (List ℕ) → Answer (List (List ℕ))
  finish [] = err Code.invalid_request
  finish ([] ∷ ts) = err Code.invalid_request
  finish ((v ∷ vs) ∷ ts) = ok ((v ∷ vs) ∷ ts)

  module _ (canceled : ℕ → Option Code) (o : Options) (max_frames : Option ℕ) (f : WavFormat)
      (width outputs : ℕ) where
    -- The loop over blocks; fuel that runs out is `none`.
    unfoldable pub read_blocks : ℕ → ℕ → ℕ → Bytes → List (List ℕ) → Option (Answer (List (List ℕ)))
    unfolding bytes_read whole_frames mix_block over_limit finish
    read_blocks zero round frames bs dst = none
    read_blocks (suc fuel) round frames bs dst = elim (canceled round) [
      | some e ↦ some (err e)
      | none ↦
          let n : ℕ = bytes_read f bs in
          let count : ℕ = whole_frames f n in
          let mixed = mix_block f width outputs (is_first o.channel_mode) count bs dst in
          elim (n == 0) [
            | true ↦ some (finish dst)
            | false ↦ elim (over_limit o max_frames outputs (frames + count)) [
              | some e ↦ some (err e)
              | none ↦ elim (ltb n (block_bytes f)) [
                | true ↦ some (finish mixed)
                | false ↦
                    read_blocks fuel (round + 1) (frames + count) (drop (block_bytes f) bs) mixed
              ]
            ]
          ]
    ]

    -- What readSamples refuses by the declared length, before it reads.
    unfoldable pub declared_limit : ℕ → Option Code
    unfolding over_limit
    declared_limit size =
        if size == 0 then none else over_limit o max_frames outputs (size / f.block_align)

    -- io.LimitReader, if there is a length.
    abbrev pub limited : ℕ → Bytes → Bytes
    limited size bs = if size == 0 then bs else take size bs

    unfoldable pub read_samples : ℕ → Bytes → Option (Answer (List (List ℕ)))
    unfolding read_blocks declared_limit
    read_samples size bs = elim (declared_limit size) [
      | some e ↦ some (err e)
      | none ↦
          read_blocks (length (limited size bs) + 1) 0 0 (limited size bs) (replicate outputs [])
    ]

  pub record Pcm : Type 0 where
    pub samples : List ℕ
    pub sample_rate : ℕ
    pub source_channels : ℕ
    pub channel : ℕ

  -- The tracks with their numbers, resampled where the rates differ.
  unfoldable pub number_tracks :
      (List ℕ → ℕ → ℕ → List ℕ) → WavFormat → ℕ → ℕ → List (List ℕ) → List Pcm
  number_tracks resample f target i [] = []
  number_tracks resample f target i (t ∷ ts) =
      record {
        samples = if f.sample_rate == target then t else resample t f.sample_rate target;
        sample_rate = target;
        source_channels = f.channels;
        channel = i;
      }
      ∷ number_tracks resample f target (i + 1) ts

  -- Decode, at a target rate that may be 0.
  unfoldable pub decode :
      (List ℕ → ℕ → ℕ → List ℕ)
      → (ℕ → Option Code)
      → Options
      → (ℕ → Option ℕ)
      → ℕ
      → Bytes
      → Option (Answer (List Pcm))
  unfolding number_tracks
  decode resample canceled o max_frames target bs = elim (read_wav_header bs) [
    | none ↦ none
    | some (err e) ↦ some (err e)
    | some (ok h) ↦ elim (split_channels o h.format.channels) [
      | err e ↦ some (err e)
      | ok outputs ↦ elim (sample_width h.format) [
        | err e ↦ some (err e)
        | ok width ↦
            elim (read_samples canceled o (max_frames h.format.sample_rate) h.format width outputs
              h.data_size h.rest) [
                | none ↦ none
                | some (err e) ↦ some (err e)
                | some (ok tracks) ↦ some (
                    ok (
                      number_tracks resample h.format (if target == 0 then 16000 else target) 0
                        tracks))
              ]
      ]
    ]
  ]
