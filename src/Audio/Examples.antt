-- ===== src/Audio/Examples.antt =====
-- internal/audio: a small file of two samples, and stereo frames.
use nano_asr.Prelude.{
  ℕ, ◌+◌, ◌/◌, ◌≤◌, ◌<◌, ◌≡◌, refl, ◌++◌, false, List, [], ◌∷◌, Option, none, some, map, get_elem?,
  length, arith,
}
use nano_asr.Core.{Bytes, Code, ChannelMode}
use nano_asr.Audio.{ℤ, pos, negsuc, Options, Answer, ok, err, is_first}
use nano_asr.Audio.Header.{Header, WavFormat, read_wav_header, wav_header}
use nano_asr.Audio.Walking.{IsSound, read_wav_header-IsSound}
use nano_asr.Audio.Canonical.{pcm16, usable_length, read_wav_header-wav_header}
use nano_asr.Audio.Companding.{alaw_to_linear, ulaw_to_linear, companding-middles}
use nano_asr.Audio.Samples.{Float32, over_limit, limited, read_samples, decode}
use nano_asr.Audio.Blocks.{frames_of}
use nano_asr.Audio.Tracks.{heard, read_samples-tracks}
use nano_asr.Audio.Files.{heard_mono, decode-wav_header}

abbrev size : ℤ → ℕ
size (pos n) = n
size (negsuc n) = n + 1

-- Whole numbers in place of the arithmetic of the processor.
abbrev whole : Float32
whole = record { of_int = λ v. size v; plus = λ a b. a + b; minus = λ a b. a; over = λ a b. a }

abbrev samples : Bytes
samples = 1 ∷ 0 ∷ 2 ∷ 0 ∷ []

abbrev unlimited : Options
unlimited = record {
  channel_mode = ChannelMode.split;
  max_split_channels = 0;
  max_decoded_bytes = 0;
}

abbrev stereo : WavFormat
stereo = record { tag = 1; channels = 2; sample_rate = 8000; bits_per_sample = 8; block_align = 2 }

abbrev running : ℕ → Option Code
running round = none

abbrev no_limit : ℕ → Option ℕ
no_limit rate = none

abbrev as_is : List ℕ → ℕ → ℕ → List ℕ
as_is t from to = t

read_wav_header-IsSound_example :
    (r : Answer Header) × (read_wav_header (wav_header 16000 4 ++ samples) ≡ some r)
    × IsSound 36 (wav_header 16000 4 ++ samples) r
read_wav_header-IsSound_example = read_wav_header-IsSound (wav_header 16000 4 ++ samples)

read_wav_header-wav_header_example :
    read_wav_header (wav_header 16000 4 ++ samples)
    ≡ some (ok (record { format = pcm16 16000; data_size = usable_length 4; rest = samples }))
read_wav_header-wav_header_example =
    read_wav_header-wav_header 16000 4 samples (omega arith) (omega arith)

-- The ninth step of the sixth chord, below zero.
companding-middles_example :
    ((alaw_to_linear 13 ≡ negsuc 6271) × (6272 ≤ 32256))
    × ((ulaw_to_linear 39 ≡ negsuc 6139) × (6140 ≤ 32124))
companding-middles_example = companding-middles false 5 8 (omega arith) (omega arith)

read_samples-tracks_example :
    let got = read_samples whole running unlimited none stereo 1 2 0 samples in
    let stream = limited whole running unlimited none stereo 1 2 0 samples in
    let n : ℕ = length stream / 2 in
    (n ≡ 0 → got ≡ some (err Code.invalid_request))
    × (0 < n
        → over_limit whole unlimited none 2 n ≡ none
        → (tracks : List (List ℕ)) × (got ≡ some (ok tracks))
          × (length tracks ≡ 2)
          × ((c : ℕ)
              → c < 2
              → get_elem? tracks c
                ≡ some (map (heard whole stereo 1 2 false c) (frames_of 2 n stream))))
    × ((c : Code)
        → over_limit whole unlimited none 2 n ≡ some c
        → (c' : Code) × (got ≡ some (err c')))
unfolding nano_asr.Audio.Samples.declared_limit
read_samples-tracks_example =
    read_samples-tracks whole running unlimited none stereo 1 2 (λ round. refl) (omega arith) 0
      samples (omega arith) refl

decode-wav_header_example :
    decode whole as_is running unlimited no_limit 16000 (wav_header 16000 4 ++ samples)
    ≡ some (
        ok (
          record {
            samples = heard_mono whole 16000 false samples;
            sample_rate = 16000;
            source_channels = 1;
            channel = 0;
          }
          ∷ []))
unfolding over_limit nano_asr.Audio.check_decoded_bytes
decode-wav_header_example =
    decode-wav_header whole as_is running unlimited no_limit 16000 samples (λ round. refl)
      (omega arith) (omega arith) (omega arith) (omega arith) refl
