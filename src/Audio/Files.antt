-- ===== src/Audio/Files.antt =====
-- internal/audio/wavenc.go and wav.go: a whole file that was written is decoded.
use nano_asr.Prelude.{
  ℕ, ◌/◌, ◌≤◌, ◌<◌, ◌≡◌, refl, ap, ◌∙◌, Bool, true, false, List, [], ◌∷◌, ◌++◌, Option, none, some,
  arith, ◌==◌, map, get_elem?, length, take, Bool-cases, inl, inr,
}
use nano_asr.Core.{Bytes, Code}
use nano_asr.Audio.{Options, ok, is_first, is_split, split_channels}
use nano_asr.Audio.Header.{wav_header, sample_width}
use nano_asr.Audio.Canonical.{pcm16, usable_length, read_wav_header-wav_header}
use nano_asr.Audio.Samples.{
  Float32, over_limit, declared_limit, limited, read_samples, number_tracks, decode,
}
use nano_asr.Audio.Blocks.{frames_of}
use nano_asr.Audio.Tracks.{heard, read_samples-tracks}

take_all : (bs : Bytes) → take (length bs) bs ≡ bs
take_all [] = refl
take_all (b ∷ bs) = ap (λ z. b ∷ z) (take_all bs)

split_channels-one : (o : Options) → split_channels o 1 ≡ ok 1
unfolding split_channels
split_channels-one o = elim (Bool-cases (is_split o.channel_mode)) [
  | inl s ↦ rw (s, split_channels) refl
  | inr s ↦ rw (s, split_channels) refl
]

only_track :
    (tracks : List (List ℕ)) (t : List ℕ)
    → length tracks ≡ 1
    → get_elem? tracks 0 ≡ some t
    → tracks ≡ t ∷ []
only_track [] t n e = absurd (omega (arith, n))
only_track (u ∷ []) t n e = let same : u ≡ t = cc in rw same refl
only_track (u ∷ v ∷ ts) t n e = absurd (omega (arith, n))

module _ (F : Float32) where
  -- What a mono file of 16-bit samples sounds like.
  abbrev pub heard_mono : ℕ → Bool → Bytes → List ℕ
  heard_mono rate one bs = map (heard F (pcm16 rate) 2 1 one 0) (frames_of 2 (length bs / 2) bs)

  read_mono :
      (canceled : ℕ → Option Code) (o : Options) (m : Option ℕ) (rate : ℕ) (bs : Bytes)
      → ((round : ℕ) → canceled round ≡ none)
      → 2 ≤ length bs
      → over_limit F o m 1 (length bs / 2) ≡ none
      → read_samples F canceled o m (pcm16 rate) 2 1 (length bs) bs
        ≡ some (ok (heard_mono rate (is_first o.channel_mode) bs ∷ []))
  unfolding declared_limit
  read_mono canceled o m rate bs never some_bytes fits =
      let more : (length bs == 0) ≡ false = ground arith in
      let all : limited F canceled o m (pcm16 rate) 2 1 (length bs) bs ≡ bs =
        rw more (take_all bs) in
      let within : declared_limit F canceled o m (pcm16 rate) 2 1 (length bs) ≡ none =
        rw (more, declared_limit) fits in
      let t =
        read_samples-tracks F canceled o m (pcm16 rate) 2 1 never (omega arith) (length bs) bs
          (omega arith) within in
      let fits' : over_limit F o m 1
            (length (limited F canceled o m (pcm16 rate) 2 1 (length bs) bs) / 2)
          ≡ none =
        rw all fits in
      let pos : 0 < length (limited F canceled o m (pcm16 rate) 2 1 (length bs) bs) / 2 =
        rw all (omega (arith, some_bytes)) in
      let (tracks, e, n, hears) = t.1 pos fits' in
      let first =
        hears 0 (omega arith)
        ∙ ap
            (λ z. some (
              map (heard F (pcm16 rate) 2 1 (is_first o.channel_mode) 0)
                (frames_of 2 (length z / 2) z)))
            all in
      e ∙ ap (λ z. some (ok z)) (only_track tracks _ n first)

  -- Decoding a file that was written as mono samples of 16 bits, at its own rate, gives one track
  -- with every sample of the data in order, when the context is not canceled, the rate is one that
  -- the decoder takes, and the data has a sample, fits the length field and is within the limits.
  pub decode-wav_header :
      (resample : List ℕ → ℕ → ℕ → List ℕ) (canceled : ℕ → Option Code) (o : Options)
      (max_frames : ℕ → Option ℕ) (rate : ℕ) (bs : Bytes)
      → ((round : ℕ) → canceled round ≡ none)
      → 1000 ≤ rate
      → rate ≤ 384000
      → 2 ≤ length bs
      → length bs < 4294967295
      → over_limit F o (max_frames rate) 1 (length bs / 2) ≡ none
      → decode F resample canceled o max_frames rate (wav_header rate (length bs) ++ bs)
        ≡ some (
            ok (
              record {
                samples = heard_mono rate (is_first o.channel_mode) bs;
                sample_rate = rate;
                source_channels = 1;
                channel = 0;
              }
              ∷ []))
  unfolding decode sample_width number_tracks
  decode-wav_header resample canceled o max_frames rate bs never low high some_bytes field fits =
      let size : usable_length (length bs) ≡ length bs = ground arith in
      let header = read_wav_header-wav_header rate (length bs) bs low high in
      let read = read_mono canceled o (max_frames rate) rate bs never some_bytes fits in
      let same : (rate == rate) ≡ true = ground arith in
      let given : (rate == 0) ≡ false = ground arith in
      rw (header, split_channels-one o, size, read, given, same, decode) refl
