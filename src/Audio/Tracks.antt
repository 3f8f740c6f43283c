-- ===== src/Audio/Tracks.antt =====
-- internal/audio/wav.go: the tracks that come out of readSamples.
use mathlib.Core.List.{append_assoc, append-nil}
use nano_asr.Prelude.{
  ℕ, zero, suc, ◌+◌, ◌-◌, ◌/◌, ◌≤◌, ◌<◌, ◌≡◌, refl, sym, ap, ◌∙◌, ◌||◌, Bool, List, [], ◌∷◌, ◌++◌,
  Option, none, some, arith, ltb, ◌==◌, map, get_elem?, get_or, length, take, drop, replicate,
  length-replicate, if◌then◌else◌, Bool-cases, inl, inr,
}
use nano_asr.Core.{Bytes, Code}
use nano_asr.Audio.{pos, check_decoded_bytes, Options, ok, err, is_first}
use nano_asr.Audio.Header.{WavFormat}
use nano_asr.Audio.Samples.{
  Float32, append_each, sample_to_float, channel_sample, channel_samples, sum_samples, frame_values,
  mix_block, over_limit, finish, declared_limit, limited, read_samples,
}
use nano_asr.Audio.Blocks.{frames_of, mixed, read_blocks-ok, read_blocks-err}

append_each-at :
    (dst : List (List ℕ)) (vs : List ℕ) (c : ℕ) (t : List ℕ)
    → get_elem? dst c ≡ some t
    → c < length vs
    → get_elem? (append_each dst vs) c ≡ some (t ++ get_or vs c 0 ∷ [])
unfolding append_each
append_each-at [] vs c t e le = absurd (let no : none ≡ some t = e in cc)
append_each-at (u ∷ dst) [] c t e le = absurd (omega arith)
append_each-at (u ∷ dst) (v ∷ vs) zero t e le = let same : u ≡ t = cc in rw same refl
append_each-at (u ∷ dst) (v ∷ vs) (suc c) t e le = append_each-at dst vs c t e (omega arith)

replicate-at :
    (n c : ℕ) → c < n → ◌≡◌ {A = Option (List ℕ)} (get_elem? (replicate n []) c) (some [])
replicate-at zero c le = absurd (omega arith)
replicate-at (suc n) zero le = refl
replicate-at (suc n) (suc c) le = replicate-at n c (omega arith)

module _ (F : Float32) (f : WavFormat) (width : ℕ) where
  length-channel_samples :
      (frame : Bytes) (c n : ℕ) → length (channel_samples F f width frame c n) ≡ n
  unfolding channel_samples
  length-channel_samples frame c zero = refl
  length-channel_samples frame c (suc n) = ap suc (length-channel_samples frame (c + 1) n)

  channel_samples-at :
      (frame : Bytes) (c n k : ℕ)
      → k < n
      → get_or (channel_samples F f width frame c n) k 0 ≡ channel_sample F f width frame (c + k)
  unfolding channel_samples
  channel_samples-at frame c zero k le = absurd (omega arith)
  channel_samples-at frame c (suc n) zero le =
      ap (channel_sample F f width frame) (let e : c ≡ c + 0 = omega arith in e)
  channel_samples-at frame c (suc n) (suc k) le =
      channel_samples-at frame (c + 1) n k (omega arith)
      ∙ ap (channel_sample F f width frame) (let e : c + 1 + k ≡ c + suc k = omega arith in e)

  -- What output c takes from a frame: its own channel under split, and else the first channel or
  -- the mean of all.
  abbrev pub heard : ℕ → Bool → ℕ → Bytes → ℕ
  heard outputs one c frame =
      if ltb 1 outputs
      then channel_sample F f width frame c
      else if one || f.channels == 1
      then sample_to_float F f (take width frame)
      else F.over (sum_samples F 0 (channel_samples F f width frame 0 f.channels))
          (F.of_int (pos f.channels))

  frame_values-at :
      (outputs : ℕ) (one : Bool) (frame : Bytes) (c : ℕ)
      → c < outputs
      → (c < length (frame_values F f width outputs one frame))
        × (get_or (frame_values F f width outputs one frame) c 0 ≡ heard outputs one c frame)
  unfolding frame_values
  frame_values-at outputs one frame c le = elim (Bool-cases (ltb 1 outputs)) [
    | inl many ↦
        let n = length-channel_samples frame 0 outputs in
        let e : 0 + c ≡ c = omega arith in
        rw (many, frame_values)
          (
            omega (arith, n, le),
            channel_samples-at frame 0 outputs c le ∙ ap (channel_sample F f width frame) e,
          )
    | inr single ↦
        let z : c ≡ 0 = ground arith in
        elim (Bool-cases (one || f.channels == 1)) [
          | inl first ↦ rw (z, single, first, frame_values) (omega arith, refl)
          | inr mean ↦ rw (z, single, mean, frame_values) (omega arith, refl)
        ]
  ]

  mix_block-at :
      (outputs : ℕ) (one : Bool) (n : ℕ) (bs : Bytes) (dst : List (List ℕ)) (c : ℕ) (t : List ℕ)
      → c < outputs
      → get_elem? dst c ≡ some t
      → get_elem? (mix_block F f width outputs one n bs dst) c
        ≡ some (t ++ map (heard outputs one c) (frames_of f.block_align n bs))
  unfolding mix_block frames_of
  mix_block-at outputs one zero bs dst c t le e = e ∙ ap some (sym (append-nil t))
  mix_block-at outputs one (suc n) bs dst c t le e =
      let frame = take f.block_align bs in
      let values = frame_values-at outputs one frame c le in
      let step =
        append_each-at dst (frame_values F f width outputs one frame) c t e values.0
        ∙ ap (λ v. some (t ++ v ∷ [])) values.1 in
      mix_block-at outputs one n (drop f.block_align bs) _ c _ le step
      ∙ ap some (
          append_assoc t (heard outputs one c frame ∷ [])
            (map (heard outputs one c) (frames_of f.block_align n (drop f.block_align bs))))

length-append_each : (dst : List (List ℕ)) (vs : List ℕ) → length (append_each dst vs) ≡ length dst
unfolding append_each
length-append_each [] vs = refl
length-append_each (t ∷ dst) [] = refl
length-append_each (t ∷ dst) (v ∷ vs) = ap suc (length-append_each dst vs)

module _ (F : Float32) where
  length-mix_block :
      (f : WavFormat) (width outputs : ℕ) (one : Bool) (n : ℕ) (bs : Bytes) (dst : List (List ℕ))
      → length (mix_block F f width outputs one n bs dst) ≡ length dst
  unfolding mix_block
  length-mix_block f width outputs one zero bs dst = refl
  length-mix_block f width outputs one (suc n) bs dst =
      length-mix_block f width outputs one n _ _ ∙ length-append_each dst _

  finish-ok :
      (tracks : List (List ℕ)) (v : ℕ) (vs : List ℕ)
      → get_elem? tracks 0 ≡ some (v ∷ vs)
      → finish F tracks ≡ ok tracks
  unfolding finish
  finish-ok [] v vs e = absurd (let no : none ≡ some (v ∷ vs) = e in cc)
  finish-ok ([] ∷ ts) v vs e = absurd (let no : some [] ≡ some (v ∷ vs) = e in cc)
  finish-ok ((x ∷ xs) ∷ ts) v vs e = refl

  finish_empty :
      (outputs : ℕ) → 1 ≤ outputs → finish F (replicate outputs []) ≡ err Code.invalid_request
  unfolding finish
  finish_empty zero le = absurd (omega arith)
  finish_empty (suc n) le = refl

  over_limit-zero : (o : Options) (m : Option ℕ) (outputs : ℕ) → over_limit F o m outputs 0 ≡ none
  unfolding over_limit check_decoded_bytes
  over_limit-zero o none outputs = ground arith
  over_limit-zero o (some m) outputs = ground arith

  module _ (canceled : ℕ → Option Code) (o : Options) (m : Option ℕ) (f : WavFormat)
      (width outputs : ℕ) (never : (round : ℕ) → canceled round ≡ none)
      (wide : 0 < f.block_align) where
    -- Reading block by block, with the limits checked after each, comes to the same as taking the
    -- whole frames of the data at once, when the context is not canceled, a frame has bytes, there
    -- is an output, and the declared length is within the limits. Data with no whole frame is
    -- refused; frames within the limits give one track for each output, with what it hears of each
    -- frame in order; and frames beyond a limit are refused.
    pub read_samples-tracks :
        (size : ℕ) (bs : Bytes)
        → 1 ≤ outputs
        → declared_limit F canceled o m f width outputs size ≡ none
        → let got = read_samples F canceled o m f width outputs size bs in
          let stream = limited F canceled o m f width outputs size bs in
          let n : ℕ = length stream / f.block_align in
          (n ≡ 0 → got ≡ some (err Code.invalid_request))
          × (0 < n
              → over_limit F o m outputs n ≡ none
              → (tracks : List (List ℕ)) × (got ≡ some (ok tracks))
                × (length tracks ≡ outputs)
                × ((c : ℕ)
                    → c < outputs
                    → get_elem? tracks c
                      ≡ some (
                          map
                            (heard F f width outputs (is_first o.channel_mode) c)
                            (frames_of f.block_align n stream))))
          × ((c : Code) → over_limit F o m outputs n ≡ some c → (c' : Code) × (got ≡ some (err c')))
    unfolding read_samples mixed frames_of
    read_samples-tracks size bs some_out within =
        let stream = limited F canceled o m f width outputs size bs in
        let n : ℕ = length stream / f.block_align in
        let empty : List (List ℕ) = replicate outputs [] in
        let zero_sum : 0 + n ≡ n = omega arith in
        let short : length stream < length stream + 1 = omega arith in
        let at_zero = over_limit-zero o m outputs in
        let one = is_first o.channel_mode in
        let ok_lem = λ (fits : over_limit F o m outputs n ≡ none).
          read_blocks-ok F canceled o m f width outputs never wide (length stream + 1) 0 0 stream
            empty short (ap (over_limit F o m outputs) zero_sum ∙ fits) in
        (
          (λ nothing.
              rw (within, read_samples)
                (ok_lem (ap (over_limit F o m outputs) nothing ∙ at_zero)
                  ∙ ap (λ (k : ℕ). some (finish F (mix_block F f width outputs one k stream empty)))
                      nothing
                  ∙ ap some (finish_empty outputs some_out))),
          λ some_frames fits.
              let tracks = mix_block F f width outputs one n stream empty in
              let hears = λ (c : ℕ) (le : c < outputs).
                mix_block-at F f width outputs one n stream empty c [] le
                  (replicate-at outputs c le) in
              let more : n ≡ suc (n - 1) = omega arith in
              let first =
                hears 0 some_out
                ∙ ap
                    (λ (k : ℕ).
                      some (map (heard F f width outputs one 0) (frames_of f.block_align k stream)))
                    more in
              (
                tracks,
                rw (within, read_samples) (ok_lem fits ∙ ap some (finish-ok tracks _ _ first)),
                length-mix_block f width outputs one n stream empty ∙ length-replicate outputs [],
                hears,
              ),
          λ c beyond.
              let (c', e) =
                read_blocks-err F canceled o m f width outputs never wide (length stream + 1) 0 0
                  stream empty c short at_zero (ap (over_limit F o m outputs) zero_sum ∙ beyond) in
              (c', rw (within, read_samples) e),
        )
