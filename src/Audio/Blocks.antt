-- ===== src/Audio/Blocks.antt =====
-- internal/audio/wav.go: reading block by block gives what reading all frames at once would.
use native.Mathlib.Nat.{mul-le-mul_right, div-add-mod', add-mul-div_left, mul-div_cancel, zero-div}
use nano_asr.Prelude.{
  ℕ, zero, suc, ◌+◌, ◌-◌, ◌*◌, ◌/◌, ◌%◌, ◌≤◌, ◌<◌, ◌≡◌, refl, sym, ap, ◌∙◌, Bool, true, false, List,
  [], ◌∷◌, Option, none, some, arith, ltb, ◌==◌, length, take, drop, length-drop, Bool-cases,
  Option-cases, inl, inr,
}
use nano_asr.Core.{Bytes, Code}
use nano_asr.Audio.{Options, Answer, err, check_decoded_bytes, is_first}
use nano_asr.Audio.Header.{WavFormat}
use nano_asr.Audio.Samples.{
  Float32, append_each, frame_values, mix_block, bytes_read, whole_frames, over_limit, finish,
  read_blocks,
}

drop-empty : (n : ℕ) → ◌≡◌ {A = Bytes} (drop n []) []
drop-empty zero = refl
drop-empty (suc n) = refl

drop-drop : (n m : ℕ) (bs : Bytes) → drop n (drop m bs) ≡ drop (m + n) bs
drop-drop n zero bs = let e : n ≡ 0 + n = omega arith in ap (λ (k : ℕ). drop k bs) e
drop-drop n (suc m) [] = drop-empty n ∙ sym (drop-empty (suc m + n))
drop-drop n (suc m) (b ∷ bs) =
    let e : suc (m + n) ≡ suc m + n = omega arith in
    drop-drop n m bs ∙ ap (λ (k : ℕ). drop k (b ∷ bs)) e

block_pos : (align : ℕ) → 0 < align → (8192 * align == 0) ≡ false
block_pos align le = ground arith

ltb_irrefl : (n : ℕ) → ltb n n ≡ false
ltb_irrefl n = ground arith

-- Frames at the front of a stream.
unfoldable pub frames_of : ℕ → ℕ → Bytes → List Bytes
frames_of align zero bs = []
frames_of align (suc n) bs = take align bs ∷ frames_of align n (drop align bs)

module _ (F : Float32) where
  check_decoded_bytes-less :
      (o : Options) (a b outputs : ℕ)
      → a ≤ b
      → check_decoded_bytes o b outputs ≡ none
      → check_decoded_bytes o a outputs ≡ none
  unfolding check_decoded_bytes
  check_decoded_bytes-less o a b outputs le e =
      let fewer = mul-le-mul_right outputs le in ground (arith, fewer)

  -- A limit that holds for many frames holds for fewer.
  over_limit-less :
      (o : Options) (m : Option ℕ) (outputs a b : ℕ)
      → a ≤ b
      → over_limit F o m outputs b ≡ none
      → over_limit F o m outputs a ≡ none
  unfolding over_limit
  over_limit-less o none outputs a b le e = check_decoded_bytes-less o a b outputs le e
  over_limit-less o (some m) outputs a b le e = elim (Bool-cases (ltb m b)) [
    | inl far ↦
        absurd (let no : some Code.duration_exceeded ≡ none = rw (far, over_limit) at e in cc)
    | inr near ↦
        let near' : ltb m a ≡ false = ground arith in
        rw (near', over_limit)
          (check_decoded_bytes-less o a b outputs le (rw (near, over_limit) at e))
  ]

  mix_block-split :
      (f : WavFormat) (width outputs : ℕ) (one : Bool) (a b : ℕ) (bs : Bytes) (dst : List (List ℕ))
      → mix_block F f width outputs one (a + b) bs dst
        ≡ mix_block F f width outputs one b
            (drop (a * f.block_align) bs)
            (mix_block F f width outputs one a bs dst)
  unfolding mix_block
  mix_block-split f width outputs one zero b bs dst =
      let e : 0 + b ≡ b = omega arith in
      let d : 0 ≡ 0 * f.block_align = omega arith in
      ap (λ (k : ℕ). mix_block F f width outputs one k bs dst) e
      ∙ ap (λ (k : ℕ). mix_block F f width outputs one b (drop k bs) dst) d
  mix_block-split f width outputs one (suc a) b bs dst =
      let align : ℕ = f.block_align in
      let e : suc a + b ≡ suc (a + b) = omega arith in
      let d : align + a * align ≡ suc a * align = grind arith in
      let dst' = append_each dst (frame_values F f width outputs one (take align bs)) in
      ap (λ (k : ℕ). mix_block F f width outputs one k bs dst) e
      ∙ mix_block-split f width outputs one a b (drop align bs) dst'
      ∙ ap
          (λ z.
            mix_block F f width outputs one b z
              (mix_block F f width outputs one a (drop align bs) dst'))
          (drop-drop (a * align) align bs ∙ ap (λ (k : ℕ). drop k bs) d)

  -- Dropping a partial frame loses no whole one.
  whole_frames_lem :
      (f : WavFormat) (n : ℕ) → 0 < f.block_align → whole_frames F f n ≡ n / f.block_align
  unfolding whole_frames
  whole_frames_lem f n le =
      let align = f.block_align in
      let parts = div-add-mod' n align in
      let whole : n - n % align ≡ n / align * align = omega (arith, parts) in
      ap (λ k. k / align) whole ∙ mul-div_cancel (n / align) le

  bytes_read-short :
      (f : WavFormat) (bs : Bytes)
      → ltb (length bs) (8192 * f.block_align) ≡ true
      → bytes_read F f bs ≡ length bs
  unfolding bytes_read
  bytes_read-short f bs short = rw (short, bytes_read) refl

  bytes_read-long :
      (f : WavFormat) (bs : Bytes)
      → ltb (length bs) (8192 * f.block_align) ≡ false
      → bytes_read F f bs ≡ 8192 * f.block_align
  unfolding bytes_read
  bytes_read-long f bs long = rw (long, bytes_read) refl

  -- A stream of one block or more.
  frames-after_block :
      (n align : ℕ) → 0 < align → 8192 * align ≤ n → n / align ≡ 8192 + (n - 8192 * align) / align
  frames-after_block n align le long =
      let parts : n ≡ n - 8192 * align + align * 8192 = omega arith in
      let sum = add-mul-div_left (n - 8192 * align) 8192 le in
      let e : n / align ≡ (n - 8192 * align) / align + 8192 = ap (λ k. k / align) parts ∙ sum in
      omega (arith, e)

  module _ (canceled : ℕ → Option Code) (o : Options) (m : Option ℕ) (f : WavFormat)
      (width outputs : ℕ) (never : (round : ℕ) → canceled round ≡ none)
      (wide : 0 < f.block_align) where
    unfoldable pub mixed : ℕ → Bytes → List (List ℕ) → List (List ℕ)
    mixed n bs dst = mix_block F f width outputs (is_first o.channel_mode) n bs dst

    -- A stream of a block or more: one round, and what the rest gives.
    read_blocks_step :
        (fuel round frames : ℕ) (bs : Bytes) (dst : List (List ℕ))
        (r : Option (Answer (List (List ℕ))))
        → ltb (length bs) (8192 * f.block_align) ≡ false
        → over_limit F o m outputs (frames + 8192) ≡ none
        → read_blocks F canceled o m f width outputs fuel
            (round + 1)
            (frames + 8192)
            (drop (8192 * f.block_align) bs)
            (mixed 8192 bs dst)
          ≡ r
        → read_blocks F canceled o m f width outputs (suc fuel) round frames bs dst ≡ r
    unfolding read_blocks mixed
    read_blocks_step fuel round frames bs dst r long fits rest =
        let block : ℕ = 8192 * f.block_align in
        let n = bytes_read-long f bs long in
        let more = block_pos f.block_align wide in
        let full = ltb_irrefl block in
        let count : whole_frames F f block ≡ 8192 =
          whole_frames_lem f block wide ∙ mul-div_cancel 8192 wide in
        rw (never round, n, more, n, count, fits, n, full, n, count, read_blocks) rest

    -- The frames behind the first block.
    frames_split :
        (frames : ℕ) (bs : Bytes)
        → ltb (length bs) (8192 * f.block_align) ≡ false
        → (length bs / f.block_align
            ≡ 8192 + length (drop (8192 * f.block_align) bs) / f.block_align)
          × (frames + length bs / f.block_align
              ≡ frames + 8192 + length (drop (8192 * f.block_align) bs) / f.block_align)
    frames_split frames bs long =
        let block : ℕ = 8192 * f.block_align in
        let enough : block ≤ length bs = ground arith in
        let whole : length bs / f.block_align ≡ 8192 + length (drop block bs) / f.block_align =
          frames-after_block (length bs) f.block_align wide enough
          ∙ ap (λ (k : ℕ). 8192 + k / f.block_align) (sym (length-drop block bs)) in
        (whole, omega (arith, whole))

    pub read_blocks-ok :
        (fuel round frames : ℕ) (bs : Bytes) (dst : List (List ℕ))
        → length bs < fuel
        → over_limit F o m outputs (frames + length bs / f.block_align) ≡ none
        → read_blocks F canceled o m f width outputs fuel round frames bs dst
          ≡ some (finish F (mixed (length bs / f.block_align) bs dst))
    unfolding read_blocks mixed
    read_blocks-ok zero round frames bs dst le e = absurd (omega arith)
    read_blocks-ok (suc fuel) round frames bs dst le e =
        elim (Bool-cases (ltb (length bs) (8192 * f.block_align))) [
          | inl short ↦
              let count = whole_frames_lem f (length bs) wide in
              elim (Bool-cases (length bs == 0)) [
                | inl nothing ↦
                    let z : length bs ≡ 0 = ground arith in
                    let none_left : length bs / f.block_align ≡ 0 =
                      ap (λ (k : ℕ). k / f.block_align) z ∙ zero-div f.block_align in
                    rw (never round, bytes_read-short f bs short, nothing, read_blocks)
                      (ap (λ (k : ℕ). some (finish F (mixed k bs dst))) (sym none_left))
                | inr more ↦
                    let n = bytes_read-short f bs short in
                    rw (never round, n, more, n, count, e, n, short, n, count, read_blocks) refl
              ]
          | inr long ↦
              let block : ℕ = 8192 * f.block_align in
              let (whole, sum) = frames_split frames bs long in
              let rest : ℕ = length (drop block bs) / f.block_align in
              let rest_fits : over_limit F o m outputs (frames + 8192 + rest) ≡ none =
                rw sum at e in
              let fits =
                over_limit-less o m outputs (frames + 8192) (frames + 8192 + rest) (omega arith)
                  rest_fits in
              let shorter : length (drop block bs) < fuel = ground (arith, length-drop block bs) in
              read_blocks_step fuel round frames bs dst
                (some (finish F (mixed (length bs / f.block_align) bs dst))) long fits
                (read_blocks-ok fuel (round + 1) (frames + 8192) (drop block bs) (mixed 8192 bs dst)
                    shorter rest_fits
                  ∙ ap (λ z. some (finish F z))
                      (sym (
                        ap (λ (k : ℕ). mixed k bs dst) whole
                        ∙ mix_block-split f width outputs (is_first o.channel_mode) 8192 rest bs
                            dst)))
        ]

    far_err :
        (fuel round frames : ℕ) (bs : Bytes) (dst : List (List ℕ)) (c : Code)
        → ltb (length bs) (8192 * f.block_align) ≡ false
        → over_limit F o m outputs (frames + 8192) ≡ some c
        → (c' : Code) × (read_blocks F canceled o m f width outputs (suc fuel) round frames bs dst
            ≡ some (err c'))
    unfolding read_blocks mixed
    far_err fuel round frames bs dst c long far =
        let block : ℕ = 8192 * f.block_align in
        let n = bytes_read-long f bs long in
        let more = block_pos f.block_align wide in
        let count : whole_frames F f block ≡ 8192 =
          whole_frames_lem f block wide ∙ mul-div_cancel 8192 wide in
        (c, rw (never round, n, more, n, count, far, read_blocks) refl)

    -- Too many frames are refused at some block, if those before it were within the limits.
    pub read_blocks-err :
        (fuel round frames : ℕ) (bs : Bytes) (dst : List (List ℕ)) (c : Code)
        → length bs < fuel
        → over_limit F o m outputs frames ≡ none
        → over_limit F o m outputs (frames + length bs / f.block_align) ≡ some c
        → (c' : Code) × (read_blocks F canceled o m f width outputs fuel round frames bs dst
            ≡ some (err c'))
    unfolding read_blocks mixed
    read_blocks-err zero round frames bs dst c le fine e = absurd (omega arith)
    read_blocks-err (suc fuel) round frames bs dst c le fine e =
        elim (Bool-cases (ltb (length bs) (8192 * f.block_align))) [
          | inl short ↦
              let count = whole_frames_lem f (length bs) wide in
              let n = bytes_read-short f bs short in
              elim (Bool-cases (length bs == 0)) [
                | inl nothing ↦
                    let z : length bs ≡ 0 = ground arith in
                    let same : frames + length bs / f.block_align ≡ frames =
                      let quotient = ap (λ (k : ℕ). k / f.block_align) z ∙ zero-div f.block_align in
                      omega (arith, quotient) in
                    absurd (let no : none ≡ some c = sym fine ∙ (rw same at e) in cc)
                | inr more ↦ (c, rw (never round, n, more, n, count, e, read_blocks) refl)
              ]
          | inr long ↦
              let block : ℕ = 8192 * f.block_align in
              let (whole, sum) = frames_split frames bs long in
              let shorter : length (drop block bs) < fuel = ground (arith, length-drop block bs) in
              elim (Option-cases (over_limit F o m outputs (frames + 8192))) [
                | inr (c', far) ↦ far_err fuel round frames bs dst c' long far
                | inl fits ↦
                    let (c', ih) =
                      read_blocks-err fuel (round + 1) (frames + 8192) (drop block bs)
                        (mixed 8192 bs dst) c shorter fits (rw sum at e) in
                    (c', read_blocks_step fuel round frames bs dst (some (err c')) long fits ih)
              ]
        ]
