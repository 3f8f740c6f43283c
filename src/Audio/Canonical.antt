-- ===== src/Audio/Canonical.antt =====
-- internal/audio/wavenc.go and wav.go: the header that is written is read back.
use nano_asr.Prelude.{
  ℕ, suc, ◌+◌, ◌-◌, ◌*◌, ◌/◌, ◌≤◌, ◌<◌, ◌≡◌, refl, ap, ◌∙◌, false, Option, none, some, [], ◌∷◌,
  ◌++◌, arith, ltb, ◌==◌, length, length-append, take, drop, if◌then◌else◌,
}
use nano_asr.Core.{Bytes}
use nano_asr.Audio.{ok, read_full, uint16, uint32, put_uint16, put_uint32}
use nano_asr.Audio.Header.{
  WavFormat, Header, found, next, check_format, parse_fmt, fmt_fields, same_bytes, fmt_id, data_id,
  riff_id, wave_id, fmt_chunk, data_chunk, chunk, walk, read_wav_header, wav_header, clamp_uint32,
}

-- Mono samples of 16 bits at this rate.
abbrev pub pcm16 : ℕ → WavFormat
pcm16 rate = record {
  tag = 1;
  channels = 1;
  sample_rate = rate;
  bits_per_sample = 16;
  block_align = 2;
}

-- The length that a reader goes by; 0 is that it reads to the end.
abbrev pub usable_length : ℕ → ℕ
usable_length n = if ltb n 4294967295 then n else 0

-- Reading a number of 32 bits that was put.
uint32-put_uint32 : (v : ℕ) (bs : Bytes) → v < 4294967296 → uint32 (put_uint32 v ++ bs) ≡ v
unfolding uint32 put_uint32
uint32-put_uint32 v bs le = omega arith

uint16-put_uint16 : (v : ℕ) (bs : Bytes) → v < 65536 → uint16 (put_uint16 v ++ bs) ≡ v
unfolding uint16 put_uint16
uint16-put_uint16 v bs le = omega arith

take-append : (a b : Bytes) → take (length a) (a ++ b) ≡ a
take-append [] b = refl
take-append (x ∷ a) b = ap (λ z. x ∷ z) (take-append a b)

drop-append : (a b : Bytes) → drop (length a) (a ++ b) ≡ b
drop-append [] b = refl
drop-append (x ∷ a) b = drop-append a b

read_full-append : (a b : Bytes) → read_full (length a) (a ++ b) ≡ some (a, b)
unfolding read_full
read_full-append a b =
    let fits : ltb (length (a ++ b)) (length a) ≡ false = ground (arith, length-append a b) in
    rw (fits, take-append a b, drop-append a b, read_full) refl

-- The body of the fmt chunk.
abbrev fmt_body : ℕ → Bytes
fmt_body rate =
    put_uint16 1
    ++ (put_uint16 1
        ++ (put_uint32 rate ++ (put_uint32 (rate * 16 / 8) ++ (put_uint16 2 ++ put_uint16 16))))

fmt_fields-fmt_body : (rate : ℕ) → rate ≤ 384000 → fmt_fields 1 (fmt_body rate) ≡ pcm16 rate
unfolding fmt_fields put_uint16 put_uint32 uint16
fmt_fields-fmt_body rate le =
    ap (λ r. pcm16 r) (uint32-put_uint32 rate (drop 8 (fmt_body rate)) (omega arith))

check_format-pcm16 :
    (rate : ℕ) → 1000 ≤ rate → rate ≤ 384000 → check_format (pcm16 rate) ≡ ok (pcm16 rate)
unfolding check_format
check_format-pcm16 rate low high =
    let above : ltb rate 1000 ≡ false = ground arith in
    let below : ltb 384000 rate ≡ false = ground arith in rw (above, below, check_format) refl

parse_fmt-fmt_body :
    (rate : ℕ) → 1000 ≤ rate → rate ≤ 384000 → parse_fmt (fmt_body rate) ≡ ok (pcm16 rate)
unfolding parse_fmt put_uint16
parse_fmt-fmt_body rate low high =
    ap check_format (fmt_fields-fmt_body rate high) ∙ check_format-pcm16 rate low high

fmt_chunk-fmt_body :
    (rate : ℕ) (bs : Bytes)
    → 1000 ≤ rate
    → rate ≤ 384000
    → fmt_chunk 16 (fmt_body rate ++ bs) ≡ next (some (pcm16 rate)) bs
unfolding fmt_chunk put_uint16 put_uint32
fmt_chunk-fmt_body rate bs low high =
    rw (read_full-append (fmt_body rate) bs, parse_fmt-fmt_body rate low high, fmt_chunk) refl

-- The header of the fmt chunk, and that of the data chunk.
chunk-fmt :
    (rate : ℕ) (bs : Bytes)
    → 1000 ≤ rate
    → rate ≤ 384000
    → chunk none ((fmt_id ++ put_uint32 16) ++ (fmt_body rate ++ bs)) ≡ next (some (pcm16 rate)) bs
unfolding chunk put_uint32 uint32
chunk-fmt rate bs low high =
    rw (read_full-append (fmt_id ++ put_uint32 16) (fmt_body rate ++ bs), chunk)
      (fmt_chunk-fmt_body rate bs low high)

chunk-data :
    (f : WavFormat) (n : ℕ) (bs : Bytes)
    → n < 4294967296
    → chunk (some f) ((data_id ++ put_uint32 n) ++ bs)
      ≡ found (record { format = f; data_size = if n == 4294967295 then 0 else n; rest = bs })
unfolding chunk put_uint32 data_chunk same_bytes
chunk-data f n bs le =
    rw (read_full-append (data_id ++ put_uint32 n) bs, chunk)
      (ap
        (λ (m : ℕ).
          found (record { format = f; data_size = if m == 4294967295 then 0 else m; rest = bs }))
        (uint32-put_uint32 n [] le))

walk-next :
    (fuel : ℕ) (fmt fmt' : Option WavFormat) (bs rest : Bytes)
    → chunk fmt bs ≡ next fmt' rest
    → walk (suc fuel) fmt bs ≡ walk fuel fmt' rest
unfolding walk
walk-next fuel fmt fmt' bs rest e = rw (e, walk) refl

walk-found :
    (fuel : ℕ) (fmt : Option WavFormat) (bs : Bytes) (h : Header)
    → chunk fmt bs ≡ found h
    → walk (suc fuel) fmt bs ≡ some (ok h)
unfolding walk
walk-found fuel fmt bs h e = rw (e, walk) refl

-- The chunks of a written file.
abbrev chunks : ℕ → ℕ → Bytes → Bytes
chunks rate n bs =
    (fmt_id ++ put_uint32 16) ++ (fmt_body rate ++ ((data_id ++ put_uint32 (clamp_uint32 n)) ++ bs))

walk-chunks :
    (fuel rate n : ℕ) (bs : Bytes)
    → 1000 ≤ rate
    → rate ≤ 384000
    → walk (suc (suc fuel)) none (chunks rate n bs)
      ≡ some (ok (record { format = pcm16 rate; data_size = usable_length n; rest = bs }))
walk-chunks fuel rate n bs low high =
    let tail = (data_id ++ put_uint32 (clamp_uint32 n)) ++ bs in
    walk-next (suc fuel) none (some (pcm16 rate)) (chunks rate n bs) tail
      (chunk-fmt rate tail low high)
    ∙ walk-found fuel (some (pcm16 rate)) tail _
        (chunk-data (pcm16 rate) (clamp_uint32 n) bs (ground arith))
    ∙ ap (λ (m : ℕ). some (ok (record { format = pcm16 rate; data_size = m; rest = bs })))
        (ground arith)

-- Reading back a header that was written finds mono samples of 16 bits at the given rate, and the
-- samples right behind it. The length is the one that was written when it fits the field; an
-- empty file and one of 2 ^ 32 - 1 bytes or more give no length, so that they are read to the end.
pub read_wav_header-wav_header :
    (rate n : ℕ) (bs : Bytes)
    → 1000 ≤ rate
    → rate ≤ 384000
    → read_wav_header (wav_header rate n ++ bs)
      ≡ some (ok (record { format = pcm16 rate; data_size = usable_length n; rest = bs }))
unfolding read_wav_header wav_header put_uint16 put_uint32 same_bytes
read_wav_header-wav_header rate n bs low high =
    let riff = riff_id ++ (put_uint32 (clamp_uint32 (n + 44 - 8)) ++ wave_id) in
    let enough : length (chunks rate n bs) + 1 ≡ suc (suc (length (chunks rate n bs) - 1)) =
      omega arith in
    rw (read_full-append riff (chunks rate n bs), read_wav_header)
      (ap (λ fuel. walk fuel none (chunks rate n bs)) enough
        ∙ walk-chunks (length (chunks rate n bs) - 1) rate n bs low high)
