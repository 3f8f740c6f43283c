-- ===== src/Audio/Header.antt =====
-- internal/audio/wav.go: the header of a WAV file, and wavenc.go: the one that is written.
--
-- A reader is the bytes that are left, and fails only by their end. The walk over the chunks has
-- fuel, and `none` is that it runs out.
use nano_asr.Prelude.{
  ℕ, zero, suc, ◌+◌, ◌-◌, ◌*◌, ◌/◌, ◌%◌, ◌||◌, Bool, true, false, Option, none, some, [], ◌∷◌, ◌++◌,
  ltb, ◌==◌, length, take, drop, if◌then◌else◌, ◌&&◌,
}
use nano_asr.Core.{Bytes, Code}
use nano_asr.Audio.{Answer, ok, err, read_full, uint16, uint32, put_uint16, put_uint32}

pub record WavFormat : Type 0 where
  pub tag : ℕ
  pub channels : ℕ
  pub sample_rate : ℕ
  pub bits_per_sample : ℕ
  pub block_align : ℕ

abbrev pub wav_pcm : ℕ
wav_pcm = 1

abbrev pub wav_ieee_float : ℕ
wav_ieee_float = 3

abbrev pub wav_alaw : ℕ
wav_alaw = 6

abbrev pub wav_mulaw : ℕ
wav_mulaw = 7

abbrev pub wav_extensible : ℕ
wav_extensible = 65534

abbrev pub max_fmt_chunk : ℕ
max_fmt_chunk = 4096

-- badWAV
abbrev bad_wav {ℓ} : {A : Type ℓ} → Answer A
bad_wav = err Code.invalid_request

unfoldable pub sample_width : WavFormat → Answer ℕ
sample_width f =
    let bits = f.bits_per_sample in
    if f.tag == wav_alaw || f.tag == wav_mulaw
    then if bits == 8 then ok 1 else bad_wav
    else if f.tag == wav_ieee_float
    then if bits == 32 then ok 4 else bad_wav
    else if bits == 8 || bits == 16 || bits == 24 || bits == 32
    then ok (bits / 8)
    else bad_wav

-- The checks at the end of parseFmt, from the stride on.
unfoldable pub check_stride : WavFormat → ℕ → Answer WavFormat
check_stride f width =
    let align : ℕ = if f.block_align == 0 then width * f.channels else f.block_align in
    if align == width * f.channels then ok (record f { block_align = align }) else bad_wav

-- The checks of parseFmt once the codec is known.
unfoldable pub check_format : WavFormat → Answer WavFormat
unfolding sample_width check_stride
check_format f =
    if f.tag == wav_pcm || f.tag == wav_ieee_float || f.tag == wav_alaw || f.tag == wav_mulaw
    then if ltb f.channels 1 || ltb 64 f.channels
      then bad_wav
      else if ltb f.sample_rate 1000 || ltb 384000 f.sample_rate
      then bad_wav
      else elim (sample_width f) [ err e ↦ err e | ok width ↦ check_stride f width ]
    else err Code.unsupported_media_type

-- The fields of a fmt chunk, with the codec that its tag or its extension names.
unfoldable pub fmt_fields : ℕ → Bytes → WavFormat
unfolding uint16 uint32
fmt_fields tag b = record {
  tag = tag;
  channels = uint16 (drop 2 b);
  sample_rate = uint32 (drop 4 b);
  block_align = uint16 (drop 12 b);
  bits_per_sample = uint16 (drop 14 b);
}

unfoldable pub parse_fmt : Bytes → Answer WavFormat
unfolding check_format uint16 fmt_fields
parse_fmt b =
    if uint16 b == wav_extensible
    then if ltb (length b) 40 then bad_wav else check_format (fmt_fields (uint16 (drop 24 b)) b)
    else check_format (fmt_fields (uint16 b) b)

-- What the header tells, and the reader at the samples.
pub record Header : Type 0 where
  pub format : WavFormat
  pub data_size : ℕ
  pub rest : Bytes

-- One turn of the loop over chunks; a format is there once a fmt chunk was read.
pub data Chunk : Type 0 where
  found : Header → Chunk
  next : Option WavFormat → Bytes → Chunk
  fails : Code → Chunk

unfoldable pub same_bytes : Bytes → Bytes → Bool
same_bytes [] [] = true
same_bytes [] (b ∷ bs) = false
same_bytes (a ∷ as') [] = false
same_bytes (a ∷ as') (b ∷ bs) = if a == b then same_bytes as' bs else false

abbrev pub riff_id : Bytes
riff_id = b'R' ∷ b'I' ∷ b'F' ∷ b'F' ∷ []

abbrev pub wave_id : Bytes
wave_id = b'W' ∷ b'A' ∷ b'V' ∷ b'E' ∷ []

abbrev pub fmt_id : Bytes
fmt_id = b'f' ∷ b'm' ∷ b't' ∷ b' ' ∷ []

abbrev pub data_id : Bytes
data_id = b'd' ∷ b'a' ∷ b't' ∷ b'a' ∷ []

-- The pad byte of an odd chunk, if the file has not ended.
abbrev pub skip_pad : ℕ → Bytes → Bytes
skip_pad size bs = if size % 2 == 1 then drop 1 bs else bs

unfoldable pub fmt_chunk : ℕ → Bytes → Chunk
unfolding read_full parse_fmt
fmt_chunk size bs =
    if ltb size 16 || ltb max_fmt_chunk size
    then fails Code.invalid_request
    else elim (read_full size bs) [
      | none ↦ fails Code.invalid_request
      | some (body, rest) ↦ elim (parse_fmt body) [
        | err e ↦ fails e
        | ok f ↦ next (some f) (skip_pad size rest)
      ]
    ]

unfoldable pub data_chunk : Option WavFormat → ℕ → Bytes → Chunk
data_chunk none size bs = fails Code.invalid_request
data_chunk (some f) size bs =
    found (record { format = f; data_size = if size == 4294967295 then 0 else size; rest = bs })

unfoldable pub skip_chunk : Option WavFormat → ℕ → Bytes → Chunk
unfolding read_full
skip_chunk fmt size bs = elim (read_full size bs) [
  | none ↦ fails Code.invalid_request
  | some (body, rest) ↦ next fmt (skip_pad size rest)
]

unfoldable pub chunk : Option WavFormat → Bytes → Chunk
unfolding read_full same_bytes uint32 fmt_chunk data_chunk skip_chunk
chunk fmt bs = elim (read_full 8 bs) [
  | none ↦ fails Code.invalid_request
  | some (hdr, rest) ↦
      let id = take 4 hdr in
      let size = uint32 (drop 4 hdr) in
      if same_bytes id fmt_id
      then fmt_chunk size rest
      else if same_bytes id data_id
      then data_chunk fmt size rest
      else skip_chunk fmt size rest
]

unfoldable pub walk : ℕ → Option WavFormat → Bytes → Option (Answer Header)
unfolding chunk
walk zero fmt bs = none
walk (suc fuel) fmt bs = elim (chunk fmt bs) [
  | found h ↦ some (ok h)
  | fails e ↦ some (err e)
  | next fmt' rest ↦ walk fuel fmt' rest
]

-- readWAVHeader; a chunk takes eight bytes or more, so the bytes that are left are fuel enough.
unfoldable pub read_wav_header : Bytes → Option (Answer Header)
unfolding read_full same_bytes walk
read_wav_header bs = elim (read_full 12 bs) [
  | none ↦ some bad_wav
  | some (riff, rest) ↦
      if same_bytes (take 4 riff) riff_id && same_bytes (drop 8 riff) wave_id
      then walk (length rest + 1) none rest
      else some bad_wav
]

abbrev pub clamp_uint32 : ℕ → ℕ
clamp_uint32 n = if ltb 4294967295 n then 4294967295 else n

-- WAVHeader, of mono samples of 16 bits.
unfoldable pub wav_header : ℕ → ℕ → Bytes
unfolding put_uint16 put_uint32
wav_header sample_rate data_bytes =
    riff_id
    ++ (put_uint32 (clamp_uint32 (data_bytes + 44 - 8))
        ++ (wave_id
            ++ (fmt_id
                ++ (put_uint32 16
                    ++ (put_uint16 1
                        ++ (put_uint16 1
                            ++ (put_uint32 sample_rate
                                ++ (put_uint32 (sample_rate * 16 / 8)
                                    ++ (put_uint16 2
                                        ++ (put_uint16 16
                                            ++ (data_id
                                                ++ put_uint32 (clamp_uint32 data_bytes))))))))))))
