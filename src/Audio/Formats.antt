-- ===== src/Audio/Formats.antt =====
-- internal/audio/wav.go: a format that parseFmt lets through can be decoded.
use mathlib.Core.Path.{subst}
use nano_asr.Prelude.{
  ℕ, ◌*◌, ◌≤◌, ◌≡◌, refl, ◌||◌, arith, ltb, ◌==◌, length, drop, if◌then◌else◌, Bool-cases, inl, inr,
  ◌⊎◌,
}
use nano_asr.Core.{Bytes, Code}
use nano_asr.Audio.{Answer, Answer-cases, ok, err, uint16}
use nano_asr.Audio.Header.{
  WavFormat, sample_width, check_stride, check_format, fmt_fields, parse_fmt,
}

-- The errors of a WAV header.
abbrev pub IsRefusal : Code → Type 0
IsRefusal e = (e ≡ Code.invalid_request) ⊎ (e ≡ Code.unsupported_media_type)

-- A format whose frames are whole samples of one to four bytes, within the limits of the decoder.
abbrev pub IsUsable : WavFormat → Type 0
IsUsable f =
    (1 ≤ f.channels)
    × (f.channels ≤ 64)
    × (1000 ≤ f.sample_rate)
    × (f.sample_rate ≤ 384000)
    × ((width : ℕ) × (sample_width f ≡ ok width)
        × (1 ≤ width)
        × (width ≤ 4)
        × (f.block_align ≡ width * f.channels))

abbrev pub Format : Answer WavFormat → Type 0
Format (ok f) = IsUsable f
Format (err e) = IsRefusal e

abbrev Width : Answer ℕ → Type 0
Width (ok w) = (1 ≤ w) × (w ≤ 4)
Width (err e) = IsRefusal e

sample_width-Width : (f : WavFormat) → Width (sample_width f)
unfolding sample_width
sample_width-Width f = ground arith

check_stride-Format :
    (f : WavFormat) (w : ℕ)
    → sample_width f ≡ ok w
    → (1 ≤ w) × (w ≤ 4)
    → (1 ≤ f.channels) × (f.channels ≤ 64)
    → (1000 ≤ f.sample_rate) × (f.sample_rate ≤ 384000)
    → Format (check_stride f w)
unfolding check_stride sample_width
check_stride-Format f w e wide ch rate =
    elim (Bool-cases
      ((if f.block_align == 0 then w * f.channels else f.block_align) == w * f.channels)) [
        | inr off ↦ rw (off, check_stride) (inl refl)
        | inl same ↦
            rw (same, check_stride)
              (ch.0, ch.1, rate.0, rate.1, (w, e, wide.0, wide.1, ground arith))
      ]

check_format-Format : (f : WavFormat) → Format (check_format f)
unfolding check_format
check_format-Format f = elim (Bool-cases (f.tag == 1 || f.tag == 3 || f.tag == 6 || f.tag == 7)) [
  | inr other ↦ rw (other, check_format) (inr refl)
  | inl known ↦ elim (Bool-cases (ltb f.channels 1 || ltb 64 f.channels)) [
    | inl wrong ↦ rw (known, wrong, check_format) (inl refl)
    | inr ch ↦ elim (Bool-cases (ltb f.sample_rate 1000 || ltb 384000 f.sample_rate)) [
      | inl wrong ↦ rw (known, ch, wrong, check_format) (inl refl)
      | inr rate ↦ elim (Answer-cases (sample_width f)) [
        | inr (e, refused) ↦
            let a = subst Width refused (sample_width-Width f) in
            rw (known, ch, rate, refused, check_format) a
        | inl (w, wide) ↦
            let a = subst Width wide (sample_width-Width f) in
            rw (known, ch, rate, wide, check_format)
              (check_stride-Format f w wide a (ground arith, ground arith)
                (ground arith, ground arith))
      ]
    ]
  ]
]

pub parse_fmt-Format : (b : Bytes) → Format (parse_fmt b)
unfolding parse_fmt
parse_fmt-Format b = elim (Bool-cases (uint16 b == 65534)) [
  | inr plain ↦ rw (plain, parse_fmt) (check_format-Format (fmt_fields (uint16 b) b))
  | inl extensible ↦ elim (Bool-cases (ltb (length b) 40)) [
    | inl short ↦ rw (extensible, short, parse_fmt) (inl refl)
    | inr whole ↦
        rw (extensible, whole, parse_fmt) (check_format-Format (fmt_fields (uint16 (drop 24 b)) b))
  ]
]
