-- ===== src/Audio/Walking.antt =====
-- internal/audio/wav.go: the walk over the chunks ends, and what it finds can be decoded.
use mathlib.Core.Path.{subst}
use mathlib.Core.List.{append_assoc}
use nano_asr.Prelude.{
  ℕ, zero, suc, ◌+◌, ◌-◌, ◌%◌, ◌≤◌, ◌<◌, ◌≡◌, refl, ap, ◌∙◌, false, ◌||◌, ◌&&◌, Option, none, some,
  [], ◌++◌, arith, ltb, ◌==◌, length, length-append, take, drop, take-append-drop, length-take,
  Bool-cases, Option-cases, inl, inr, ◌⊎◌,
}
use nano_asr.Core.{Bytes, Code}
use nano_asr.Audio.{Answer, Answer-cases, ok, err, read_full, uint32}
use nano_asr.Audio.Header.{
  WavFormat, Header, Chunk, found, next, fails, parse_fmt, same_bytes, fmt_id, data_id, riff_id,
  wave_id, skip_pad, fmt_chunk, data_chunk, skip_chunk, chunk, walk, read_wav_header,
}
use nano_asr.Audio.Formats.{IsRefusal, IsUsable, Format, parse_fmt-Format}

-- r is what is left of bs after n bytes or more.
abbrev pub Rest : ℕ → Bytes → Bytes → Type 0
Rest n bs r = (before : Bytes) × (before ++ r ≡ bs) × (n ≤ length before)

Rest-refl : (bs : Bytes) → Rest 0 bs bs
Rest-refl bs = ([], refl, omega arith)

Rest-trans : (n m : ℕ) (a b c : Bytes) → Rest n a b → Rest m b c → Rest (n + m) a c
Rest-trans n m a b c (p, e, le) (q, f, more) =
    (p ++ q, append_assoc p q c ∙ ap (λ z. p ++ z) f ∙ e, omega (arith, length-append p q))

Rest-less : (n m : ℕ) (bs r : Bytes) → m ≤ n → Rest n bs r → Rest m bs r
Rest-less n m bs r less (p, e, le) = (p, e, omega arith)

Rest-length : (n : ℕ) (bs r : Bytes) → Rest n bs r → n + length r ≤ length bs
Rest-length n bs r (p, e, le) = omega (arith, ap length e, length-append p r)

abbrev Reads : ℕ → Bytes → Option (Bytes × Bytes) → Type 0
Reads n bs none = Unit {0}
Reads n bs (some (a, r)) = (length a ≡ n) × Rest n bs r

read_full-Reads : (n : ℕ) (bs : Bytes) → Reads n bs (read_full n bs)
unfolding read_full
read_full-Reads n bs = elim (Bool-cases (ltb (length bs) n)) [
  | inl short ↦ rw (short, read_full) tt
  | inr fits ↦
      let all : length (take n bs) ≡ n = ground (arith, length-take n bs) in
      rw (fits, read_full) (all, (take n bs, take-append-drop n bs, omega (arith, all)))
]

-- How many bytes of the header are behind, besides those of the chunk headers.
abbrev weight : Option WavFormat → ℕ
weight none = 0
weight (some f) = 16

abbrev AllUsable : Option WavFormat → Type 0
AllUsable none = Unit {0}
AllUsable (some f) = IsUsable f

-- What a turn of the loop leaves.
abbrev Moves : Option WavFormat → ℕ → Bytes → Chunk → Type 0
Moves fmt n bs (fails e) = IsRefusal e
Moves fmt n bs (found h) = IsUsable h.format × Rest n bs h.rest × (weight fmt ≡ 16)
Moves fmt n bs (next fmt' rest) =
    AllUsable fmt' × ((k : ℕ) × Rest (n + k) bs rest × (weight fmt' ≤ weight fmt + k))

skip_pad-Rest : (size : ℕ) (bs : Bytes) → Rest 0 bs (skip_pad size bs)
skip_pad-Rest size bs = elim (Bool-cases (size % 2 == 1)) [
  | inl odd ↦ rw odd (take 1 bs, take-append-drop 1 bs, omega arith)
  | inr even ↦ rw even (Rest-refl bs)
]

after_body :
    (size : ℕ) (bs body rest : Bytes)
    → read_full size bs ≡ some (body, rest)
    → Rest (size + 0) bs (skip_pad size rest)
after_body size bs body rest e =
    let r = subst (Reads size bs) e (read_full-Reads size bs) in
    Rest-trans size 0 bs rest (skip_pad size rest) r.1 (skip_pad-Rest size rest)

fmt_size : (size : ℕ) → (ltb size 16 || ltb 4096 size) ≡ false → 16 ≤ size
fmt_size size right = ground arith

fmt_chunk-Moves :
    (fmt : Option WavFormat) (size : ℕ) (bs : Bytes) → Moves fmt 0 bs (fmt_chunk size bs)
unfolding fmt_chunk
fmt_chunk-Moves fmt size bs = elim (Bool-cases (ltb size 16 || ltb 4096 size)) [
  | inl wrong ↦ rw (wrong, fmt_chunk) (inl refl)
  | inr right ↦ elim (Option-cases (read_full size bs)) [
    | inl short ↦ rw (right, short, fmt_chunk) (inl refl)
    | inr ((body, rest), read) ↦ elim (Answer-cases (parse_fmt body)) [
      | inr (e, refused) ↦
          let a = subst Format refused (parse_fmt-Format body) in
          rw (right, read, refused, fmt_chunk) a
      | inl (f, parsed) ↦
          let a = subst Format parsed (parse_fmt-Format body) in
          let (p, e, le) = after_body size bs body rest read in
          let enough = fmt_size size right in
          rw (right, read, parsed, fmt_chunk) (a, (16, (p, e, omega arith), omega arith))
    ]
  ]
]

skip_chunk-Moves :
    (fmt : Option WavFormat) (size : ℕ) (bs : Bytes)
    → AllUsable fmt
    → Moves fmt 0 bs (skip_chunk fmt size bs)
unfolding skip_chunk
skip_chunk-Moves fmt size bs a = elim (Option-cases (read_full size bs)) [
  | inl short ↦ rw (short, skip_chunk) (inl refl)
  | inr ((body, rest), read) ↦
      let (p, e, le) = after_body size bs body rest read in
      rw (read, skip_chunk) (a, (0, (p, e, omega arith), omega arith))
]

data_chunk-Moves :
    (fmt : Option WavFormat) (size : ℕ) (bs : Bytes)
    → AllUsable fmt
    → Moves fmt 0 bs (data_chunk fmt size bs)
unfolding data_chunk
data_chunk-Moves none size bs a = inl refl
data_chunk-Moves (some f) size bs a = (a, Rest-refl bs, refl)

-- A turn that starts after the header of its chunk, seen from before it.
Moves-earlier :
    (fmt : Option WavFormat) (bs rest : Bytes) (c : Chunk)
    → Rest 8 bs rest
    → Moves fmt 0 rest c
    → Moves fmt 8 bs c
Moves-earlier fmt bs rest (fails e) r m = m
Moves-earlier fmt bs rest (found h) r m = (m.0, Rest-trans 8 0 bs rest h.rest r m.1, m.2)
Moves-earlier fmt bs rest (next fmt' left) r m =
    let (k, far, more) = m.1 in
    (
      m.0,
      (k, Rest-trans 8 k bs rest left r (Rest-less (0 + k) k rest left (omega arith) far), more),
    )

chunk-Moves : (fmt : Option WavFormat) (bs : Bytes) → AllUsable fmt → Moves fmt 8 bs (chunk fmt bs)
unfolding chunk
chunk-Moves fmt bs a = elim (Option-cases (read_full 8 bs)) [
  | inl short ↦ rw (short, chunk) (inl refl)
  | inr ((hdr, rest), read) ↦
      let r = subst (Reads 8 bs) read (read_full-Reads 8 bs) in
      let size : ℕ = uint32 (drop 4 hdr) in
      elim (Bool-cases (same_bytes (take 4 hdr) fmt_id)) [
        | inl is_fmt ↦
            rw (read, is_fmt, chunk)
              (Moves-earlier fmt bs rest _ r.1 (fmt_chunk-Moves fmt size rest))
        | inr no_fmt ↦ elim (Bool-cases (same_bytes (take 4 hdr) data_id)) [
          | inl is_data ↦
              rw (read, no_fmt, is_data, chunk)
                (Moves-earlier fmt bs rest _ r.1 (data_chunk-Moves fmt size rest a))
          | inr no_data ↦
              rw (read, no_fmt, no_data, chunk)
                (Moves-earlier fmt bs rest _ r.1 (skip_chunk-Moves fmt size rest a))
        ]
      ]
]

-- What the walk answers, with n bytes behind it at least.
abbrev pub IsSound : ℕ → Bytes → Answer Header → Type 0
IsSound n bs (ok h) = IsUsable h.format × Rest n bs h.rest
IsSound n bs (err e) = IsRefusal e

IsSound-earlier :
    (n m : ℕ) (a b : Bytes) (r : Answer Header) → Rest n a b → IsSound m b r → IsSound (n + m) a r
IsSound-earlier n m a b (ok h) far s = (s.0, Rest-trans n m a b h.rest far s.1)
IsSound-earlier n m a b (err e) far s = s

Chunk-cases :
    (c : Chunk)
    → ((e : Code) × (c ≡ fails e))
      ⊎ (((h : Header) × (c ≡ found h))
          ⊎ ((fmt : Option WavFormat) × (rest : Bytes) × (c ≡ next fmt rest)))
Chunk-cases (fails e) = inl (e, refl)
Chunk-cases (found h) = inr (inl (h, refl))
Chunk-cases (next fmt rest) = inr (inr (fmt, rest, refl))

-- Less is behind than was asked for.
IsSound-less : (n m : ℕ) (bs : Bytes) (r : Answer Header) → m ≤ n → IsSound n bs r → IsSound m bs r
IsSound-less n m bs (ok h) le (a, (p, e, far)) = (a, (p, e, omega arith))
IsSound-less n m bs (err e) le s = s

walk-IsSound :
    (fuel : ℕ) (fmt : Option WavFormat) (bs : Bytes)
    → AllUsable fmt
    → length bs < fuel
    → (r : Answer Header) × (walk fuel fmt bs ≡ some r) × IsSound (24 - weight fmt) bs r
unfolding walk
walk-IsSound zero fmt bs a le = absurd (omega arith)
walk-IsSound (suc fuel) fmt bs a le = elim (Chunk-cases (chunk fmt bs)) [
  | inl (e, ends) ↦
      let m = subst (Moves fmt 8 bs) ends (chunk-Moves fmt bs a) in (err e, rw (ends, walk) refl, m)
  | inr (inl (h, ends)) ↦
      let m = subst (Moves fmt 8 bs) ends (chunk-Moves fmt bs a) in
      (
        ok h,
        rw (ends, walk) refl,
        IsSound-less 8 (24 - weight fmt) bs (ok h) (omega (arith, m.2)) (m.0, m.1),
      )
  | inr (inr (fmt', rest, goes_on)) ↦
      let m = subst (Moves fmt 8 bs) goes_on (chunk-Moves fmt bs a) in
      let (k, far, more) = m.1 in
      let (r, e, s) =
        walk-IsSound fuel fmt' rest m.0 (omega (arith, Rest-length (8 + k) bs rest far)) in
      (
        r,
        rw (goes_on, walk) e,
        IsSound-less (8 + k + (24 - weight fmt')) (24 - weight fmt) bs r (omega (arith, more))
            (IsSound-earlier (8 + k) (24 - weight fmt') bs rest r far s),
      )
]

-- Reading a header always ends, whatever the bytes are. It fails with one of the two errors of a bad
-- upload, or it finds a format with one to 64 channels, a rate from 1000 to 384000 and frames of
-- whole samples of one to four bytes, and the samples are an end of the file, 36 bytes or more from
-- its start.
pub read_wav_header-IsSound :
    (bs : Bytes) → (r : Answer Header) × (read_wav_header bs ≡ some r) × IsSound 36 bs r
unfolding read_wav_header
read_wav_header-IsSound bs = elim (Option-cases (read_full 12 bs)) [
  | inl short ↦ (err Code.invalid_request, rw (short, read_wav_header) refl, inl refl)
  | inr ((riff, rest), read) ↦
      let r = subst (Reads 12 bs) read (read_full-Reads 12 bs) in
      elim (Bool-cases (same_bytes (take 4 riff) riff_id && same_bytes (drop 8 riff) wave_id)) [
        | inr other ↦ (err Code.invalid_request, rw (read, other, read_wav_header) refl, inl refl)
        | inl wave ↦
            let (answer, e, s) = walk-IsSound (length rest + 1) none rest tt (omega arith) in
            (answer, rw (read, wave, read_wav_header) e, IsSound-earlier 12 24 bs rest answer r.1 s)
      ]
]
