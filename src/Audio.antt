-- ===== src/Audio.antt =====
-- internal/audio: little-endian numbers, signed samples and the limits of a decode (audio.go).
--
-- Bytes are numbers below 256. MaxDecodedBytes and MaxSplitChannels that are 0 mean no limit, and so
-- does a negative one, which is not told apart.
pub mod Header
pub mod Formats
pub mod Walking
pub mod Canonical
pub mod Samples
pub mod Blocks
pub mod Tracks
pub mod Files
pub mod Companding
mod Examples
use nano_asr.Prelude.{
  ℕ, suc, ◌+◌, ◌-◌, ◌*◌, ◌/◌, ◌%◌, ◌^◌, ◌&&◌, ◌||◌, Bool, true, false, Option, none, some, List, [],
  ◌∷◌, ltb, leb, ◌==◌, get_or, length, ◌≡◌, refl, ◌⊎◌, inl, inr, take, drop, if◌then◌else◌,
}
use nano_asr.Core.{Bytes, Code, ChannelMode}

-- What a fallible function returns.
pub data Answer {ℓ} (A : Type ℓ) : Type ℓ where
  ok : A → Answer A
  err : Code → Answer A

pub Answer-cases {ℓ} :
    {A : Type ℓ} (r : Answer A) → ((a : A) × (r ≡ ok a)) ⊎ ((e : Code) × (r ≡ err e))
Answer-cases (ok a) = inl (a, refl)
Answer-cases (err e) = inr (e, refl)

-- io.ReadFull, with the reader after it; io.EOF and io.ErrUnexpectedEOF are `none`.
unfoldable pub read_full : ℕ → Bytes → Option (Bytes × Bytes)
read_full n bs = if ltb (length bs) n then none else some (take n bs, drop n bs)

-- binary.LittleEndian at the front of a slice.
unfoldable pub uint16 : Bytes → ℕ
uint16 bs = get_or bs 0 0 + 256 * get_or bs 1 0

unfoldable pub uint32 : Bytes → ℕ
uint32 bs = get_or bs 0 0 + 256 * get_or bs 1 0 + 65536 * get_or bs 2 0 + 16777216 * get_or bs 3 0

-- PutUint16 and PutUint32, which drop what does not fit.
unfoldable pub put_uint16 : ℕ → Bytes
put_uint16 v = v % 256 ∷ v / 256 % 256 ∷ []

unfoldable pub put_uint32 : ℕ → Bytes
put_uint32 v = v % 256 ∷ v / 256 % 256 ∷ v / 65536 % 256 ∷ v / 16777216 % 256 ∷ []

-- negsuc n is - (n + 1).
pub data ℤ : Type 0 where
  pos : ℕ → ℤ
  negsuc : ℕ → ℤ

-- The w-bit integer that a word of w bits is, in two's complement.
unfoldable pub to_signed : ℕ → ℕ → ℤ
to_signed w v = if ltb v (2 ^ (w - 1)) then pos v else negsuc (2 ^ w - 1 - v)

pub record Options : Type 0 where
  pub channel_mode : ChannelMode
  pub max_split_channels : ℕ
  pub max_decoded_bytes : ℕ

abbrev pub is_split : ChannelMode → Bool
is_split ChannelMode.split = true
is_split ChannelMode.unset = false
is_split ChannelMode.downmix = false
is_split ChannelMode.first = false

abbrev pub is_first : ChannelMode → Bool
is_first ChannelMode.first = true
is_first ChannelMode.unset = false
is_first ChannelMode.downmix = false
is_first ChannelMode.split = false

-- splitChannels
unfoldable pub split_channels : Options → ℕ → Answer ℕ
split_channels o n =
    if is_split o.channel_mode && ltb 1 n
    then if ltb 0 o.max_split_channels && ltb o.max_split_channels n
      then err Code.invalid_request
      else ok n
    else ok 1

-- checkDecodedBytes
unfoldable pub check_decoded_bytes : Options → ℕ → ℕ → Option Code
check_decoded_bytes o frames channels =
    if ltb 0 o.max_decoded_bytes && ltb o.max_decoded_bytes (frames * channels * 4)
    then some Code.file_too_large
    else none
