-- ===== src/Audio/Companding.antt =====
-- internal/audio/g711.go: the two companding codecs of telephony.
use Prim.Native.Nat.{bit_xor}
use nano_asr.Prelude.{
  ℕ, zero, suc, ◌+◌, ◌-◌, ◌*◌, ◌/◌, ◌%◌, ◌^◌, ◌≤◌, ◌<◌, ◌≡◌, refl, ◌&&◌, Bool, true, false, leb,
  ◌==◌, if◌then◌else◌, arith, Bool-cases, inl, inr,
}
use nano_asr.Audio.{ℤ, pos, negsuc, to_signed}

-- int16 of a number of the wider int, and of its negative.
unfoldable pub int16 : ℕ → ℤ
unfolding to_signed
int16 n = to_signed 16 (n % 65536)

unfoldable pub int16_of_minus : ℕ → ℤ
unfolding to_signed
int16_of_minus n = to_signed 16 ((65536 - n % 65536) % 65536)

unfoldable pub alaw_to_linear : ℕ → ℤ
unfolding int16 int16_of_minus
alaw_to_linear byte =
    let a : ℕ = bit_xor byte 85 in
    let mantissa : ℕ = a % 16 * 16 in
    let exponent : ℕ = a / 16 % 8 in
    let scaled : ℕ =
      if exponent == 0
      then mantissa + 8
      else if exponent == 1
      then mantissa + 264
      else (mantissa + 264) * 2 ^ (exponent - 1) in
    if leb 128 a then int16 scaled else int16_of_minus scaled

unfoldable pub ulaw_to_linear : ℕ → ℤ
unfolding int16 int16_of_minus
ulaw_to_linear byte =
    let u : ℕ = 255 - byte in
    let mantissa : ℕ = (u % 16 * 8 + 132) * 2 ^ (u / 16 % 8) - 132 in
    if leb 128 u then int16_of_minus mantissa else int16 mantissa

-- The intervals of ITU-T G.711. A code is a sign, one of eight chords and one of sixteen steps in
-- it; a chord's steps are equally wide, and a code stands for the middle of its step.
abbrev pub alaw_width : ℕ → ℕ
alaw_width zero = 16
alaw_width (suc zero) = 16
alaw_width (suc (suc c)) = 2 * alaw_width (suc c)

-- Where a chord begins: each right after the sixteen steps of the one before.
abbrev pub alaw_start : ℕ → ℕ
alaw_start zero = 0
alaw_start (suc c) = alaw_start c + 16 * alaw_width c

abbrev pub ulaw_width : ℕ → ℕ
ulaw_width zero = 8
ulaw_width (suc c) = 2 * ulaw_width c

-- The middle of a chord's first step: the last middle of the chord before lies half a step of
-- either chord away from it.
abbrev pub ulaw_start : ℕ → ℕ
ulaw_start zero = 0
ulaw_start (suc c) = ulaw_start c + 15 * ulaw_width c + (ulaw_width c + ulaw_width (suc c)) / 2

abbrev pub alaw_middle : ℕ → ℕ → ℕ
alaw_middle chord step = alaw_start chord + alaw_width chord * step + alaw_width chord / 2

abbrev pub ulaw_middle : ℕ → ℕ → ℕ
ulaw_middle chord step = ulaw_start chord + ulaw_width chord * step

-- The bytes as they are sent: A-law has every other bit inverted and the sign bit set for a
-- positive sample, mu-law has all bits inverted.
abbrev pub alaw_code : Bool → ℕ → ℕ → ℕ
alaw_code positive chord step = bit_xor ((if positive then 128 else 0) + 16 * chord + step) 85

abbrev pub ulaw_code : Bool → ℕ → ℕ → ℕ
ulaw_code positive chord step = 255 - ((if positive then 0 else 128) + 16 * chord + step)

-- The number of a size and a sign.
abbrev pub signed : Bool → ℕ → ℤ
signed positive zero = pos zero
signed positive (suc n) = if positive then pos (suc n) else negsuc n

abbrev same_int : ℤ → ℤ → Bool
same_int (pos a) (pos b) = a == b
same_int (pos a) (negsuc b) = false
same_int (negsuc a) (pos b) = false
same_int (negsuc a) (negsuc b) = a == b

same_int-≡ : (a b : ℤ) → same_int a b ≡ true → a ≡ b
same_int-≡ (pos a) (pos b) e = ground arith
same_int-≡ (pos a) (negsuc b) e = ground arith
same_int-≡ (negsuc a) (pos b) e = ground arith
same_int-≡ (negsuc a) (negsuc b) e = ground arith

all_below : (ℕ → Bool) → ℕ → Bool
all_below p zero = true
all_below p (suc n) = p n && all_below p n

all_below-at : (p : ℕ → Bool) (n b : ℕ) → all_below p n ≡ true → b < n → p b ≡ true
unfolding all_below
all_below-at p zero b e le = absurd (omega arith)
all_below-at p (suc n) b e le = elim (Bool-cases (b == n)) [
  | inl same ↦ let it : b ≡ n = ground arith in rw it (ground arith)
  | inr other ↦ all_below-at p n b (ground arith) (ground arith)
]

-- Whether a codec takes the code of a chord and a step to its middle, within the given size.
right_at : (ℕ → ℤ) → (ℕ → ℕ → ℕ) → (ℕ → ℕ → ℕ) → Bool → ℕ → ℕ → ℕ → Bool
right_at decode code middle positive most chord step =
    same_int (decode (code chord step)) (signed positive (middle chord step))
    && leb (middle chord step) most

right_below : (ℕ → ℤ) → (ℕ → ℕ → ℕ) → (ℕ → ℕ → ℕ) → Bool → ℕ → Bool
unfolding all_below right_at
right_below decode code middle positive most =
    all_below (λ chord. all_below (λ step. right_at decode code middle positive most chord step) 16)
      8

both : (a b : Bool) → a && b ≡ true → (a ≡ true) × (b ≡ true)
both true true e = (refl, refl)
both true false e = absurd (ground arith)
both false b e = absurd (ground arith)

leb-≤ : (a b : ℕ) → leb a b ≡ true → a ≤ b
leb-≤ a b e = ground arith

right_below-at :
    (decode : ℕ → ℤ) (code middle : ℕ → ℕ → ℕ) (positive : Bool) (most chord step : ℕ)
    → right_below decode code middle positive most ≡ true
    → chord < 8
    → step < 16
    → (decode (code chord step) ≡ signed positive (middle chord step)) × (middle chord step ≤ most)
unfolding right_below right_at
right_below-at decode code middle positive most chord step e hc hs =
    let right : ℕ → ℕ → Bool = right_at decode code middle positive most in
    let row = all_below-at (λ c. all_below (λ s. right c s) 16) 8 chord e hc in
    let cell = all_below-at (λ s. right chord s) 16 step row hs in
    let at = both _ _ cell in (same_int-≡ _ _ at.0, leb-≤ _ _ at.1)

alaw_right :
    (positive : Bool)
    → right_below alaw_to_linear (alaw_code positive) alaw_middle positive 32256 ≡ true
unfolding right_below alaw_to_linear
alaw_right true = refl
alaw_right false = refl

ulaw_right :
    (positive : Bool)
    → right_below ulaw_to_linear (ulaw_code positive) ulaw_middle positive 32124 ≡ true
unfolding right_below ulaw_to_linear
ulaw_right true = refl
ulaw_right false = refl

-- Both codecs take the code of each sign, chord and step to the middle of the interval that G.711
-- gives it, with that sign. The middles are at most 32256 and 32124, so each fits in 16 bits
-- with its sign.
pub companding-middles :
    (positive : Bool) (chord step : ℕ)
    → chord < 8
    → step < 16
    → ((alaw_to_linear (alaw_code positive chord step) ≡ signed positive (alaw_middle chord step))
        × (alaw_middle chord step ≤ 32256))
      × ((ulaw_to_linear (ulaw_code positive chord step) ≡ signed positive (ulaw_middle chord step))
          × (ulaw_middle chord step ≤ 32124))
companding-middles positive chord step hc hs = (
  right_below-at alaw_to_linear (alaw_code positive) alaw_middle positive 32256 chord step
      (alaw_right positive) hc hs,
  right_below-at ulaw_to_linear (ulaw_code positive) ulaw_middle positive 32124 chord step
      (ulaw_right positive) hc hs,
)
