-- ===== src/Itn/Spelling/Words.antt =====
-- internal/postproc/itn/ru_numbers.go: the tables know the words of a spoken number.
use Prim.Native.String.{String}
use nano_asr.Prelude.{◌∷◌, [], length-append, ◌*◌, ◌%◌, ◌<◌, ◌≡◌, refl, true, arith, length}
use nano_asr.Itn.Numbers.{Class, adds, unit, scale, class_of, trim_punct, is_empty}
use nano_asr.Itn.Spelling.{
  Digit, Teen, Ten, Group, digit_value, digit_word, hundred_word, teen_value, teen_word, ten_value,
  ten_word, group_value, group_words, d1, d2, d3, d4, d5, d6, d7, d8, d9, t10, t11, t12, t13, t14,
  t15, t16, t17, t18, t19, t20, t30, t40, t50, t60, t70, t80, t90, one, teen, round, two, hundred,
  small, both, Gender, masculine, feminine, neuter, Form, singular, paucal, plural, Scale, thousand,
  million, milliard, scale_value, scale_word, scale_gender, group_form, Amount, bare, counted,
  amount_words,
}

-- A word without marks, of the given class.
abbrev pub Plain : String → Class → Type 0
Plain w c = (class_of (trim_punct w).0 ≡ c) × (is_empty (trim_punct w).1 ≡ true)

pub digit_word-Plain : (g : Gender) (d : Digit) → Plain (digit_word g d) (unit (digit_value d))
unfolding class_of trim_punct digit_word digit_value
digit_word-Plain masculine d1 = (refl, refl)
digit_word-Plain feminine d1 = (refl, refl)
digit_word-Plain neuter d1 = (refl, refl)
digit_word-Plain masculine d2 = (refl, refl)
digit_word-Plain feminine d2 = (refl, refl)
digit_word-Plain neuter d2 = (refl, refl)
digit_word-Plain g d3 = (refl, refl)
digit_word-Plain g d4 = (refl, refl)
digit_word-Plain g d5 = (refl, refl)
digit_word-Plain g d6 = (refl, refl)
digit_word-Plain g d7 = (refl, refl)
digit_word-Plain g d8 = (refl, refl)
digit_word-Plain g d9 = (refl, refl)

pub hundred_word-Plain : (d : Digit) → Plain (hundred_word d) (adds (digit_value d * 100))
unfolding class_of trim_punct hundred_word digit_value
hundred_word-Plain d1 = (refl, refl)
hundred_word-Plain d2 = (refl, refl)
hundred_word-Plain d3 = (refl, refl)
hundred_word-Plain d4 = (refl, refl)
hundred_word-Plain d5 = (refl, refl)
hundred_word-Plain d6 = (refl, refl)
hundred_word-Plain d7 = (refl, refl)
hundred_word-Plain d8 = (refl, refl)
hundred_word-Plain d9 = (refl, refl)

pub teen_word-Plain : (t : Teen) → Plain (teen_word t) (unit (teen_value t))
unfolding class_of trim_punct teen_word teen_value
teen_word-Plain t10 = (refl, refl)
teen_word-Plain t11 = (refl, refl)
teen_word-Plain t12 = (refl, refl)
teen_word-Plain t13 = (refl, refl)
teen_word-Plain t14 = (refl, refl)
teen_word-Plain t15 = (refl, refl)
teen_word-Plain t16 = (refl, refl)
teen_word-Plain t17 = (refl, refl)
teen_word-Plain t18 = (refl, refl)
teen_word-Plain t19 = (refl, refl)

pub ten_word-Plain : (t : Ten) → Plain (ten_word t) (adds (ten_value t)) × (ten_value t % 10 ≡ 0)
unfolding class_of trim_punct ten_word ten_value
ten_word-Plain t20 = ((refl, refl), refl)
ten_word-Plain t30 = ((refl, refl), refl)
ten_word-Plain t40 = ((refl, refl), refl)
ten_word-Plain t50 = ((refl, refl), refl)
ten_word-Plain t60 = ((refl, refl), refl)
ten_word-Plain t70 = ((refl, refl), refl)
ten_word-Plain t80 = ((refl, refl), refl)
ten_word-Plain t90 = ((refl, refl), refl)

pub nought-Plain : Plain "ноль" (unit 0)
unfolding class_of trim_punct
nought-Plain = (refl, refl)

pub scale_word-Plain : (c : Scale) (f : Form) → Plain (scale_word c f) (scale (scale_value c))
unfolding class_of trim_punct scale_word
scale_word-Plain thousand singular = (refl, refl)
scale_word-Plain thousand paucal = (refl, refl)
scale_word-Plain thousand plural = (refl, refl)
scale_word-Plain million singular = (refl, refl)
scale_word-Plain million paucal = (refl, refl)
scale_word-Plain million plural = (refl, refl)
scale_word-Plain milliard singular = (refl, refl)
scale_word-Plain milliard paucal = (refl, refl)
scale_word-Plain milliard plural = (refl, refl)

pub digit_value_pos : (d : Digit) → 0 < digit_value d
unfolding digit_value
digit_value_pos d = ground arith

pub teen_value_pos : (t : Teen) → 0 < teen_value t
unfolding teen_value
teen_value_pos t = ground arith

pub ten_value_pos : (t : Ten) → 0 < ten_value t
unfolding ten_value
ten_value_pos t = ground arith

pub group_value_pos : (g : Group) → 0 < group_value g
group_value_pos (hundred d) = omega (arith, digit_value_pos d)
group_value_pos (small (one d)) = digit_value_pos d
group_value_pos (small (teen t)) = teen_value_pos t
group_value_pos (small (round t)) = ten_value_pos t
group_value_pos (small (two t d)) = omega (arith, digit_value_pos d)
group_value_pos (both d s) = omega (arith, digit_value_pos d)

pub group_words_pos : (g : Gender) (x : Group) → 0 < length (group_words g x)
group_words_pos g (hundred d) = omega arith
group_words_pos g (small (one d)) = omega arith
group_words_pos g (small (teen t)) = omega arith
group_words_pos g (small (round t)) = omega arith
group_words_pos g (small (two t d)) = omega arith
group_words_pos g (both d m) = omega arith

pub amount_words_pos : (c : Scale) (a : Amount) → 0 < length (amount_words c a)
amount_words_pos c bare = omega arith
amount_words_pos c (counted x) =
    omega (arith, length-append (group_words (scale_gender c) x) (scale_word c (group_form x) ∷ []))
