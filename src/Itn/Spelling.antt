-- ===== src/Itn/Spelling.antt =====
-- internal/postproc/itn/ru_numbers.go: how a number is said in Russian words, which is independent of
-- the parser.
pub mod Words
pub mod Steps
pub mod Reading
use mathlib.Core.Path.{subst}
use mathlib.Core.List.{append_assoc, append-nil}
use Prim.Native.String.{String}
use nano_asr.Prelude.{
  ℕ, zero, suc, ◌+◌, ◌*◌, ◌%◌, ◌≤◌, ◌<◌, ◌&&◌, ◌≡◌, refl, sym, ap, ◌∙◌, Bool, true, false, List, [],
  ◌∷◌, ◌++◌, Option, none, some, arith, length-append, ltb, ◌==◌, length, if◌then◌else◌,
}
use nano_asr.Itn.Numbers.{
  Token, Number, Parse, fresh, Class, adds, unit, scale, other, Turn, stops, goes, turn, extend,
  close_number, class_of, trim_punct, is_mark, is_empty, find_word, units, tens, hundreds, scales,
  joins, joins_prev, parse_from, parse_number,
}

-- How Russian says a number below a million millions in the nominative: by groups of three digits,
-- each with its scale.
pub data Digit : Type 0 where
  d1 d2 d3 d4 d5 d6 d7 d8 d9 : Digit

pub data Teen : Type 0 where
  t10 t11 t12 t13 t14 t15 t16 t17 t18 t19 : Teen

pub data Ten : Type 0 where
  t20 t30 t40 t50 t60 t70 t80 t90 : Ten

-- What follows the hundreds of a group.
pub data Small : Type 0 where
  one : Digit → Small
  teen : Teen → Small
  round : Ten → Small
  two : Ten → Digit → Small

pub data Group : Type 0 where
  hundred : Digit → Group
  small : Small → Group
  both : Digit → Small → Group

-- How many of a scale there are; a scale with no number before it stands for one.
pub data Amount : Type 0 where
  bare : Amount
  counted : Group → Amount

-- The milliards, millions, thousands and ones that are said, or that there are none of anything.
pub data Spoken : Type 0 where
  nought : Spoken
  only : Group → Spoken
  thousands : Amount → Option Group → Spoken
  millions : Amount → Option Amount → Option Group → Spoken
  milliards : Amount → Option Amount → Option Amount → Option Group → Spoken

-- The gender of the noun that is counted, with which one and two agree.
pub data Gender : Type 0 where
  masculine feminine neuter : Gender

-- The form of the noun that is counted: after one, after two to four, and after the rest.
pub data Form : Type 0 where
  singular paucal plural : Form

pub data Scale : Type 0 where
  thousand million milliard : Scale

unfoldable pub digit_value : Digit → ℕ
digit_value d1 = 1
digit_value d2 = 2
digit_value d3 = 3
digit_value d4 = 4
digit_value d5 = 5
digit_value d6 = 6
digit_value d7 = 7
digit_value d8 = 8
digit_value d9 = 9

abbrev pub one_word : Gender → String
one_word masculine = "один"
one_word feminine = "одна"
one_word neuter = "одно"

abbrev pub two_word : Gender → String
two_word masculine = "два"
two_word feminine = "две"
two_word neuter = "два"

unfoldable pub digit_word : Gender → Digit → String
digit_word g d1 = one_word g
digit_word g d2 = two_word g
digit_word g d3 = "три"
digit_word g d4 = "четыре"
digit_word g d5 = "пять"
digit_word g d6 = "шесть"
digit_word g d7 = "семь"
digit_word g d8 = "восемь"
digit_word g d9 = "девять"

abbrev pub digit_form : Digit → Form
digit_form d1 = singular
digit_form d2 = paucal
digit_form d3 = paucal
digit_form d4 = paucal
digit_form _ = plural

unfoldable pub hundred_word : Digit → String
hundred_word d1 = "сто"
hundred_word d2 = "двести"
hundred_word d3 = "триста"
hundred_word d4 = "четыреста"
hundred_word d5 = "пятьсот"
hundred_word d6 = "шестьсот"
hundred_word d7 = "семьсот"
hundred_word d8 = "восемьсот"
hundred_word d9 = "девятьсот"

unfoldable pub teen_value : Teen → ℕ
teen_value t10 = 10
teen_value t11 = 11
teen_value t12 = 12
teen_value t13 = 13
teen_value t14 = 14
teen_value t15 = 15
teen_value t16 = 16
teen_value t17 = 17
teen_value t18 = 18
teen_value t19 = 19

unfoldable pub teen_word : Teen → String
teen_word t10 = "десять"
teen_word t11 = "одиннадцать"
teen_word t12 = "двенадцать"
teen_word t13 = "тринадцать"
teen_word t14 = "четырнадцать"
teen_word t15 = "пятнадцать"
teen_word t16 = "шестнадцать"
teen_word t17 = "семнадцать"
teen_word t18 = "восемнадцать"
teen_word t19 = "девятнадцать"

unfoldable pub ten_value : Ten → ℕ
ten_value t20 = 20
ten_value t30 = 30
ten_value t40 = 40
ten_value t50 = 50
ten_value t60 = 60
ten_value t70 = 70
ten_value t80 = 80
ten_value t90 = 90

unfoldable pub ten_word : Ten → String
ten_word t20 = "двадцать"
ten_word t30 = "тридцать"
ten_word t40 = "сорок"
ten_word t50 = "пятьдесят"
ten_word t60 = "шестьдесят"
ten_word t70 = "семьдесят"
ten_word t80 = "восемьдесят"
ten_word t90 = "девяносто"

abbrev pub small_value : Small → ℕ
small_value (one d) = digit_value d
small_value (teen t) = teen_value t
small_value (round t) = ten_value t
small_value (two t d) = ten_value t + digit_value d

abbrev pub small_words : Gender → Small → List String
small_words g (one d) = digit_word g d ∷ []
small_words g (teen t) = teen_word t ∷ []
small_words g (round t) = ten_word t ∷ []
small_words g (two t d) = ten_word t ∷ digit_word g d ∷ []

-- The last word said governs the noun.
abbrev pub small_form : Small → Form
small_form (one d) = digit_form d
small_form (teen t) = plural
small_form (round t) = plural
small_form (two t d) = digit_form d

abbrev pub group_value : Group → ℕ
group_value (hundred d) = digit_value d * 100
group_value (small s) = small_value s
group_value (both d s) = digit_value d * 100 + small_value s

abbrev pub group_words : Gender → Group → List String
group_words g (hundred d) = hundred_word d ∷ []
group_words g (small s) = small_words g s
group_words g (both d s) = hundred_word d ∷ small_words g s

abbrev pub group_form : Group → Form
group_form (hundred d) = plural
group_form (small s) = small_form s
group_form (both d s) = small_form s

abbrev pub scale_value : Scale → ℕ
scale_value thousand = 1000
scale_value million = 1000000
scale_value milliard = 1000000000

abbrev pub scale_gender : Scale → Gender
scale_gender thousand = feminine
scale_gender million = masculine
scale_gender milliard = masculine

unfoldable pub scale_word : Scale → Form → String
scale_word thousand singular = "тысяча"
scale_word thousand paucal = "тысячи"
scale_word thousand plural = "тысяч"
scale_word million singular = "миллион"
scale_word million paucal = "миллиона"
scale_word million plural = "миллионов"
scale_word milliard singular = "миллиард"
scale_word milliard paucal = "миллиарда"
scale_word milliard plural = "миллиардов"

abbrev pub amount_value : Amount → ℕ
amount_value bare = 1
amount_value (counted g) = group_value g

abbrev pub amount_words : Scale → Amount → List String
amount_words c bare = scale_word c singular ∷ []
amount_words c (counted g) = group_words (scale_gender c) g ++ scale_word c (group_form g) ∷ []

abbrev pub ones_value : Option Group → ℕ
ones_value none = 0
ones_value (some g) = group_value g

abbrev pub ones_words : Gender → Option Group → List String
ones_words g none = []
ones_words g (some x) = group_words g x

abbrev pub scaled_value : Option Amount → ℕ
scaled_value none = 0
scaled_value (some a) = amount_value a

abbrev pub scaled_words : Scale → Option Amount → List String
scaled_words c none = []
scaled_words c (some a) = amount_words c a

abbrev pub value : Spoken → ℕ
value nought = 0
value (only g) = group_value g
value (thousands t g) = amount_value t * 1000 + ones_value g
value (millions m t g) = amount_value m * 1000000 + scaled_value t * 1000 + ones_value g
value (milliards b m t g) =
    amount_value b * 1000000000 + scaled_value m * 1000000 + scaled_value t * 1000 + ones_value g

-- The words of a number of things of a gender.
abbrev pub words : Gender → Spoken → List String
words g nought = "ноль" ∷ []
words g (only x) = group_words g x
words g (thousands t x) = amount_words thousand t ++ ones_words g x
words g (millions m t x) = amount_words million m ++ (scaled_words thousand t ++ ones_words g x)
words g (milliards b m t x) =
    amount_words milliard b
    ++ (scaled_words million m ++ (scaled_words thousand t ++ ones_words g x))
