-- ===== src/Itn/Russian/Tables.antt =====
-- internal/postproc/itn/ru.go: the word tables and the tests on single words.
use Prim.Native.String.{String, ◌++◌ as append}
use text.Mathlib.Text.{◌==◌ as same_text}
use nano_asr.Prelude.{
  ℕ, zero, suc, ◌/◌, ◌%◌, ◌||◌, Bool, List, [], ◌∷◌, Option, none, some, ltb, get_or, if◌then◌else◌,
}
use nano_asr.Itn.Numbers.{Token, trim_punct, find_word, units}

pub record Match : Type 0 where
  pub text : String
  pub count : ℕ

-- The decimal digits of a number below 2 ^ 63, of which there are at most 19.
unfoldable pub digit_text : ℕ → String
digit_text d = get_or ("0" ∷ "1" ∷ "2" ∷ "3" ∷ "4" ∷ "5" ∷ "6" ∷ "7" ∷ "8" ∷ "9" ∷ []) d ""

unfoldable pub digits_text : ℕ → ℕ → String
unfolding digit_text
digits_text zero n = ""
digits_text (suc f) n =
    let before : String = digits_text f (n / 10) in
    if ltb n 10 then digit_text n else append before (digit_text (n % 10))

-- strconv.FormatInt(n, 10)
unfoldable pub format_int : ℕ → String
unfolding digits_text
format_int n = digits_text 19 n

abbrev pub tail_of : Option Token → String
tail_of none = ""
tail_of (some t) = (trim_punct t.text).1

unfoldable pub currency : List (String × String)
currency =
    ("рубль", "руб.")
    ∷ ("рубля", "руб.")
    ∷ ("рублей", "руб.")
    ∷ ("рублю", "руб.")
    ∷ ("рублями", "руб.")
    ∷ ("копейка", "коп.")
    ∷ ("копейки", "коп.")
    ∷ ("копеек", "коп.")
    ∷ ("доллар", "$")
    ∷ ("доллара", "$")
    ∷ ("долларов", "$")
    ∷ ("евро", "€")
    ∷ ("тенге", "₸")
    ∷ []

unfoldable pub months : List (String × ℕ)
months =
    ("января", 1)
    ∷ ("февраля", 2)
    ∷ ("марта", 3)
    ∷ ("апреля", 4)
    ∷ ("мая", 5)
    ∷ ("июня", 6)
    ∷ ("июля", 7)
    ∷ ("августа", 8)
    ∷ ("сентября", 9)
    ∷ ("октября", 10)
    ∷ ("ноября", 11)
    ∷ ("декабря", 12)
    ∷ []

unfoldable pub day_ordinals : List (String × ℕ)
day_ordinals =
    ("первое", 1)
    ∷ ("первого", 1)
    ∷ ("второе", 2)
    ∷ ("второго", 2)
    ∷ ("третье", 3)
    ∷ ("третьего", 3)
    ∷ ("четвёртое", 4)
    ∷ ("четвертое", 4)
    ∷ ("четвёртого", 4)
    ∷ ("четвертого", 4)
    ∷ ("пятое", 5)
    ∷ ("пятого", 5)
    ∷ ("шестое", 6)
    ∷ ("шестого", 6)
    ∷ ("седьмое", 7)
    ∷ ("седьмого", 7)
    ∷ ("восьмое", 8)
    ∷ ("восьмого", 8)
    ∷ ("девятое", 9)
    ∷ ("девятого", 9)
    ∷ ("десятое", 10)
    ∷ ("десятого", 10)
    ∷ ("одиннадцатое", 11)
    ∷ ("одиннадцатого", 11)
    ∷ ("двенадцатое", 12)
    ∷ ("двенадцатого", 12)
    ∷ ("тринадцатое", 13)
    ∷ ("тринадцатого", 13)
    ∷ ("четырнадцатое", 14)
    ∷ ("четырнадцатого", 14)
    ∷ ("пятнадцатое", 15)
    ∷ ("пятнадцатого", 15)
    ∷ ("шестнадцатое", 16)
    ∷ ("шестнадцатого", 16)
    ∷ ("семнадцатое", 17)
    ∷ ("семнадцатого", 17)
    ∷ ("восемнадцатое", 18)
    ∷ ("восемнадцатого", 18)
    ∷ ("девятнадцатое", 19)
    ∷ ("девятнадцатого", 19)
    ∷ ("двадцатое", 20)
    ∷ ("двадцатого", 20)
    ∷ ("тридцатое", 30)
    ∷ ("тридцатого", 30)
    ∷ ("двадцать", 20)
    ∷ ("тридцать", 30)
    ∷ []

unfoldable pub compound_days : List (String × ℕ)
compound_days =
    ("первого", 1)
    ∷ ("второго", 2)
    ∷ ("третьего", 3)
    ∷ ("четвёртого", 4)
    ∷ ("четвертого", 4)
    ∷ ("пятого", 5)
    ∷ ("шестого", 6)
    ∷ ("седьмого", 7)
    ∷ ("восьмого", 8)
    ∷ ("девятого", 9)
    ∷ ("первое", 1)
    ∷ ("второе", 2)
    ∷ ("третье", 3)
    ∷ ("четвёртое", 4)
    ∷ ("четвертое", 4)
    ∷ ("пятое", 5)
    ∷ ("шестое", 6)
    ∷ ("седьмое", 7)
    ∷ ("восьмое", 8)
    ∷ ("девятое", 9)
    ∷ []

unfoldable pub is_percent : String → Bool
is_percent w =
    same_text w "процент"
    || same_text w "процента"
    || same_text w "процентов"
    || same_text w "процентах"

unfoldable pub is_hour : String → Bool
is_hour w = same_text w "час" || same_text w "часа" || same_text w "часов"

unfoldable pub is_minute : String → Bool
is_minute w = same_text w "минута" || same_text w "минуты" || same_text w "минут"

abbrev pub is_symbol : String → Bool
is_symbol u = same_text u "$" || same_text u "€" || same_text u "₸"

abbrev pub ten_days : String → Option ℕ
ten_days w =
    if same_text w "двадцать" then some 20 else if same_text w "тридцать" then some 30 else none

-- A day said with one word; a bare "двадцать" or "тридцать" is none.
unfoldable pub simple_day : String → Option (ℕ × ℕ)
simple_day first = elim (find_word first day_ordinals) [
  | none ↦ none
  | some d ↦ elim (ten_days first) [ some _ ↦ none | none ↦ some (d, 1) ]
]

unfoldable pub pad2 : ℕ → String
unfolding format_int
pad2 n = if ltb n 10 then append "0" (format_int n) else format_int n

-- A word that is one digit of a phone number.
abbrev pub single_digit : String → Option ℕ
single_digit w = elim (find_word w units) [
  | none ↦ none
  | some n ↦ if ltb 9 n then none else some n
]

unfoldable pub is_plus : Token → Bool
is_plus t = same_text (trim_punct t.lower).0 "плюс"

abbrev pub or_else {ℓ} : {A : Type ℓ} → Option A → Option A → Option A
or_else none b = b
or_else (some a) b = some a
