-- ===== src/Itn/Numbers.antt =====
-- internal/postproc/itn/ru_numbers.go: Russian number words and the longest number at the start.
--
-- A text is a list of characters, so trimPunct, which looks at bytes below 0x80, looks at the same
-- marks. The comparison of a pause with MaxGap is one of float64 values and is given. Numbers are
-- not wrapped at 2 ^ 63: Itn/Bounds.antt says how far they go.
use Prim.Native.Char.{Char, code}
use Prim.Native.String.{String}
use text.Mathlib.Text.{◌==◌ as same_text}
use nano_asr.Prelude.{
  ℕ, ◌+◌, ◌*◌, ◌%◌, ◌&&◌, ◌||◌, Bool, true, false, List, [], ◌∷◌, Option, none, some, ltb, ◌==◌,
  if◌then◌else◌,
}

pub record Token : Type 0 where
  pub text : String
  pub lower : String
  pub start : ℕ
  pub end : ℕ

unfoldable pub is_mark : Char → Bool
is_mark c =
    code c == b'.'
    || code c == b','
    || code c == b'!'
    || code c == b'?'
    || code c == b';'
    || code c == b':'

abbrev pub is_empty : String → Bool
is_empty String.[] = true
is_empty (String.◌∷◌ c s) = false

-- trimPunct: the word and the marks at its end.
unfoldable pub trim_punct : String → String × String
unfolding is_mark
trim_punct String.[] = ("", "")
trim_punct (String.◌∷◌ c s) =
    let (word, tail) = trim_punct s in
    if is_empty word && is_mark c then ("", String.◌∷◌ c tail) else (String.◌∷◌ c word, tail)

-- m[k] of a map from words.
unfoldable pub find_word {ℓ} : {V : Type ℓ} → String → List (String × V) → Option V
find_word k [] = none
find_word k ((j, v) ∷ m) = if same_text j k then some v else find_word k m

abbrev pub or_zero : Option ℕ → ℕ
or_zero none = 0
or_zero (some n) = n

unfoldable pub units : List (String × ℕ)
units =
    ("ноль", 0)
    ∷ ("нуль", 0)
    ∷ ("один", 1)
    ∷ ("одна", 1)
    ∷ ("одно", 1)
    ∷ ("одного", 1)
    ∷ ("одной", 1)
    ∷ ("одним", 1)
    ∷ ("два", 2)
    ∷ ("две", 2)
    ∷ ("двух", 2)
    ∷ ("двум", 2)
    ∷ ("двумя", 2)
    ∷ ("три", 3)
    ∷ ("трёх", 3)
    ∷ ("трех", 3)
    ∷ ("трём", 3)
    ∷ ("трем", 3)
    ∷ ("тремя", 3)
    ∷ ("четыре", 4)
    ∷ ("четырёх", 4)
    ∷ ("четырех", 4)
    ∷ ("четырём", 4)
    ∷ ("четырем", 4)
    ∷ ("четырьмя", 4)
    ∷ ("пять", 5)
    ∷ ("пяти", 5)
    ∷ ("пятью", 5)
    ∷ ("шесть", 6)
    ∷ ("шести", 6)
    ∷ ("шестью", 6)
    ∷ ("семь", 7)
    ∷ ("семи", 7)
    ∷ ("семью", 7)
    ∷ ("восемь", 8)
    ∷ ("восьми", 8)
    ∷ ("восемью", 8)
    ∷ ("восьмью", 8)
    ∷ ("девять", 9)
    ∷ ("девяти", 9)
    ∷ ("девятью", 9)
    ∷ ("десять", 10)
    ∷ ("десяти", 10)
    ∷ ("десятью", 10)
    ∷ ("одиннадцать", 11)
    ∷ ("одиннадцати", 11)
    ∷ ("двенадцать", 12)
    ∷ ("двенадцати", 12)
    ∷ ("тринадцать", 13)
    ∷ ("тринадцати", 13)
    ∷ ("четырнадцать", 14)
    ∷ ("четырнадцати", 14)
    ∷ ("пятнадцать", 15)
    ∷ ("пятнадцати", 15)
    ∷ ("шестнадцать", 16)
    ∷ ("шестнадцати", 16)
    ∷ ("семнадцать", 17)
    ∷ ("семнадцати", 17)
    ∷ ("восемнадцать", 18)
    ∷ ("восемнадцати", 18)
    ∷ ("девятнадцать", 19)
    ∷ ("девятнадцати", 19)
    ∷ []

unfoldable pub tens : List (String × ℕ)
tens =
    ("двадцать", 20)
    ∷ ("двадцати", 20)
    ∷ ("тридцать", 30)
    ∷ ("тридцати", 30)
    ∷ ("сорок", 40)
    ∷ ("сорока", 40)
    ∷ ("пятьдесят", 50)
    ∷ ("пятидесяти", 50)
    ∷ ("шестьдесят", 60)
    ∷ ("шестидесяти", 60)
    ∷ ("семьдесят", 70)
    ∷ ("семидесяти", 70)
    ∷ ("восемьдесят", 80)
    ∷ ("восьмидесяти", 80)
    ∷ ("девяносто", 90)
    ∷ ("девяноста", 90)
    ∷ []

unfoldable pub hundreds : List (String × ℕ)
hundreds =
    ("сто", 100)
    ∷ ("ста", 100)
    ∷ ("двести", 200)
    ∷ ("двухсот", 200)
    ∷ ("двумстам", 200)
    ∷ ("триста", 300)
    ∷ ("трёхсот", 300)
    ∷ ("трехсот", 300)
    ∷ ("четыреста", 400)
    ∷ ("четырёхсот", 400)
    ∷ ("четырехсот", 400)
    ∷ ("пятьсот", 500)
    ∷ ("пятисот", 500)
    ∷ ("шестьсот", 600)
    ∷ ("шестисот", 600)
    ∷ ("семьсот", 700)
    ∷ ("семисот", 700)
    ∷ ("восемьсот", 800)
    ∷ ("восьмисот", 800)
    ∷ ("девятьсот", 900)
    ∷ ("девятисот", 900)
    ∷ []

unfoldable pub scales : List (String × ℕ)
scales =
    ("тысяча", 1000)
    ∷ ("тысячи", 1000)
    ∷ ("тысяч", 1000)
    ∷ ("тысячу", 1000)
    ∷ ("тысячей", 1000)
    ∷ ("миллион", 1000000)
    ∷ ("миллиона", 1000000)
    ∷ ("миллионов", 1000000)
    ∷ ("миллиард", 1000000000)
    ∷ ("миллиарда", 1000000000)
    ∷ ("миллиардов", 1000000000)
    ∷ []

-- What a word is to parseNumber, in the order in which the switch looks.
pub data Class : Type 0 where
  adds : ℕ → Class
  unit : ℕ → Class
  scale : ℕ → Class
  other : Class

unfoldable pub class_of : String → Class
unfolding find_word hundreds tens units scales
class_of w =
    let h : ℕ = or_zero (find_word w hundreds) in
    let t : ℕ = or_zero (find_word w tens) in
    let s : ℕ = or_zero (find_word w scales) in
    if ltb 0 h
    then adds h
    else if ltb 0 t
    then adds t
    else elim (find_word w units) [ some n ↦ unit n | none ↦ if ltb 0 s then scale s else other ]

pub record Number : Type 0 where
  pub value : ℕ
  pub count : ℕ

-- The variables of the loop; `at` is its index.
pub record Parse : Type 0 where
  pub at : ℕ
  pub total : ℕ
  pub group : ℕ
  pub consumed : ℕ
  pub saw_any : Bool
  pub saw_group : Bool

abbrev pub fresh : Parse
fresh = record { at = 0; total = 0; group = 0; consumed = 0; saw_any = false; saw_group = false }

-- closeNumber
unfoldable pub close_number : Parse → Option Number
close_number s =
    if s.saw_any && ltb 0 s.consumed
    then some (record { value = s.total + s.group; count = s.consumed })
    else none

-- What one turn of the loop ends in.
pub data Turn : Type 0 where
  stops : Option Number → Turn
  goes : Parse → Turn

-- The end of a turn that added to the group; a mark ends the run.
abbrev pub extend : Parse → ℕ → Bool → Turn
extend s n marked =
    let t : Parse = record s {
      at = s.at + 1;
      group = s.group + n;
      consumed = s.at + 1;
      saw_any = true;
      saw_group = true;
    } in
    if marked then stops (close_number t) else goes t

unfoldable pub turn : Parse → Class → Bool → Turn
unfolding close_number
turn s (adds n) marked = extend s n marked
turn s (unit n) marked =
    if s.saw_group && ltb 0 (s.group % 10) then stops none else extend s n marked
turn s (scale n) marked =
    let group : ℕ = if s.group == 0 then 1 else s.group in
    let t : Parse = record s {
      at = s.at + 1;
      total = s.total + group * n;
      group = 0;
      consumed = s.at + 1;
      saw_any = true;
      saw_group = false;
    } in
    if marked then stops (close_number t) else goes t
turn s other marked = stops (close_number s)

module _ (gap_within : ℕ → ℕ → Bool) where
  -- joins, on the end of one token and the start of the next
  abbrev pub joins : Token → Token → Bool
  joins prev next = gap_within prev.end next.start

  abbrev pub joins_prev : Option Token → Token → Bool
  joins_prev none t = true
  joins_prev (some prev) t = joins prev t

  unfoldable pub parse_from : Parse → Option Token → List Token → Option Number
  unfolding turn close_number class_of trim_punct
  parse_from s prev [] = close_number s
  parse_from s prev (t ∷ ts) = elim (joins_prev prev t) [
    | false ↦ close_number s
    | true ↦
        let (word, mark) = trim_punct t.lower in
        elim (turn s (class_of word) (if is_empty mark then false else true)) [
          | stops r ↦ r
          | goes s' ↦ parse_from s' (some t) ts
        ]
  ]

  -- parseNumber
  unfoldable pub parse_number : List Token → Option Number
  unfolding parse_from
  parse_number ts = parse_from fresh none ts
