-- ===== src/Itn/Spelling/Reading.antt =====
-- internal/postproc/itn/ru_numbers.go: a number that is said in words is read as that number.
use mathlib.Core.Path.{subst}
use mathlib.Core.List.{append-nil}
use Prim.Native.String.{String}
use nano_asr.Prelude.{
  ℕ, suc, ◌+◌, ◌*◌, ◌%◌, ◌<◌, ◌≡◌, refl, sym, ap, ◌∙◌, Bool, true, false, List, [], ◌∷◌, ◌++◌,
  Option, none, some, arith, length-append, length, ◌==◌, if◌then◌else◌,
}
use nano_asr.Itn.Numbers.{Token, Parse, fresh, close_number, parse_from, parse_number}
use nano_asr.Itn.Spelling.{
  Small, Group, Amount, Spoken, Gender, Scale, digit_value, digit_word, hundred_word, teen_value,
  teen_word, ten_value, ten_word, small_value, small_words, group_value, group_words, group_form,
  ones_value, ones_words, amount_value, amount_words, scaled_value, scaled_words, scale_value,
  scale_word, scale_gender, value, words, one, teen, round, two, hundred, small, both, bare,
  counted, nought, only, thousands, millions, milliards, singular, thousand, million, milliard,
}
use nano_asr.Itn.Spelling.Words.{
  digit_word-Plain, hundred_word-Plain, teen_word-Plain, ten_word-Plain, scale_word-Plain,
  nought-Plain, group_value_pos, group_words_pos, amount_words_pos,
}
use nano_asr.Itn.Spelling.Steps.{
  Says, Reads, Comes, Reads-append, add-Comes, unit-Comes, scale-Comes, Comes-append,
}

module _ (gap_within : ℕ → ℕ → Bool) where
  small-Comes :
      (g : Gender) (m : Small) (s : Parse)
      → s.group % 10 ≡ 0
      → Comes gap_within (small_words g m) s s.total (s.group + small_value m) true
  small-Comes g (one d) s even =
      unit-Comes gap_within (digit_word g d) (digit_value d) s (digit_word-Plain g d) even
  small-Comes g (teen t) s even =
      unit-Comes gap_within (teen_word t) (teen_value t) s (teen_word-Plain t) even
  small-Comes g (round t) s even =
      add-Comes gap_within (ten_word t) (ten_value t) s (ten_word-Plain t).0
  small-Comes g (two t d) s even =
      Comes-append gap_within (ten_word t ∷ []) (digit_word g d ∷ []) s s.total
        (s.group + ten_value t) s.total (s.group + (ten_value t + digit_value d)) true true
        (add-Comes gap_within (ten_word t) (ten_value t) s (ten_word-Plain t).0)
        (λ s' total group consumed any.
          let c =
            unit-Comes gap_within (digit_word g d) (digit_value d) s' (digit_word-Plain g d)
              (omega (arith, group, (ten_word-Plain t).1)) in
          (c.0, c.1, c.2 ∙ total, c.3 ∙ omega (arith, group), c.4, c.5, c.6, c.7))

  group-Comes :
      (g : Gender) (x : Group) (s : Parse)
      → s.group ≡ 0
      → Comes gap_within (group_words g x) s s.total (group_value x) true
  group-Comes g (hundred d) s empty =
      let c =
        add-Comes gap_within (hundred_word d) (digit_value d * 100) s (hundred_word-Plain d) in
      (c.0, c.1, c.2, c.3 ∙ omega (arith, empty), c.4, c.5, c.6, c.7)
  group-Comes g (small m) s empty =
      let c = small-Comes g m s (omega (arith, empty)) in
      (c.0, c.1, c.2, c.3 ∙ omega (arith, empty), c.4, c.5, c.6, c.7)
  group-Comes g (both d m) s empty =
      Comes-append gap_within (hundred_word d ∷ []) (small_words g m) s s.total
        (s.group + digit_value d * 100) s.total (digit_value d * 100 + small_value m) true true
        (add-Comes gap_within (hundred_word d) (digit_value d * 100) s (hundred_word-Plain d))
        (λ s' total group consumed any.
          let c = small-Comes g m s' (omega (arith, group, empty)) in
          (c.0, c.1, c.2 ∙ total, c.3 ∙ omega (arith, group, empty), c.4, c.5, c.6, c.7))

  -- A scale after nothing counts once.
  amount-Comes :
      (c : Scale) (a : Amount) (s : Parse)
      → s.group ≡ 0
      → Comes gap_within (amount_words c a) s (s.total + amount_value a * scale_value c) 0 false
  amount-Comes c bare s empty =
      scale-Comes gap_within (scale_word c singular) (scale_value c) 1 s
        (scale_word-Plain c singular) (rw empty refl)
  amount-Comes c (counted x) s empty =
      let g = scale_gender c in
      let w = scale_word c (group_form x) in
      let n = scale_value c in
      Comes-append gap_within (group_words g x) (w ∷ []) s s.total (group_value x)
        (s.total + group_value x * n) 0 true false (group-Comes g x s empty)
        (λ s' total group consumed any.
          let many : (if s'.group == 0 then 1 else s'.group) ≡ group_value x =
            ground (arith, group, group_value_pos x) in
          let r =
            scale-Comes gap_within w n (group_value x) s' (scale_word-Plain c (group_form x))
              many in
          (r.0, r.1, r.2 ∙ cc total, r.3, r.4, r.5, r.6, r.7))

  -- What may be missing leaves the state as it is, when something was said before.
  abbrev Rest : List String → ℕ → ℕ → Type 0
  Rest ws t g =
      (s : Parse)
      → s.group ≡ 0
      → s.consumed ≡ s.at
      → s.saw_any ≡ true
      → (s' : Parse) × Reads gap_within ws s s'
        × (s'.total ≡ s.total + t)
        × (s'.group ≡ g)
        × (s'.at ≡ s.at + length ws)
        × (s'.consumed ≡ s'.at)
        × (s'.saw_any ≡ true)

  ones_words-Rest : (g : Gender) (o : Option Group) → Rest (ones_words g o) 0 (ones_value o)
  ones_words-Rest g none s empty consumed any = (
    s,
    (λ prev ts more says. (prev, ts, says, refl)),
    omega arith,
    empty,
    omega arith,
    consumed,
    any,
  )
  ones_words-Rest g (some x) s empty consumed any =
      let (s', reads, total, group, at, consumed', any', _) = group-Comes g x s empty in
      (s', reads, omega (arith, total), group, at, consumed', any')

  -- An amount of a scale and what follows it, said at any point or as the first.
  amount_words-Rest :
      (c : Scale) (a : Amount) (vs : List String) (t g : ℕ) (s : Parse)
      → Rest vs t g
      → s.group ≡ 0
      → (s' : Parse) × Reads gap_within (amount_words c a ++ vs) s s'
        × (s'.total ≡ s.total + (amount_value a * scale_value c + t))
        × (s'.group ≡ g)
        × (s'.at ≡ s.at + length (amount_words c a ++ vs))
        × (s'.consumed ≡ s'.at)
        × (s'.saw_any ≡ true)
  amount_words-Rest c a vs t g s rest empty =
      let (s1, reads, total, group, at, consumed1, any1, _) = amount-Comes c a s empty in
      let (s2, reads', total', group', at', consumed2, any2) = rest s1 group consumed1 any1 in
      (
        s2,
        Reads-append gap_within (amount_words c a) vs s s1 s2 reads reads',
        omega (arith, total, total'),
        group',
        omega (arith, at, at', length-append (amount_words c a) vs),
        consumed2,
        any2,
      )

  scaled_words-Rest :
      (c : Scale) (o : Option Amount) (vs : List String) (t g : ℕ)
      → Rest vs t g
      → Rest (scaled_words c o ++ vs) (scaled_value o * scale_value c + t) g
  scaled_words-Rest c none vs t g rest s empty consumed any =
      let (s', reads, total, group, at, consumed', any') = rest s empty consumed any in
      (s', reads, total ∙ omega arith, group, at, consumed', any')
  scaled_words-Rest c (some a) vs t g rest s empty consumed any =
      amount_words-Rest c a vs t g s rest empty

  length-Says :
      (prev : Option Token) (ts : List Token) (ws : List String)
      → Says gap_within prev ts ws
      → length ts ≡ length ws
  length-Says prev [] [] a = refl
  length-Says prev [] (w ∷ ws) a = elim a [ ]
  length-Says prev (t ∷ ts) [] a = elim a [ ]
  length-Says prev (t ∷ ts) (w ∷ ws) a = ap suc (length-Says (some t) ts ws a.2)

  ends :
      (ts : List Token) (ws : List String) (n : ℕ) (s : Parse)
      → Says gap_within none ts ws
      → Reads gap_within ws fresh s
      → s.total + s.group ≡ n
      → s.at ≡ length ws
      → 0 < length ws
      → s.consumed ≡ s.at
      → s.saw_any ≡ true
      → parse_number gap_within ts ≡ some (record { value = n; count = length ts })
  unfolding parse_number parse_from close_number
  ends ts ws n s says reads sum at pos consumed any =
      let (prev, left, says', e) =
        reads none ts [] (subst (Says gap_within none ts) (sym (append-nil ws)) says) in
      e ∙ closed prev left says' (sum, consumed ∙ at ∙ sym (length-Says none ts ws says))
    where
      closed :
          (prev : Option Token) (left : List Token)
          → Says gap_within prev left []
          → (s.total + s.group ≡ n) × (s.consumed ≡ length ts)
          → parse_from gap_within s prev left ≡ some (record { value = n; count = length ts })
      closed prev [] a f = ground (arith, at, pos)
      closed prev (t ∷ left) a f = elim a [ ]

  amount_ends :
      (n factor : ℕ) (c : Scale) (a : Amount) (vs : List String) (t g : ℕ) (ts : List Token)
      → scale_value c ≡ factor
      → amount_value a * factor + t + g ≡ n
      → Says gap_within none ts (amount_words c a ++ vs)
      → Rest vs t g
      → parse_number gap_within ts ≡ some (record { value = n; count = length ts })
  amount_ends n factor c a vs t g ts same sum says rest =
      let (s, reads, total, group, at, consumed, any) =
        amount_words-Rest c a vs t g fresh rest refl in
      let ws = amount_words c a ++ vs in
      let times : amount_value a * scale_value c ≡ amount_value a * factor =
        ap (λ k. amount_value a * k) same in
      let pos : 0 < length ws =
        omega (arith, amount_words_pos c a, length-append (amount_words c a) vs) in
      ends ts ws n s says reads (omega (arith, total, times, group, sum)) (omega (arith, at)) pos
        consumed any

  -- A number below a million millions that is said in the nominative is read as that number and
  -- takes every word of it, if the words bear no marks and follow one another without a long pause.
  -- It is said by groups of three digits: one and two agree with the noun that is counted, the
  -- scale of a group has the form that the last word of the group asks for, and a scale alone
  -- stands for one of it.
  pub parse_number-words :
      (gender : Gender) (n : Spoken) (ts : List Token)
      → Says gap_within none ts (words gender n)
      → parse_number gap_within ts ≡ some (record { value = value n; count = length ts })
  parse_number-words gender nought ts says =
      let (s, reads, total, group, at, consumed, any, _) =
        unit-Comes gap_within "ноль" 0 fresh nought-Plain refl in
      ends ts ("ноль" ∷ []) 0 s says reads (omega (arith, total, group)) (omega (arith, at))
        (omega arith) consumed any
  parse_number-words gender (only x) ts says =
      let (s, reads, total, group, at, consumed, any, _) = group-Comes gender x fresh refl in
      ends ts (group_words gender x) (group_value x) s says reads (omega (arith, total, group))
        (omega (arith, at)) (group_words_pos gender x) consumed any
  parse_number-words gender (thousands t o) ts says =
      amount_ends (value (thousands t o)) 1000 thousand t (ones_words gender o) 0 (ones_value o) ts
        refl (omega arith) says (ones_words-Rest gender o)
  parse_number-words gender (millions m t o) ts says =
      let low = scaled_words thousand t ++ ones_words gender o in
      amount_ends (value (millions m t o)) 1000000 million m low (scaled_value t * 1000 + 0)
        (ones_value o) ts refl (omega arith) says
        (scaled_words-Rest thousand t (ones_words gender o) 0 (ones_value o)
          (ones_words-Rest gender o))
  parse_number-words gender (milliards b m t o) ts says =
      let low = scaled_words thousand t ++ ones_words gender o in
      let below = scaled_value t * 1000 + 0 in
      amount_ends (value (milliards b m t o)) 1000000000 milliard b (scaled_words million m ++ low)
        (scaled_value m * 1000000 + below) (ones_value o) ts refl (omega arith) says
        (scaled_words-Rest million m low below (ones_value o) (
          scaled_words-Rest thousand t (ones_words gender o) 0 (ones_value o)
            (ones_words-Rest gender o)))
