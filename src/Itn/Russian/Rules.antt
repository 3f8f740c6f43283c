-- ===== src/Itn/Russian/Rules.antt =====
-- internal/postproc/itn/ru.go: the six rules and their order.
use Prim.Native.String.{String, ◌++◌ as append}
use nano_asr.Prelude.{
  ℕ, ◌+◌, ◌-◌, ◌&&◌, Bool, List, [], ◌∷◌, Option, none, some, ltb, ◌==◌, get_elem?, drop,
  if◌then◌else◌,
}
use nano_asr.Itn.Numbers.{Token, trim_punct, find_word, joins, joins_prev, parse_number}
use nano_asr.Itn.Russian.Tables.{
  Match, digit_text, format_int, tail_of, currency, months, compound_days, is_percent, is_hour,
  is_minute, is_symbol, ten_days, simple_day, pad2, single_digit, is_plus, or_else,
}

module _ (gap_within : ℕ → ℕ → Bool) where
  -- The token after a number, if it joins.
  unfoldable pub joined_next : List Token → ℕ → Option Token
  joined_next ts n = elim (get_elem? ts (n - 1)) [
    | none ↦ none
    | some last ↦ elim (get_elem? ts n) [
      | none ↦ none
      | some next ↦ if joins gap_within last next then some next else none
    ]
  ]

  unfoldable pub match_plain_number : List Token → Option Match
  unfolding format_int
  match_plain_number ts = elim (parse_number gap_within ts) [
    | none ↦ none
    | some n ↦
        if (n.count == 1) && ltb n.value 10
        then none
        else some (record {
          text = append (format_int n.value) (tail_of (get_elem? ts (n.count - 1)));
          count = n.count;
        })
  ]

  unfoldable pub match_money : List Token → Option Match
  unfolding joined_next format_int
  match_money ts = elim (parse_number gap_within ts) [
    | none ↦ none
    | some n ↦ elim (joined_next ts n.count) [
      | none ↦ none
      | some next ↦
          let (word, tail) = trim_punct next.lower in
          elim (find_word word currency) [
            | none ↦ none
            | some sign ↦
                let amount : String = format_int n.value in
                let text : String =
                  if is_symbol sign then append sign amount else append amount (append " " sign) in
                some (record { text = append text tail; count = n.count + 1 })
          ]
    ]
  ]

  unfoldable pub match_percent : List Token → Option Match
  unfolding joined_next format_int is_percent
  match_percent ts = elim (parse_number gap_within ts) [
    | none ↦ none
    | some n ↦ elim (joined_next ts n.count) [
      | none ↦ none
      | some next ↦
          let (word, tail) = trim_punct next.lower in
          if is_percent word
          then some
              (record { text = append (format_int n.value) (append "%" tail); count = n.count + 1 })
          else none
    ]
  ]

  -- parseDay: the day and how many words it took. `in` is not empty where it is called.
  unfoldable pub parse_day : List Token → Option (ℕ × ℕ)
  unfolding simple_day
  parse_day [] = none
  parse_day (t ∷ []) = simple_day (trim_punct t.lower).0
  parse_day (t ∷ u ∷ ts) =
      let first : String = (trim_punct t.lower).0 in
      elim (ten_days first) [
        | none ↦ simple_day first
        | some tens ↦
            if joins gap_within t u
            then elim (find_word (trim_punct u.lower).0 compound_days) [
              | none ↦ simple_day first
              | some unit ↦ some (tens + unit, 2)
            ]
            else simple_day first
      ]

  unfoldable pub match_date : List Token → Option Match
  unfolding parse_day joined_next format_int
  match_date ts = elim (parse_day ts) [
    | none ↦ none
    | some (day, used) ↦ elim (joined_next ts used) [
      | none ↦ none
      | some next ↦
          let (word, tail) = trim_punct next.lower in
          elim (find_word word months) [
            | none ↦ none
            | some _ ↦ some (record {
              text = append (format_int day) (append " " (append (trim_punct next.text).0 tail));
              count = used + 1;
            })
          ]
    ]
  ]

  -- The minutes of matchTime, from the word after the hours on.
  unfoldable pub match_minutes : List Token → ℕ → ℕ → Option Match
  unfolding joined_next format_int pad2 is_minute
  match_minutes ts hours used = elim (joined_next ts used) [
    | none ↦ none
    | some _ ↦ elim (parse_number gap_within (drop used ts)) [
      | none ↦ none
      | some mins ↦ if ltb 59 mins.value then none else elim (joined_next ts (used + mins.count)) [
        | none ↦ none
        | some next ↦
            let (word, tail) = trim_punct next.lower in
            if is_minute word
            then some (record {
              text = append (format_int hours) (append ":" (append (pad2 mins.value) tail));
              count = used + mins.count + 1;
            })
            else none
      ]
    ]
  ]

  unfoldable pub match_time : List Token → Option Match
  unfolding joined_next match_minutes is_hour
  match_time ts = elim (parse_number gap_within ts) [
    | none ↦ none
    | some hours ↦ if ltb 23 hours.value then none else elim (joined_next ts hours.count) [
      | none ↦ none
      | some next ↦
          if is_hour (trim_punct next.lower).0
          then match_minutes ts hours.value (hours.count + 1)
          else none
    ]
  ]

  -- The loop of matchPhone: how many words were taken, their digits and the last word.
  unfoldable pub phone_digits : Option Token → List Token → ℕ × String × Option Token
  phone_digits prev [] = (0, "", prev)
  phone_digits prev (t ∷ ts) =
      let (n, digits, last) = phone_digits (some t) ts in
      if joins_prev gap_within prev t
      then elim (single_digit (trim_punct t.lower).0) [
        | none ↦ (0, "", prev)
        | some d ↦ (n + 1, append (digit_text d) digits, last)
      ]
      else (0, "", prev)

  unfoldable pub match_phone : List Token → Option Match
  unfolding phone_digits is_plus
  match_phone [] = none
  match_phone (t ∷ ts) =
      if is_plus t
      then (let (n, digits, last) = phone_digits (some t) ts in
          if ltb n 10
          then none
          else some (record { text = append "+" (append digits (tail_of last)); count = n + 1 }))
      else (let (n, digits, last) = phone_digits none (t ∷ ts) in
          if ltb n 10
          then none
          else some (record { text = append digits (tail_of last); count = n }))

  -- ruRules.Match: the first rule that answers.
  unfoldable pub match_russian : List Token → Option Match
  unfolding match_phone match_time match_date match_money match_percent match_plain_number
  match_russian [] = none
  match_russian (t ∷ ts) = or_else (match_phone (t ∷ ts)) (
      or_else (match_time (t ∷ ts)) (
        or_else (match_date (t ∷ ts)) (
          or_else (match_money (t ∷ ts))
            (or_else (match_percent (t ∷ ts)) (match_plain_number (t ∷ ts))))))
