-- ===== src/Itn/Runs.antt =====
-- internal/postproc/itn/ru.go: every rule takes a run of joined words from the start.
use mathlib.Core.Path.{subst}
use nano_asr.Prelude.{
  ℕ, zero, suc, ◌+◌, ◌-◌, ◌<◌, ◌&&◌, ◌≡◌, refl, sym, ap, ◌∙◌, Bool, List, [], ◌∷◌, Option, none,
  some, arith, ltb, ◌==◌, get_elem?, drop, Bool-cases, Option-cases, inl, inr,
}
use Prim.Native.String.{String}
use nano_asr.Itn.Numbers.{Token, Number, trim_punct, find_word, joins, joins_prev, parse_number}
use nano_asr.Itn.Linked.{Linked, Linked-snoc, Linked-append, parse_number-Linked}
use nano_asr.Itn.Russian.Tables.{
  Match, currency, is_percent, ten_days, simple_day, compound_days, day_ordinals, months, is_minute,
  is_hour, single_digit, is_plus, or_else,
}
use nano_asr.Itn.Russian.Rules.{
  joined_next, match_plain_number, match_money, match_percent, parse_day, match_date, match_minutes,
  match_time, phone_digits, match_phone, match_russian,
}

module _ (gap_within : ℕ → ℕ → Bool) where
  -- A match takes at least one token, and the tokens it takes are there and joined.
  abbrev pub Taken : List Token → Option Match → Type 0
  Taken ts none = Unit {0}
  Taken ts (some m) = (0 < m.count) × Linked gap_within none m.count ts

  abbrev Run : List Token → ℕ → Type 0
  Run ts n = (0 < n) × Linked gap_within none n ts

  parse_number-Run :
      (ts : List Token) (n : Number) → parse_number gap_within ts ≡ some n → Run ts n.count
  parse_number-Run ts n e = parse_number-Linked gap_within ts n e

  -- The token after a run, if it joins, makes a longer run.
  joined_next-Run :
      (ts : List Token) (n : ℕ) (next : Token)
      → joined_next gap_within ts n ≡ some next
      → Run ts n
      → Run ts (n + 1)
  unfolding joined_next
  joined_next-Run ts zero next e r = absurd (omega arith)
  joined_next-Run ts (suc n) next e r = elim (Option-cases (get_elem? ts (suc n - 1))) [
    | inl missing ↦ absurd (ground arith)
    | inr (last, there) ↦ elim (Option-cases (get_elem? ts (suc n))) [
      | inl missing ↦ absurd (ground arith)
      | inr (t, here) ↦ elim (Bool-cases (joins gap_within last t)) [
        | inr pause ↦ absurd (ground arith)
        | inl on ↦
            let m : suc n - 1 ≡ n = omega arith in
            let last_one : get_elem? ts n ≡ some last = ap (λ i. get_elem? ts i) (sym m) ∙ there in
            let size : suc (suc n) ≡ suc n + 1 = omega arith in
            (
              omega arith,
              subst (λ k. Linked gap_within none k ts) size
                  (Linked-snoc gap_within none n ts last t r.1 last_one here on),
            )
      ]
    ]
  ]

  match_plain_number-Taken : (ts : List Token) → Taken ts (match_plain_number gap_within ts)
  unfolding match_plain_number
  match_plain_number-Taken ts = elim (Option-cases (parse_number gap_within ts)) [
    | inl nothing ↦ rw (nothing, match_plain_number) tt
    | inr (n, parsed) ↦ elim (Bool-cases ((n.count == 1) && ltb n.value 10)) [
      | inl small ↦ rw (parsed, small, match_plain_number) tt
      | inr large ↦ rw (parsed, large, match_plain_number) (parse_number-Run ts n parsed)
    ]
  ]

  match_money-Taken : (ts : List Token) → Taken ts (match_money gap_within ts)
  unfolding match_money
  match_money-Taken ts = elim (Option-cases (parse_number gap_within ts)) [
    | inl nothing ↦ rw (nothing, match_money) tt
    | inr (n, parsed) ↦ elim (Option-cases (joined_next gap_within ts n.count)) [
      | inl nothing ↦ rw (parsed, nothing, match_money) tt
      | inr (next, on) ↦ elim (Option-cases (find_word (trim_punct next.lower).0 currency)) [
        | inl nothing ↦ rw (parsed, on, nothing, match_money) tt
        | inr (sign, known) ↦
            rw (parsed, on, known, match_money)
              (joined_next-Run ts n.count next on (parse_number-Run ts n parsed))
      ]
    ]
  ]

  match_percent-Taken : (ts : List Token) → Taken ts (match_percent gap_within ts)
  unfolding match_percent
  match_percent-Taken ts = elim (Option-cases (parse_number gap_within ts)) [
    | inl nothing ↦ rw (nothing, match_percent) tt
    | inr (n, parsed) ↦ elim (Option-cases (joined_next gap_within ts n.count)) [
      | inl nothing ↦ rw (parsed, nothing, match_percent) tt
      | inr (next, on) ↦ elim (Bool-cases (is_percent (trim_punct next.lower).0)) [
        | inr other ↦ rw (parsed, on, other, match_percent) tt
        | inl known ↦
            rw (parsed, on, known, match_percent)
              (joined_next-Run ts n.count next on (parse_number-Run ts n parsed))
      ]
    ]
  ]

  simple_day-used : (w : String) (day used : ℕ) → simple_day w ≡ some (day, used) → used ≡ 1
  unfolding simple_day
  simple_day-used w day used e = elim (Option-cases (find_word w day_ordinals)) [
    | inl nothing ↦ absurd (ground arith)
    | inr (d, known) ↦ elim (Option-cases (ten_days w)) [
      | inr (ten, bare) ↦ absurd (ground arith)
      | inl whole ↦ ground arith
    ]
  ]

  simple_day-Run :
      (t : Token) (ts : List Token) (day used : ℕ)
      → simple_day (trim_punct t.lower).0 ≡ some (day, used)
      → Run (t ∷ ts) used
  simple_day-Run t ts day used e =
      let one : 1 ≡ used = sym (simple_day-used (trim_punct t.lower).0 day used e) in
      subst (Run (t ∷ ts)) one (omega arith, (refl, tt))

  parse_day-Run :
      (ts : List Token) (day used : ℕ) → parse_day gap_within ts ≡ some (day, used) → Run ts used
  unfolding parse_day
  parse_day-Run [] day used e = absurd (cc)
  parse_day-Run (t ∷ []) day used e = simple_day-Run t [] day used e
  parse_day-Run (t ∷ u ∷ ts) day used e = elim (Option-cases (ten_days (trim_punct t.lower).0)) [
    | inl whole ↦ simple_day-Run t (u ∷ ts) day used (rw (whole, parse_day) at e)
    | inr (ten, begins) ↦ elim (Bool-cases (joins gap_within t u)) [
      | inr pause ↦ simple_day-Run t (u ∷ ts) day used (rw (begins, pause, parse_day) at e)
      | inl on ↦ elim (Option-cases (find_word (trim_punct u.lower).0 compound_days)) [
        | inl nothing ↦
            simple_day-Run t (u ∷ ts) day used (rw (begins, on, nothing, parse_day) at e)
        | inr (unit, known) ↦
            let found : some (ten + unit, 2) ≡ some (day, used) =
              rw (begins, on, known, parse_day) at e in
            let two : 2 ≡ used = ground arith in
            subst (Run (t ∷ u ∷ ts)) two (omega arith, (refl, (on, tt)))
      ]
    ]
  ]

  match_date-Taken : (ts : List Token) → Taken ts (match_date gap_within ts)
  unfolding match_date
  match_date-Taken ts = elim (Option-cases (parse_day gap_within ts)) [
    | inl nothing ↦ rw (nothing, match_date) tt
    | inr ((day, used), parsed) ↦ elim (Option-cases (joined_next gap_within ts used)) [
      | inl nothing ↦ rw (parsed, nothing, match_date) tt
      | inr (next, on) ↦ elim (Option-cases (find_word (trim_punct next.lower).0 months)) [
        | inl nothing ↦ rw (parsed, on, nothing, match_date) tt
        | inr (month, known) ↦
            rw (parsed, on, known, match_date)
              (joined_next-Run ts used next on (parse_day-Run ts day used parsed))
      ]
    ]
  ]

  -- A run, the token that joins it, and a run from that token on.
  Run-append :
      (ts : List Token) (n m : ℕ) (next : Token)
      → Run ts n
      → joined_next gap_within ts n ≡ some next
      → Run (drop n ts) m
      → Run ts (n + m)
  Run-append ts n zero next a on b = absurd (omega arith)
  Run-append ts n (suc m) next a on b =
      let longer = joined_next-Run ts n next on a in
      let e : n + 1 ≡ suc n = omega arith in
      (
        omega arith,
        Linked-append gap_within none n m ts (subst (λ k. Linked gap_within none k ts) e longer.1)
            b.1,
      )

  match_minutes-Taken :
      (ts : List Token) (hours used : ℕ)
      → Run ts used
      → Taken ts (match_minutes gap_within ts hours used)
  unfolding match_minutes
  match_minutes-Taken ts hours used r = elim (Option-cases (joined_next gap_within ts used)) [
    | inl nothing ↦ rw (nothing, match_minutes) tt
    | inr (first, on) ↦ elim (Option-cases (parse_number gap_within (drop used ts))) [
      | inl nothing ↦ rw (on, nothing, match_minutes) tt
      | inr (mins, parsed) ↦ elim (Bool-cases (ltb 59 mins.value)) [
        | inl late ↦ rw (on, parsed, late, match_minutes) tt
        | inr fits ↦ elim (Option-cases (joined_next gap_within ts (used + mins.count))) [
          | inl nothing ↦ rw (on, parsed, fits, nothing, match_minutes) tt
          | inr (next, joins_on) ↦ elim (Bool-cases (is_minute (trim_punct next.lower).0)) [
            | inr other ↦ rw (on, parsed, fits, joins_on, other, match_minutes) tt
            | inl known ↦
                rw (on, parsed, fits, joins_on, known, match_minutes)
                  (joined_next-Run ts (used + mins.count) next joins_on (
                    Run-append ts used mins.count first r on
                      (parse_number-Run (drop used ts) mins parsed)))
          ]
        ]
      ]
    ]
  ]

  match_time-Taken : (ts : List Token) → Taken ts (match_time gap_within ts)
  unfolding match_time
  match_time-Taken ts = elim (Option-cases (parse_number gap_within ts)) [
    | inl nothing ↦ rw (nothing, match_time) tt
    | inr (hours, parsed) ↦ elim (Bool-cases (ltb 23 hours.value)) [
      | inl late ↦ rw (parsed, late, match_time) tt
      | inr fits ↦ elim (Option-cases (joined_next gap_within ts hours.count)) [
        | inl nothing ↦ rw (parsed, fits, nothing, match_time) tt
        | inr (next, on) ↦ elim (Bool-cases (is_hour (trim_punct next.lower).0)) [
          | inr other ↦ rw (parsed, fits, on, other, match_time) tt
          | inl known ↦
              rw (parsed, fits, on, known, match_time)
                (match_minutes-Taken ts hours.value (hours.count + 1)
                  (joined_next-Run ts hours.count next on (parse_number-Run ts hours parsed)))
        ]
      ]
    ]
  ]

  phone_digits-Linked :
      (prev : Option Token) (ts : List Token)
      → Linked gap_within prev (phone_digits gap_within prev ts).0 ts
  unfolding phone_digits
  phone_digits-Linked prev [] = tt
  phone_digits-Linked prev (t ∷ ts) = elim (Bool-cases (joins_prev gap_within prev t)) [
    | inr pause ↦ rw (pause, phone_digits) tt
    | inl on ↦ elim (Option-cases (single_digit (trim_punct t.lower).0)) [
      | inl nothing ↦ rw (on, nothing, phone_digits) tt
      | inr (d, digit) ↦
          let n = (phone_digits gap_within (some t) ts).0 in
          let e : suc n ≡ n + 1 = omega arith in
          rw (on, digit, phone_digits)
            (subst (λ k. Linked gap_within prev k (t ∷ ts)) e (on, phone_digits-Linked (some t) ts))
    ]
  ]

  match_phone-Taken : (ts : List Token) → Taken ts (match_phone gap_within ts)
  unfolding match_phone
  match_phone-Taken [] = tt
  match_phone-Taken (t ∷ ts) = elim (Bool-cases (is_plus t)) [
    | inl plus ↦
        let n = (phone_digits gap_within (some t) ts).0 in
        elim (Bool-cases (ltb n 10)) [
          | inl few ↦ rw (plus, few, match_phone) tt
          | inr many ↦
              let e : suc n ≡ n + 1 = omega arith in
              rw (plus, many, match_phone)
                (
                  omega arith,
                  subst (λ k. Linked gap_within none k (t ∷ ts)) e
                      (refl, phone_digits-Linked (some t) ts),
                )
        ]
    | inr digit ↦
        let n = (phone_digits gap_within none (t ∷ ts)).0 in
        elim (Bool-cases (ltb n 10)) [
          | inl few ↦ rw (digit, few, match_phone) tt
          | inr many ↦
              rw (digit, many, match_phone) (ground arith, phone_digits-Linked none (t ∷ ts))
        ]
  ]

  or_else-Taken :
      (ts : List Token) (a b : Option Match) → Taken ts a → Taken ts b → Taken ts (or_else a b)
  or_else-Taken ts none b u v = v
  or_else-Taken ts (some m) b u v = u

  -- Whatever rule answers, a match takes at least one word and no more than there are, and between
  -- two words that it takes there is no pause longer than the limit.
  pub match_russian-Taken : (ts : List Token) → Taken ts (match_russian gap_within ts)
  unfolding match_russian
  match_russian-Taken [] = tt
  match_russian-Taken (t ∷ ts) =
      let or = or_else-Taken (t ∷ ts) in
      or _ _ (match_phone-Taken (t ∷ ts)) (
        or _ _ (match_time-Taken (t ∷ ts)) (
          or _ _ (match_date-Taken (t ∷ ts)) (
            or _ _ (match_money-Taken (t ∷ ts))
              (or _ _ (match_percent-Taken (t ∷ ts)) (match_plain_number-Taken (t ∷ ts))))))
