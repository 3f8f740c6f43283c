-- ===== src/Itn/Bounds.antt =====
-- internal/postproc/itn/ru_numbers.go: how large a number gets, since the code adds without a check.
use mathlib.Core.Path.{subst}
use text.Mathlib.Text.{◌==◌ as same_text}
use Prim.Native.String.{String}
use nano_asr.Prelude.{
  ℕ, ◌+◌, ◌*◌, ◌%◌, ◌&&◌, ◌^◌, ◌≤◌, ◌<◌, ◌≡◌, refl, ap, ◌∙◌, Bool, true, false, List, [], ◌∷◌,
  Option, none, some, arith, ltb, ◌==◌, length, if◌then◌else◌, Bool-cases, Option-cases, inl, inr,
}
use nano_asr.Itn.Numbers.{
  Token, Number, Parse, fresh, Class, adds, unit, scale, other, Turn, stops, goes, turn, extend,
  close_number, class_of, trim_punct, is_empty, joins_prev, parse_from, parse_number, find_word,
  units, tens, hundreds, scales, or_zero,
}
use nano_asr.Itn.Linked.{Turn-cases}

-- Every value of a table is at most b.
abbrev Below : ℕ → List (String × ℕ) → Type 0
Below b [] = Unit {0}
Below b ((w, n) ∷ m) = (n ≤ b) × Below b m

find_word-Below :
    (b : ℕ) (w : String) (m : List (String × ℕ)) → Below b m → or_zero (find_word w m) ≤ b
unfolding find_word
find_word-Below b w [] a = omega arith
find_word-Below b w ((v, n) ∷ m) a = elim (Bool-cases (same_text v w)) [
  | inl it ↦ rw (it, find_word) a.0
  | inr no_match ↦ rw (no_match, find_word) (find_word-Below b w m a.1)
]

abbrev ClassBelow : Class → Type 0
ClassBelow (adds n) = n ≤ 900
ClassBelow (unit n) = n ≤ 900
ClassBelow (scale n) = n ≤ 1000000000
ClassBelow other = Unit {0}

hundreds-Below : Below 900 hundreds
unfolding hundreds
hundreds-Below = omega arith

tens-Below : Below 900 tens
unfolding tens
tens-Below = omega arith

units-Below : Below 900 units
unfolding units
units-Below = omega arith

scales-Below : Below 1000000000 scales
unfolding scales
scales-Below = omega arith

class_of-Below : (w : String) → ClassBelow (class_of w)
unfolding class_of
class_of-Below w = elim (Bool-cases (ltb 0 (or_zero (find_word w hundreds)))) [
  | inl h ↦ rw (h, class_of) (find_word-Below 900 w hundreds hundreds-Below)
  | inr no_h ↦ elim (Bool-cases (ltb 0 (or_zero (find_word w tens)))) [
    | inl t ↦ rw (no_h, t, class_of) (find_word-Below 900 w tens tens-Below)
    | inr no_t ↦ elim (Option-cases (find_word w units)) [
      | inr (n, u) ↦
          let b = find_word-Below 900 w units units-Below in
          rw (no_h, no_t, u, class_of) (rw u at b)
      | inl no_u ↦ elim (Bool-cases (ltb 0 (or_zero (find_word w scales)))) [
        | inl s ↦
            rw (no_h, no_t, no_u, s, class_of) (find_word-Below 1000000000 w scales scales-Below)
        | inr no_s ↦ rw (no_h, no_t, no_u, no_s, class_of) tt
      ]
    ]
  ]
]

-- What the state can be worth after so many tokens.
abbrev Small : Parse → Type 0
Small s = s.total + s.group * 1000000000 ≤ 900000000000 * s.at

abbrev TurnSmall : ℕ → Turn → Type 0
TurnSmall k (stops none) = Unit {0}
TurnSmall k (stops (some n)) = n.value ≤ 900000000000 * (k + 1)
TurnSmall k (goes s) = (s.at ≡ k + 1) × Small s

close_number-Small :
    (k : ℕ) (s : Parse)
    → s.total + s.group * 1000000000 ≤ 900000000000 * (k + 1)
    → TurnSmall k (stops (close_number s))
unfolding close_number
close_number-Small k s le = elim (Bool-cases (s.saw_any && ltb 0 s.consumed)) [
  | inl closes ↦ rw (closes, close_number) (omega arith)
  | inr nothing ↦ rw (nothing, close_number) tt
]

extend-Small :
    (s : Parse) (n : ℕ) (marked : Bool) → n ≤ 900 → Small s → TurnSmall s.at (extend s n marked)
extend-Small s n true le a = close_number-Small s.at _ (omega arith)
extend-Small s n false le a = (refl, omega arith)

scale-grows : (group n : ℕ) → n ≤ 1000000000 → group * n ≤ group * 1000000000
scale-grows group n le = grind arith

turn-Small :
    (s : Parse) (c : Class) (marked : Bool)
    → ClassBelow c
    → Small s
    → TurnSmall s.at (turn s c marked)
unfolding turn
turn-Small s (adds n) marked le a = extend-Small s n marked le a
turn-Small s (unit n) marked le a = elim (Bool-cases (s.saw_group && ltb 0 (s.group % 10))) [
  | inl two ↦ rw (two, turn) tt
  | inr one ↦ rw (one, turn) (extend-Small s n marked le a)
]
turn-Small s (scale n) marked le a = closes marked
  where
    group : ℕ
    group = if s.group == 0 then 1 else s.group

    one_more : group ≤ s.group + 1
    one_more = ground arith

    grown : s.total + group * n ≤ 900000000000 * (s.at + 1)
    grown = omega (arith, scale-grows group n le, one_more)

    closes : (marked : Bool) → TurnSmall s.at (turn s (scale n) marked)
    closes true =
        close_number-Small s.at
          (record {
            at = s.at + 1;
            total = s.total + group * n;
            group = 0;
            consumed = s.at + 1;
            saw_any = true;
            saw_group = false;
          })
          (omega (arith, grown))
    closes false = (refl, omega (arith, grown))
turn-Small s other marked le a = close_number-Small s.at s (omega arith)

module _ (gap_within : ℕ → ℕ → Bool) where
  parse_from-Small :
      (s : Parse) (prev : Option Token) (ts : List Token) (n : Number)
      → Small s
      → parse_from gap_within s prev ts ≡ some n
      → n.value ≤ 900000000000 * (s.at + length ts + 1)
  unfolding parse_from
  parse_from-Small s prev [] n a e =
      let c = subst (TurnSmall s.at) (ap stops e) (close_number-Small s.at s (omega arith)) in
      omega arith
  parse_from-Small s prev (t ∷ ts) n a e = elim (Bool-cases (joins_prev gap_within prev t)) [
    | inr pause ↦
        let closed : close_number s ≡ some n = rw (pause, parse_from) at e in
        let c =
          subst (TurnSmall s.at) (ap stops closed) (close_number-Small s.at s (omega arith)) in
        omega arith
    | inl joined ↦
        let class = class_of (trim_punct t.lower).0 in
        let marked = if is_empty (trim_punct t.lower).1 then false else true in
        let b = turn-Small s class marked (class_of-Below (trim_punct t.lower).0) a in
        elim (Turn-cases gap_within (turn s class marked)) [
          | inl (s', on) ↦
              let moved = subst (TurnSmall s.at) on b in
              let ih =
                parse_from-Small s' (some t) ts n moved.1 (rw (joined, on, parse_from) at e) in
              omega (arith, moved.0)
          | inr (r, off) ↦
              let same : r ≡ some n = rw (joined, off, parse_from) at e in
              let c = subst (TurnSmall s.at) (off ∙ ap stops same) b in omega arith
        ]
  ]

  -- The value of a number is at most 900 thousand millions for each word and one word more, so the
  -- sums of the code stay below 2 ^ 63, and do not wrap, for a transcript of ten million words.
  pub parse_number-Small :
      (ts : List Token) (n : Number)
      → parse_number gap_within ts ≡ some n
      → (n.value ≤ 900000000000 * (length ts + 1)) × (length ts ≤ 10000000 → n.value < 2 ^ 63)
  unfolding parse_number
  parse_number-Small ts n e =
      let b = parse_from-Small fresh none ts n (omega arith) e in
      (omega (arith, b), λ few. omega (arith, b, few))
