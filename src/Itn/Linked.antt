-- ===== src/Itn/Linked.antt =====
-- internal/postproc/itn: what a rule takes is a run of words with no long pause inside.
use mathlib.Core.Path.{subst}
use nano_asr.Prelude.{
  ℕ, zero, suc, ◌+◌, ◌≤◌, ◌<◌, ◌≡◌, refl, ap, ◌∙◌, Bool, true, false, List, [], ◌∷◌, Option, none,
  some, arith, length, get_elem?, drop, if◌then◌else◌, Bool-cases, inl, inr, ◌⊎◌,
}
use nano_asr.Itn.Numbers.{
  Token, Number, Parse, fresh, Class, adds, unit, scale, other, Turn, stops, goes, turn,
  close_number, class_of, trim_punct, is_empty, joins, joins_prev, parse_from, parse_number,
}

module _ (gap_within : ℕ → ℕ → Bool) where
  -- The first k tokens are there, and each joins the one before it.
  abbrev pub Linked : Option Token → ℕ → List Token → Type 0
  Linked prev zero ts = Unit {0}
  Linked prev (suc k) [] = ⊥
  Linked prev (suc k) (t ∷ ts) = (joins_prev gap_within prev t ≡ true) × Linked (some t) k ts

  pub Linked-length :
      (prev : Option Token) (k : ℕ) (ts : List Token) → Linked prev k ts → k ≤ length ts
  Linked-length prev zero ts a = omega arith
  Linked-length prev (suc k) [] a = elim a [ ]
  Linked-length prev (suc k) (t ∷ ts) a = omega (arith, Linked-length (some t) k ts a.1)

  -- One token more.
  pub Linked-snoc :
      (prev : Option Token) (k : ℕ) (ts : List Token) (last next : Token)
      → Linked prev (suc k) ts
      → get_elem? ts k ≡ some last
      → get_elem? ts (suc k) ≡ some next
      → joins gap_within last next ≡ true
      → Linked prev (suc (suc k)) ts
  Linked-snoc prev k [] last next a e f j = elim a [ ]
  Linked-snoc prev zero (t ∷ []) last next a e f j = absurd (ground arith)
  Linked-snoc prev zero (t ∷ u ∷ ts) last next a e f j = (a.0, (ground arith, tt))
  Linked-snoc prev (suc k) (t ∷ ts) last next a e f j =
      (a.0, Linked-snoc (some t) k ts last next a.1 e f j)

  -- A run, whose last token begins another one.
  pub Linked-append :
      (prev : Option Token) (k m : ℕ) (ts : List Token)
      → Linked prev (suc k) ts
      → Linked none (suc m) (drop k ts)
      → Linked prev (k + suc m) ts
  Linked-append prev zero m [] a b = elim a [ ]
  Linked-append prev zero m (t ∷ ts) a b =
      let e : suc m ≡ zero + suc m = omega arith in subst (λ n. Linked prev n (t ∷ ts)) e (a.0, b.1)
  Linked-append prev (suc k) m [] a b = elim a [ ]
  Linked-append prev (suc k) m (t ∷ ts) a b =
      let e : suc (k + suc m) ≡ suc k + suc m = omega arith in
      subst (λ n. Linked prev n (t ∷ ts)) e (a.0, Linked-append (some t) k m ts a.1 b)

  -- The state after a turn that goes on, and what a turn that stops answers.
  turn-goes :
      (s s' : Parse) (c : Class) (marked : Bool)
      → turn s c marked ≡ goes s'
      → (s'.at ≡ s.at + 1) × (s'.consumed ≡ s.at + 1)
  unfolding turn
  turn-goes s s' (adds n) marked e = ground arith
  turn-goes s s' (unit n) marked e = ground arith
  turn-goes s s' (scale n) marked e = ground arith
  turn-goes s s' other marked e = absurd (ground arith)

  turn-stops :
      (s : Parse) (n : Number) (c : Class) (marked : Bool)
      → turn s c marked ≡ stops (some n)
      → ((n.count ≡ s.consumed) ⊎ (n.count ≡ s.at + 1)) × (0 < n.count)
  unfolding turn close_number
  turn-stops s n (adds k) marked e = ground arith
  turn-stops s n (unit k) marked e = ground arith
  turn-stops s n (scale k) marked e = ground arith
  turn-stops s n other marked e = ground arith

  pub Turn-cases : (t : Turn) → ((s : Parse) × (t ≡ goes s)) ⊎ ((r : Option Number) × (t ≡ stops r))
  Turn-cases (goes s) = inl (s, refl)
  Turn-cases (stops r) = inr (r, refl)

  close_number-count :
      (s : Parse) (n : Number) → close_number s ≡ some n → (n.count ≡ s.consumed) × (0 < n.count)
  unfolding close_number
  close_number-count s n e = ground arith

  abbrev is_marked : Token → Bool
  is_marked t = if is_empty (trim_punct t.lower).1 then false else true

  -- From a state in which everything before `at` was taken, the tokens that are taken after it are
  -- joined.
  parse_from-Linked :
      (s : Parse) (prev : Option Token) (ts : List Token) (n : Number)
      → s.consumed ≡ s.at
      → parse_from gap_within s prev ts ≡ some n
      → (k : ℕ) × (n.count ≡ s.at + k) × (0 < n.count) × Linked prev k ts
  unfolding parse_from
  parse_from-Linked s prev [] n at e =
      let closed = close_number-count s n e in (0, omega (arith, closed.0), closed.1, tt)
  parse_from-Linked s prev (t ∷ ts) n at e = elim (Bool-cases (joins_prev gap_within prev t)) [
    | inr pause ↦
        let closed = close_number-count s n (rw (pause, parse_from) at e) in
        (0, omega (arith, closed.0), closed.1, tt)
    | inl joined ↦ elim (Turn-cases (turn s (class_of (trim_punct t.lower).0) (is_marked t))) [
      | inl (s', on) ↦
          let moved = turn-goes s s' (class_of (trim_punct t.lower).0) (is_marked t) on in
          let (k, count, pos, linked) =
            parse_from-Linked s' (some t) ts n (omega (arith, moved.0, moved.1))
              (rw (joined, on, parse_from) at e) in
          (suc k, omega (arith, count, moved.0), pos, (joined, linked))
      | inr (r, off) ↦
          let same : r ≡ some n = rw (joined, off, parse_from) at e in
          let ended =
            turn-stops s n (class_of (trim_punct t.lower).0) (is_marked t) (off ∙ ap stops same) in
          elim ended.0 [
            | inl before ↦ (0, omega (arith, before), ended.1, tt)
            | inr here ↦ (1, omega (arith, here), ended.1, (joined, tt))
          ]
    ]
  ]

  -- A number takes at least one token, and those it takes are joined.
  pub parse_number-Linked :
      (ts : List Token) (n : Number)
      → parse_number gap_within ts ≡ some n
      → (0 < n.count) × Linked none n.count ts
  unfolding parse_number
  parse_number-Linked ts n e =
      let (k, count, pos, linked) = parse_from-Linked fresh none ts n refl e in
      let e : k ≡ n.count = omega (arith, count) in (pos, subst (λ m. Linked none m ts) e linked)
