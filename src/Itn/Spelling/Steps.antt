-- ===== src/Itn/Spelling/Steps.antt =====
-- internal/postproc/itn/ru_numbers.go: what the loop of parseNumber does at one word.
use mathlib.Core.Path.{subst}
use mathlib.Core.List.{append_assoc}
use Prim.Native.String.{String}
use nano_asr.Prelude.{
  ℕ, ◌+◌, ◌*◌, ◌%◌, ◌≡◌, refl, ap, ◌∙◌, Bool, true, false, List, [], ◌∷◌, ◌++◌, Option, some, arith,
  length-append, length, ◌==◌, if◌then◌else◌,
}
use nano_asr.Itn.Numbers.{
  Token, Parse, Class, adds, unit, scale, goes, turn, class_of, trim_punct, is_empty, joins_prev,
  parse_from,
}
use nano_asr.Itn.Spelling.Words.{Plain}

module _ (gap_within : ℕ → ℕ → Bool) where
  -- The tokens are these words, each joined to the one before.
  abbrev pub Says : Option Token → List Token → List String → Type 0
  Says prev [] [] = Unit {0}
  Says prev [] (w ∷ ws) = ⊥
  Says prev (t ∷ ts) [] = ⊥
  Says prev (t ∷ ts) (w ∷ ws) =
      (t.lower ≡ w) × (joins_prev gap_within prev t ≡ true) × Says (some t) ts ws

  -- Reading these words takes the loop from one state to another.
  abbrev pub Reads : List String → Parse → Parse → Type 0
  Reads ws s s' =
      (prev : Option Token) (ts : List Token) (more : List String)
      → Says prev ts (ws ++ more)
      → (prev' : Option Token) × (ts' : List Token) × Says prev' ts' more
        × (parse_from gap_within s prev ts ≡ parse_from gap_within s' prev' ts')

  pub Reads-append :
      (ws vs : List String) (s s' s'' : Parse)
      → Reads ws s s'
      → Reads vs s' s''
      → Reads (ws ++ vs) s s''
  Reads-append ws vs s s' s'' f g prev ts more says =
      let (p1, t1, says1, e1) =
        f prev ts (vs ++ more) (subst (Says prev ts) (append_assoc ws vs more) says) in
      let (p2, t2, says2, e2) = g p1 t1 more says1 in (p2, t2, says2, e1 ∙ e2)

  pub word-Reads :
      (w : String) (c : Class) (s s' : Parse)
      → Plain w c
      → turn s c false ≡ goes s'
      → Reads (w ∷ []) s s'
  unfolding parse_from
  word-Reads w c s s' plain on prev [] more says = elim says [ ]
  word-Reads w c s s' plain on prev (t ∷ ts) more says =
      let class : class_of (trim_punct t.lower).0 ≡ c =
        ap (λ x. class_of (trim_punct x).0) says.0 ∙ plain.0 in
      let bare : is_empty (trim_punct t.lower).1 ≡ true =
        ap (λ x. is_empty (trim_punct x).1) says.0 ∙ plain.1 in
      (some t, ts, says.2, rw (says.1, class, bare, on, parse_from) refl)

  -- A state that the words lead to, by what is closed and what is open in it.
  abbrev pub Comes : List String → Parse → ℕ → ℕ → Bool → Type 0
  Comes ws s total group saw =
      (s' : Parse) × Reads ws s s'
      × (s'.total ≡ total)
      × (s'.group ≡ group)
      × (s'.at ≡ s.at + length ws)
      × (s'.consumed ≡ s'.at)
      × (s'.saw_any ≡ true)
      × (s'.saw_group ≡ saw)

  pub add-Comes :
      (w : String) (n : ℕ) (s : Parse)
      → Plain w (adds n)
      → Comes (w ∷ []) s s.total (s.group + n) true
  unfolding turn
  add-Comes w n s plain =
      (_, word-Reads w (adds n) s _ plain refl, refl, refl, refl, refl, refl, refl)

  pub unit-Comes :
      (w : String) (n : ℕ) (s : Parse)
      → Plain w (unit n)
      → s.group % 10 ≡ 0
      → Comes (w ∷ []) s s.total (s.group + n) true
  unfolding turn
  unit-Comes w n s plain even =
      let s' : Parse = record s {
        at = s.at + 1;
        group = s.group + n;
        consumed = s.at + 1;
        saw_any = true;
        saw_group = true;
      } in
      (s', word-Reads w (unit n) s s' plain (ground arith), refl, refl, refl, refl, refl, refl)

  pub scale-Comes :
      (w : String) (n k : ℕ) (s : Parse)
      → Plain w (scale n)
      → (if s.group == 0 then 1 else s.group) ≡ k
      → Comes (w ∷ []) s (s.total + k * n) 0 false
  unfolding turn
  scale-Comes w n k s plain many =
      let s' : Parse = record s {
        at = s.at + 1;
        total = s.total + k * n;
        group = 0;
        consumed = s.at + 1;
        saw_any = true;
        saw_group = false;
      } in
      (s', word-Reads w (scale n) s s' plain (rw many refl), refl, refl, refl, refl, refl, refl)

  pub Comes-append :
      (ws vs : List String) (s : Parse) (t g t' g' : ℕ) (o o' : Bool)
      → Comes ws s t g o
      → ((s' : Parse)
          → s'.total ≡ t
          → s'.group ≡ g
          → s'.consumed ≡ s'.at
          → s'.saw_any ≡ true
          → Comes vs s' t' g' o')
      → Comes (ws ++ vs) s t' g' o'
  Comes-append ws vs s t g t' g' o o' (s1, reads, total, group, at, consumed, any, saw) next =
      let (s2, reads', total', group', at', consumed', any', saw') =
        next s1 total group consumed any in
      (
        s2,
        Reads-append ws vs s s1 s2 reads reads',
        total',
        group',
        omega (arith, at, at', length-append ws vs),
        consumed',
        any',
        saw',
      )
