-- ===== src/Vad/Quiet.antt =====
-- internal/vad/spans.go: the silences are the quiet stretches of at least the wanted length.
use nano_asr.Prelude.{
  ℕ, ◌+◌, ◌≤◌, ◌<◌, ◌≡◌, refl, Bool, true, false, List, [], ◌∷◌, ltb, leb, arith, Bool-cases, inl,
  inr, ◌⊎◌,
}
use nano_asr.Core.{Silence}
use nano_asr.Vad.Merging.{covers, speech_at}
use nano_asr.Vad.{Span, silences_loop}

-- Spans of at least one sample within the recording, each starting where the one before ends or
-- later.
abbrev pub Chain : ℕ → ℕ → List Span → Type 0
Chain total n [] = Unit {0}
Chain total n (s ∷ ss) = (n ≤ s.start) × (s.start < s.end) × (s.end ≤ total) × Chain total s.end ss

early : (total x n : ℕ) (ss : List Span) → Chain total n ss → x < n → speech_at x ss ≡ false
early total x n [] c less = refl
early total x n (s ∷ ss) c less = ground (arith, early total x s.end ss c.3)

module _ (to_sec : ℕ → ℕ) (total min : ℕ) where
  -- A silence is a stretch of the wanted length, from c or later, inside the recording and without
  -- speech.
  abbrev pub IsQuiet : ℕ → (ℕ → Bool) → Silence → Type 0
  IsQuiet c speech q =
      (a b : ℕ) × (q ≡ record { start = to_sec a; end = to_sec b })
      × (c ≤ a)
      × (a + min ≤ b)
      × (b ≤ total)
      × ((x : ℕ) → a ≤ x → x < b → speech x ≡ false)

  abbrev pub AllQuiet : ℕ → (ℕ → Bool) → List Silence → Type 0
  AllQuiet c speech [] = Unit {0}
  AllQuiet c speech (q ∷ qs) = IsQuiet c speech q × AllQuiet c speech qs

  pub AllQuiet-mono :
      (c d : ℕ) (f g : ℕ → Bool) (qs : List Silence)
      → c ≤ d
      → ((x : ℕ) → d ≤ x → g x ≡ false → f x ≡ false)
      → AllQuiet d g qs
      → AllQuiet c f qs
  AllQuiet-mono c d f g [] le k a = tt
  AllQuiet-mono c d f g (q ∷ qs) le k a =
      let (i, j, e, l, m, t, quiet) = a.0 in
      (
        (i, j, e, omega arith, m, t, λ x u w. k x (omega arith) (quiet x u w)),
        AllQuiet-mono c d f g qs le k a.1,
      )

  pub loop-AllQuiet :
      (cursor : ℕ) (ss : List Span)
      → Chain total cursor ss
      → AllQuiet cursor (λ x. speech_at x ss) (silences_loop to_sec total min cursor ss)
  unfolding silences_loop
  loop-AllQuiet cursor [] c = elim (Bool-cases (leb (cursor + min) total)) [
    | inl long ↦
        rw (long, silences_loop)
          ((cursor, total, refl, omega arith, ground arith, omega arith, λ x u w. refl), tt)
    | inr short ↦ rw (short, silences_loop) tt
  ]
  loop-AllQuiet cursor (s ∷ ss) c =
      let on : ltb cursor s.end ≡ true = ground arith in
      let rest =
        AllQuiet-mono cursor s.end (λ x. speech_at x (s ∷ ss)) (λ x. speech_at x ss)
          (silences_loop to_sec total min s.end ss) (omega arith) (λ x u quiet. ground arith)
          (loop-AllQuiet s.end ss c.3) in
      elim (Bool-cases (leb (cursor + min) s.start)) [
        | inl long ↦
            rw (on, long, silences_loop)
              (
                (
                  cursor,
                  s.start,
                  refl,
                  omega arith,
                  ground arith,
                  omega arith,
                  λ x u w. ground (arith, early total x s.end ss c.3),
                ),
                rest,
              )
        | inr short ↦ rw (on, short, silences_loop) rest
      ]

  -- Some silence of the list is around the stretch from a to b.
  abbrev pub Holds : ℕ → ℕ → List Silence → Type 0
  Holds a b [] = ⊥
  Holds a b (q ∷ qs) =
      ((i j : ℕ) × (q ≡ record { start = to_sec i; end = to_sec j }) × (i ≤ a) × (b ≤ j))
      ⊎ Holds a b qs

  -- A quiet stretch is before or after a span.
  beside :
      (s : Span) (a b : ℕ)
      → a < b
      → s.start < s.end
      → ((x : ℕ) → a ≤ x → x < b → covers x s ≡ false)
      → (b ≤ s.start) ⊎ (s.end ≤ a)
  beside s a b less full quiet = elim (Bool-cases (leb a s.start)) [
    | inl le ↦ elim (Bool-cases (leb b s.start)) [
      | inl stays ↦ inl (ground arith)
      | inr over ↦ absurd (ground (arith, quiet s.start))
    ]
    | inr gt ↦ elim (Bool-cases (leb s.end a)) [
      | inl after ↦ inr (ground arith)
      | inr inside ↦ absurd (ground (arith, quiet a))
    ]
  ]

  pub loop-Holds :
      (cursor a b : ℕ) (ss : List Span)
      → Chain total cursor ss
      → cursor ≤ a
      → a < b
      → a + min ≤ b
      → b ≤ total
      → ((x : ℕ) → a ≤ x → x < b → speech_at x ss ≡ false)
      → Holds a b (silences_loop to_sec total min cursor ss)
  unfolding silences_loop
  loop-Holds cursor a b [] c from less long inside quiet =
      let on : leb (cursor + min) total ≡ true = ground arith in
      rw (on, silences_loop) (inl (cursor, total, refl, from, inside))
  loop-Holds cursor a b (s ∷ ss) c from less long inside quiet =
      let on : ltb cursor s.end ≡ true = ground arith in
      elim (beside s a b less c.1 (λ x u w. ground (arith, quiet x u w))) [
        | inl first ↦
            let gap : leb (cursor + min) s.start ≡ true = ground arith in
            rw (gap, silences_loop) (inl (cursor, s.start, refl, from, first))
        | inr later ↦
            let rest =
              loop-Holds s.end a b ss c.3 later less long inside
                (λ x u w. ground (arith, quiet x u w)) in
            elim (Bool-cases (leb (cursor + min) s.start)) [
              | inl gap ↦ rw (on, gap, silences_loop) (inr rest)
              | inr none_here ↦ rw (on, none_here, silences_loop) rest
            ]
      ]
