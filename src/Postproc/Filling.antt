-- ===== src/Postproc/Filling.antt =====
-- internal/postproc/segments.go: the loop of scatter puts each word into a bucket, in order.
use mathlib.Core.List.{append_assoc, append-nil}
use nano_asr.Prelude.{
  ℕ, zero, suc, ◌+◌, ◌-◌, ◌&&◌, ◌≤◌, ◌<◌, ◌≡◌, refl, sym, ap, ◌∙◌, List, [], ◌∷◌, ◌++◌, Option,
  none, some, arith, ltb, leb, get_or, replicate, length, Bool-cases, inl, inr,
}
use nano_asr.Core.{Word, Segment}
use nano_asr.Postproc.Segments.{layout, advance, consume, put_word, next_span, rest_spans, fill}

abbrev pub joined : List (List Word) → List Word
joined [] = []
joined (b ∷ bs) = b ++ joined bs

abbrev pub AllEmpty : List (List Word) → Type 0
AllEmpty [] = Unit {0}
AllEmpty (b ∷ bs) = (b ≡ []) × AllEmpty bs

-- A bucket that is there, and nothing in the later ones.
abbrev pub EmptyAfter : ℕ → List (List Word) → Type 0
EmptyAfter i [] = ⊥
EmptyAfter zero (b ∷ bs) = AllEmpty bs
EmptyAfter (suc i) (b ∷ bs) = EmptyAfter i bs

pub AllEmpty-joined : (bs : List (List Word)) → AllEmpty bs → joined bs ≡ []
AllEmpty-joined [] a = refl
AllEmpty-joined (b ∷ bs) a = rw a.0 (AllEmpty-joined bs a.1)

-- A word that is put into the last bucket in use comes after all the others.
put_word-joined :
    (i : ℕ) (w : Word) (bs : List (List Word))
    → EmptyAfter i bs
    → (cs : List (List Word)) × (put_word i w bs ≡ some cs)
      × (joined cs ≡ joined bs ++ w ∷ [])
      × EmptyAfter i cs
      × (length cs ≡ length bs)
unfolding put_word
put_word-joined i w [] a = elim a [ ]
put_word-joined zero w (b ∷ bs) a =
    let none_later = AllEmpty-joined bs a in
    (
      (b ++ w ∷ []) ∷ bs,
      refl,
      rw none_later
          (append-nil (b ++ w ∷ []) ∙ ap (λ (z : List Word). z ++ w ∷ []) (sym (append-nil b))),
      a,
      refl,
    )
put_word-joined (suc i) w (b ∷ bs) a =
    let (cs, put, all, later, long) = put_word-joined i w bs a in
    (
      b ∷ cs,
      rw (put, put_word) refl,
      ap (λ z. b ++ z) all ∙ sym (append_assoc b (joined bs) (w ∷ [])),
      later,
      ap suc long,
    )

pub AllEmpty-EmptyAfter :
    (j : ℕ) (bs : List (List Word)) → j < length bs → AllEmpty bs → EmptyAfter j bs
AllEmpty-EmptyAfter j [] le a = absurd (omega arith)
AllEmpty-EmptyAfter zero (b ∷ bs) le a = a.1
AllEmpty-EmptyAfter (suc j) (b ∷ bs) le a = AllEmpty-EmptyAfter j bs (omega arith) a.1

EmptyAfter-later :
    (i j : ℕ) (bs : List (List Word)) → i ≤ j → j < length bs → EmptyAfter i bs → EmptyAfter j bs
EmptyAfter-later i j [] le less a = elim a [ ]
EmptyAfter-later zero zero (b ∷ bs) le less a = a
EmptyAfter-later zero (suc j) (b ∷ bs) le less a = AllEmpty-EmptyAfter j bs (omega arith) a
EmptyAfter-later (suc i) zero (b ∷ bs) le less a = absurd (omega arith)
EmptyAfter-later (suc i) (suc j) (b ∷ bs) le less a =
    EmptyAfter-later i j bs (omega arith) (omega arith) a

advance-range :
    (f : ℕ) (sizes : List ℕ) (seg seen : ℕ)
    → seg < length sizes
    → (seg ≤ (advance f sizes (seg, seen)).0) × ((advance f sizes (seg, seen)).0 < length sizes)
unfolding advance
advance-range zero sizes seg seen less = (omega arith, less)
advance-range (suc f) sizes seg seen less =
    elim (Bool-cases (ltb seg (length sizes - 1) && leb (get_or sizes seg 0) seen)) [
      | inr stays ↦ rw (stays, advance) (omega arith, less)
      | inl goes ↦
          let ih = advance-range f sizes (seg + 1) 0 (ground arith) in
          rw (goes, advance) (omega (arith, ih.0), ih.1)
    ]

consume-range :
    (n : ℕ) (sizes : List ℕ) (seg seen : ℕ)
    → seg < length sizes
    → (seg ≤ (consume n sizes (seg, seen)).0) × ((consume n sizes (seg, seen)).0 < length sizes)
unfolding consume
consume-range zero sizes seg seen less = (omega arith, less)
consume-range (suc n) sizes seg seen less =
    let on = advance-range (length sizes) sizes seg (seen + 1) less in
    let at = advance (length sizes) sizes (seg, seen + 1) in
    let ih = consume-range n sizes at.0 at.1 on.1 in (omega (arith, on.0, ih.0), ih.1)

-- A vector that is there has an entry for each of the words.
abbrev pub HasEach : Option (List ℕ) → List Word → Type 0
HasEach none ws = Unit {0}
HasEach (some ns) ws = length ns ≡ length ws

next_span-HasEach :
    (spans : Option (List ℕ)) (w : Word) (ws : List Word)
    → HasEach spans (w ∷ ws)
    → (n : ℕ) × (next_span spans ≡ some n) × HasEach (rest_spans spans) ws
next_span-HasEach none w ws h = (1, refl, tt)
next_span-HasEach (some []) w ws h = absurd (omega arith)
next_span-HasEach (some (n ∷ ns)) w ws h = (n, refl, omega arith)

pub fill-joined :
    (sizes : List ℕ) (ws : List Word) (spans : Option (List ℕ)) (seg seen : ℕ)
    (bs : List (List Word))
    → HasEach spans ws
    → length bs ≡ length sizes
    → seg < length sizes
    → EmptyAfter seg bs
    → (cs : List (List Word)) × (fill sizes ws spans (seg, seen) bs ≡ some cs)
      × (joined cs ≡ joined bs ++ ws)
      × (length cs ≡ length bs)
unfolding fill
fill-joined sizes [] spans seg seen bs h e less a = (bs, refl, sym (append-nil (joined bs)), refl)
fill-joined sizes (w ∷ ws) spans seg seen bs h e less a =
    let (n, spanned, later_spans) = next_span-HasEach spans w ws h in
    let on = advance-range (length sizes) sizes seg seen less in
    let at = advance (length sizes) sizes (seg, seen) in
    let next = consume-range n sizes at.0 at.1 on.1 in
    let to = consume n sizes (at.0, at.1) in
    let here : EmptyAfter at.0 bs = EmptyAfter-later seg at.0 bs on.0 (omega (arith, on.1)) a in
    let (ds, put, all, still, longer) = put_word-joined at.0 w bs here in
    let there : EmptyAfter to.0 ds =
      EmptyAfter-later at.0 to.0 ds next.0 (omega (arith, next.1, longer)) still in
    let (cs, filled, words, long) =
      fill-joined sizes ws (rest_spans spans) to.0 to.1 ds later_spans (longer ∙ e) next.1 there in
    (
      cs,
      rw (spanned, put, fill) filled,
      words ∙ ap (λ z. z ++ ws) all ∙ append_assoc (joined bs) (w ∷ []) ws,
      long ∙ longer,
    )

pub replicate-AllEmpty : (n : ℕ) → AllEmpty (replicate n [])
replicate-AllEmpty zero = tt
replicate-AllEmpty (suc n) = (refl, replicate-AllEmpty n)

pub replicate-length : (n : ℕ) → length (replicate {A = List Word} n []) ≡ n
replicate-length zero = refl
replicate-length (suc n) = ap suc (replicate-length n)

pub length-layout : (segs : List Segment) → length (layout segs) ≡ length segs
unfolding layout
length-layout [] = refl
length-layout (s ∷ segs) = ap suc (length-layout segs)
