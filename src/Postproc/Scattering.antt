-- ===== src/Postproc/Scattering.antt =====
-- internal/postproc/segments.go: rewritten words go back into segments and none is lost.
use nano_asr.Prelude.{
  ◌≢◌, ℕ, ◌+◌, ◌<◌, ◌≡◌, refl, sym, ap, ◌∙◌, List, [], ◌∷◌, ◌++◌, Option, none, some, arith, length,
}
use nano_asr.Core.{Word, Segment}
use nano_asr.Core.Float.{Float}
use nano_asr.Postproc.{Stage, ok, apply_chain}
use nano_asr.Postproc.Spans.{Accounts, apply_chain-Accounts}
use nano_asr.Postproc.Segments.{
  apply, flat_words, layout, empty_buckets, retime, rebuild, after, order_from, enforce_order,
  renumber, scatter,
}
use nano_asr.Postproc.Filling.{
  joined, AllEmpty, AllEmpty-joined, AllEmpty-EmptyAfter, HasEach, fill-joined, replicate-AllEmpty,
  replicate-length, length-layout,
}

-- Every segment holds words.
abbrev pub NoneEmpty : List Segment → Type 0
NoneEmpty [] = Unit {0}
NoneEmpty (s ∷ segs) = (s.words ≢ []) × NoneEmpty segs

-- The ids count up from n.
abbrev pub Numbered : ℕ → List Segment → Type 0
Numbered n [] = Unit {0}
Numbered n (s ∷ segs) = (s.id ≡ n) × Numbered (n + 1) segs

Accounts-HasEach :
    (n : ℕ) (out : List Word) (spans : Option (List ℕ)) → Accounts n out spans → HasEach spans out
Accounts-HasEach n out none a = tt
Accounts-HasEach n out (some ns) a = a.0

some_segment : (segs : List Segment) → 0 < length (flat_words segs) → 0 < length segs
unfolding flat_words
some_segment [] h = h
some_segment (s ∷ segs) h = omega arith

nonempty : (ws : List Word) → 0 < length ws → (w : Word) × (rest : List Word) × (ws ≡ w ∷ rest)
nonempty [] h = absurd (omega arith)
nonempty (w ∷ ws) h = (w, ws, refl)

module _ (F : Float) where
  rebuild-words :
      (segs : List Segment) (bs : List (List Word))
      → length bs ≡ length segs
      → (flat_words (rebuild F segs bs) ≡ joined bs) × NoneEmpty (rebuild F segs bs)
  unfolding rebuild flat_words retime
  rebuild-words [] [] e = (refl, tt)
  rebuild-words [] (b ∷ bs) e = absurd (omega arith)
  rebuild-words (s ∷ segs) [] e = absurd (omega arith)
  rebuild-words (s ∷ segs) ([] ∷ bs) e = rebuild-words segs bs (omega arith)
  rebuild-words (s ∷ segs) ((w ∷ ws) ∷ bs) e =
      let ih = rebuild-words segs bs (omega arith) in
      (ap (λ z. (w ∷ ws) ++ z) ih.0, ((λ e. ground arith), ih.1))

  order_from-words :
      (s : Segment) (segs : List Segment)
      → NoneEmpty (s ∷ segs)
      → (flat_words (order_from F s segs) ≡ s.words ++ flat_words segs)
        × NoneEmpty (order_from F s segs)
  unfolding order_from flat_words
  order_from-words s [] a = (refl, a)
  order_from-words s (t ∷ segs) a =
      let ih = order_from-words (after F s t) segs a.1 in (ap (λ z. s.words ++ z) ih.0, (a.0, ih.1))

  enforce_order-words :
      (segs : List Segment)
      → NoneEmpty segs
      → (flat_words (enforce_order F segs) ≡ flat_words segs) × NoneEmpty (enforce_order F segs)
  unfolding enforce_order flat_words
  enforce_order-words [] a = (refl, tt)
  enforce_order-words (s ∷ segs) a = order_from-words s segs a

  renumber-words :
      (n : ℕ) (segs : List Segment)
      → NoneEmpty segs
      → (flat_words (renumber F n segs) ≡ flat_words segs)
        × NoneEmpty (renumber F n segs)
        × Numbered n (renumber F n segs)
  unfolding renumber flat_words
  renumber-words n [] a = (refl, tt, tt)
  renumber-words n (s ∷ segs) a =
      let ih = renumber-words (n + 1) segs a.1 in
      (ap (λ z. s.words ++ z) ih.0, (a.0, ih.1), (refl, ih.2))

  scatter-words :
      (segs : List Segment) (out : List Word) (spans : Option (List ℕ))
      → HasEach spans out
      → 0 < length segs
      → (got : List Segment) × (scatter F segs out spans (layout segs) ≡ some got)
        × (flat_words got ≡ out)
        × NoneEmpty got
        × Numbered 0 got
  unfolding scatter
  scatter-words segs out spans each some_left =
      let n = length segs in
      let sizes = layout segs in
      let same = length-layout segs in
      let bs : List (List Word) = empty_buckets segs in
      let empty : AllEmpty bs = replicate-AllEmpty n in
      let long : length bs ≡ n = replicate-length n in
      let (cs, filled, words, longer) =
        fill-joined sizes out spans 0 0 bs each (long ∙ sym same) (omega (arith, same))
          (AllEmpty-EmptyAfter 0 bs (omega (arith, long)) empty) in
      let built = rebuild-words segs cs (longer ∙ long) in
      let ordered = enforce_order-words (rebuild F segs cs) built.1 in
      let done = renumber-words 0 (enforce_order F (rebuild F segs cs)) ordered.1 in
      (
        renumber F 0 (enforce_order F (rebuild F segs cs)),
        rw (filled, scatter) refl,
        done.0 ∙ ordered.0 ∙ built.0 ∙ words ∙ ap (λ z. z ++ out) (AllEmpty-joined bs empty),
        done.1,
        done.2,
      )

  -- If the segments have words and the chain has stages and does not fail, then Apply does not
  -- panic and answers with segments: their words are those that the chain answered with, none lost
  -- or repeated and in that order, no segment is without words, and the ids are the positions.
  pub apply-flat_words :
      (chain : List Stage) (segs : List Segment) (out : List Word) (spans : Option (List ℕ))
      → 0 < length chain
      → 0 < length (flat_words segs)
      → apply_chain chain (flat_words segs) ≡ ok out spans
      → (got : List Segment) × (apply F chain segs ≡ some (got, none))
        × (flat_words got ≡ out)
        × NoneEmpty got
        × Numbered 0 got
  unfolding apply
  apply-flat_words [] segs out spans stages spoken ran = absurd (omega arith)
  apply-flat_words (s ∷ chain) segs out spans stages spoken ran =
      let accounts = apply_chain-Accounts (s ∷ chain) (flat_words segs) out spans ran in
      let each = Accounts-HasEach (length (flat_words segs)) out spans accounts in
      let (got, scattered, all, filled, ids) =
        scatter-words segs out spans each (some_segment segs spoken) in
      let (w, flat, split) = nonempty (flat_words segs) spoken in
      let ends : apply_chain (s ∷ chain) (w ∷ flat) ≡ ok out spans =
        ap (apply_chain (s ∷ chain)) (sym split) ∙ ran in
      (got, rw (split, ends, scattered, apply) refl, all, filled, ids)
