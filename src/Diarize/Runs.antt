-- ===== src/Diarize/Runs.antt =====
-- internal/diarize/split.go: the runs of a segment are its words, cut into consecutive pieces.
use mathlib.Core.Path.{subst}
use mathlib.Core.List.{append_assoc, append-nil}
use Prim.Native.String.{String}
use nano_asr.Prelude.{
  ℕ, zero, suc, ◌+◌, ◌-◌, ◌≤◌, ◌<◌, ◌≡◌, refl, sym, ap, ◌∙◌, ◌||◌, Bool, true, false, List, [], ◌∷◌,
  ◌++◌, arith, length, length-drop, length-take, take, drop, take-append-drop, if◌then◌else◌,
  Bool-cases, inl, inr,
}
use nano_asr.Core.{Word}
use nano_asr.Core.Float.{Float}
use nano_asr.Diarize.{
  Run, slice, speaker_at, same_speaker, group_from, group_runs, is_turn, absorb, absorb_all,
  join_first, speaker_runs,
}

-- Consecutive runs, none of them empty, from a to b.
abbrev pub Chain : ℕ → ℕ → List Run → Type 0
Chain a b [] = a ≡ b
Chain a b (r ∷ rs) = (r.from ≡ a) × (a < r.to) × Chain r.to b rs

group_from-Chain :
    (i : ℕ) (prev : Word) (ws : List Word) (last : Run)
    → last.from < last.to
    → last.to ≡ i
    → Chain last.from (i + length ws) (group_from i prev ws last)
unfolding group_from
group_from-Chain i prev [] last le e = (refl, le, omega (arith, e))
group_from-Chain i prev (w ∷ ws) last le e =
    let more : i + 1 + length ws ≡ i + suc (length ws) = omega arith in
    elim (Bool-cases (same_speaker prev.speaker w.speaker)) [
      | inl same ↦
          let ih =
            group_from-Chain (i + 1) w ws (record last { to = i + 1 }) (omega (arith, le, e))
              refl in
          rw (same, group_from)
            (subst (λ b. Chain last.from b (group_from (i + 1) w ws (record last { to = i + 1 })))
              more ih)
      | inr other ↦
          let ih =
            group_from-Chain (i + 1) w ws (record { from = i; to = i + 1 }) (omega arith) refl in
          rw (other, group_from)
            (
              refl,
              le,
              subst
                  (λ a.
                    Chain a (i + suc (length ws))
                      (group_from (i + 1) w ws (record { from = i; to = i + 1 })))
                  (sym e)
                  (subst
                    (λ b. Chain i b (group_from (i + 1) w ws (record { from = i; to = i + 1 })))
                    more ih),
            )
    ]

group_runs-Chain : (ws : List Word) → Chain 0 (length ws) (group_runs ws)
unfolding group_runs
group_runs-Chain [] = refl
group_runs-Chain (w ∷ ws) =
    let e : 1 + length ws ≡ suc (length ws) = omega arith in
    subst (λ b. Chain 0 b (group_from 1 w ws (record { from = 0; to = 1 }))) e
      (group_from-Chain 1 w ws (record { from = 0; to = 1 }) (omega arith) refl)

module _ (F : Float) (text_before : String → String → Bool) where
  absorb-Chain :
      (ws : List Word) (last : Run) (rs : List Run) (b : ℕ)
      → last.from < last.to
      → Chain last.to b rs
      → Chain last.from b (absorb F text_before ws last rs)
  unfolding absorb
  absorb-Chain ws last [] b le c = (refl, le, c)
  absorb-Chain ws last (r ∷ rs) b le (e, more, c) =
      elim (Bool-cases (
        (if is_turn F text_before (slice ws r) then false else true)
        || same_speaker (speaker_at ws last.from) (speaker_at ws r.from))) [
          | inl joins ↦
              rw (joins, absorb)
                (absorb-Chain ws (record last { to = r.to }) rs b (omega (arith, le, more)) c)
          | inr apart ↦
              rw (apart, absorb)
                (
                  refl,
                  le,
                  subst (λ a. Chain a b (absorb F text_before ws r rs)) e
                      (absorb-Chain ws r rs b (omega (arith, e, more)) c),
                )
        ]

  join_first-Chain :
      (ws : List Word) (a b : ℕ) (rs : List Run)
      → Chain a b rs
      → Chain a b (join_first F text_before ws rs)
  unfolding join_first
  join_first-Chain ws a b [] c = c
  join_first-Chain ws a b (r ∷ []) c = c
  join_first-Chain ws a b (r ∷ s ∷ rs) c = elim (Bool-cases (is_turn F text_before (slice ws r))) [
    | inl turn ↦ rw (turn, join_first) c
    | inr short ↦ rw (short, join_first) (c.0, omega arith, c.2.2)
  ]

  pub speaker_runs-Chain : (ws : List Word) → Chain 0 (length ws) (speaker_runs F text_before ws)
  unfolding speaker_runs
  speaker_runs-Chain ws =
      join_first-Chain ws 0 (length ws) (absorb_all F text_before ws (group_runs ws))
        (absorbed (group_runs ws) (group_runs-Chain ws))
    where
      absorbed :
          (rs : List Run)
          → Chain 0 (length ws) rs
          → Chain 0 (length ws) (absorb_all F text_before ws rs)
      absorbed [] c = c
      absorbed (r ∷ rs) (e, le, c) =
          subst (λ a. Chain a (length ws) (absorb F text_before ws r rs)) e
            (absorb-Chain ws r rs (length ws) (omega (arith, e, le)) c)

-- The words of the runs, one after another.
unfoldable pub slices : List Word → List Run → List Word
slices ws [] = []
slices ws (r ∷ rs) = slice ws r ++ slices ws rs

drop-empty : (n : ℕ) → ◌≡◌ {A = List Word} (drop n []) []
drop-empty zero = refl
drop-empty (suc n) = refl

drop-split : (ws : List Word) (a k : ℕ) → take k (drop a ws) ++ drop (a + k) ws ≡ drop a ws
drop-split ws zero k =
    let e : 0 + k ≡ k = omega arith in
    ap (λ (j : ℕ). take k ws ++ drop j ws) e ∙ take-append-drop k ws
drop-split [] (suc a) zero = drop-empty (suc a + 0)
drop-split [] (suc a) (suc k) = drop-empty (suc a + suc k)
drop-split (w ∷ ws) (suc a) k =
    let e : suc a + k ≡ suc (a + k) = omega arith in
    ap (λ (j : ℕ). take k (drop a ws) ++ drop j (w ∷ ws)) e ∙ drop-split ws a k

pub slices-Chain :
    (ws : List Word) (a b : ℕ) (rs : List Run)
    → Chain a b rs
    → slices ws rs ++ drop b ws ≡ drop a ws
unfolding slices
slices-Chain ws a b [] c = ap (λ (k : ℕ). drop k ws) (sym c)
slices-Chain ws a b (r ∷ rs) (e, le, c) =
    let joined : r.to ≡ r.from + (r.to - r.from) = omega (arith, e, le) in
    append_assoc (slice ws r) (slices ws rs) (drop b ws)
    ∙ ap (λ z. slice ws r ++ z) (slices-Chain ws r.to b rs c ∙ ap (λ (k : ℕ). drop k ws) joined)
    ∙ drop-split ws r.from (r.to - r.from)
    ∙ ap (λ (k : ℕ). drop k ws) e

drop_all : (ws : List Word) → drop (length ws) ws ≡ []
drop_all [] = refl
drop_all (w ∷ ws) = drop_all ws

-- The pieces of a run that covers all the words are those words.
pub slices-words : (ws : List Word) (rs : List Run) → Chain 0 (length ws) rs → slices ws rs ≡ ws
slices-words ws rs c =
    sym (append-nil (slices ws rs))
    ∙ ap (λ z. slices ws rs ++ z) (sym (drop_all ws))
    ∙ slices-Chain ws 0 (length ws) rs c

-- The piece of a run that is not empty is not empty either.
pub length-slice :
    (ws : List Word) (r : Run) → r.from < r.to → r.to ≤ length ws → 0 < length (slice ws r)
length-slice ws r le most =
    ground (arith, length-take (r.to - r.from) (drop r.from ws), length-drop r.from ws)

-- No run of a chain goes past its end.
pub Chain-le : (a b : ℕ) (rs : List Run) → Chain a b rs → a ≤ b
Chain-le a b [] c = omega (arith, c)
Chain-le a b (r ∷ rs) (e, le, c) = omega (arith, le, Chain-le r.to b rs c)
