-- ===== src/Registry/Inside.antt =====
-- internal/registry/unpack.go: where an entry of an archive may go.
use mathlib.Core.Path.{subst}
use nano_asr.Prelude.{
  ℕ, zero, suc, ◌+◌, ◌≤◌, ◌<◌, ◌≡◌, refl, ap, ◌∙◌, Bool, true, false, List, [], ◌∷◌, ◌++◌, none,
  some, arith, ltb, length, length-append, if◌then◌else◌, Bool-cases, inl, inr, ◌⊎◌,
}
use nano_asr.Core.{Bytes, bytes_discrete}
use nano_asr.Registry.{
  FilePath, Step, stay, up, down, step_of, components, Clean, drop_last, take_step, clean_from,
  clean, is_absolute, rel_ups, safe_join,
}

-- A component that names something: not empty, and neither dot nor dots.
abbrev pub IsPlain : Bytes → Type 0
IsPlain c = step_of c ≡ down c

abbrev pub AllPlain : List Bytes → Type 0
AllPlain [] = Unit {0}
AllPlain (c ∷ cs) = IsPlain c × AllPlain cs

-- The destination, and below it.
abbrev pub IsInside : FilePath → FilePath → Type 0
IsInside dest path = (below : List Bytes) × (path ≡ dest ++ below) × AllPlain below

-- Whether a walk along the components leaves the directory that it starts in, so many levels down.
unfoldable pub climbs : ℕ → List Bytes → Bool
climbs depth [] = false
climbs depth (c ∷ cs) = elim (step_of c) [
  | stay ↦ climbs depth cs
  | down d ↦ climbs (suc depth) cs
  | up ↦ elim depth [ zero ↦ true | suc d ↦ climbs d cs ]
]

Step-cases : (s : Step) → (s ≡ stay) ⊎ ((s ≡ up) ⊎ ((c : Bytes) × (s ≡ down c)))
Step-cases stay = inl refl
Step-cases up = inr (inl refl)
Step-cases (down c) = inr (inr (c, refl))

step_of-down : (c d : Bytes) → step_of c ≡ down d → c ≡ d
unfolding step_of
step_of-down [] d e = absurd (let it : stay ≡ down d = e in cc)
step_of-down (a ∷ []) d e = ground arith
step_of-down (a ∷ b ∷ []) d e = ground arith
step_of-down (a ∷ b ∷ c ∷ cs) d e = let it : down (a ∷ b ∷ c ∷ cs) ≡ down d = e in cc

AllPlain-snoc : (cs : List Bytes) (c : Bytes) → AllPlain cs → IsPlain c → AllPlain (cs ++ c ∷ [])
AllPlain-snoc [] c a p = (p, tt)
AllPlain-snoc (d ∷ cs) c a p = (a.0, AllPlain-snoc cs c a.1 p)

AllPlain-drop_last : (cs : List Bytes) → AllPlain cs → AllPlain (drop_last cs)
unfolding drop_last
AllPlain-drop_last [] a = tt
AllPlain-drop_last (c ∷ []) a = tt
AllPlain-drop_last (c ∷ d ∷ cs) a = (a.0, AllPlain-drop_last (d ∷ cs) a.1)

length-drop_last : (c : Bytes) (cs : List Bytes) → length (drop_last (c ∷ cs)) ≡ length cs
unfolding drop_last
length-drop_last c [] = refl
length-drop_last c (d ∷ cs) = ap suc (length-drop_last d cs)

-- What cleaning the rest of a path leaves, from so many steps up and these components down.
abbrev Cleaned : ℕ → List Bytes → List Bytes → Clean → Type 0
Cleaned ups downs cs q =
    (AllPlain downs → AllPlain q.downs)
    × (ups ≤ q.ups)
    × (climbs (length downs) cs ≡ true → ups < q.ups)
    × (climbs (length downs) cs ≡ false → ups ≡ q.ups)

abbrev at_path : ℕ → List Bytes → Clean
at_path ups downs = record { ups = ups; downs = downs }

clean_from-Cleaned :
    (ups : ℕ) (downs cs : List Bytes) → Cleaned ups downs cs (clean_from (at_path ups downs) cs)
unfolding clean_from take_step climbs
clean_from-Cleaned ups downs [] =
    ((λ a. a), omega arith, (λ e. absurd (let it : false ≡ true = e in cc)), λ e. refl)
clean_from-Cleaned ups downs (c ∷ cs) = elim (Step-cases (step_of c)) [
  | inl stays ↦ rw (stays, clean_from, climbs) (clean_from-Cleaned ups downs cs)
  | inr (inr (d, goes_down)) ↦
      let ih = clean_from-Cleaned ups (downs ++ d ∷ []) cs in
      let deeper : length (downs ++ d ∷ []) ≡ suc (length downs) =
        omega (arith, length-append downs (d ∷ [])) in
      let plain : IsPlain d =
        subst (λ x. step_of x ≡ down d) (step_of-down c d goes_down) goes_down in
      rw (goes_down, clean_from, climbs)
        (
          (λ a. ih.0 (AllPlain-snoc downs d a plain)),
          ih.1,
          (λ e. ih.2 (ap (λ k. climbs k cs) deeper ∙ e)),
          λ e. ih.3 (ap (λ k. climbs k cs) deeper ∙ e),
        )
  | inr (inl goes_up) ↦ going_up ups downs c cs goes_up (λ u ds. clean_from-Cleaned u ds cs)
]
  where
    going_up :
        (ups : ℕ) (downs : List Bytes) (c : Bytes) (cs : List Bytes)
        → step_of c ≡ up
        → ((u : ℕ) (ds : List Bytes) → Cleaned u ds cs (clean_from (at_path u ds) cs))
        → Cleaned ups downs (c ∷ cs) (clean_from (at_path ups downs) (c ∷ cs))
    going_up ups [] c cs e ih =
        let more = ih (ups + 1) [] in
        rw (e, clean_from, climbs)
          (
            (λ a. more.0 a),
            omega (arith, more.1),
            (λ t. omega (arith, more.1)),
            λ t. absurd (let it : true ≡ false = t in cc),
          )
    going_up ups (d ∷ ds) c cs e ih =
        let less = ih ups (drop_last (d ∷ ds)) in
        let higher = length-drop_last d ds in
        rw (e, clean_from, climbs)
          (
            (λ a. less.0 (AllPlain-drop_last (d ∷ ds) a)),
            less.1,
            (λ t. less.2 (ap (λ k. climbs k cs) higher ∙ t)),
            λ t. less.3 (ap (λ k. climbs k cs) higher ∙ t),
          )

rel_ups-append : (base below : FilePath) → rel_ups base (base ++ below) ≡ 0
unfolding rel_ups
rel_ups-append [] below = refl
rel_ups-append (b ∷ base) below =
    elim (bytes_discrete b b)
      as (λ d.
        elim d [ yes same ↦ rel_ups base (base ++ below) | no other ↦ length (b ∷ base) ] ≡ 0) [
          | yes same ↦ rel_ups-append base below
          | no other ↦ absurd (other refl)
        ]

-- An archive entry with a name that is not empty is refused exactly if the name is absolute, or a
-- walk along it leaves the destination at some point, even one that comes back; every other name
-- gives a path below the destination, with no component that is empty, a dot or two dots.
pub safe_join-IsInside :
    (dest : FilePath) (b : ℕ) (bs : Bytes)
    → let refused : Bool = if is_absolute (b ∷ bs) then true else climbs 0 (components (b ∷ bs)) in
      (refused ≡ true → safe_join dest (b ∷ bs) ≡ none)
      × (refused ≡ false
          → (target : FilePath) × (safe_join dest (b ∷ bs) ≡ some target) × IsInside dest target)
unfolding safe_join clean
safe_join-IsInside dest b bs =
    let q = clean (b ∷ bs) in
    let c = clean_from-Cleaned 0 [] (components (b ∷ bs)) in
    let same = rel_ups-append dest q.downs in
    elim (Bool-cases (is_absolute (b ∷ bs))) [
      | inl absolute ↦
          rw (absolute, safe_join) ((λ e. refl), λ e. absurd (let it : true ≡ false = e in cc))
      | inr relative ↦
          rw (relative, safe_join)
            (
              (λ e.
                  let out : ltb 0 q.ups ≡ true = ground (arith, c.2 e) in rw (out, safe_join) refl),
              λ e.
                  let into : ltb 0 q.ups ≡ false = ground (arith, c.3 e) in
                  (dest ++ q.downs, rw (into, same, safe_join) refl, (q.downs, refl, c.0 tt)),
            )
    ]
