-- ===== src/Governor/Bounds.antt =====
-- internal/pool/governor.go under any interleaving of its callers.
use nano_asr.Prelude.{ℕ, ◌+◌, ◌≤◌, ◌≡◌, Bool, List, [], ◌∷◌, ◌++◌, arith, ap, ◌∙◌}
use nano_asr.Governor.{Governor, granted, new_governor, weight, attempt, release}

-- The governor, and the sizes of the calls that hold slots, as they were asked for.
pub record System : Type 0 where
  pub governor : Governor
  pub held : List ℕ

-- One critical section of some caller: a granted Acquire, or a Release of what an Acquire gave.
pub data Step (s : System) : System → Type 0 where
  acquires :
      (n : ℕ) (done : Bool) (g : Governor)
      → attempt s.governor n done ≡ granted g
      → Step s (record { governor = g; held = n ∷ s.held })
  releases :
      (before : List ℕ) (n : ℕ) (after : List ℕ)
      → s.held ≡ before ++ n ∷ after
      → Step s (record { governor = release s.governor n; held = before ++ after })

pub data Reach (s : System) : System → Type 0 where
  here : Reach s s
  next : {t u : System} → Reach s t → Step t u → Reach s u

abbrev pub start : ℕ → System
start capacity = record { governor = new_governor capacity; held = [] }

-- The slots that a list of calls takes.
abbrev pub total : ℕ → List ℕ → ℕ
total c [] = 0
total c (n ∷ ns) = weight c n + total c ns

total-append : (c : ℕ) (xs ys : List ℕ) → total c (xs ++ ys) ≡ total c xs + total c ys
total-append c [] ys = omega arith
total-append c (x ∷ xs) ys = omega (arith, total-append c xs ys)

pub record IsBalanced (s : System) : Type 0 where
  pub positive : 1 ≤ s.governor.capacity
  pub counted : s.governor.used ≡ total s.governor.capacity s.held
  pub bounded : s.governor.used ≤ s.governor.capacity

weight_bounds : (c n : ℕ) → 1 ≤ c → (1 ≤ weight c n) × (weight c n ≤ c)
unfolding weight
weight_bounds c n h = ground arith

start-IsBalanced : (c : ℕ) → IsBalanced (start c)
unfolding new_governor
start-IsBalanced c = ground arith

acquires-IsBalanced :
    (s : System) (n : ℕ) (done : Bool) (g : Governor)
    → attempt s.governor n done ≡ granted g
    → IsBalanced s
    → IsBalanced (record { governor = g; held = n ∷ s.held })
unfolding attempt
acquires-IsBalanced s n done g e b = ground arith

releases-IsBalanced :
    (s : System) (before : List ℕ) (n : ℕ) (after : List ℕ)
    → s.held ≡ before ++ n ∷ after
    → IsBalanced s
    → IsBalanced (record { governor = release s.governor n; held = before ++ after })
unfolding release
releases-IsBalanced s before n after e b =
    let c : ℕ = s.governor.capacity in
    let split : total c s.held ≡ total c before + (weight c n + total c after) =
      ap (total c) e ∙ total-append c before (n ∷ after) in
    record {
      positive = b.positive;
      counted = omega (arith, split, total-append c before after);
      bounded = omega (arith, split, total-append c before after);
    }

Step-IsBalanced : {s t : System} → Step s t → IsBalanced s → IsBalanced t
Step-IsBalanced {s} (acquires n done g e) b = acquires-IsBalanced s n done g e b
Step-IsBalanced {s} (releases before n after e) b = releases-IsBalanced s before n after e b

-- From a fresh governor, after any sequence of granted acquires and matching releases of any
-- sizes, the slots in use are exactly those of the calls that hold some, and never more than the
-- capacity.
pub Reach-IsBalanced : (c : ℕ) {t : System} → Reach (start c) t → IsBalanced t
Reach-IsBalanced c here = start-IsBalanced c
Reach-IsBalanced c (next r st) = Step-IsBalanced st (Reach-IsBalanced c r)

-- When no call holds slots, a call of any size gets them at once, larger than the capacity or not
-- and whether its context is cancelled or not.
pub attempt_idle :
    (c n : ℕ) (done : Bool) {t : System}
    → Reach (start c) t
    → t.held ≡ []
    → (g : Governor) × (attempt t.governor n done ≡ granted g) × (release g n ≡ t.governor)
unfolding attempt release
attempt_idle c n done {t} r e =
    let b = Reach-IsBalanced c r in
    let w = weight_bounds t.governor.capacity n b.positive in
    let z : t.governor.used ≡ 0 = b.counted ∙ ap (total t.governor.capacity) e in
    (
      record t.governor { used = t.governor.used + weight t.governor.capacity n },
      ground arith,
      ground arith,
    )
