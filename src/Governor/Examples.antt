-- ===== src/Governor/Examples.antt =====
-- The theorems on internal/pool/governor.go at concrete inputs.
use nano_asr.Prelude.{◌≡◌, refl, true, false, [], ◌∷◌}
use nano_asr.Governor.{Governor, new_governor, attempt, release, granted, weight}
use nano_asr.Governor.Bounds.{
  System, Reach, here, next, acquires, releases, start, IsBalanced, Reach-IsBalanced, attempt_idle,
}

-- Four threads; a model that asks for nine gets them all.
abbrev full : System
full = record { governor = record { capacity = 4; used = 4 }; held = 9 ∷ [] }

reach_full : Reach (start 4) full
unfolding new_governor attempt weight
reach_full = next here (acquires 9 false (record { capacity = 4; used = 4 }) refl)

abbrev drained : System
drained = record { governor = record { capacity = 4; used = 0 }; held = [] }

reach_drained : Reach (start 4) drained
unfolding release weight
reach_drained = next reach_full (releases [] 9 [] refl)

Reach-IsBalanced_example : IsBalanced full
Reach-IsBalanced_example = Reach-IsBalanced 4 reach_full

attempt_idle_example :
    (g : Governor) × (attempt drained.governor 3 true ≡ granted g)
    × (release g 3 ≡ drained.governor)
attempt_idle_example = attempt_idle 4 3 true reach_drained refl
