-- ===== src/Governor.antt =====
-- internal/pool/governor.go: the weighted semaphore over inference threads.
--
-- The mutex makes each critical section one step, and a waiter runs the loop's test again at each
-- wake-up: `attempt` is one such test, at the state of the request's context. Counts are `int`s that
-- stay at or above 0; an argument below 1 is raised to 1, so 0 stands for all of them. Capacities
-- lie below 2 ^ 62, so `used + n` does not wrap.
pub mod Bounds
mod Examples
use nano_asr.Prelude.{ℕ, ◌+◌, ◌-◌, Bool, true, false, ltb, if◌then◌else◌}

pub record Governor : Type 0 where
  pub capacity : ℕ
  pub used : ℕ

-- NewGovernor
pub new_governor : ℕ → Governor
new_governor capacity = record { capacity = if ltb capacity 1 then 1 else capacity; used = 0 }

-- The two clamps at the head of Acquire and of Release.
pub weight : ℕ → ℕ → ℕ
weight capacity n =
    let raised : ℕ = if ltb n 1 then 1 else n in if ltb capacity raised then capacity else raised

-- What one pass of the loop in Acquire ends in: the slots, the context's error, or `cond.Wait`.
pub data Attempt : Type 0 where
  granted : Governor → Attempt
  refused : Attempt
  waits : Attempt

-- One pass of Acquire's loop; `done` says that the context is cancelled.
pub attempt : Governor → ℕ → Bool → Attempt
unfolding weight
attempt g n done =
    let w = weight g.capacity n in
    if ltb g.capacity (g.used + w)
    then if done then refused else waits
    else granted (record g { used = g.used + w })

-- Release; the subtraction on ℕ stops at 0, which is the clamp of the source.
pub release : Governor → ℕ → Governor
unfolding weight
release g n = record g { used = g.used - weight g.capacity n }
