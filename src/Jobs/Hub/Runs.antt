-- ===== src/Jobs/Hub/Runs.antt =====
-- internal/job/hub.go: any sequence of the hub's critical sections. Stage is a read and a later
-- publication, so it is covered by `publishes`.
use nano_asr.Prelude.{ℕ, List, [], ◌∷◌}
use nano_asr.Core.{Bytes, Job}
use nano_asr.Jobs.Hub.{Hub, publish, subscribe, unsubscribe, receive}

pub data Op : Type 0 where
  publishes : Job → Op
  subscribes : Bytes → ℕ → Op
  -- The cancel function of a channel, called with the job that its channel was made for.
  unsubscribes : Bytes → ℕ → Op
  receives : ℕ → Op

unfoldable pub apply : Hub → Op → Hub
apply h (publishes j) = publish h j
apply h (subscribes id after) = (subscribe h id after).0
apply h (unsubscribes id ch) = unsubscribe h id ch
apply h (receives ch) = (receive h ch).0

unfoldable pub run : Hub → List Op → Hub
unfolding apply
run h [] = h
run h (o ∷ os) = run (apply h o) os
