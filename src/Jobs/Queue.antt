-- ===== src/Jobs/Queue.antt =====
-- internal/job/queue.go: the queue under its mutex. Each function is one critical section; what
-- happens between them is in Work.antt.
--
-- An item is shared by pointer between the queue and the worker that runs it. While a worker has
-- it, it is the entry of `running` under its id, so the entry is where `cancel` and `canceled` are
-- read and written.
pub mod Order
pub mod Capacity
use nano_asr.Prelude.{
  ℕ, ◌+◌, ◌-◌, ◌<◌, ◌≤◌, ◌&&◌, Bool, true, false, List, [], ◌∷◌, ◌++◌, Option, none, some, ltb, leb,
  lookup, insert, delete, if◌then◌else◌, ite, length, ◌==◌, zero, suc,
}
use nano_asr.Core.{Bytes, bytes_discrete, Request, Code, queue_full, draining}
use nano_asr.Jobs.Record.{Priority, rank}

pub record Item : Type 0 where
  pub id : Bytes
  pub request : Request
  pub priority : Priority
  pub enqueued : ℕ
  -- Whether `cancel` is set, whether it was called, and `canceled`.
  pub has_cancel : Bool
  pub ctx_done : Bool
  pub canceled : Bool

pub record Queue : Type 0 where
  pub items : List Item
  pub running : List (Bytes × Item)
  pub stopped : Bool
  pub admitted : ℕ
  pub size : ℕ
  pub workers : ℕ

pub data Result {ℓ} (A : Type ℓ) : Type ℓ where
  ok : A → Result A
  err : Code → Result A

-- New, with its defaults.
unfoldable pub new : ℕ → ℕ → Queue
new size workers = record {
  items = [];
  running = [];
  stopped = false;
  admitted = 0;
  size = if ltb size 1 then 1 else size;
  workers = if ltb workers 1 then 1 else workers;
}

unfoldable pub depth : Queue → ℕ
depth q = length q.items

unfoldable pub reserve : Queue → Result Queue
reserve q =
    if q.stopped
    then err draining
    else if leb q.size (length q.items + q.admitted)
    then err queue_full
    else ok (record q { admitted = q.admitted + 1 })

unfoldable pub resume : Queue → Queue
resume q = record q { admitted = q.admitted + 1 }

-- `if q.admitted > 0 { q.admitted-- }`: the subtraction on ℕ stops at 0.
unfoldable pub unreserve : Queue → Queue
unreserve q = record q { admitted = q.admitted - 1 }

-- The comparison of sortLocked.
abbrev pub before : Item → Item → Bool
before a b =
    if rank a.priority == rank b.priority
    then ltb a.enqueued b.enqueued
    else ltb (rank b.priority) (rank a.priority)

-- sort.SliceStable: an element goes before the first later one that does not have to precede it.
unfoldable pub place : Item → List Item → List Item
place x [] = x ∷ []
place x (y ∷ ys) = if before y x then y ∷ place x ys else x ∷ y ∷ ys

unfoldable pub sort : List Item → List Item
unfolding place
sort [] = []
sort (x ∷ xs) = place x (sort xs)

unfoldable pub enqueue : Queue → Item → Queue
enqueue q item = record q { admitted = q.admitted - 1; items = sort (q.items ++ item ∷ []) }

unfoldable pub position_in : Bytes → ℕ → List Item → ℕ
position_in id i [] = 0
position_in id i (it ∷ its) = ite (bytes_discrete it.id id) (i + 1) (position_in id (i + 1) its)

unfoldable pub position : Queue → Bytes → ℕ
unfolding position_in
position q id = position_in id 0 q.items

-- What one pass of the loop in next ends in.
pub data Next : Type 0 where
  blocks : Next
  stops : Next
  takes : Item → Queue → Next

abbrev pub pop : Queue → List Item → Next
pop q [] = blocks
pop q (item ∷ rest) =
    takes item (record q { items = rest; running = insert bytes_discrete item.id item q.running })

unfoldable pub next : Queue → Next
next q = if q.stopped then stops else pop q q.items

-- The critical section at the head of run: `cancel` is set and `canceled` is read.
unfoldable pub start : Queue → Bytes → Queue × Bool
start q id = elim (lookup bytes_discrete id q.running) [
  | none ↦ (q, false)
  | some item ↦ (
    record q { running = insert bytes_discrete id (record item { has_cancel = true }) q.running },
    item.canceled,
  )
]

-- The critical section at the head of finish.
unfoldable pub leave : Queue → Bytes → Queue × Bool
leave q id = (
  record q { running = delete bytes_discrete id q.running },
  elim (lookup bytes_discrete id q.running) [ none ↦ false | some item ↦ item.canceled ],
)

-- The first waiting item under an id, and the list without it.
unfoldable pub withdraw : Bytes → List Item → Option (Item × List Item)
withdraw id [] = none
withdraw id (it ∷ its) =
    ite (bytes_discrete it.id id) (some (it, its))
      (elim (withdraw id its) [ none ↦ none | some (x, rest) ↦ some (x, it ∷ rest) ])

-- The critical section of Cancel, and the call of `cancel` that follows it: the item that is now
-- cancelled, or nothing if the queue does not hold the job.
unfoldable pub cancel_held : Queue → Bytes → Option (Item × Queue)
unfolding withdraw
cancel_held q id = elim (withdraw id q.items) [
  | some (it, rest) ↦ some (record it { canceled = true }, record q { items = rest })
  | none ↦ elim (lookup bytes_discrete id q.running) [
    | none ↦ none
    | some it ↦
        let stopped : Item = record it { canceled = true; ctx_done = it.has_cancel } in
        some (stopped, record q { running = insert bytes_discrete id stopped q.running })
  ]
]

-- The first critical section of Shutdown.
unfoldable pub stop : Queue → Queue
stop q = record q { stopped = true }

-- cancelRunning
unfoldable pub cancel_all : List (Bytes × Item) → List (Bytes × Item)
cancel_all [] = []
cancel_all ((id, it) ∷ m) =
    (id, if it.has_cancel then record it { ctx_done = true } else it) ∷ cancel_all m

unfoldable pub cancel_running : Queue → Queue
unfolding cancel_all
cancel_running q = record q { running = cancel_all q.running }
