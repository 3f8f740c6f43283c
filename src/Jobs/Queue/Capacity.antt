-- ===== src/Jobs/Queue/Capacity.antt =====
-- internal/job/queue.go under any interleaving of its critical sections: admission is a
-- reservation.
use nano_asr.Prelude.{
  ℕ, ◌+◌, ◌-◌, ◌≤◌, ◌<◌, ◌≡◌, List, [], ◌∷◌, ◌++◌, some, arith, length, length-append, Option-cases,
  inl, inr,
}
use nano_asr.Core.{Bytes, bytes_discrete}
use nano_asr.Jobs.Queue.{
  Item, Queue, ok, new, reserve, resume, unreserve, enqueue, takes, next, start, leave, withdraw,
  cancel_held, stop, cancel_running,
}
use nano_asr.Jobs.Queue.Order.{IsServiceOrder, AllAfter, enqueue_order, PutIn}

-- The queue, the callers that are between their reservation and its end (Submit, or a turn of the
-- loop in Recover), and how many jobs of a previous process were resumed.
pub record System : Type 0 where
  pub queue : Queue
  pub accepting : ℕ
  pub resumed : ℕ

pub data Step (s : System) : System → Type 0 where
  reserves :
      (q : Queue)
      → reserve s.queue ≡ ok q
      → Step s (record s { queue = q; accepting = s.accepting + 1 })
  resumes :
      Step s
        (record { queue = resume s.queue; accepting = s.accepting + 1; resumed = s.resumed + 1 })
  gives_up :
      0 < s.accepting → Step s (record s { queue = unreserve s.queue; accepting = s.accepting - 1 })
  enqueues :
      (item : Item)
      → 0 < s.accepting
      → Step s (record s { queue = enqueue s.queue item; accepting = s.accepting - 1 })
  pops : (item : Item) (q : Queue) → next s.queue ≡ takes item q → Step s (record s { queue = q })
  starts : (id : Bytes) → Step s (record s { queue = (start s.queue id).0 })
  leaves : (id : Bytes) → Step s (record s { queue = (leave s.queue id).0 })
  cancels :
      (id : Bytes) (item : Item) (q : Queue)
      → cancel_held s.queue id ≡ some (item, q)
      → Step s (record s { queue = q })
  shuts_down : Step s (record s { queue = stop s.queue })
  cuts_short : Step s (record s { queue = cancel_running s.queue })

pub data Reach (s : System) : System → Type 0 where
  here : Reach s s
  then : {t u : System} → Reach s t → Step t u → Reach s u

abbrev pub begin : ℕ → ℕ → System
begin size workers = record { queue = new size workers; accepting = 0; resumed = 0 }

pub record IsAdmitted (size : ℕ) (s : System) : Type 0 where
  pub fixed : s.queue.size ≡ size
  pub accounted : s.queue.admitted ≡ s.accepting
  pub bounded : length s.queue.items + s.queue.admitted ≤ size + s.resumed
  pub ordered : IsServiceOrder s.queue.items

length-PutIn : (item : Item) (xs ys : List Item) → PutIn item xs ys → length ys ≡ length xs + 1
length-PutIn item xs ys (front, back, p, q) =
    rw (p, q) (omega (arith, length-append front back, length-append front (item ∷ back)))

-- Withdrawing takes one item out and leaves the others as they were.
pub withdraw-PutIn :
    (id : Bytes) (xs : List Item) (it : Item) (rest : List Item)
    → withdraw id xs ≡ some (it, rest)
    → PutIn it rest xs × (it.id ≡ id)
unfolding withdraw
withdraw-PutIn id [] it rest h = absurd (cc)
withdraw-PutIn id (x ∷ xs) it rest h = elim (bytes_discrete x.id id) [
  | yes same ↦ (([], xs, ground arith, ground arith), ground arith)
  | no other ↦ elim (Option-cases (withdraw id xs)) [
    | inl missing ↦ absurd (ground arith)
    | inr ((y, ys), found) ↦
        let ((front, back, p, q), named) = withdraw-PutIn id xs y ys found in
        ((x ∷ front, back, ground arith, ground arith), ground arith)
  ]
]

AllAfter-remove :
    (w it : Item) (front back : List Item)
    → AllAfter w (front ++ it ∷ back)
    → AllAfter w (front ++ back)
AllAfter-remove w it [] back a = a.1
AllAfter-remove w it (x ∷ front) back a = (a.0, AllAfter-remove w it front back a.1)

IsServiceOrder-remove :
    (it : Item) (front back : List Item)
    → IsServiceOrder (front ++ it ∷ back)
    → IsServiceOrder (front ++ back)
IsServiceOrder-remove it [] back o = o.1
IsServiceOrder-remove it (x ∷ front) back o =
    (AllAfter-remove x it front back o.0, IsServiceOrder-remove it front back o.1)

PutIn-IsServiceOrder :
    (it : Item) (xs ys : List Item) → PutIn it xs ys → IsServiceOrder ys → IsServiceOrder xs
PutIn-IsServiceOrder it xs ys (front, back, p, q) o =
    rw p (IsServiceOrder-remove it front back (rw q at o))

module _ (size : ℕ) where
  enqueue-IsAdmitted :
      (s : System) (item : Item)
      → 0 < s.accepting
      → IsAdmitted size s
      → IsAdmitted size (record s { queue = enqueue s.queue item; accepting = s.accepting - 1 })
  unfolding enqueue
  enqueue-IsAdmitted s item h a =
      let (o, put) = enqueue_order s.queue item a.ordered in
      let n = length-PutIn item s.queue.items _ put in
      record {
        fixed = a.fixed;
        accounted = omega (arith, a.accounted);
        bounded = omega (arith, n, a.bounded, a.accounted);
        ordered = o;
      }

  pop-IsAdmitted :
      (s : System) (item : Item) (q : Queue)
      → next s.queue ≡ takes item q
      → IsAdmitted size s
      → IsAdmitted size (record s { queue = q })
  unfolding next
  pop-IsAdmitted s item q h a = ground arith

  cancel-IsAdmitted :
      (s : System) (id : Bytes) (item : Item) (q : Queue)
      → cancel_held s.queue id ≡ some (item, q)
      → IsAdmitted size s
      → IsAdmitted size (record s { queue = q })
  unfolding cancel_held
  cancel-IsAdmitted s id item q h a = elim (Option-cases (withdraw id s.queue.items)) [
    | inl missing ↦ ground arith
    | inr ((it, rest), found) ↦
        let put = (withdraw-PutIn id s.queue.items it rest found).0 in
        let n = length-PutIn it rest s.queue.items put in
        let o = PutIn-IsServiceOrder it rest s.queue.items put a.ordered in ground arith
  ]

  Step-IsAdmitted : {s t : System} → Step s t → IsAdmitted size s → IsAdmitted size t
  unfolding reserve resume unreserve start leave stop cancel_running
  Step-IsAdmitted (reserves q h) a = ground arith
  Step-IsAdmitted resumes a = ground arith
  Step-IsAdmitted (gives_up h) a = ground arith
  Step-IsAdmitted {s} (enqueues item h) a = enqueue-IsAdmitted s item h a
  Step-IsAdmitted {s} (pops item q h) a = pop-IsAdmitted s item q h a
  Step-IsAdmitted (starts id) a = ground arith
  Step-IsAdmitted (leaves id) a = ground arith
  Step-IsAdmitted {s} (cancels id item q h) a = cancel-IsAdmitted s id item q h a
  Step-IsAdmitted shuts_down a = ground arith
  Step-IsAdmitted cuts_short a = ground arith

begin-IsAdmitted : (size workers : ℕ) → 1 ≤ size → IsAdmitted size (begin size workers)
unfolding new
begin-IsAdmitted size workers h = ground arith

-- From a new queue of a positive size, after any interleaving of the critical sections, `admitted`
-- counts exactly the callers between their reservation and its end, the waiting items and these
-- callers together are at most the size and the jobs that were resumed, and the waiting items
-- stand in service order.
pub Reach-IsAdmitted :
    (size workers : ℕ) {t : System} → 1 ≤ size → Reach (begin size workers) t → IsAdmitted size t
Reach-IsAdmitted size workers h here = begin-IsAdmitted size workers h
Reach-IsAdmitted size workers h (then r st) =
    Step-IsAdmitted size st (Reach-IsAdmitted size workers h r)
