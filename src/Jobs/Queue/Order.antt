-- ===== src/Jobs/Queue/Order.antt =====
-- internal/job/queue.go: the order in which waiting jobs are served.
use nano_asr.Prelude.{
  ℕ, ◌≡◌, ◌≤◌, refl, ap, true, false, List, [], ◌∷◌, ◌++◌, arith, Bool-cases, inl, inr, ltb, ◌==◌,
  if◌then◌else◌,
}
use mathlib.Core.Path.{subst}
use nano_asr.Jobs.Record.{Priority, interactive, batch, rank}
use nano_asr.Jobs.Queue.{Item, Queue, before, place, sort, enqueue}

-- The order the documentation promises, read off the two fields: an interactive job goes before a
-- batch one, and of two jobs of one priority the one enqueued earlier, or at the same time.
abbrev pub GoesFirst : Priority → ℕ → Priority → ℕ → Type 0
GoesFirst interactive t batch u = Unit {0}
GoesFirst batch t interactive u = ⊥
GoesFirst interactive t interactive u = t ≤ u
GoesFirst batch t batch u = t ≤ u

-- Each of the later items may be served after the first.
abbrev pub AllAfter : Item → List Item → Type 0
AllAfter x [] = Unit {0}
AllAfter x (y ∷ ys) = GoesFirst x.priority x.enqueued y.priority y.enqueued × AllAfter x ys

abbrev pub IsServiceOrder : List Item → Type 0
IsServiceOrder [] = Unit {0}
IsServiceOrder (x ∷ xs) = AllAfter x xs × IsServiceOrder xs

Before : Item → Item → Type 0
Before x y = GoesFirst x.priority x.enqueued y.priority y.enqueued

-- The comparison of the code is the promised order.
by_fields :
    (p q : Priority) (t u : ℕ)
    → (if rank q == rank p then ltb u t else ltb (rank p) (rank q)) ≡ false
    → GoesFirst p t q u
by_fields interactive batch t u h = tt
by_fields batch interactive t u h = absurd (ground arith)
by_fields interactive interactive t u h = ground arith
by_fields batch batch t u h = ground arith

to_fields :
    (p q : Priority) (t u : ℕ)
    → GoesFirst p t q u
    → (if rank q == rank p then ltb u t else ltb (rank p) (rank q)) ≡ false
to_fields interactive batch t u h = refl
to_fields batch interactive t u h = elim h [ ]
to_fields interactive interactive t u h = ground arith
to_fields batch batch t u h = ground arith

before-Before : (x y : Item) → before y x ≡ false → Before x y
unfolding Before
before-Before x y h = by_fields x.priority y.priority x.enqueued y.enqueued h

Before-before : (x y : Item) → Before x y → before y x ≡ false
unfolding Before
Before-before x y h = to_fields x.priority y.priority x.enqueued y.enqueued h

before_asym : (a b : Item) → before a b ≡ true → Before a b
before_asym a b h = before-Before a b (ground arith)

Before-trans : (a b c : Item) → Before a b → Before b c → Before a c
Before-trans a b c h k =
    let p = Before-before a b h in let q = Before-before b c k in before-Before a c (ground arith)

AllAfter-trans : (x y : Item) (ys : List Item) → Before x y → AllAfter y ys → AllAfter x ys
unfolding Before
AllAfter-trans x y [] h a = tt
AllAfter-trans x y (z ∷ zs) h a = (Before-trans x y z h a.0, AllAfter-trans x y zs h a.1)

AllAfter-place :
    (w x : Item) (ys : List Item) → Before w x → AllAfter w ys → AllAfter w (place x ys)
unfolding place Before
AllAfter-place w x [] h a = (h, tt)
AllAfter-place w x (y ∷ ys) h a = elim (Bool-cases (before y x)) [
  | inl first ↦ rw first (a.0, AllAfter-place w x ys h a.1)
  | inr last ↦ rw last (h, a)
]

place-IsServiceOrder : (x : Item) (ys : List Item) → IsServiceOrder ys → IsServiceOrder (place x ys)
unfolding place Before
place-IsServiceOrder x [] o = (tt, tt)
place-IsServiceOrder x (y ∷ ys) o = elim (Bool-cases (before y x)) [
  | inl h ↦ rw h (AllAfter-place y x ys (before_asym y x h) o.0, place-IsServiceOrder x ys o.1)
  | inr h ↦ let first = before-Before x y h in rw h ((first, AllAfter-trans x y ys first o.0), o)
]

sort-IsServiceOrder : (xs : List Item) → IsServiceOrder (sort xs)
unfolding sort
sort-IsServiceOrder [] = tt
sort-IsServiceOrder (x ∷ xs) = place-IsServiceOrder x (sort xs) (sort-IsServiceOrder xs)

-- The second list is the first with an item put in somewhere.
abbrev pub PutIn : Item → List Item → List Item → Type 0
PutIn item xs ys =
    (front : List Item) × (back : List Item) × (xs ≡ front ++ back) × (ys ≡ front ++ item ∷ back)

place_first : (x : Item) (xs : List Item) → AllAfter x xs → place x xs ≡ x ∷ xs
unfolding place Before
place_first x [] a = refl
place_first x (y ∷ ys) a = let last = Before-before x y a.0 in rw last

place-PutIn :
    (x item : Item) (xs ys : List Item)
    → AllAfter x xs
    → PutIn item xs ys
    → PutIn item (x ∷ xs) (place x ys)
unfolding place Before
place-PutIn x item xs ys a ([], back, p, q) = elim (Bool-cases (before item x)) [
  | inl h ↦ ([], x ∷ xs, refl, rw (q, place, h) (ap (◌∷◌ item) (rw (← p) (place_first x xs a))))
  | inr h ↦ (x ∷ [], back, ap (◌∷◌ x) p, rw (q, place, h) refl)
]
place-PutIn x item xs ys a (z ∷ front, back, p, q) =
    let after : AllAfter x (z ∷ front ++ back) = subst (AllAfter x) p a in
    let last = Before-before x z after.0 in
    (x ∷ z ∷ front, back, ap (◌∷◌ x) p, rw (q, place, last) refl)

sort-PutIn :
    (xs : List Item) (item : Item) → IsServiceOrder xs → PutIn item xs (sort (xs ++ item ∷ []))
unfolding sort
sort-PutIn [] item o = ([], [], refl, (unfold place in refl))
sort-PutIn (x ∷ xs) item o = place-PutIn x item xs _ o.0 (sort-PutIn xs item o.1)

-- Enqueueing into a queue in which every interactive item stands before every batch one, and of
-- two items of one priority never the one enqueued later before the other, keeps it so, puts the
-- new item in somewhere and moves no other past another.
pub enqueue_order :
    (q : Queue) (item : Item)
    → IsServiceOrder q.items
    → IsServiceOrder (enqueue q item).items × PutIn item q.items (enqueue q item).items
unfolding enqueue
enqueue_order q item o = (sort-IsServiceOrder (q.items ++ item ∷ []), sort-PutIn q.items item o)
