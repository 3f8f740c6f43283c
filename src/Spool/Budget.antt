-- ===== src/Spool/Budget.antt =====
-- internal/spool/spool.go: the byte budget.
use nano_asr.Prelude.{
  ℕ, ◌+◌, ◌≤◌, ◌<◌, ◌≡◌, refl, Bool, List, [], ◌∷◌, Option, none, some, arith, lookup, insert,
  delete, inl, inr, Option-cases, lookup-insert, lookup-delete, delete_absent, delete-insert_absent,
}
use nano_asr.Core.{Bytes, bytes_discrete, Audio}
use nano_asr.Spool.{
  Spool, Entry, Result, ok, err, Transfer, new, reserve, release, remove, adopt, transfer,
}

-- The bytes of the reservations.
abbrev pub total : List (Bytes × ℕ) → ℕ
total [] = 0
total ((id, n) ∷ m) = n + total m

-- No id holds two reservations.
abbrev pub Distinct : List (Bytes × ℕ) → Type 0
Distinct [] = Unit {0}
Distinct ((id, n) ∷ m) = (lookup bytes_discrete id m ≡ none) × Distinct m

pub record IsAccounted (s : Spool) : Type 0 where
  pub counted : s.used ≡ total s.held
  pub distinct : Distinct s.held
  pub bounded : 0 < s.max → s.used ≤ s.max

total-insert :
    (id : Bytes) (n : ℕ) (m : List (Bytes × ℕ))
    → lookup bytes_discrete id m ≡ none
    → total (insert bytes_discrete id n m) ≡ n + total m
unfolding lookup insert
total-insert id n [] h = refl
total-insert id n ((j, k) ∷ m) h = ground (arith, total-insert id n m)

Distinct-insert :
    (id : Bytes) (n : ℕ) (m : List (Bytes × ℕ))
    → lookup bytes_discrete id m ≡ none
    → Distinct m
    → Distinct (insert bytes_discrete id n m)
unfolding lookup insert
Distinct-insert id n [] h d = (refl, tt)
Distinct-insert id n ((j, k) ∷ m) h d =
    ground (arith, Distinct-insert id n m, lookup-insert bytes_discrete id j n m)

total-delete :
    (id : Bytes) (n : ℕ) (m : List (Bytes × ℕ))
    → lookup bytes_discrete id m ≡ some n
    → Distinct m
    → n + total (delete bytes_discrete id m) ≡ total m
unfolding lookup delete
total-delete id n [] h d = ground arith
total-delete id n ((j, k) ∷ m) h d =
    ground (arith, total-delete id n m, delete_absent bytes_discrete id m)

Distinct-delete :
    (id : Bytes) (m : List (Bytes × ℕ)) → Distinct m → Distinct (delete bytes_discrete id m)
unfolding lookup delete
Distinct-delete id [] d = tt
Distinct-delete id ((j, k) ∷ m) d =
    ground (arith, Distinct-delete id m, lookup-delete bytes_discrete id j m)

pub new-IsAccounted : (dir : List Entry) (max : ℕ) → IsAccounted (new dir max)
unfolding new
new-IsAccounted dir max = ground arith

pub reserve-IsAccounted :
    (s t : Spool) (id : Bytes) (n : ℕ) → reserve s id n ≡ ok t → IsAccounted s → IsAccounted t
unfolding reserve
reserve-IsAccounted s t id n e a = elim (Option-cases (lookup bytes_discrete id s.held)) [
  | inl h ↦ ground (arith, total-insert id n s.held, Distinct-insert id n s.held)
  | inr (k, h) ↦ ground arith
]

pub release-IsAccounted : (s : Spool) (id : Bytes) → IsAccounted s → IsAccounted (release s id)
unfolding release
release-IsAccounted s id a = elim (Option-cases (lookup bytes_discrete id s.held)) [
  | inl h ↦ ground arith
  | inr (k, h) ↦ ground (arith, total-delete id k s.held, Distinct-delete id s.held)
]

pub data Op : Type 0 where
  reserves : Bytes → ℕ → Op
  releases : Bytes → Op
  removes : Bool → Bytes → Op
  adopts : Transfer → Bytes → Option Audio → Op

pub kept : Spool → Result Spool → Spool
kept s (ok t) = t
kept s (err c) = s

apply : Spool → Op → Spool
unfolding kept
apply s (reserves id n) = kept s (reserve s id n)
apply s (releases id) = release s id
apply s (removes unlinks id) = remove s unlinks id
apply s (adopts t id a) = (adopt s t id a).0

pub run : Spool → List Op → Spool
unfolding apply
run s [] = s
run s (o ∷ os) = run (apply s o) os

-- What the accounts of a spool rest on.
abbrev pub SameAccounts : Spool → Spool → Type 0
SameAccounts s t = (t.used ≡ s.used) × (t.held ≡ s.held) × (t.max ≡ s.max)

transfer-SameAccounts :
    (s : Spool) (t : Transfer) (id : Bytes) (a : Audio) → SameAccounts s (transfer s t id a).0
unfolding transfer
transfer-SameAccounts s Transfer.not_opened id a = (refl, refl, refl)
transfer-SameAccounts s (Transfer.cut_short b) id a = (refl, refl, refl)
transfer-SameAccounts s (Transfer.moved n) id a = (refl, refl, refl)

pub adopt-SameAccounts :
    (s : Spool) (t : Transfer) (id : Bytes) (a : Option Audio) → SameAccounts s (adopt s t id a).0
unfolding adopt
adopt-SameAccounts s t id none = (refl, refl, refl)
adopt-SameAccounts s t id (some a) = ground (arith, transfer-SameAccounts s t id a)

SameAccounts-IsAccounted : (s t : Spool) → SameAccounts s t → IsAccounted s → IsAccounted t
SameAccounts-IsAccounted s t e a = record {
  counted = ground arith;
  distinct = rw (e.1) a.distinct;
  bounded = ground arith;
}

kept-IsAccounted :
    (s : Spool) (id : Bytes) (n : ℕ) (r : Result Spool)
    → reserve s id n ≡ r
    → IsAccounted s
    → IsAccounted (kept s r)
unfolding kept
kept-IsAccounted s id n (ok t) e a = reserve-IsAccounted s t id n e a
kept-IsAccounted s id n (err c) e a = a

apply-IsAccounted : (s : Spool) (o : Op) → IsAccounted s → IsAccounted (apply s o)
unfolding apply remove
apply-IsAccounted s (reserves id n) a = kept-IsAccounted s id n (reserve s id n) refl a
apply-IsAccounted s (releases id) a = release-IsAccounted s id a
apply-IsAccounted s (removes unlinks id) a =
    release-IsAccounted _ id (SameAccounts-IsAccounted s _ (refl, refl, refl) a)
apply-IsAccounted s (adopts t id audio) a =
    SameAccounts-IsAccounted s _ (adopt-SameAccounts s t id audio) a

run_from-IsAccounted : (s : Spool) (os : List Op) → IsAccounted s → IsAccounted (run s os)
unfolding run
run_from-IsAccounted s [] a = a
run_from-IsAccounted s (o ∷ os) a = run_from-IsAccounted (apply s o) os (apply-IsAccounted s o a)

-- From an empty spool, after any sequence of reservations, releases, removals and adoptions, with
-- any failures of the operating system, the counter is the sum of the live reservations, no job
-- holds two, and a budget that is not 0 is never exceeded.
pub run-IsAccounted :
    (dir : List Entry) (max : ℕ) (os : List Op) → IsAccounted (run (new dir max) os)
run-IsAccounted dir max os = run_from-IsAccounted _ os (new-IsAccounted dir max)

-- A reservation that was granted and is released leaves the spool as it was, and a second release
-- changes nothing.
pub release-reserve :
    (s t : Spool) (id : Bytes) (n : ℕ)
    → reserve s id n ≡ ok t
    → (release t id ≡ s) × (release (release t id) id ≡ s)
unfolding reserve release
release-reserve s t id n e = elim (Option-cases (lookup bytes_discrete id s.held)) [
  | inl h ↦ ground (
    arith,
    lookup-insert bytes_discrete id id n s.held,
    delete-insert_absent bytes_discrete id n s.held,
  )
  | inr (k, h) ↦ ground arith
]
