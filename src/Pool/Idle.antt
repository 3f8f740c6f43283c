-- ===== src/Pool/Idle.antt =====
-- internal/pool/pool.go, Close: its loops close the entries on which nothing is held.
use nano_asr.Prelude.{
  ◌⊎◌, ℕ, ◌≡◌, false, List, [], ◌∷◌, none, some, arith, lookup, lookup-insert, ℕ_discrete, ◌==◌,
  Option-cases, Bool-cases, inl, inr,
}
use nano_asr.Pool.Invariant.{Table}
use nano_asr.Pool.State.{Pool, Entry, close_entry}
use nano_asr.Pool.Manage.{close_one, close_idle, outstanding_in}

abbrev pub Idle : Table → ℕ → Type 0
Idle entries h = (e : Entry) → lookup ℕ_discrete h entries ≡ some e → e.refs ≡ 0

-- The recogniser of an entry is closed, or it never had one.
abbrev pub IsClosed : Table → ℕ → Type 0
IsClosed entries h = (e : Entry) → lookup ℕ_discrete h entries ≡ some e → e.rec ≡ none

abbrev pub Each : (ℕ → Type 0) → List ℕ → Type 0
Each P [] = Unit {0}
Each P (h ∷ hs) = P h × Each P hs

pub Each-mono : (P Q : ℕ → Type 0) (hs : List ℕ) → ((h : ℕ) → P h → Q h) → Each P hs → Each Q hs
Each-mono P Q [] f a = tt
Each-mono P Q (h ∷ hs) f a = (f h a.0, Each-mono P Q hs f a.1)

pub outstanding-Idle :
    (entries : Table) (hs : List ℕ) → outstanding_in entries hs ≡ false → Each (Idle entries) hs
unfolding outstanding_in
outstanding-Idle entries [] nobody = tt
outstanding-Idle entries (h ∷ hs) nobody = elim (Option-cases (lookup ℕ_discrete h entries)) [
  | inl missing ↦ (
    (λ e found. absurd (ground arith)),
    outstanding-Idle entries hs (rw (missing, outstanding_in) at nobody),
  )
  | inr (x, there) ↦ ((λ e found. ground arith), outstanding-Idle entries hs (ground arith))
]

close_entry-Idle :
    (p : Pool) (h j : ℕ) (e : Entry)
    → lookup ℕ_discrete h p.entries ≡ some e
    → Idle p.entries j
    → Idle (close_entry h e p).entries j
unfolding close_entry
close_entry-Idle p h j e found idle x there =
    ground (arith, idle e, idle x, lookup-insert ℕ_discrete h j (record e { rec = none }) p.entries)

close_entry-IsClosed :
    (p : Pool) (h j : ℕ) (e : Entry)
    → lookup ℕ_discrete h p.entries ≡ some e
    → IsClosed p.entries j
    → IsClosed (close_entry h e p).entries j
unfolding close_entry
close_entry-IsClosed p h j e found shut x there =
    ground (arith, shut e, shut x, lookup-insert ℕ_discrete h j (record e { rec = none }) p.entries)

close_entry-closes :
    (p : Pool) (h : ℕ) (e : Entry)
    → lookup ℕ_discrete h p.entries ≡ some e
    → IsClosed (close_entry h e p).entries h
unfolding close_entry
close_entry-closes p h e found x there =
    ground (arith, lookup-insert ℕ_discrete h h (record e { rec = none }) p.entries)

pub close_one-cases :
    (h : ℕ) (p : Pool)
    → ((close_one h p ≡ p) × (Idle p.entries h → IsClosed p.entries h))
      ⊎ ((e : Entry) × (lookup ℕ_discrete h p.entries ≡ some e)
          × (close_one h p ≡ close_entry h e p))
unfolding close_one
close_one-cases h p = elim (Option-cases (lookup ℕ_discrete h p.entries)) [
  | inl missing ↦ inl (ground arith, λ idle e found. absurd (ground arith))
  | inr (e, found) ↦ elim (Bool-cases (e.refs == 0)) [
    | inr held ↦ inl (ground arith, λ idle x there. absurd (ground (arith, idle e found)))
    | inl free ↦ inr (e, found, ground arith)
  ]
]

pub close_idle-keeps :
    (hs : List ℕ) (p : Pool) (j : ℕ)
    → (Idle p.entries j → Idle (close_idle hs p).entries j)
      × (IsClosed p.entries j → IsClosed (close_idle hs p).entries j)
unfolding close_idle
close_idle-keeps [] p j = ((λ a. a), λ a. a)
close_idle-keeps (h ∷ hs) p j =
    let rest = close_idle-keeps hs (close_one h p) j in
    elim (close_one-cases h p) [
      | inl (unchanged, _) ↦ ((λ a. rest.0 (rw unchanged a)), λ a. rest.1 (rw unchanged a))
      | inr (e, found, closed) ↦ (
        (λ a. rest.0 (rw closed (close_entry-Idle p h j e found a))),
        λ a. rest.1 (rw closed (close_entry-IsClosed p h j e found a)),
      )
    ]

pub close_idle-IsClosed :
    (hs : List ℕ) (p : Pool)
    → Each (Idle p.entries) hs
    → Each (IsClosed (close_idle hs p).entries) hs
unfolding close_idle
close_idle-IsClosed [] p a = tt
close_idle-IsClosed (h ∷ hs) p a = (
  (close_idle-keeps hs (close_one h p) h).1 shut,
  close_idle-IsClosed hs (close_one h p) (Each-mono _ _ hs still a.1),
)
  where
    shut : IsClosed (close_one h p).entries h
    shut = elim (close_one-cases h p) [
      | inl (unchanged, gone) ↦ rw unchanged (gone a.0)
      | inr (e, found, closed) ↦ rw closed (close_entry-closes p h e found)
    ]

    still : (j : ℕ) → Idle p.entries j → Idle (close_one h p).entries j
    still j idle = elim (close_one-cases h p) [
      | inl (unchanged, _) ↦ rw unchanged idle
      | inr (e, found, closed) ↦ rw closed (close_entry-Idle p h j e found idle)
    ]
