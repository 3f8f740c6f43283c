-- ===== src/Pool/Eviction.antt =====
-- internal/pool/pool.go: eviction keeps the invariant.
use mathlib.Core.Path.{subst}
use nano_asr.Prelude.{
  ℕ, zero, suc, ◌+◌, ◌≡◌, refl, inl, inr, Bool, true, false, List, [], ◌∷◌, Option, none, some,
  arith, lookup, ℕ_discrete, if◌then◌else◌, length, Option-cases, Bool-cases,
}
use nano_asr.Core.{Bytes}
use nano_asr.Pool.Invariant.{Inv, Table}
use nano_asr.Pool.State.{
  Pool, Entry, is_idle, better, goes_before, lru_from, lru_victim, over_limit, evict_loop, evict,
}
use nano_asr.Pool.Acquire.{Lease}
use nano_asr.Pool.Closing.{drop-close_entry-Inv}

-- An entry that may be chosen is in the table, and nothing is held on it.
abbrev pub IsVictim : Table → Option (ℕ × Entry) → Type 0
IsVictim entries none = Unit {0}
IsVictim entries (some (h, e)) = (lookup ℕ_discrete h entries ≡ some e) × (e.refs ≡ 0)

choose-IsVictim :
    (entries : Table) (b h : ℕ × Entry) (t : Bool)
    → IsVictim entries (some b)
    → IsVictim entries (some h)
    → IsVictim entries (if t then some h else some b)
choose-IsVictim entries b h true v w = w
choose-IsVictim entries b h false v w = v

better-IsVictim :
    (entries : Table) (best : Option (ℕ × Entry)) (h : ℕ) (e : Entry) (idle : Bool)
    → (idle ≡ true → e.refs ≡ 0)
    → IsVictim entries best
    → lookup ℕ_discrete h entries ≡ some e
    → IsVictim entries (if idle then better best (h, e) else best)
better-IsVictim entries best h e false free b found = b
better-IsVictim entries none h e true free b found = (found, free refl)
better-IsVictim entries (some (j, x)) h e true free b found =
    choose-IsVictim entries (j, x) (h, e) (goes_before e x) b (found, free refl)

is_idle-refs : (e : Entry) → is_idle e ≡ true → e.refs ≡ 0
is_idle-refs e idle = ground arith

lru_from-IsVictim :
    (entries : Table) (m : List (Bytes × ℕ)) (best : Option (ℕ × Entry))
    → IsVictim entries best
    → IsVictim entries (lru_from entries m best)
unfolding lru_from
lru_from-IsVictim entries [] best b = b
lru_from-IsVictim entries ((k, h) ∷ m) best b = elim (Option-cases (lookup ℕ_discrete h entries)) [
  | inl missing ↦ rw (missing, lru_from) (lru_from-IsVictim entries m best b)
  | inr (e, found) ↦
      rw (found, lru_from)
        (lru_from-IsVictim entries m _
          (better-IsVictim entries best h e (is_idle e) (is_idle-refs e) b found))
]

pub lru_victim-IsVictim : (p : Pool) → IsVictim p.entries (lru_victim p)
unfolding lru_victim
lru_victim-IsVictim p = lru_from-IsVictim p.entries p.current none tt

-- evictLocked
evict_loop-Inv :
    (n : ℕ) (p : Pool) (ls : List Lease) (hs : List ℕ) → Inv p ls hs → Inv (evict_loop n p) ls hs
unfolding evict_loop
evict_loop-Inv zero p ls hs v = v
evict_loop-Inv (suc n) p ls hs v = elim (Bool-cases (over_limit p)) [
  | inr within ↦ rw (within, evict_loop) v
  | inl over ↦ elim (Option-cases (lru_victim p)) [
    | inl nobody ↦ rw (over, nobody, evict_loop) v
    | inr ((h, e), chosen) ↦
        let victim = subst (IsVictim p.entries) chosen (lru_victim-IsVictim p) in
        rw (over, chosen, evict_loop)
          (evict_loop-Inv n _ ls hs (drop-close_entry-Inv p ls hs h e victim.0 victim.1 v))
  ]
]

pub evict-Inv : (p : Pool) (ls : List Lease) (hs : List ℕ) → Inv p ls hs → Inv (evict p) ls hs
unfolding evict
evict-Inv p ls hs v = evict_loop-Inv (length p.current + 1) p ls hs v
