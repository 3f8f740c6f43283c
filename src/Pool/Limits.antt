-- ===== src/Pool/Limits.antt =====
-- internal/pool/pool.go: what the eviction loop achieves.
use mathlib.Core.Path.{subst}
use nano_asr.Prelude.{
  ℕ, zero, suc, ◌+◌, ◌≤◌, ◌<◌, ◌≡◌, ◌≢◌, refl, sym, ap, ◌∙◌, ◌⊎◌, inl, inr, true, false, ltb, List,
  [], ◌∷◌, Option, none, some, arith, lookup, delete, Entries, length, ℕ_discrete, Option-cases,
  Bool-cases,
}
use nano_asr.Core.{Bytes, bytes_discrete}
use nano_asr.Pool.Invariant.{Inv, Table, Serves}
use nano_asr.Pool.Closing.{drop-close_entry-Inv, close_entry-cases}
use nano_asr.Pool.Eviction.{IsVictim, lru_victim-IsVictim}
use nano_asr.Pool.State.{
  Pool, Entry, drop_key, close_entry, is_idle, better, lru_from, lru_victim, over_limit, evict_loop,
  evict, total_rss, ModelState, ready, is_ready,
}
use nano_asr.Pool.Acquire.{Lease}

-- An entry under some key of what is left of the map.
abbrev Standing : ℕ → List (Bytes × ℕ) → Type 0
Standing h [] = ⊥
Standing h ((k, j) ∷ m) = (j ≡ h) ⊎ Standing h m

NoneIdle : Table → List (Bytes × ℕ) → Type 0
NoneIdle entries =
    Entries (λ k h. (e : Entry) → lookup ℕ_discrete h entries ≡ some e → is_idle e ≡ false)

-- What evictLocked tests before it stops.
Stops : Pool → Type 0
unfolding NoneIdle
Stops p = (over_limit p ≡ false) ⊎ NoneIdle p.entries p.current

-- The memory of the model under a handle.
abbrev pub rss_of : Table → ℕ → ℕ
rss_of entries h = elim (lookup ℕ_discrete h entries) [ none ↦ 0 | some e ↦ e.rss_mb ]

-- The memory of all models of the map.
abbrev pub memory : Table → List (Bytes × ℕ) → ℕ
memory entries [] = 0
memory entries ((k, h) ∷ m) = memory entries m + rss_of entries h

-- Both limits of the configuration.
abbrev pub IsWithin : Pool → Type 0
IsWithin p =
    (length p.current ≤ p.opt.max_resident_models)
    × (memory p.entries p.current ≤ p.opt.max_model_rss_mb)

-- An operator has pinned the model, or somebody has it, or it is not ready to be used.
abbrev pub CannotLeave : Entry → Type 0
CannotLeave e = (e.pinned ≡ true) ⊎ ((0 < e.refs) ⊎ (e.state ≢ ready))

-- No model of the map can be taken out of it.
abbrev pub AllStay : Table → List (Bytes × ℕ) → Type 0
AllStay entries =
    Entries (λ k h. (e : Entry) → lookup ℕ_discrete h entries ≡ some e → CannotLeave e)

-- The pool is within both limits, or nothing more can be taken out.
abbrev pub Fits : Pool → Type 0
Fits p = IsWithin p ⊎ AllStay p.entries p.current

total_rss-memory : (entries : Table) (m : List (Bytes × ℕ)) → total_rss entries m ≡ memory entries m
unfolding total_rss
total_rss-memory entries [] = refl
total_rss-memory entries ((k, h) ∷ m) = ground (arith, total_rss-memory entries m)

pub over_limit-IsWithin : (p : Pool) → over_limit p ≡ false → IsWithin p
unfolding over_limit
over_limit-IsWithin p e =
    let same = total_rss-memory p.entries p.current in (ground arith, ground arith)

not_ready : (s : ModelState) → is_ready s ≡ false → s ≢ ready
not_ready s e same = absurd (ground (arith, sym (ap is_ready same) ∙ e))

is_idle-CannotLeave : (e : Entry) → is_idle e ≡ false → CannotLeave e
is_idle-CannotLeave e busy = elim (Bool-cases e.pinned) [
  | inl pinned ↦ inl pinned
  | inr free ↦ elim (Bool-cases (ltb 0 e.refs)) [
    | inl lent ↦ inr (inl (ground arith))
    | inr back ↦ inr (inr (not_ready e.state (rw (free, back) at busy)))
  ]
]

NoneIdle-AllStay : (entries : Table) (m : List (Bytes × ℕ)) → NoneIdle entries m → AllStay entries m
unfolding NoneIdle
NoneIdle-AllStay entries [] a = tt
NoneIdle-AllStay entries ((k, h) ∷ m) a =
    ((λ e found. is_idle-CannotLeave e (a.0 e found)), NoneIdle-AllStay entries m a.1)

Stops-Fits : (p : Pool) → Stops p → Fits p
unfolding Stops
Stops-Fits p (inl within) = inl (over_limit-IsWithin p within)
Stops-Fits p (inr busy) = inr (NoneIdle-AllStay p.entries p.current busy)

better-some : (b : Option (ℕ × Entry)) (h : ℕ) (e : Entry) → better b (h, e) ≢ none
better-some none h e = ground arith
better-some (some (j, x)) h e = ground arith

better-one :
    (b : Option (ℕ × Entry)) (h : ℕ) (e : Entry)
    → (better b (h, e) ≡ b) ⊎ (better b (h, e) ≡ some (h, e))
better-one none h e = inr refl
better-one (some (j, x)) h e = ground arith

-- The choice is the best so far or stands in the rest.
lru_from-Standing :
    (entries : Table) (m : List (Bytes × ℕ)) (best : Option (ℕ × Entry)) (h : ℕ) (e : Entry)
    → lru_from entries m best ≡ some (h, e)
    → (best ≡ some (h, e)) ⊎ Standing h m
unfolding lru_from
lru_from-Standing entries [] best h e c = inl c
lru_from-Standing entries ((k, j) ∷ m) best h e c =
    elim (Option-cases (lookup ℕ_discrete j entries)) [
      | inl missing ↦ elim (lru_from-Standing entries m best h e (rw (missing, lru_from) at c)) [
        | inl old ↦ inl old
        | inr later ↦ inr (inr later)
      ]
      | inr (x, found) ↦ elim (Bool-cases (is_idle x)) [
        | inr busy ↦ elim (lru_from-Standing entries m best h e (rw (found, busy, lru_from) at c)) [
          | inl old ↦ inl old
          | inr later ↦ inr (inr later)
        ]
        | inl idle ↦
            elim (lru_from-Standing entries m (better best (j, x)) h e
              (rw (found, idle, lru_from) at c)) [
                | inr later ↦ inr (inr later)
                | inl one ↦ elim (better-one best j x) [
                  | inl old ↦ inl (sym old ∙ one)
                  | inr new ↦ inr (inl (ground (arith, sym new ∙ one)))
                ]
              ]
      ]
    ]

lru_from-none :
    (entries : Table) (m : List (Bytes × ℕ)) (best : Option (ℕ × Entry))
    → lru_from entries m best ≡ none
    → (best ≡ none) × NoneIdle entries m
unfolding lru_from NoneIdle
lru_from-none entries [] best c = (c, tt)
lru_from-none entries ((k, j) ∷ m) best c = elim (Option-cases (lookup ℕ_discrete j entries)) [
  | inl missing ↦
      let rest = lru_from-none entries m best (rw (missing, lru_from) at c) in
      (rest.0, (λ e f. absurd (ground arith), rest.1))
  | inr (x, found) ↦ elim (Bool-cases (is_idle x)) [
    | inr busy ↦
        let rest = lru_from-none entries m best (rw (found, busy, lru_from) at c) in
        (rest.0, (λ e f. let was : x ≡ e = ground arith in ap is_idle (sym was) ∙ busy, rest.1))
    | inl idle ↦
        let rest = lru_from-none entries m (better best (j, x)) (rw (found, idle, lru_from) at c) in
        absurd (better-some best j x rest.0)
  ]
]

length-delete : (k : Bytes) (m : List (Bytes × ℕ)) → length (delete bytes_discrete k m) ≤ length m
unfolding delete
length-delete k [] = ground arith
length-delete k ((j, h) ∷ m) = ground (arith, length-delete k m)

delete-shorter :
    (entries : Table) (h : ℕ) (e : Entry) (m : List (Bytes × ℕ))
    → lookup ℕ_discrete h entries ≡ some e
    → Entries (Serves entries) m
    → Standing h m
    → length (delete bytes_discrete e.id m) < length m
unfolding delete
delete-shorter entries h e [] found a x = elim x [ ]
delete-shorter entries h e ((k, j) ∷ m) found a (inl same) =
    let was : a.0.0 ≡ e = ground arith in
    let key : k ≡ e.id = sym a.0.2 ∙ ap (λ (y : Entry). y.id) was in
    ground (arith, length-delete e.id m)
delete-shorter entries h e ((k, j) ∷ m) found a (inr later) =
    ground (arith, delete-shorter entries h e m found a.1 later)

close_entry-length :
    (p : Pool) (h : ℕ) (e : Entry) → length (close_entry h e p).current ≡ length p.current
close_entry-length p h e = elim (close_entry-cases p h e) [
  | inl unchanged ↦ ap (λ (q : Pool). length q.current) unchanged
  | inr (r, closed) ↦ ap (λ (q : Pool). length q.current) closed
]

-- Each round that goes on takes an entry out of the map.
evict_loop-Stops :
    (n : ℕ) (p : Pool) (ls : List Lease) (hs : List ℕ)
    → length p.current < n
    → Inv p ls hs
    → Stops (evict_loop n p)
unfolding evict_loop lru_victim Stops
evict_loop-Stops zero p ls hs fuel v = absurd (omega arith)
evict_loop-Stops (suc n) p ls hs fuel v = elim (Bool-cases (over_limit p)) [
  | inr within ↦ inl (rw (within, evict_loop) within)
  | inl over ↦ elim (Option-cases (lru_victim p)) [
    | inl nobody ↦
        rw (over, nobody, evict_loop) (inr (lru_from-none p.entries p.current none nobody).1)
    | inr ((h, e), chosen) ↦
        let victim = subst (IsVictim p.entries) chosen (lru_victim-IsVictim p) in
        let stands : Standing h p.current =
          elim (lru_from-Standing p.entries p.current none h e chosen) [
            | inl old ↦ absurd (ground arith)
            | inr there ↦ there
          ] in
        let less = delete-shorter p.entries h e p.current victim.0 v.serving stands in
        let kept = close_entry-length (drop_key e.id p) h e in
        rw (over, chosen, evict_loop)
          (evict_loop-Stops n _ ls hs (omega arith)
            (drop-close_entry-Inv p ls hs h e victim.0 victim.1 v))
  ]
]

pub evict-Fits : (p : Pool) (ls : List Lease) (hs : List ℕ) → Inv p ls hs → Fits (evict p)
unfolding evict
evict-Fits p ls hs v =
    Stops-Fits _ (evict_loop-Stops (length p.current + 1) p ls hs (omega arith) v)
