-- ===== src/Pool/Sweeping.antt =====
-- internal/pool/pool.go: the sweep and the last part of Close keep the invariant.
use mathlib.Core.Path.{subst}
use nano_asr.Prelude.{
  ℕ, ◌≡◌, refl, ◌∙◌, ◌⊎◌, inl, inr, List, [], ◌∷◌, none, some, arith, lookup, insert, Entries,
  Entries-mono, lookup-insert, lookup-insert_ne, ℕ_discrete, ◌==◌, leb, Option-cases, Bool-cases,
}
use nano_asr.Core.{Bytes}
use nano_asr.Pool.Invariant.{Inv, Table}
use nano_asr.Pool.State.{Pool, Entry, drop_key, close_entry}
use nano_asr.Pool.Acquire.{Lease}
use nano_asr.Pool.Manage.{
  sweep_one, sweep_loop, sweep, close_one, close_idle, finish_close, handles, is_stale,
}
use nano_asr.Pool.Closing.{close_entry-cases, close_entry-Inv, drop-close_entry-Inv}

-- Sweep, whose loop walks keys with the entries that bear them.
abbrev Bears : Table → Bytes → ℕ → Type 0
Bears entries k h = (e : Entry) × (lookup ℕ_discrete h entries ≡ some e) × (e.id ≡ k)

sweep_one-cases :
    (now : ℕ) (k : Bytes) (h : ℕ) (p : Pool) (n : ℕ)
    → ((sweep_one now k h (p, n)).0 ≡ p)
      ⊎ ((e : Entry) × (lookup ℕ_discrete h p.entries ≡ some e)
          × (e.refs ≡ 0)
          × ((sweep_one now k h (p, n)).0 ≡ close_entry h e (drop_key k p)))
unfolding sweep_one
sweep_one-cases now k h p n = elim (Option-cases (lookup ℕ_discrete h p.entries)) [
  | inl missing ↦ inl (ground arith)
  | inr (e, found) ↦ elim (Bool-cases (is_stale p now e)) [
    | inr stays ↦ inl (ground arith)
    | inl stale ↦ inr (e, found, ground arith, ground arith)
  ]
]

closed-Bears :
    (entries : Table) (h : ℕ) (e : Entry) (k : Bytes) (j : ℕ)
    → lookup ℕ_discrete h entries ≡ some e
    → Bears entries k j
    → Bears (insert ℕ_discrete h (record e { rec = none }) entries) k j
closed-Bears entries h e k j found b = elim (ℕ_discrete h j) [
  | yes same ↦
      let was : e ≡ b.0 = ground arith in
      (
        record e { rec = none },
        ground (arith, lookup-insert ℕ_discrete h j (record e { rec = none }) entries),
        rw was b.2,
      )
  | no other ↦ (b.0, lookup-insert_ne ℕ_discrete h j _ entries other ∙ b.1, b.2)
]

close_entry-Bears :
    (p : Pool) (h : ℕ) (e : Entry) (m : List (Bytes × ℕ))
    → lookup ℕ_discrete h p.entries ≡ some e
    → Entries (Bears p.entries) m
    → Entries (Bears (close_entry h e p).entries) m
close_entry-Bears p h e m found a = elim (close_entry-cases p h e) [
  | inl unchanged ↦ rw unchanged a
  | inr (r, closed) ↦ rw closed (Entries-mono m (λ k j b. closed-Bears p.entries h e k j found b) a)
]

sweep_loop-Inv :
    (now : ℕ) (m : List (Bytes × ℕ)) (p : Pool) (n : ℕ) (ls : List Lease) (hs : List ℕ)
    → Entries (Bears p.entries) m
    → Inv p ls hs
    → Inv (sweep_loop now m (p, n)).0 ls hs
unfolding sweep_loop
sweep_loop-Inv now [] p n ls hs b v = v
sweep_loop-Inv now ((k, h) ∷ m) p n ls hs b v = elim (sweep_one-cases now k h p n) [
  | inl unchanged ↦
      sweep_loop-Inv now m (sweep_one now k h (p, n)).0 (sweep_one now k h (p, n)).1 ls hs
        (rw unchanged b.1) (rw unchanged v)
  | inr (e, found, free, closed) ↦
      let key : e.id ≡ k = ground arith in
      sweep_loop-Inv now m (sweep_one now k h (p, n)).0 (sweep_one now k h (p, n)).1 ls hs
        (rw closed (close_entry-Bears (drop_key k p) h e m found b.1))
        (rw closed (
          subst (λ x. Inv (close_entry h e (drop_key x p)) ls hs) key
            (drop-close_entry-Inv p ls hs h e found free v)))
]

pub sweep-Inv :
    (p : Pool) (now : ℕ) (ls : List Lease) (hs : List ℕ) → Inv p ls hs → Inv (sweep p now).0 ls hs
unfolding sweep
sweep-Inv p now ls hs v = elim (Bool-cases (leb p.opt.idle_ttl 0)) [
  | inl never ↦ rw (never, sweep) v
  | inr on ↦
      rw (on, sweep)
        (sweep_loop-Inv now p.current p 0 ls hs
          (Entries-mono p.current (λ k h a. (a.0, a.1, a.2)) v.serving) v)
]

-- Close after its wait.
close_one-cases :
    (h : ℕ) (p : Pool)
    → (close_one h p ≡ p)
      ⊎ ((e : Entry) × (lookup ℕ_discrete h p.entries ≡ some e)
          × (e.refs ≡ 0)
          × (close_one h p ≡ close_entry h e p))
unfolding close_one
close_one-cases h p = elim (Option-cases (lookup ℕ_discrete h p.entries)) [
  | inl missing ↦ inl (ground arith)
  | inr (e, found) ↦ elim (Bool-cases (e.refs == 0)) [
    | inr held ↦ inl (ground arith)
    | inl free ↦ inr (e, found, ground arith, ground arith)
  ]
]

close_entry-current : (p : Pool) (h : ℕ) (e : Entry) → (close_entry h e p).current ≡ p.current
unfolding close_entry
close_entry-current p h e = ground arith

close_idle-Inv :
    (js : List ℕ) (p : Pool) (ls : List Lease) (hs : List ℕ)
    → p.current ≡ []
    → Inv p ls hs
    → Inv (close_idle js p) ls hs × ((close_idle js p).current ≡ [])
unfolding close_idle
close_idle-Inv [] p ls hs c v = (v, c)
close_idle-Inv (j ∷ js) p ls hs c v = elim (close_one-cases j p) [
  | inl unchanged ↦ close_idle-Inv js (close_one j p) ls hs (rw unchanged c) (rw unchanged v)
  | inr (e, found, free, closed) ↦
      close_idle-Inv js (close_one j p) ls hs (rw closed (close_entry-current p j e ∙ c))
        (rw closed (close_entry-Inv p ls hs j e found free (rw c tt) v))
]

pub finish_close-Inv :
    (p : Pool) (ls : List Lease) (hs : List ℕ) → Inv p ls hs → Inv (finish_close p) ls hs
unfolding finish_close
finish_close-Inv p ls hs v =
    let emptied : Inv (record p { current = []; draining_list = [] }) ls hs = record {
      counted = v.counted;
      alive = v.alive;
      placeholders = v.placeholders;
      serving = tt;
      fresh = v.fresh;
    } in
    let one = close_idle-Inv (handles p.current) _ ls hs refl emptied in
    (close_idle-Inv p.draining_list _ ls hs one.1 one.0).0
