-- ===== src/Pool/Serving.antt =====
-- internal/pool/pool.go: the pool with the leases that callers hold and the loads that are in
-- flight. A step is one critical section of a caller, an administrator, the janitor or shutdown, so
-- a run is one interleaving of them.
use mathlib.Core.Path.{subst}
use nano_asr.Prelude.{
  inl, inr, ℕ, ◌≡◌, List, [], ◌∷◌, ◌++◌, some, arith, lookup, ℕ_discrete, Bool, true,
}
use nano_asr.Core.{Bytes, Code}
use nano_asr.Pool.Invariant.{Inv, count, AllAlive, Placeholder, Placeholders}
use nano_asr.Pool.Closing.{aside-Inv}
use nano_asr.Pool.Sweeping.{sweep-Inv, finish_close-Inv}
use nano_asr.Pool.Leases.{release-cases, release-Inv}
use nano_asr.Pool.Limits.{Fits, over_limit-IsWithin, evict-Fits}
use nano_asr.Pool.Loading.{Claimed, claim-Claimed}
use nano_asr.Pool.Swapping.{without, load_failed-Inv, AfterLoad, load_done-AfterLoad}
use nano_asr.Pool.Admin.{swap_in-evict, reload-Inv, unload-Inv, pin-Inv}
use nano_asr.Pool.State.{Pool, Entry, Options, new}
use nano_asr.Pool.Acquire.{
  Lease, leased, loads, claim, served, retired, load_failed, load_done, release,
}
use nano_asr.Pool.Manage.{reload, unload, pin, sweep, swap_in, start_close, finish_close}

pub record System : Type 0 where
  pub pool : Pool
  pub leases : List Lease
  pub loaders : List ℕ

-- One critical section. The times, the recognisers that loads give and their sizes are any.
pub data Step (s : System) : System → Type 0 where
  -- AcquireVariant finds a ready entry.
  takes :
      (key base : Bytes) (now : ℕ) (l : Lease) (q : Pool)
      → claim s.pool key base now ≡ leased l q
      → Step s (record s { pool = q; leases = l ∷ s.leases })
  -- AcquireVariant claims the slot and begins to load.
  begins :
      (key base : Bytes) (now h : ℕ) (q : Pool)
      → claim s.pool key base now ≡ loads h q
      → Step s (record s { pool = q; loaders = h ∷ s.loaders })
  -- AcquireVariant after its load failed.
  fails :
      (key : Bytes) (h : ℕ) (e : Entry) (c : Code) (before after : List ℕ)
      → s.loaders ≡ before ++ h ∷ after
      → lookup ℕ_discrete h s.pool.entries ≡ some e
      → Step s (record s { pool = load_failed s.pool key h e c; loaders = without h s.loaders })
  -- AcquireVariant after its load, with a lease.
  serves :
      (key : Bytes) (h : ℕ) (e : Entry) (r rss now : ℕ) (before after : List ℕ) (l : Lease)
      (q : Pool)
      → s.loaders ≡ before ++ h ∷ after
      → lookup ℕ_discrete h s.pool.entries ≡ some e
      → load_done s.pool key h e r rss now ≡ served l q
      → Step s (record { pool = q; leases = l ∷ s.leases; loaders = without h s.loaders })
  -- AcquireVariant after its load, when the model was retired meanwhile.
  loses :
      (key : Bytes) (h : ℕ) (e : Entry) (r rss now : ℕ) (before after : List ℕ) (c : Code)
      (q : Pool)
      → s.loaders ≡ before ++ h ∷ after
      → lookup ℕ_discrete h s.pool.entries ≡ some e
      → load_done s.pool key h e r rss now ≡ retired c q
      → Step s (record s { pool = q; loaders = without h s.loaders })
  -- The release of a lease; a lease releases once.
  returns :
      (before after : List Lease) (l : Lease) (now : ℕ)
      → s.leases ≡ before ++ l ∷ after
      → Step s (record s { pool = release s.pool l.handle now; leases = before ++ after })
  reloads :
      (id wanted revision : Bytes) (r rss now : ℕ)
      → Step s (record s { pool = (reload s.pool id wanted revision r rss now).0 })
  unloads : (id : Bytes) → Step s (record s { pool = (unload s.pool id).0 })
  pins : (id : Bytes) (pinned : Bool) → Step s (record s { pool = (pin s.pool id pinned).0 })
  sweeps : (now : ℕ) → Step s (record s { pool = (sweep s.pool now).0 })
  shuts : Step s (record s { pool = start_close s.pool })
  -- Close after its wait, whether or not leases are left.
  closes : Step s (record s { pool = finish_close s.pool })

pub data Reach (opt : Options) : System → Type 0 where
  starts : Reach opt (record { pool = new opt; leases = []; loaders = [] })
  then : {s t : System} → Reach opt s → Step s t → Reach opt t

waiting_one :
    (entries : List (ℕ × Entry)) (h : ℕ) (before after : List ℕ)
    → Placeholders entries (before ++ h ∷ after)
    → Placeholder entries h
waiting_one entries h [] after a = a.0
waiting_one entries h (b ∷ before) after a = waiting_one entries h before after a.1

free_one :
    (s : System) (h : ℕ) (e : Entry) (before after : List ℕ)
    → s.loaders ≡ before ++ h ∷ after
    → lookup ℕ_discrete h s.pool.entries ≡ some e
    → Inv s.pool s.leases s.loaders
    → e.refs ≡ 0
free_one s h e before after among found v =
    let a =
      waiting_one s.pool.entries h before after
        (subst (Placeholders s.pool.entries) among v.placeholders) in
    ground arith

Step-Inv : (s t : System) → Step s t → Inv s.pool s.leases s.loaders → Inv t.pool t.leases t.loaders
unfolding start_close
Step-Inv s t (takes key base now l q e) v =
    subst (Claimed s.leases s.loaders) e (claim-Claimed s.pool s.leases s.loaders key base now v)
Step-Inv s t (begins key base now h q e) v =
    subst (Claimed s.leases s.loaders) e (claim-Claimed s.pool s.leases s.loaders key base now v)
Step-Inv s t (fails key h e c before after among found) v =
    load_failed-Inv s.pool s.leases s.loaders key h e c found v
Step-Inv s t (serves key h e r rss now before after l q among found ends) v =
    subst (AfterLoad s.leases (without h s.loaders)) ends (
      load_done-AfterLoad s.pool s.leases s.loaders key h e r rss now found
        (free_one s h e before after among found v) v)
Step-Inv s t (loses key h e r rss now before after c q among found ends) v =
    subst (AfterLoad s.leases (without h s.loaders)) ends (
      load_done-AfterLoad s.pool s.leases s.loaders key h e r rss now found
        (free_one s h e before after among found v) v)
Step-Inv s t (returns before after l now among) v =
    release-Inv s.pool before after l s.loaders now (subst (λ ls. Inv s.pool ls s.loaders) among v)
Step-Inv s t (reloads id wanted revision r rss now) v =
    reload-Inv s.pool s.leases s.loaders id wanted revision r rss now v
Step-Inv s t (unloads id) v = unload-Inv s.pool s.leases s.loaders id v
Step-Inv s t (pins id pinned) v = pin-Inv s.pool s.leases s.loaders id pinned v
Step-Inv s t (sweeps now) v = sweep-Inv s.pool now s.leases s.loaders v
Step-Inv s t shuts v =
    aside-Inv s.pool s.leases s.loaders s.pool.closed_recs s.pool.draining_list true v
Step-Inv s t closes v = finish_close-Inv s.pool s.leases s.loaders v

Reach-Inv : (opt : Options) (s : System) → Reach opt s → Inv s.pool s.leases s.loaders
unfolding new lookup
Reach-Inv opt s starts = record {
  counted = λ h e found. absurd (cc);
  alive = tt;
  placeholders = tt;
  serving = tt;
  fresh = tt;
}
Reach-Inv opt s (then {s = r} before step) = Step-Inv r s step (Reach-Inv opt r before)

-- Under every interleaving of acquisitions, loads, releases, hot swaps, unloads, pins, sweeps,
-- evictions and shutdown, the entry of every lease that is out still has the recogniser which the
-- lease was given, so that nobody's recogniser is closed under them, and the reference count of
-- every entry is the number of leases that are out on it.
pub lease-stays_open :
    (opt : Options) (s : System)
    → Reach opt s
    → AllAlive s.pool.entries s.leases
      × ((h : ℕ) (e : Entry)
          → lookup ℕ_discrete h s.pool.entries ≡ some e
          → e.refs ≡ count h s.leases)
lease-stays_open opt s r = let v = Reach-Inv opt s r in (v.alive, v.counted)

-- After the release of any lease in any reachable state, the pool is within its limit on the number
-- of models and its limit on memory, or every model left in it is pinned, lent or not ready.
pub release-Fits :
    (opt : Options) (s : System) (before after : List Lease) (l : Lease) (now : ℕ)
    → Reach opt s
    → s.leases ≡ before ++ l ∷ after
    → Fits (release s.pool l.handle now)
release-Fits opt s before after l now r among =
    let v = subst (λ ls. Inv s.pool ls s.loaders) among (Reach-Inv opt s r) in
    let (q, w, ends) = release-cases s.pool before after l s.loaders now v in
    elim ends [
      | inl (within, same) ↦ rw same (inl (over_limit-IsWithin q within))
      | inr evicted ↦ rw evicted (evict-Fits q (before ++ after) s.loaders w)
    ]

-- The critical section of a hot swap, in any reachable state, ends with the pool within both limits
-- or with every model left in it pinned, lent or not ready.
pub swap_in-Fits :
    (opt : Options) (s : System) (id : Bytes) (r rss now : ℕ)
    → Reach opt s
    → Fits (swap_in s.pool id r rss now)
swap_in-Fits opt s id r rss now reached =
    let (q, ends, w) =
      swap_in-evict s.pool s.leases s.loaders id r rss now (Reach-Inv opt s reached) in
    rw ends (evict-Fits q s.leases s.loaders w)
