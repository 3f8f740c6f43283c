-- ===== src/Pool/Acquire.antt =====
-- internal/pool/pool.go: AcquireVariant and release.
use nano_asr.Prelude.{
  ℕ, ◌+◌, ◌-◌, ◌&&◌, Bool, true, false, List, [], ◌∷◌, Option, none, some, ◌==◌, lookup, insert,
  if◌then◌else◌, ite, ℕ_discrete,
}
use nano_asr.Core.{Bytes, bytes_discrete, Code, model_unavailable}
use nano_asr.Pool.State.{
  ModelState, downloading, loading, ready, is_ready, is_draining, Entry, Pool, put, drop_key,
  close_entry, over_limit, evict,
}

-- A lease: the entry it was taken on and the recogniser it decodes with.
pub record Lease : Type 0 where
  pub handle : ℕ
  pub rec : Option ℕ

-- What the critical section at the head of the loop in AcquireVariant ends in.
pub data Claim : Type 0 where
  refused : Code → Claim
  leased : Lease → Pool → Claim
  waits : ℕ → Claim
  loads : ℕ → Pool → Claim

-- The claim of a slot: a placeholder that is loading.
unfoldable pub install : Pool → Bytes → Bytes → ℕ → Claim
install p key base now =
    let h : ℕ = p.next_handle in
    let placeholder : Entry = record {
      id = key;
      base_id = base;
      state = loading;
      refs = 0;
      pinned = false;
      rss_mb = 0;
      last_used = now;
      rec = none;
      loaded = false;
      load_err = none;
    } in
    loads h (record p {
      current = insert bytes_discrete key h p.current;
      entries = insert ℕ_discrete h placeholder p.entries;
      next_handle = h + 1;
    })

unfoldable pub claim_entry : Pool → Bytes → Bytes → ℕ → ℕ → Entry → ModelState → Claim
unfolding install
claim_entry p key base now h e ready =
    leased (record { handle = h; rec = e.rec })
      (put h (record e { refs = e.refs + 1; last_used = now }) p)
claim_entry p key base now h e loading = waits h
claim_entry p key base now h e downloading = waits h
claim_entry p key base now h e _ = install p key base now

unfoldable pub claim : Pool → Bytes → Bytes → ℕ → Claim
unfolding claim_entry install
claim p key base now =
    if p.closed then refused model_unavailable else elim (lookup bytes_discrete key p.current) [
      | none ↦ install p key base now
      | some h ↦ elim (lookup ℕ_discrete h p.entries) [
        | none ↦ install p key base now
        | some e ↦ claim_entry p key base now h e e.state
      ]
    ]

-- What a waiter reads when `ready` is closed: the error of the load, or to look again.
unfoldable pub awaited : Pool → ℕ → Option Code
awaited p h = elim (lookup ℕ_discrete h p.entries) [ none ↦ none | some e ↦ e.load_err ]

abbrev pub same_handle : Option ℕ → ℕ → Bool
same_handle none h = false
same_handle (some j) h = ite (ℕ_discrete j h) true false

-- AcquireVariant after a load that failed with `e`, on its placeholder.
unfoldable pub load_failed : Pool → Bytes → ℕ → Entry → Code → Pool
load_failed p key h placeholder e =
    let q : Pool = put h (record placeholder { load_err = some e; loaded = true }) p in
    if same_handle (lookup bytes_discrete key p.current) h then drop_key key q else q

-- What AcquireVariant ends in after a load.
pub data Loaded : Type 0 where
  served : Lease → Pool → Loaded
  retired : Code → Pool → Loaded

-- The placeholder is still the entry under its key.
unfoldable pub load_ready : Pool → ℕ → Entry → ℕ → ℕ → ℕ → Loaded
load_ready p h placeholder r rss now =
    served (record { handle = h; rec = some r })
      (evict (
        put h
          (record placeholder {
            rec = some r;
            rss_mb = rss;
            state = ready;
            refs = 1;
            last_used = now;
            loaded = true;
          })
          p))

-- The placeholder was retired while the load was in flight: the recogniser is closed, and a fresh
-- entry that a Reload left is used.
unfoldable pub load_retired : Pool → Bytes → ℕ → Entry → ℕ → ℕ → Loaded
load_retired p key h placeholder r now =
    let q : Pool = record p { closed_recs = r ∷ p.closed_recs } in
    let lost : Loaded =
      retired model_unavailable
        (put h (record placeholder { load_err = some model_unavailable; loaded = true }) q) in
    elim (lookup bytes_discrete key p.current) [
      | none ↦ lost
      | some j ↦ elim (lookup ℕ_discrete j p.entries) [
        | none ↦ lost
        | some fresh ↦
            if is_ready fresh.state
            then served (record { handle = j; rec = fresh.rec })
                (put j (record fresh { refs = fresh.refs + 1; last_used = now })
                  (put h (record placeholder { loaded = true }) q))
            else lost
      ]
    ]

-- AcquireVariant after a load that gave the recogniser `r`.
unfoldable pub load_done : Pool → Bytes → ℕ → Entry → ℕ → ℕ → ℕ → Loaded
load_done p key h placeholder r rss now =
    if same_handle (lookup bytes_discrete key p.current) h
    then load_ready p h placeholder r rss now
    else load_retired p key h placeholder r now

-- removeDrainingLocked
unfoldable pub remove_draining : ℕ → List ℕ → List ℕ
remove_draining h [] = []
remove_draining h (d ∷ ds) = ite (ℕ_discrete d h) ds (d ∷ remove_draining h ds)

-- release up to the eviction; the subtraction on ℕ is the clamp of the source.
unfoldable pub give_back : Pool → ℕ → Entry → ℕ → Pool
unfolding remove_draining
give_back p h e now =
    let e' : Entry = record e { refs = e.refs - 1; last_used = now } in
    let q : Pool = put h e' p in
    if is_draining e'.state && (e'.refs == 0)
    then record (close_entry h e' q) { draining_list = remove_draining h p.draining_list }
    else q

unfoldable pub release : Pool → ℕ → ℕ → Pool
release p h now = elim (lookup ℕ_discrete h p.entries) [
  | none ↦ p
  | some e ↦ let q : Pool = give_back p h e now in if over_limit q then evict q else q
]
