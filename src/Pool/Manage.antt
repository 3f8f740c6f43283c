-- ===== src/Pool/Manage.antt =====
-- internal/pool/pool.go: hot swap, unload, pin, the sweep, Close and the cap on variants.
use nano_asr.Prelude.{
  ℕ, ◌+◌, ◌-◌, ◌&&◌, ◌||◌, Bool, true, false, List, [], ◌∷◌, ◌++◌, Option, none, some, ltb, leb,
  ◌==◌, lookup, insert, if◌then◌else◌, ite, ℕ_discrete,
}
use nano_asr.Core.{Bytes, bytes_discrete, Code, model_not_found, capability_unavailable}
use nano_asr.Pool.State.{ready, draining, Entry, Pool, put, drop_key, close_entry, is_idle, evict}

-- retireLocked
unfoldable pub retire : ℕ → Entry → Pool → Pool
retire h e p =
    let q : Pool = drop_key e.id p in
    if e.refs == 0
    then close_entry h e q
    else put h (record e { state = draining })
        (record q { draining_list = p.draining_list ++ h ∷ [] })

-- One turn of the loop in retireVariantsLocked.
unfoldable pub retire_one : Bytes → ℕ → Pool → Pool
retire_one base h p = elim (lookup ℕ_discrete h p.entries) [
  | none ↦ p
  | some e ↦ ite (bytes_discrete e.base_id base) (ite (bytes_discrete e.id base) p (retire h e p)) p
]

-- retireVariantsLocked, over what was in the map when the loop began
unfoldable pub retire_variants : Bytes → List (Bytes × ℕ) → Pool → Pool
retire_variants base [] p = p
retire_variants base ((k, h) ∷ m) p = retire_variants base m (retire_one base h p)

-- The critical section of Reload, with what it loaded.
unfoldable pub swap_in : Pool → Bytes → ℕ → ℕ → ℕ → Pool
swap_in p id r rss now =
    let h : ℕ = p.next_handle in
    let old : Option (ℕ × Entry) = elim (lookup bytes_discrete id p.current) [
      | none ↦ none
      | some j ↦ elim (lookup ℕ_discrete j p.entries) [ none ↦ none | some e ↦ some (j, e) ]
    ] in
    let fresh : Entry = record {
      id = id;
      base_id = id;
      state = ready;
      refs = 0;
      pinned = elim old [ none ↦ false | some (_, e) ↦ e.pinned ];
      rss_mb = rss;
      last_used = now;
      rec = some r;
      loaded = true;
      load_err = none;
    } in
    let q : Pool = elim old [ none ↦ p | some (j, e) ↦ retire j e p ] in
    let q' : Pool = retire_variants id q.current q in
    evict (record q' {
      current = insert bytes_discrete id h q'.current;
      entries = insert ℕ_discrete h fresh q'.entries;
      next_handle = h + 1;
    })

-- Reload once the model is loaded: a revision that is not the wanted one is closed again. An empty
-- wanted revision takes any.
unfoldable pub reload : Pool → Bytes → Bytes → Bytes → ℕ → ℕ → ℕ → Pool × Option Code
reload p id wanted revision r rss now =
    let mismatch : Pool × Option Code =
      (record p { closed_recs = r ∷ p.closed_recs }, some model_not_found) in
    let swapped : Pool × Option Code = (swap_in p id r rss now, none) in
    ite (bytes_discrete wanted []) swapped (ite (bytes_discrete revision wanted) swapped mismatch)

-- Unload
unfoldable pub unload : Pool → Bytes → Pool × Option Code
unload p id = elim (lookup bytes_discrete id p.current) [
  | none ↦ (p, some model_not_found)
  | some h ↦ elim (lookup ℕ_discrete h p.entries) [
    | none ↦ (p, some model_not_found)
    | some e ↦ let q : Pool = retire h e p in (retire_variants id q.current q, none)
  ]
]

-- Pin
unfoldable pub pin : Pool → Bytes → Bool → Pool × Option Code
pin p id pinned = elim (lookup bytes_discrete id p.current) [
  | none ↦ (p, some model_not_found)
  | some h ↦ elim (lookup ℕ_discrete h p.entries) [
    | none ↦ (p, some model_not_found)
    | some e ↦ (put h (record e { pinned = pinned }) p, none)
  ]
]

-- One turn of the loop in Sweep.
abbrev pub is_stale : Pool → ℕ → Entry → Bool
is_stale p now e = is_idle e && ltb p.opt.idle_ttl (now - e.last_used)

unfoldable pub sweep_one : ℕ → Bytes → ℕ → Pool × ℕ → Pool × ℕ
sweep_one now k h (p, n) = elim (lookup ℕ_discrete h p.entries) [
  | none ↦ (p, n)
  | some e ↦ if is_stale p now e then (close_entry h e (drop_key k p), n + 1) else (p, n)
]

unfoldable pub sweep_loop : ℕ → List (Bytes × ℕ) → Pool × ℕ → Pool × ℕ
sweep_loop now [] acc = acc
sweep_loop now ((k, h) ∷ m) acc = sweep_loop now m (sweep_one now k h acc)

-- Sweep
unfoldable pub sweep : Pool → ℕ → Pool × ℕ
sweep p now = if leb p.opt.idle_ttl 0 then (p, 0) else sweep_loop now p.current (p, 0)

-- The first critical section of Close.
unfoldable pub start_close : Pool → Pool
start_close p = record p { closed = true }

-- leasesOutstandingLocked
unfoldable pub outstanding_in : List (ℕ × Entry) → List ℕ → Bool
outstanding_in entries [] = false
outstanding_in entries (h ∷ hs) = elim (lookup ℕ_discrete h entries) [
  | none ↦ outstanding_in entries hs
  | some e ↦ ltb 0 e.refs || outstanding_in entries hs
]

abbrev pub handles : List (Bytes × ℕ) → List ℕ
handles [] = []
handles ((k, h) ∷ m) = h ∷ handles m

unfoldable pub leases_outstanding : Pool → Bool
leases_outstanding p =
    outstanding_in p.entries (handles p.current) || outstanding_in p.entries p.draining_list

-- The loops of Close after the wait, which ends when no lease is left or the time is over: entries
-- without leases are closed.
unfoldable pub close_one : ℕ → Pool → Pool
close_one h p = elim (lookup ℕ_discrete h p.entries) [
  | none ↦ p
  | some e ↦ if e.refs == 0 then close_entry h e p else p
]

unfoldable pub close_idle : List ℕ → Pool → Pool
close_idle [] p = p
close_idle (h ∷ hs) p = close_idle hs (close_one h p)

unfoldable pub finish_close : Pool → Pool
finish_close p =
    close_idle p.draining_list
      (close_idle (handles p.current) (record p { current = []; draining_list = [] }))

-- admitVariant
unfoldable pub count_variants : List (ℕ × Entry) → List (Bytes × ℕ) → Bytes → Bytes → Option ℕ
count_variants entries [] base key = some 0
count_variants entries ((k, h) ∷ m) base key =
    let rest : Option ℕ = count_variants entries m base key in
    elim (lookup ℕ_discrete h entries) [
      | none ↦ rest
      | some e ↦
          ite (bytes_discrete e.base_id base)
            (ite (bytes_discrete e.id base) rest (
              ite (bytes_discrete e.id key) none
                (elim rest [ none ↦ none | some n ↦ some (n + 1) ])))
            rest
    ]

unfoldable pub admit_variant : Pool → Bytes → Bytes → Option Code
unfolding count_variants
admit_variant p base key =
    if leb p.opt.max_variants 0
    then some capability_unavailable
    else elim (count_variants p.entries p.current base key) [
      | none ↦ none
      | some n ↦ if leb p.opt.max_variants n then some capability_unavailable else none
    ]
