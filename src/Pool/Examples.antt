-- ===== src/Pool/Examples.antt =====
-- internal/pool/pool.go: a pool that loads a model, lends it twice, swaps it while both leases are
-- out and takes one back.
use nano_asr.Prelude.{ℕ, ◌≡◌, refl, [], ◌∷◌, some, none, lookup, false, insert, delete, ℕ_discrete}
use nano_asr.Core.{Bytes, bytes_discrete}
use nano_asr.Pool.Invariant.{count, AllAlive}
use nano_asr.Pool.Swapping.{without}
use nano_asr.Pool.Serving.{
  System, Reach, starts, then, begins, serves, takes, reloads, returns, lease-stays_open,
  release-Fits, swap_in-Fits,
}
use nano_asr.Pool.Idle.{Each}
use nano_asr.Pool.Shutdown.{IsShut, finish_close-IsShut}
use nano_asr.Pool.Limits.{Fits}
use nano_asr.Pool.State.{
  Pool, Entry, ModelState, Options, new, evict, evict_loop, over_limit, total_rss, close_entry,
}
use nano_asr.Pool.Acquire.{
  Lease, claim, claim_entry, install, load_done, load_ready, release, give_back, Claim, refused,
  leased, waits, loads, Loaded, served, retired,
}
use nano_asr.Pool.Manage.{
  outstanding_in, finish_close, handles, leases_outstanding, reload, swap_in, retire,
  retire_variants, retire_one,
}

abbrev options : Options
options = record {
  max_resident_models = 2;
  max_model_rss_mb = 4096;
  idle_ttl = 300;
  max_variants = 4;
}

-- The id of the model.
abbrev model : Bytes
model = b'g' ∷ []

abbrev claimed_pool : Claim → Pool → Pool
claimed_pool (refused c) p = p
claimed_pool (leased l q) p = q
claimed_pool (waits h) p = p
claimed_pool (loads h q) p = q

abbrev loaded_pool : Loaded → Pool
loaded_pool (served l q) = q
loaded_pool (retired c q) = q

abbrev placeholder : Entry
placeholder = record {
  id = model;
  base_id = model;
  state = ModelState.loading;
  refs = 0;
  pinned = false;
  rss_mb = 0;
  last_used = 10;
  rec = none;
  loaded = false;
  load_err = none;
}

-- The recogniser 7 is loaded on the first entry, and 8 by the reload.
abbrev lent : Lease
lent = record { handle = 0; rec = some 7 }

abbrev loading_pool : Pool
loading_pool = claimed_pool (claim (new options) model model 10) (new options)

abbrev first_pool : Pool
first_pool = loaded_pool (load_done loading_pool model 0 placeholder 7 600 20)

abbrev second_pool : Pool
second_pool = claimed_pool (claim first_pool model model 30) first_pool

abbrev swapped_pool : Pool
swapped_pool = (reload second_pool model [] model 8 700 40).0

abbrev last : System
last = record { pool = release swapped_pool 0 50; leases = lent ∷ []; loaders = [] }

last-Reach : Reach options last
unfolding new claim claim_entry install load_done load_ready evict evict_loop over_limit total_rss
    reload swap_in retire retire_variants retire_one release give_back close_entry lookup insert
    delete ℕ_discrete bytes_discrete without
last-Reach =
    then
      (then
        (then
          (then (then starts (begins model model 10 0 loading_pool refl))
            (serves model 0 placeholder 7 600 20 [] [] lent first_pool refl refl refl))
          (takes model model 30 lent second_pool refl))
        (reloads model [] model 8 700 40))
      (returns [] (lent ∷ []) lent 50 refl)

lease-stays_open_example :
    AllAlive last.pool.entries last.leases
    × ((h : ℕ) (e : Entry)
        → lookup ℕ_discrete h last.pool.entries ≡ some e
        → e.refs ≡ count h last.leases)
lease-stays_open_example = lease-stays_open options last last-Reach

release-Fits_example : Fits (release last.pool 0 60)
release-Fits_example = release-Fits options last [] [] lent 60 last-Reach refl

swap_in-Fits_example : Fits (swap_in last.pool model 9 500 60)
swap_in-Fits_example = swap_in-Fits options last model 9 500 60 last-Reach

-- Both leases of the model are back.
abbrev returned : Pool
returned = release last.pool 0 60

returned_idle : leases_outstanding returned ≡ false
unfolding new claim claim_entry install load_done load_ready evict evict_loop over_limit total_rss
    reload swap_in retire retire_variants retire_one release give_back close_entry lookup insert
    delete ℕ_discrete bytes_discrete leases_outstanding outstanding_in
returned_idle = refl

finish_close-IsShut_example :
    ((finish_close returned).current ≡ [])
    × ((finish_close returned).draining_list ≡ [])
    × Each (IsShut returned (finish_close returned)) (handles returned.current)
    × Each (IsShut returned (finish_close returned)) returned.draining_list
finish_close-IsShut_example = finish_close-IsShut returned returned_idle
