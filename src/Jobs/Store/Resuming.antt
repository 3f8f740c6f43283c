-- ===== src/Jobs/Store/Resuming.antt =====
-- internal/store/sqlite/store.go and internal/job/record.go: a request outlives what happens to the
-- table of jobs.
use Prim.Native.String.{String}
use nano_asr.Prelude.{ℕ, ◌≡◌, ◌≢◌, Bool, some, Entries}
use nano_asr.Core.{Bytes}
use nano_asr.Jobs.Record.{Record, Params}
use nano_asr.Jobs.Store.{Rows, create, update, fail_stale, purge}

-- One statement that changes the table, and that does not create a row under the id once more.
pub data Step (id : Bytes) (s : Rows) : Rows → Type 0 where
  creates :
      (executes : Bool) (r : Record) (t : Rows)
      → r.job.id ≢ id
      → create executes r s ≡ some t
      → Step id s t
  updates : (executes : Bool) (r : Record) (t : Rows) → update executes r s ≡ some t → Step id s t
  fails : (now : ℕ) → Step id s (fail_stale now s).0
  purges : (ttl cutoff : ℕ) → Step id s (purge ttl cutoff s).0

pub data Reach (id : Bytes) (s : Rows) : Rows → Type 0 where
  here : Reach id s s
  then : {t u : Rows} → Reach id s t → Step id t u → Reach id s u

-- A row under the id has these parameters and this key.
abbrev Keeps : Bytes → Params → String → Bytes → Record → Type 0
Keeps id p key k r = k ≡ id → (r.params ≡ p) × (r.api_key_id ≡ key)

Lasts : Bytes → Params → String → Rows → Type 0
Lasts id p key rows = Entries (Keeps id p key) rows
