-- ===== src/Jobs/Store.antt =====
-- internal/store/sqlite/store.go, as internal/job/queue.go uses it through its Store interface: the
-- jobs table with one row for each id. Each call is given whether the database executes it: it does
-- not when its context is over, the disk fails or json.Marshal refuses a column, and then nothing is
-- written. Decoding the JSON of a column is taken to give back what was encoded.
pub mod Resuming
use nano_asr.Prelude.{
  ℕ, ◌&&◌, ◌||◌, Bool, true, false, List, [], ◌∷◌, Option, none, some, lookup, insert, ltb, ◌==◌,
  if◌then◌else◌, ◌+◌, ◌*◌, ◌/◌,
}
use nano_asr.Core.{
  Bytes, bytes_discrete, JobStatus, queued, running, failed, server_restart, succeeded, canceled,
  expired,
}
use nano_asr.Jobs.Record.{Record, terminal}

abbrev pub Rows : Type 0
Rows = List (Bytes × Record)

-- A time as the table keeps it: UnixMilli of the nanoseconds.
abbrev pub ms : ℕ → ℕ
ms t = t / 1_000_000 * 1_000_000

abbrev ms? : Option ℕ → Option ℕ
ms? none = none
ms? (some t) = some (ms t)

-- The row that Create inserts: of the job, the columns of the statement.
unfoldable pub stored : Record → Record
stored r = record r {
  job = record (r.job) {
    position = 0;
    stage = "";
    percent = 0;
    created_at = ms r.job.created_at;
    started_at = none;
    finished_at = none;
    result = none;
    error = none;
  };
}

-- Create; the id is the primary key.
unfoldable pub create : Bool → Record → Rows → Option Rows
unfolding stored
create executes r rows =
    if executes
    then elim (lookup bytes_discrete r.job.id rows) [
      | some _ ↦ none
      | none ↦ some (insert bytes_discrete r.job.id (stored r) rows)
    ]
    else none

-- Get
unfoldable pub get : Bool → Bytes → Rows → Option Record
get executes id rows = if executes then lookup bytes_discrete id rows else none

-- The columns that Update writes; the others stay as they were created.
unfoldable pub written : Record → Record → Record
written old r = record old {
  job = record (old.job) {
    status = r.job.status;
    model_id = r.job.model_id;
    model_rev = r.job.model_rev;
    started_at = ms? r.job.started_at;
    finished_at = ms? r.job.finished_at;
    result = r.job.result;
    error = r.job.error;
  };
  audio_seconds = r.audio_seconds;
}

-- Update
unfoldable pub update : Bool → Record → Rows → Option Rows
unfolding written
update executes r rows =
    if executes
    then elim (lookup bytes_discrete r.job.id rows) [
      | none ↦ none
      | some old ↦ some (insert bytes_discrete r.job.id (written old r) rows)
    ]
    else none

abbrev pub is_status : JobStatus → JobStatus → Bool
is_status queued queued = true
is_status running running = true
is_status succeeded succeeded = true
is_status failed failed = true
is_status canceled canceled = true
is_status expired expired = true
is_status _ _ = false

-- The order of two ids as text: of their bytes.
unfoldable pub id_before : Bytes → Bytes → Bool
id_before [] [] = false
id_before [] (y ∷ ys) = true
id_before (x ∷ xs) [] = false
id_before (x ∷ xs) (y ∷ ys) = ltb x y || (x == y && id_before xs ys)

-- ORDER BY created_at ASC, id ASC
unfoldable pub older : Record → Record → Bool
unfolding id_before
older a b =
    ltb a.job.created_at b.job.created_at
    || (a.job.created_at == b.job.created_at && id_before a.job.id b.job.id)

unfoldable pub order_in : Record → List Record → List Record
unfolding older
order_in r [] = r ∷ []
order_in r (s ∷ ss) = if older s r then s ∷ order_in r ss else r ∷ s ∷ ss

-- Pending
unfoldable pub pending : Rows → List Record
unfolding order_in
pending [] = []
pending ((id, r) ∷ rows) =
    if is_status r.job.status queued then order_in r (pending rows) else pending rows

-- FailStale: the rows, and how many were changed.
unfoldable pub fail_stale : ℕ → Rows → Rows × ℕ
fail_stale now [] = ([], 0)
fail_stale now ((id, r) ∷ rows) =
    let (rest, n) = fail_stale now rows in
    if is_status r.job.status running
    then (
      (
        id,
        record r {
          job = record (r.job) {
            status = failed;
            error = some server_restart;
            finished_at = some (ms now);
          };
        },
      )
          ∷ rest,
      n + 1,
    )
    else ((id, r) ∷ rest, n)

abbrev pub or_created : Option ℕ → ℕ → ℕ
or_created none created = created
or_created (some finished) created = finished

-- Purge, with the cutoff already taken from the clock; a ttl of 0 keeps everything.
unfoldable pub purge : ℕ → ℕ → Rows → Rows × ℕ
unfolding terminal
purge ttl cutoff [] = ([], 0)
purge ttl cutoff ((id, r) ∷ rows) =
    let (rest, n) = purge ttl cutoff rows in
    if ltb 0 ttl
      && (terminal r.job.status && ltb (or_created r.job.finished_at r.job.created_at) cutoff)
    then (rest, n + 1)
    else ((id, r) ∷ rest, n)
