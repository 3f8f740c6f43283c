-- ===== src/Jobs/Work.antt =====
-- internal/job/queue.go: the handlers, each run to its end with nothing of another thread between
-- its critical sections. What the clock, the random source, the operating system, the database and
-- the runner answer are arguments.
pub mod Submission
pub mod Recovery
pub mod Restart
pub mod Outcomes
mod Examples
use Prim.Native.String.{String}
use nano_asr.Prelude.{
  ℕ, Bool, true, false, List, [], ◌∷◌, Option, none, some, if◌then◌else◌, insert,
}
use nano_asr.Core.{
  Bytes, bytes_discrete, Audio, Request, Job, JobStatus, running, succeeded, failed, canceled, Code,
  internal, processing_timeout, draining, audio_missing,
}
use nano_asr.Core
use nano_asr.Jobs.Record.{Record, Priority, new_record, request, audio_size, terminal}
use nano_asr.Jobs.Queue.{Item, Queue}
use nano_asr.Jobs.Queue
use nano_asr.Jobs.Hub.{Hub, publish}
use nano_asr.Jobs.Store.{Rows, create, get, update, pending}
use nano_asr.Spool.{Spool, Transfer}
use nano_asr.Spool

pub record World : Type 0 where
  pub queue : Queue
  pub has_spool : Bool
  pub spool : Spool
  pub rows : Rows
  pub hub : Hub
  -- What the notifier was told: a job and the address.
  pub notified : List (Job × String)
  pub has_notifier : Bool

pub data Result {ℓ} (A : Type ℓ) : Type ℓ where
  ok : A → Result A
  err : Code → Result A

-- What Submit is answered: NewID, time.Now, the transfer of the audio, the insertion of the row, and
-- the deletion of the file if that fails.
pub record SubmitEnv : Type 0 where
  pub id : Bytes
  pub now : ℕ
  pub transfer : Transfer
  pub creates : Bool
  pub unlinks : Bool

-- q.unreserve()
unfoldable pub give_back : World → World
unfolding Queue.unreserve
give_back w = record w { queue = Queue.unreserve w.queue }

-- The end of Submit, once the row is written.
unfoldable pub accept : World → Item → Record → Rows → World × Result Job
unfolding Queue.enqueue Queue.position
accept w item rec rows =
    let q : Queue = Queue.enqueue w.queue item in
    let job : Job = record (rec.job) { position = Queue.position q item.id } in
    (record w { queue = q; rows = rows; hub = publish w.hub job }, ok job)

abbrev fresh_item : Bytes → Request → Priority → ℕ → Item
fresh_item id req priority enqueued = record {
  id = id;
  request = req;
  priority = priority;
  enqueued = enqueued;
  has_cancel = false;
  ctx_done = false;
  canceled = false;
}

-- Submit from the insertion of the row.
unfoldable pub record_job : World → SubmitEnv → Request → Priority → World × Result Job
unfolding accept give_back
record_job w env req priority =
    let rec : Record = new_record env.id req priority env.now in
    elim (create env.creates rec w.rows) [
      | none ↦
          (give_back (record w { spool = Spool.remove w.spool env.unlinks env.id }), err internal)
      | some rows ↦ accept w (fresh_item env.id req priority rec.job.created_at) rec rows
    ]

-- Submit once the adoption has answered; the spool is the one that it left.
unfoldable pub adopted :
    World → SubmitEnv → Request → Priority → Spool.Result Audio → World × Result Job
unfolding give_back
adopted w env req priority (Spool.Result.err e) =
    (give_back (record w { spool = Spool.release w.spool env.id }), err e)
adopted w env req priority (Spool.Result.ok audio) =
    record_job w env (record req { audio = some audio }) priority

-- Submit from the adoption of the audio.
unfoldable pub adopt_audio : World → SubmitEnv → Request → Priority → World × Result Job
adopt_audio w env req priority =
    let (s, answer) = Spool.adopt w.spool env.transfer env.id req.audio in
    adopted (record w { spool = s }) env req priority answer

-- Submit
unfoldable pub submit : World → SubmitEnv → Request → Priority → World × Result Job
unfolding give_back
submit w env req priority = elim (Queue.reserve w.queue) [
  | Queue.Result.err e ↦ (w, err e)
  | Queue.Result.ok q ↦
      let w' : World = record w { queue = q } in
      if w.has_spool
      then elim (Spool.reserve w.spool env.id (audio_size req.audio)) [
        | Spool.Result.err e ↦ (give_back w', err e)
        | Spool.Result.ok s ↦ adopt_audio (record w' { spool = s }) env req priority
      ]
      else (give_back w', err internal)
]

-- Whether the database answers the read and the write of one transition.
pub record Db : Type 0 where
  pub reads : Bool
  pub writes : Bool

abbrev or_new : Option Record → Item → Record
or_new (some r) item = r
or_new none item = new_record item.id item.request item.priority item.enqueued

abbrev or_old : Option Rows → Rows → Rows
or_old (some rows) old = rows
or_old none old = old

-- transition, with the record that it returns
unfoldable pub transition : World → Db → Item → (Record → Record) → World × Record
transition w db item change =
    let rec : Record = change (or_new (get db.reads item.id w.rows) item) in
    (
      record w { rows = or_old (update db.writes rec w.rows) w.rows; hub = publish w.hub rec.job },
      rec,
    )

-- The ends of Runner.Run that finish tells apart, in its order: a nil error with the result, an
-- error that is DeadlineExceeded, one that is Canceled, and any other with its code.
pub data Outcome : Type 0 where
  done : Option Core.Result → Outcome
  timed_out : Outcome
  context_canceled : Outcome
  broken : Code → Outcome

abbrev with_result : Option Core.Result → Record → Record
with_result none r = r
with_result (some res) r = record r {
  job = record (r.job) { model_id = res.model };
  audio_seconds = res.duration;
}

abbrev close_job : JobStatus → Option Code → ℕ → Record → Record
close_job status error now r = record r {
  job = record (r.job) { status = status; error = error; finished_at = some now };
}

-- The change that finish applies to the record; `stopped` is q.draining(). The error field is left
-- alone where the source does not set it.
unfoldable pub record_outcome : Outcome → Bool → ℕ → Record → Record
record_outcome (done res) stopped now r =
    with_result res (record r {
      job = record (r.job) { status = succeeded; finished_at = some now; result = res };
    })
record_outcome timed_out stopped now r = close_job failed (some processing_timeout) now r
record_outcome context_canceled true now r = close_job failed (some draining) now r
record_outcome context_canceled false now r = close_job canceled r.job.error now r
record_outcome (broken e) stopped now r = close_job failed (some e) now r

abbrev notify : World → Job → String → World
notify w job url = if is_empty url then w else record w { notified = (job, url) ∷ w.notified }
  where
    is_empty : String → Bool
    is_empty String.[] = true
    is_empty (String.◌∷◌ c s) = false

-- finish; `now` is the clock and `unlinks` whether the audio can be deleted
unfoldable pub finish : World → Db → Bool → ℕ → Item → Outcome → World
unfolding Queue.leave transition
finish w db unlinks now item outcome =
    let (q, was_canceled) = Queue.leave w.queue item.id in
    let w' : World = record w { queue = q } in
    if was_canceled
    then w'
    else let (w'', rec) = transition w' db item (record_outcome outcome q.stopped now) in
      let w''' : World = record w'' { spool = Spool.remove w''.spool unlinks item.id } in
      if w.has_notifier then notify w''' rec.job item.request.webhook_url else w'''

-- run up to the call of the runner, and whether it is called
unfoldable pub begin : World → Db → ℕ → Item → World × Bool
unfolding Queue.start transition
begin w db now item =
    let (q, was_canceled) = Queue.start w.queue item.id in
    let w' : World = record w { queue = q } in
    if was_canceled then (w', false) else (
      (transition w' db item
          (λ r. record r { job = record (r.job) { status = running; started_at = some now } })).0,
      true,
    )

-- What run is answered.
pub record RunEnv : Type 0 where
  pub started : ℕ
  pub start_db : Db
  pub outcome : Outcome
  pub finished : ℕ
  pub finish_db : Db
  pub unlinks : Bool

unfoldable pub run : World → RunEnv → Item → World
unfolding begin
run w env item =
    let (w', called) = begin w env.start_db env.started item in
    if called then finish w' env.finish_db env.unlinks env.finished item env.outcome else w'

-- cancelStored
unfoldable pub cancel_stored : World → Db → Bool → ℕ → Bytes → World × Option Code
cancel_stored w db unlinks now id = elim (get db.reads id w.rows) [
  | none ↦ (w, some (if db.reads then Code.job_not_found else internal))
  | some rec ↦
      let rec' : Record = close_job canceled rec.job.error now rec in
      if terminal rec.job.status then (w, none) else elim (update db.writes rec' w.rows) [
        | none ↦ (w, some internal)
        | some rows ↦ (
          record w {
            rows = rows;
            hub = publish w.hub rec'.job;
            spool = Spool.remove w.spool unlinks id;
          },
          none,
        )
      ]
]

-- Cancel; the result is the error, or nothing
unfoldable pub cancel : World → Db → Bool → ℕ → Bytes → World × Option Code
unfolding cancel_stored
cancel w db unlinks now id = elim (Queue.cancel_held w.queue id) [
  | none ↦ cancel_stored w db unlinks now id
  | some (item, q) ↦
      let w' : World =
        (transition (record w { queue = q }) db item
          (λ r. close_job canceled r.job.error now r)).0 in
      (record w' { spool = Spool.remove w'.spool unlinks id }, none)
]

-- failRecovered
unfoldable pub fail_recovered : World → Bool → ℕ → Record → World
fail_recovered w writes now rec = record w {
  rows = or_old (update writes (close_job failed (some audio_missing) now rec) w.rows) w.rows;
}

-- One turn of the loop of Recover, with the map of what is live. `opens` is whether the audio of a
-- job could be opened.
unfoldable pub recover_one :
    (Bytes → Bool) → Bool → ℕ → Record → World × List (Bytes × ℕ) → World × List (Bytes × ℕ)
unfolding fail_recovered Queue.resume Queue.enqueue
recover_one opens writes now rec (w, live) =
    let id : Bytes = rec.job.id in
    let audio : Audio = record {
      filename = rec.job.filename;
      size = rec.audio_bytes;
      path = some (Spool.name id);
      detachable = false;
    } in
    if opens id
    then (
      record w {
        queue = Queue.enqueue (Queue.resume w.queue) (
            fresh_item id (request rec.params (some audio) rec.api_key_id) rec.priority
              rec.job.created_at);
      },
      insert bytes_discrete id rec.audio_bytes live,
    )
    else (fail_recovered w writes now rec, live)

unfoldable pub recover_loop :
    (Bytes → Bool) → Bool → ℕ → List Record → World × List (Bytes × ℕ) → World × List (Bytes × ℕ)
unfolding recover_one
recover_loop opens writes now [] acc = acc
recover_loop opens writes now (rec ∷ recs) acc =
    recover_loop opens writes now recs (recover_one opens writes now rec acc)

-- Recover, where the database lists the queued jobs
unfoldable pub recover : World → (Bytes → Bool) → Bool → ℕ → World × List (Bytes × ℕ)
unfolding recover_loop
recover w opens writes now = recover_loop opens writes now (pending w.rows) (w, [])
