-- ===== src/Jobs/Work/Outcomes.antt =====
-- internal/job/queue.go, finish: what is recorded of a run.
use nano_asr.Prelude.{
  ℕ, ◌≡◌, refl, ap, ◌∙◌, Bool, true, false, none, some, arith, lookup, insert, delete,
  lookup-insert_self, lookup-delete,
}
use nano_asr.Core.{Bytes, bytes_discrete}
use nano_asr.Jobs.Record.{Record, terminal}
use nano_asr.Jobs.Queue
use nano_asr.Jobs.Queue.{Queue, Item}
use nano_asr.Jobs.Store.{Rows, get, update, written}
use nano_asr.Jobs.Work.{
  World, Db, Outcome, done, timed_out, context_canceled, broken, record_outcome, transition, finish,
  or_new, or_old,
}

record_outcome-terminal :
    (o : Outcome) (stopped : Bool) (now : ℕ) (r : Record)
    → terminal (record_outcome o stopped now r).job.status ≡ true
unfolding record_outcome terminal
record_outcome-terminal (done none) stopped now r = refl
record_outcome-terminal (done (some res)) stopped now r = refl
record_outcome-terminal timed_out stopped now r = refl
record_outcome-terminal context_canceled true now r = refl
record_outcome-terminal context_canceled false now r = refl
record_outcome-terminal (broken e) stopped now r = refl

record_outcome-id :
    (o : Outcome) (stopped : Bool) (now : ℕ) (r : Record)
    → (record_outcome o stopped now r).job.id ≡ r.job.id
unfolding record_outcome
record_outcome-id (done none) stopped now r = refl
record_outcome-id (done (some res)) stopped now r = refl
record_outcome-id timed_out stopped now r = refl
record_outcome-id context_canceled true now r = refl
record_outcome-id context_canceled false now r = refl
record_outcome-id (broken e) stopped now r = refl

abbrev pub answers : Db
answers = record { reads = true; writes = true }

update-found :
    (id : Bytes) (r old : Record) (rows : Rows)
    → lookup bytes_discrete id rows ≡ some old
    → r.job.id ≡ id
    → update true r rows ≡ some (insert bytes_discrete r.job.id (written old r) rows)
unfolding update
update-found id r old rows found same =
    let there : lookup bytes_discrete r.job.id rows ≡ some old =
      ap (λ k. lookup bytes_discrete k rows) same ∙ found in
    rw (there, update) refl

transition-rows :
    (w : World) (item : Item) (change : Record → Record) (r : Record)
    → lookup bytes_discrete item.id w.rows ≡ some r
    → (change r).job.id ≡ item.id
    → (transition w answers item change).0.rows
      ≡ insert bytes_discrete (change r).job.id (written r (change r)) w.rows
unfolding transition get
transition-rows w item change r found id =
    let read : or_new (lookup bytes_discrete item.id w.rows) item ≡ r = rw found refl in
    ap (λ x. or_old (update true (change x) w.rows) w.rows) read
    ∙ ap (λ o. or_old o w.rows) (update-found item.id (change r) r w.rows found id)

-- After a run that was not canceled, with the row of the job in the table and a database that
-- answers, whatever the run ended in: the row is in a terminal state, and the job is no longer
-- among the running ones.
pub finish-terminal :
    (w : World) (unlinks : Bool) (now : ℕ) (item held : Item) (outcome : Outcome) (r : Record)
    → lookup bytes_discrete item.id w.queue.running ≡ some held
    → held.canceled ≡ false
    → lookup bytes_discrete item.id w.rows ≡ some r
    → r.job.id ≡ item.id
    → ((r' : Record) × (lookup bytes_discrete item.id
            (finish w answers unlinks now item outcome).rows
          ≡ some r')
        × (terminal r'.job.status ≡ true))
      × (lookup bytes_discrete item.id (finish w answers unlinks now item outcome).queue.running
          ≡ none)
unfolding finish Queue.leave written
finish-terminal w unlinks now item held outcome r runs on found same =
    let q : Queue = record (w.queue) { running = delete bytes_discrete item.id w.queue.running } in
    let change = record_outcome outcome w.queue.stopped now in
    let w' : World = record w { queue = q } in
    let id : (change r).job.id ≡ item.id = record_outcome-id outcome w.queue.stopped now r ∙ same in
    let rows = transition-rows w' item change r found id in
    let gone = lookup-delete bytes_discrete item.id item.id w.queue.running in
    (
      (
        written r (change r),
        ground (
          arith,
          rows,
          id,
          lookup-insert_self bytes_discrete item.id (written r (change r)) w.rows,
        ),
        record_outcome-terminal outcome w.queue.stopped now r,
      ),
      ground (arith, gone),
    )
