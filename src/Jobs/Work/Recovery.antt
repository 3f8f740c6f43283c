-- ===== src/Jobs/Work/Recovery.antt =====
-- internal/job/queue.go, Recover: which jobs are live after a restart.
use mathlib.Core.Logic.{if_neg}
use nano_asr.Prelude.{
  ℕ, ◌&&◌, ◌||◌, ◌≡◌, refl, ◌∙◌, Bool, true, false, List, [], ◌∷◌, ◌++◌, none, some, arith, ite,
  lookup, insert, lookup-insert, Bool-cases, inl, inr, if◌then◌else◌,
}
use nano_asr.Core.{Bytes, bytes_discrete, Audio, queued}
use nano_asr.Jobs.Record.{Record, request}
use nano_asr.Jobs.Queue
use nano_asr.Jobs.Queue.{Item}
use nano_asr.Jobs.Store.{Rows, is_status, order_in, older, pending}
use nano_asr.Jobs.Work.{World, recover_one, recover_loop, recover, fail_recovered, fresh_item}
use nano_asr.Spool

abbrev same : Bytes → Bytes → Bool
same a b = ite (bytes_discrete a b) true false

-- Whether a job is in a list of records, in the line of the queue, or in the map of what is live.
abbrev pub in_records : Bytes → List Record → Bool
in_records id [] = false
in_records id (r ∷ rs) = same r.job.id id || in_records id rs

abbrev pub in_line : Bytes → List Item → Bool
in_line id [] = false
in_line id (it ∷ its) = same it.id id || in_line id its

abbrev pub is_live : Bytes → List (Bytes × ℕ) → Bool
is_live id live = elim (lookup bytes_discrete id live) [ none ↦ false | some _ ↦ true ]

-- Whether the table holds a job of that id that is still queued.
abbrev pub waits_in : Bytes → Rows → Bool
waits_in id [] = false
waits_in id ((_, r) ∷ rows) =
    if is_status r.job.status queued then same r.job.id id || waits_in id rows else waits_in id rows

order_in-in_records :
    (id : Bytes) (r : Record) (rs : List Record)
    → in_records id (order_in r rs) ≡ (same r.job.id id || in_records id rs)
unfolding order_in
order_in-in_records id r [] = refl
order_in-in_records id r (s ∷ rs) = elim (Bool-cases (older s r)) [
  | inl first ↦ rw (first, order_in) (ground (arith, order_in-in_records id r rs))
  | inr last ↦ rw (last, order_in) refl
]

pending-in_records : (id : Bytes) (rows : Rows) → in_records id (pending rows) ≡ waits_in id rows
unfolding pending
pending-in_records id [] = refl
pending-in_records id ((k, r) ∷ rows) = elim (Bool-cases (is_status r.job.status queued)) [
  | inl waits ↦
      rw (waits, pending)
        (ground (arith, order_in-in_records id r (pending rows), pending-in_records id rows))
  | inr other ↦ rw (other, pending) (pending-in_records id rows)
]

place-in_line :
    (id : Bytes) (x : Item) (its : List Item)
    → in_line id (Queue.place x its) ≡ (same x.id id || in_line id its)
unfolding Queue.place
place-in_line id x [] = refl
place-in_line id x (y ∷ its) = elim (Bool-cases (Queue.before y x)) [
  | inl first ↦ rw (first, Queue.place) (ground (arith, place-in_line id x its))
  | inr last ↦ rw (last, Queue.place) refl
]

sort-in_line : (id : Bytes) (its : List Item) → in_line id (Queue.sort its) ≡ in_line id its
unfolding Queue.sort
sort-in_line id [] = refl
sort-in_line id (x ∷ its) = ground (arith, place-in_line id x (Queue.sort its), sort-in_line id its)

append-in_line :
    (id : Bytes) (its : List Item) (x : Item)
    → in_line id (its ++ x ∷ []) ≡ (in_line id its || same x.id id)
append-in_line id [] x = ground arith
append-in_line id (y ∷ its) x = ground (arith, append-in_line id its x)

insert-is_live :
    (id k : Bytes) (n : ℕ) (live : List (Bytes × ℕ))
    → is_live id (insert bytes_discrete k n live) ≡ (same k id || is_live id live)
insert-is_live id k n live = ground (arith, lookup-insert bytes_discrete k id n live)

recover_one-in_line :
    (id : Bytes) (opens : Bytes → Bool) (writes : Bool) (now : ℕ) (rec : Record) (w : World)
    (live : List (Bytes × ℕ))
    → (in_line id (recover_one opens writes now rec (w, live)).0.queue.items
        ≡ (in_line id w.queue.items || (same rec.job.id id && opens rec.job.id)))
      × (is_live id (recover_one opens writes now rec (w, live)).1
          ≡ (is_live id live || (same rec.job.id id && opens rec.job.id)))
      × ((recover_one opens writes now rec (w, live)).0.queue.admitted ≡ w.queue.admitted)
unfolding recover_one fail_recovered Queue.resume Queue.enqueue
recover_one-in_line id opens writes now rec w live = elim (Bool-cases (opens rec.job.id)) [
  | inr gone ↦ rw (gone, recover_one) (ground arith, ground arith, refl)
  | inl there ↦
      let audio : Audio = record {
        filename = rec.job.filename;
        size = rec.audio_bytes;
        path = some (Spool.name rec.job.id);
        detachable = false;
      } in
      let it : Item =
        fresh_item rec.job.id (request rec.params (some audio) rec.api_key_id) rec.priority
          rec.job.created_at in
      rw (there, recover_one)
        (
          ground (
            arith,
            sort-in_line id (w.queue.items ++ it ∷ []),
            append-in_line id w.queue.items it,
          ),
          ground (arith, insert-is_live id rec.job.id rec.audio_bytes live),
          omega arith,
        )
]

same_opens :
    (id k : Bytes) (opens : Bytes → Bool) → (same k id && opens k) ≡ (same k id && opens id)
same_opens id k opens = elim (bytes_discrete k id) [
  | yes e ↦ rw e refl
  | no other ↦ rw (if_neg (bytes_discrete k id) other true false) refl
]

-- What holds of a job once some records were recovered into a world and a map.
abbrev pub Recovered : Bytes → Bool → World → List (Bytes × ℕ) → World × List (Bytes × ℕ) → Type 0
Recovered id waits w live r =
    (in_line id r.0.queue.items ≡ (in_line id w.queue.items || waits))
    × (is_live id r.1 ≡ (is_live id live || waits))
    × (r.0.queue.admitted ≡ w.queue.admitted)

recover_loop-Recovered :
    (id : Bytes) (opens : Bytes → Bool) (writes : Bool) (now : ℕ) (recs : List Record) (w : World)
    (live : List (Bytes × ℕ))
    → Recovered id
        (in_records id recs && opens id)
        w
        live
        (recover_loop opens writes now recs (w, live))
unfolding recover_loop
recover_loop-Recovered id opens writes now [] w live = (ground arith, ground arith, refl)
recover_loop-Recovered id opens writes now (rec ∷ recs) w live =
    let r = recover_one opens writes now rec (w, live) in
    let one = recover_one-in_line id opens writes now rec w live in
    let all = recover_loop-Recovered id opens writes now recs r.0 r.1 in
    let key = same_opens id rec.job.id opens in
    (all.0 ∙ ground (arith, one.0, key), all.1 ∙ ground (arith, one.1, key), all.2 ∙ one.2)

-- After a restart, a job is live for the sweep of the spool, and in the line unless it already was,
-- exactly if the table holds it as queued and its audio can be opened; no job is dropped for the size
-- of the queue, and no reservation is left over.
pub recover-live :
    (w : World) (opens : Bytes → Bool) (writes : Bool) (now : ℕ) (id : Bytes)
    → (in_line id (recover w opens writes now).0.queue.items
        ≡ (in_line id w.queue.items || (waits_in id w.rows && opens id)))
      × (is_live id (recover w opens writes now).1 ≡ (waits_in id w.rows && opens id))
      × ((recover w opens writes now).0.queue.admitted ≡ w.queue.admitted)
unfolding recover lookup
recover-live w opens writes now id =
    let all = recover_loop-Recovered id opens writes now (pending w.rows) w [] in
    let waits = pending-in_records id w.rows in
    (ground (arith, all.0, waits), ground (arith, all.1, waits), all.2)
