-- ===== src/Jobs/Work/Restart.antt =====
-- internal/job/queue.go, Recover, and internal/spool/spool.go, Sweep: what a restart keeps.
use nano_asr.Prelude.{
  ℕ, ◌≡◌, ◌≢◌, refl, ◌∙◌, Bool, true, false, List, [], ◌∷◌, some, arith, ite, Bool-cases, inl, inr,
  ap,
}
use nano_asr.Core.{Bytes, bytes_discrete}
use nano_asr.Jobs.Record.{Record}
use nano_asr.Jobs.Store.{pending}
use nano_asr.Jobs.Work.{World, recover_one, recover_loop, recover, fail_recovered}
use nano_asr.Jobs.Work.Recovery.{is_live, waits_in, recover-live}
use nano_asr.Spool.{Entry, sweep, job_id, name}
use nano_asr.Spool.Names.{job_id-name}
use nano_asr.Spool.Sweeping.{DistinctNames, survivors, sweep-dir, is_orphan}

-- Whether a file of that name is in the directory.
abbrev pub has_file : Bytes → List Entry → Bool
has_file n [] = false
has_file n (e ∷ es) = ite (bytes_discrete e.name n) true (has_file n es)

live-stays :
    (live : List (Bytes × ℕ)) (id : Bytes) (e : Entry)
    → job_id e.name ≡ some id
    → is_live id live ≡ true
    → is_orphan live e ≡ false
live-stays live id e named on = ground arith

survivors-has_file :
    (live : List (Bytes × ℕ)) (id n : Bytes) (es : List Entry)
    → job_id n ≡ some id
    → is_live id live ≡ true
    → has_file n (survivors live es) ≡ has_file n es
survivors-has_file live id n [] named on = refl
survivors-has_file live id n (e ∷ es) named on =
    let rest = survivors-has_file live id n es named on in
    elim (bytes_discrete e.name n) [
      | yes it ↦
          let stays : is_orphan live e ≡ false = live-stays live id e (ap job_id it ∙ named) on in
          rw stays (ground (arith, rest))
      | no other ↦ elim (Bool-cases (is_orphan live e)) [
        | inl gone ↦ rw gone (ground (arith, rest))
        | inr stays ↦ rw stays (ground (arith, rest))
      ]
    ]

recover_one-spool :
    (opens : Bytes → Bool) (writes : Bool) (now : ℕ) (rec : Record) (w : World)
    (live : List (Bytes × ℕ))
    → (recover_one opens writes now rec (w, live)).0.spool ≡ w.spool
unfolding recover_one fail_recovered
recover_one-spool opens writes now rec w live = ground arith

recover_loop-spool :
    (opens : Bytes → Bool) (writes : Bool) (now : ℕ) (recs : List Record) (w : World)
    (live : List (Bytes × ℕ))
    → (recover_loop opens writes now recs (w, live)).0.spool ≡ w.spool
unfolding recover_loop
recover_loop-spool opens writes now [] w live = refl
recover_loop-spool opens writes now (rec ∷ recs) w live =
    let r = recover_one opens writes now rec (w, live) in
    recover_loop-spool opens writes now recs r.0 r.1 ∙ recover_one-spool opens writes now rec w live

recover-spool :
    (w : World) (opens : Bytes → Bool) (writes : Bool) (now : ℕ)
    → (recover w opens writes now).0.spool ≡ w.spool
unfolding recover
recover-spool w opens writes now = recover_loop-spool opens writes now (pending w.rows) w []

-- A restart, which recovers the queued jobs and then sweeps the spool with what is live, never
-- deletes the audio of a job that the table holds as queued and whose audio can be opened, in a
-- directory of distinct names and where every removal succeeds; the id is not empty.
pub recover-keeps_audio :
    (w : World) (opens : Bytes → Bool) (writes : Bool) (now : ℕ) (id : Bytes)
    → DistinctNames w.spool.dir
    → id ≢ []
    → waits_in id w.rows ≡ true
    → opens id ≡ true
    → has_file
        (name id)
        (sweep
          (recover w opens writes now).0.spool
          (λ _. true)
          (recover w opens writes now).1).0.dir
      ≡ has_file (name id) w.spool.dir
recover-keeps_audio w opens writes now id distinct full waits there =
    let live = (recover w opens writes now).1 in
    let on : is_live id live ≡ true = ground (arith, (recover-live w opens writes now id).1) in
    rw (recover-spool w opens writes now) (
      ap (has_file (name id)) (sweep-dir w.spool live distinct).0
      ∙ survivors-has_file live id (name id) w.spool.dir (job_id-name id full) on)
