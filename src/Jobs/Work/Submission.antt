-- ===== src/Jobs/Work/Submission.antt =====
-- internal/job/queue.go: Submit either accepts a job whole or leaves nothing behind.
use nano_asr.Prelude.{
  ℕ, ◌≡◌, ◌≢◌, refl, sym, ap, ◌∙◌, true, false, List, [], ◌∷◌, Option, none, some, arith, ◌⊎◌, inl,
  inr, Bool-cases, if◌then◌else◌,
}
use nano_asr.Core.{Bytes, Request, Audio, Code}
use nano_asr.Jobs.Record.{Priority, audio_size}
use nano_asr.Jobs.Queue
use nano_asr.Jobs.Queue.{Queue}
use nano_asr.Jobs.Work.{World, SubmitEnv, err, give_back, record_job, adopted, adopt_audio, submit}
use nano_asr.Spool
use nano_asr.Spool.{Spool, Transfer, Entry}
use nano_asr.Spool.Sweeping.{Absent}
use nano_asr.Spool.Budget.{SameAccounts, adopt-SameAccounts, release-reserve}
use mathlib.Core.Path.{subst}

unlink-place :
    (n : Bytes) (dir : List Entry) → Absent n dir → Spool.unlink n (Spool.place n dir) ≡ dir
unfolding Spool.unlink Spool.place
unlink-place n [] a = ground arith
unlink-place n (e ∷ dir) a = ground (arith, unlink-place n dir)

unlink-Absent : (n : Bytes) (dir : List Entry) → Absent n dir → Spool.unlink n dir ≡ dir
unfolding Spool.unlink
unlink-Absent n [] a = refl
unlink-Absent n (e ∷ dir) a = ground (arith, unlink-Absent n dir)

-- The operating system deletes what Submit deletes.
abbrev Deletes : SubmitEnv → Type 0
Deletes env = (env.unlinks ≡ true) × (env.transfer ≢ Transfer.cut_short false)

reserve-unreserve : (q q' : Queue) → Queue.reserve q ≡ Queue.Result.ok q' → Queue.unreserve q' ≡ q
unfolding Queue.reserve Queue.unreserve
reserve-unreserve q q' e = ground arith

transfer-removed :
    (s : Spool) (t : Transfer) (id : Bytes) (a : Audio)
    → Absent (Spool.name id) s.dir
    → t ≢ Transfer.cut_short false
    → ((Spool.unlink (Spool.name id) (Spool.transfer s t id a).0.dir ≡ s.dir)
        × ((e : Code)
            → (Spool.transfer s t id a).1 ≡ Spool.Result.err e
            → (Spool.transfer s t id a).0.dir ≡ s.dir))
unfolding Spool.transfer
transfer-removed s Transfer.not_opened id a absent d =
    (unlink-Absent (Spool.name id) s.dir absent, λ e h. refl)
transfer-removed s (Transfer.cut_short true) id a absent d =
    let back = unlink-place (Spool.name id) s.dir absent in
    (
      ap (Spool.unlink (Spool.name id)) back ∙ unlink-Absent (Spool.name id) s.dir absent,
      λ e h. back,
    )
transfer-removed s (Transfer.cut_short false) id a absent d = absurd (d refl)
transfer-removed s (Transfer.moved n) id a absent d =
    (unlink-place (Spool.name id) s.dir absent, λ e h. absurd (cc))

adopt-cases :
    (s : Spool) (t : Transfer) (id : Bytes) (a : Audio)
    → (Spool.adopt s t id (some a) ≡ (s, Spool.Result.ok a))
      ⊎ (Spool.adopt s t id (some a) ≡ Spool.transfer s t id a)
unfolding Spool.adopt
adopt-cases s t id a = ground arith

-- Adopting and then deleting the job's file leaves a directory as it was, and so does an adoption
-- that fails.
adopt-removed :
    (s : Spool) (t : Transfer) (id : Bytes) (a : Option Audio)
    → Absent (Spool.name id) s.dir
    → t ≢ Transfer.cut_short false
    → ((Spool.unlink (Spool.name id) (Spool.adopt s t id a).0.dir ≡ s.dir)
        × ((e : Code)
            → (Spool.adopt s t id a).1 ≡ Spool.Result.err e
            → (Spool.adopt s t id a).0.dir ≡ s.dir))
adopt-removed s t id none absent d =
    unfold Spool.adopt in (unlink-Absent (Spool.name id) s.dir absent, λ e h. refl)
adopt-removed s t id (some a) absent d = elim (adopt-cases s t id a) [
  | inl kept ↦ rw kept (unlink-Absent (Spool.name id) s.dir absent, λ e h. refl)
  | inr moved ↦ rw moved (transfer-removed s t id a absent d)
]

same_spool : (s t : Spool) → SameAccounts s t → t.dir ≡ s.dir → t ≡ s
same_spool s t a d = ground arith

reserve-dir :
    (s t : Spool) (id : Bytes) (n : ℕ) → Spool.reserve s id n ≡ Spool.Result.ok t → t.dir ≡ s.dir
unfolding Spool.reserve
reserve-dir s t id n e = ground arith

module _ (s₀ s : Spool) (env : SubmitEnv) (n : ℕ) (a : Option Audio)
    (reserved : Spool.reserve s₀ env.id n ≡ Spool.Result.ok s)
    (absent : Absent (Spool.name env.id) s₀.dir) (deletes : Deletes env) where
  removed :
      (Spool.unlink (Spool.name env.id) (Spool.adopt s env.transfer env.id a).0.dir ≡ s.dir)
      × ((e : Code)
          → (Spool.adopt s env.transfer env.id a).1 ≡ Spool.Result.err e
          → (Spool.adopt s env.transfer env.id a).0.dir ≡ s.dir)
  removed =
      adopt-removed s env.transfer env.id a
        (subst (Absent (Spool.name env.id)) (sym (reserve-dir s₀ s env.id n reserved)) absent)
        deletes.1

  accounts : SameAccounts s (Spool.adopt s env.transfer env.id a).0
  accounts = adopt-SameAccounts s env.transfer env.id a

  release-adopted :
      (e : Code)
      → (Spool.adopt s env.transfer env.id a).1 ≡ Spool.Result.err e
      → Spool.release (Spool.adopt s env.transfer env.id a).0 env.id ≡ s₀
  release-adopted e h =
      rw (same_spool s _ accounts (removed.1 e h)) ((release-reserve s₀ s env.id n reserved).0)

  remove-adopted : Spool.remove (Spool.adopt s env.transfer env.id a).0 env.unlinks env.id ≡ s₀
  unfolding Spool.remove
  remove-adopted =
      let gone : (if env.unlinks
            then Spool.unlink (Spool.name env.id) (Spool.adopt s env.transfer env.id a).0.dir
            else (Spool.adopt s env.transfer env.id a).0.dir)
          ≡ s.dir =
        rw (deletes.0) removed.0 in
      ap (λ t. Spool.release t env.id) (same_spool s _ accounts gone)
      ∙ (release-reserve s₀ s env.id n reserved).0

queue_answer :
    (r : Queue.Result Queue)
    → ((c : Code) × (r ≡ Queue.Result.err c)) ⊎ ((q : Queue) × (r ≡ Queue.Result.ok q))
queue_answer (Queue.Result.err c) = inl (c, refl)
queue_answer (Queue.Result.ok q) = inr (q, refl)

spool_answer :
    (r : Spool.Result Spool)
    → ((c : Code) × (r ≡ Spool.Result.err c)) ⊎ ((s : Spool) × (r ≡ Spool.Result.ok s))
spool_answer (Spool.Result.err c) = inl (c, refl)
spool_answer (Spool.Result.ok s) = inr (s, refl)

record_job-err :
    (w w' : World) (env : SubmitEnv) (req : Request) (p : Priority) (e : Code)
    → record_job w env req p ≡ (w', err e)
    → w' ≡ give_back (record w { spool = Spool.remove w.spool env.unlinks env.id })
unfolding record_job
record_job-err w w' env req p e h = ground arith

adopted-err :
    (w w' : World) (env : SubmitEnv) (req : Request) (p : Priority) (r : Spool.Result Audio)
    (e : Code)
    → adopted w env req p r ≡ (w', err e)
    → (w' ≡ give_back (record w { spool = Spool.remove w.spool env.unlinks env.id }))
      ⊎ ((w' ≡ give_back (record w { spool = Spool.release w.spool env.id }))
          × (r ≡ Spool.Result.err e))
unfolding adopted
adopted-err w w' env req p (Spool.Result.err c) e h = inr (cc, cc)
adopted-err w w' env req p (Spool.Result.ok a) e h = inl (record_job-err w w' env _ p e h)

-- What a refused Submit leaves of a world whose queue has just reserved a place.
unwound :
    (w w' : World) (q : Queue) (s : Spool) (env : SubmitEnv) (req : Request) (p : Priority)
    (e : Code)
    → Queue.reserve w.queue ≡ Queue.Result.ok q
    → Spool.reserve w.spool env.id (audio_size req.audio) ≡ Spool.Result.ok s
    → Absent (Spool.name env.id) w.spool.dir
    → Deletes env
    → adopt_audio (record w { queue = q; spool = s }) env req p ≡ (w', err e)
    → w' ≡ w
unfolding adopt_audio give_back
unwound w w' q s env req p e claimed reserved absent deletes h =
    let back = reserve-unreserve w.queue q claimed in
    elim (adopted-err _ w' env req p _ e h) [
      | inl undone ↦
          undone ∙ ground (arith, remove-adopted w.spool s env _ req.audio reserved absent deletes)
      | inr (undone, failed) ↦
          undone
          ∙ ground
              (arith, release-adopted w.spool s env _ req.audio reserved absent deletes e failed)
    ]

-- A Submit that is refused, for whatever reason, leaves the queue, the budget, the directory, the
-- table and the event stream exactly as they were, if no file stood under the new id and the
-- operating system deletes what Submit asks it to delete.
pub submit_unwinds :
    (w w' : World) (env : SubmitEnv) (req : Request) (p : Priority) (e : Code)
    → Absent (Spool.name env.id) w.spool.dir
    → Deletes env
    → submit w env req p ≡ (w', err e)
    → w' ≡ w
unfolding submit
submit_unwinds w w' env req p e absent deletes h = elim (queue_answer (Queue.reserve w.queue)) [
  | inl (c, full) ↦ ground arith
  | inr (q, claimed) ↦
      let back = reserve-unreserve w.queue q claimed in
      elim (Bool-cases w.has_spool) [
        | inr missing ↦ ground arith
        | inl there ↦ elim (spool_answer (Spool.reserve w.spool env.id (audio_size req.audio))) [
          | inl (c, full) ↦ ground arith
          | inr (s, reserved) ↦
              unwound w w' q s env req p e claimed reserved absent deletes (ground arith)
        ]
      ]
]
