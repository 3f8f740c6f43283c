-- ===== src/Spool/Examples.antt =====
-- The theorems on internal/spool/spool.go at concrete inputs.
use native.Mathlib.Decide.{ℕ_discrete}
use nano_asr.Prelude.{
  ◌≡◌, refl, true, false, List, [], ◌∷◌, some, arith, ap, length, lookup, insert,
}
use nano_asr.Core.{Bytes, bytes_discrete}
use nano_asr.Spool.{Spool, Entry, new, name, job_id, reserve, release, sweep, ok}
use nano_asr.Spool.Budget.{
  IsAccounted, reserves, releases, removes, run, run-IsAccounted, release-reserve,
}
use nano_asr.Spool.Names.{job_id-name, name-job_id}
use nano_asr.Spool.Sweeping.{sweep-dir, survivors, orphans}

abbrev first_id : Bytes
first_id = b'a' ∷ b'1' ∷ []

abbrev second_id : Bytes
second_id = b'b' ∷ []

job_id-name_example : job_id (name first_id) ≡ some first_id
job_id-name_example = job_id-name first_id (λ e. cc)

name-job_id_example : name first_id ≡ name first_id
name-job_id_example = name-job_id (name first_id) first_id job_id-name_example

run-IsAccounted_example : IsAccounted (
    run (new [] 100) (
      reserves first_id 60
      ∷ reserves second_id 70
      ∷ removes false first_id
      ∷ releases first_id
      ∷ []))
run-IsAccounted_example = run-IsAccounted [] 100 _

abbrev one_held : Spool
one_held = record { dir = []; max = 100; used = 60; held = (first_id, 60) ∷ [] }

reserve_first : reserve (new [] 100) first_id 60 ≡ ok one_held
unfolding reserve new lookup insert
reserve_first = refl

release-reserve_example :
    (release one_held first_id ≡ new [] 100)
    × (release (release one_held first_id) first_id ≡ new [] 100)
release-reserve_example = release-reserve (new [] 100) one_held first_id 60 reserve_first

abbrev left_over : List Entry
left_over =
    record { name = name first_id; is_dir = false }
    ∷ record { name = b'x' ∷ []; is_dir = false }
    ∷ record { name = name second_id; is_dir = false }
    ∷ []

sweep-dir_example :
    let s = new left_over 100 in
    ((sweep s (λ _. true) ((second_id, 5) ∷ [])).0.dir ≡ survivors ((second_id, 5) ∷ []) s.dir)
    × ((sweep s (λ _. true) ((second_id, 5) ∷ [])).1 ≡ orphans ((second_id, 5) ∷ []) s.dir)
unfolding new name
sweep-dir_example = sweep-dir (new left_over 100) ((second_id, 5) ∷ []) (
  ((λ e. omega (arith, ap length e)), ((λ e. omega (arith, ap length e)), tt)),
  (((λ e. omega (arith, ap length e)), tt), (tt, tt)),
)

-- One orphan: the file of the first job.
sweep_runs : (sweep (new left_over 100) (λ _. true) ((second_id, 5) ∷ [])).1 ≡ 1
unfolding sweep new name job_id bytes_discrete reserve lookup insert ℕ_discrete
sweep_runs = refl
