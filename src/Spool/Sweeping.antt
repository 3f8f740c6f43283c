-- ===== src/Spool/Sweeping.antt =====
-- internal/spool/spool.go: what the sweep at startup leaves in the directory.
use nano_asr.Prelude.{
  ℕ, ◌+◌, ◌≡◌, ◌≢◌, refl, ap, ◌∙◌, Bool, true, false, List, [], ◌∷◌, ◌++◌, none, some, arith,
  lookup, inl, inr, if◌then◌else◌, sym, Bool-cases,
}
use mathlib.Core.List.{append_assoc}
use nano_asr.Core.{Bytes, bytes_discrete}
use nano_asr.Spool.{Spool, Entry, reserve, unlink, job_id, sweep_entry, sweep_loop, sweep}

-- Whether the sweep is to delete an entry: the regular file of a job that is not live.
abbrev pub is_orphan : List (Bytes × ℕ) → Entry → Bool
is_orphan live e = if e.is_dir then false else elim (job_id e.name) [
  | none ↦ false
  | some id ↦ elim (lookup bytes_discrete id live) [ none ↦ true | some _ ↦ false ]
]

abbrev pub survivors : List (Bytes × ℕ) → List Entry → List Entry
survivors live [] = []
survivors live (e ∷ es) = if is_orphan live e then survivors live es else e ∷ survivors live es

abbrev pub orphans : List (Bytes × ℕ) → List Entry → ℕ
orphans live [] = 0
orphans live (e ∷ es) = if is_orphan live e then orphans live es + 1 else orphans live es

-- Names in a directory are distinct.
abbrev pub Absent : Bytes → List Entry → Type 0
Absent n [] = Unit {0}
Absent n (e ∷ es) = (e.name ≢ n) × Absent n es

abbrev pub DistinctNames : List Entry → Type 0
DistinctNames [] = Unit {0}
DistinctNames (e ∷ es) = Absent e.name es × DistinctNames es

unlink-append :
    (e : Entry) (done es : List Entry)
    → Absent e.name done
    → unlink e.name (done ++ e ∷ es) ≡ done ++ es
unfolding unlink
unlink-append e [] es h = ground arith
unlink-append e (d ∷ done) es h = ground (arith, unlink-append e done es)

-- Every name of the second list is absent from the first.
abbrev Apart : List Entry → List Entry → Type 0
Apart done [] = Unit {0}
Apart done (e ∷ es) = Absent e.name done × Apart done es

Absent-snoc :
    (n : Bytes) (done : List Entry) (e : Entry)
    → Absent n done
    → e.name ≢ n
    → Absent n (done ++ e ∷ [])
Absent-snoc n [] e a h = (h, tt)
Absent-snoc n (d ∷ done) e a h = (a.0, Absent-snoc n done e a.1 h)

Apart-snoc :
    (done : List Entry) (e : Entry) (es : List Entry)
    → Absent e.name es
    → Apart done es
    → Apart (done ++ e ∷ []) es
Apart-snoc done e [] a h = tt
Apart-snoc done e (x ∷ es) a h =
    (Absent-snoc x.name done e h.0 (λ p. a.0 (sym p)), Apart-snoc done e es a.1 h.1)

Apart-nil : (es : List Entry) → Apart [] es
Apart-nil [] = tt
Apart-nil (e ∷ es) = (tt, Apart-nil es)

-- One turn with removals that succeed.
sweep_entry-dir :
    (live : List (Bytes × ℕ)) (e : Entry) (s : Spool) (removed : ℕ)
    → (is_orphan live e ≡ true
        → ((sweep_entry (λ _. true) live e (s, removed)).0.dir ≡ unlink e.name s.dir)
          × ((sweep_entry (λ _. true) live e (s, removed)).1 ≡ removed + 1))
      × (is_orphan live e ≡ false
          → ((sweep_entry (λ _. true) live e (s, removed)).0.dir ≡ s.dir)
            × ((sweep_entry (λ _. true) live e (s, removed)).1 ≡ removed))
unfolding sweep_entry reserve
sweep_entry-dir live e s removed = ground arith

sweep_loop-dir :
    (live : List (Bytes × ℕ)) (done es : List Entry) (s : Spool) (removed : ℕ)
    → s.dir ≡ done ++ es
    → DistinctNames es
    → Apart done es
    → ((sweep_loop (λ _. true) live es (s, removed)).0.dir ≡ done ++ survivors live es)
      × ((sweep_loop (λ _. true) live es (s, removed)).1 ≡ removed + orphans live es)
unfolding sweep_loop
sweep_loop-dir live done [] s removed e d a = (e, omega arith)
sweep_loop-dir live done (x ∷ es) s removed e d a = elim (Bool-cases (is_orphan live x)) [
  | inl gone ↦
      let turn = (sweep_entry-dir live x s removed).0 gone in
      let s' : Spool = (sweep_entry (λ _. true) live x (s, removed)).0 in
      let dir : s'.dir ≡ done ++ es = turn.0 ∙ ap (unlink x.name) e ∙ unlink-append x done es a.0 in
      let rest = sweep_loop-dir live done es s' _ dir d.1 a.1 in
      rw gone (rest.0, omega (arith, rest.1, turn.1))
  | inr stays ↦
      let turn = (sweep_entry-dir live x s removed).1 stays in
      let s' : Spool = (sweep_entry (λ _. true) live x (s, removed)).0 in
      let dir : s'.dir ≡ (done ++ x ∷ []) ++ es =
        turn.0 ∙ e ∙ sym (append_assoc done (x ∷ []) es) in
      let rest =
        sweep_loop-dir live (done ++ x ∷ []) es s' _ dir d.1 (Apart-snoc done x es d.0 a.1) in
      rw stays
        (rest.0 ∙ append_assoc done (x ∷ []) (survivors live es), omega (arith, rest.1, turn.1))
]

-- In a directory of distinct names, where every removal succeeds, the sweep deletes the regular
-- files of jobs that are not live and nothing else, leaves the other entries in their order, and
-- counts what it deleted.
pub sweep-dir :
    (s : Spool) (live : List (Bytes × ℕ))
    → DistinctNames s.dir
    → ((sweep s (λ _. true) live).0.dir ≡ survivors live s.dir)
      × ((sweep s (λ _. true) live).1 ≡ orphans live s.dir)
unfolding sweep
sweep-dir s live d =
    let r = sweep_loop-dir live [] s.dir s 0 refl d (Apart-nil s.dir) in (r.0, omega (arith, r.1))
