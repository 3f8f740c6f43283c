-- ===== src/Spool/Names.antt =====
-- internal/spool/spool.go: Name and JobID are inverse to each other.
use nano_asr.Prelude.{
  ℕ, zero, suc, ◌+◌, ◌-◌, ◌<◌, ◌≡◌, ◌≢◌, refl, sym, ap, ◌∙◌, [], ◌∷◌, ◌++◌, some, arith, length,
  length-append, take, drop, take-append-drop,
}
use native.Mathlib.Nat.{zero-add, suc-add}
use nano_asr.Core.{Bytes}
use nano_asr.Spool.{prefix, suffix, name, job_id}

take-append : (xs ys : Bytes) (k : ℕ) → k ≡ length xs → take k (xs ++ ys) ≡ xs
take-append [] ys k e = rw e
take-append (x ∷ xs) ys zero e = absurd (omega arith)
take-append (x ∷ xs) ys (suc k) e = ap (◌∷◌ x) (take-append xs ys k (omega arith))

drop-append : (xs ys : Bytes) (k : ℕ) → k ≡ length xs → drop k (xs ++ ys) ≡ ys
drop-append [] ys k e = rw e
drop-append (x ∷ xs) ys zero e = absurd (omega arith)
drop-append (x ∷ xs) ys (suc k) e = drop-append xs ys k (omega arith)

length-name : (id : Bytes) → length (name id) ≡ length id + 10
unfolding name
length-name id = omega (arith, length-append id suffix)

not_empty : (id : Bytes) → id ≢ [] → 0 < length id
not_empty [] h = absurd (h refl)
not_empty (x ∷ xs) h = omega arith

take-name : (id : Bytes) → take (length prefix) (name id) ≡ prefix
unfolding name
take-name id = take-append prefix (id ++ suffix) 4 refl

drop-name : (id : Bytes) → drop (length prefix) (name id) ≡ id ++ suffix
unfolding name
drop-name id = drop-append prefix (id ++ suffix) 4 refl

drop-name_suffix : (id : Bytes) → drop (length (name id) - length suffix) (name id) ≡ suffix
unfolding name
drop-name_suffix id =
    drop-append (prefix ++ id) suffix _ (omega (arith, length-name id, length-append prefix id))

take-name_id :
    (id : Bytes) → take (length (name id) - length suffix - length prefix) (id ++ suffix) ≡ id
take-name_id id = take-append id suffix _ (omega (arith, length-name id))

drop-nil : (k : ℕ) → drop {A = ℕ} k [] ≡ []
drop-nil zero = refl
drop-nil (suc k) = refl

drop-drop : (j k : ℕ) (xs : Bytes) → drop k (drop j xs) ≡ drop (j + k) xs
drop-drop zero k xs = rw zero-add
drop-drop (suc j) k [] = drop-nil k ∙ sym (drop-nil (suc j + k))
drop-drop (suc j) k (x ∷ xs) = rw suc-add (drop-drop j k xs)

-- The file of a job is recognised as that job's, if the id is not empty.
pub job_id-name : (id : Bytes) → id ≢ [] → job_id (name id) ≡ some id
unfolding job_id
job_id-name id h = ground (
  arith,
  length-name id,
  not_empty id h,
  take-name id,
  drop-name id,
  drop-name_suffix id,
  take-name_id id,
)

-- A name that is read as some job's is that job's file name.
pub name-job_id : (n id : Bytes) → job_id n ≡ some id → name id ≡ n
unfolding job_id name
name-job_id n id h = ground (
  arith,
  take-append-drop 4 n,
  take-append-drop (length n - 6 - 4) (drop 4 n),
  drop-drop 4 (length n - 6 - 4) n,
)
