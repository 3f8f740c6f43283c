-- ===== src/Spool.antt =====
-- internal/spool/spool.go: the disk budget for queued audio, and the files of its directory.
--
-- Sizes are the `int64` byte counts, at or above 0 and with sums below 2 ^ 63. The directory is the
-- list of its entries; what the operating system answers to a call on it (whether a removal, a
-- copy or an upload's own move succeeds) is an argument.
pub mod Budget
mod Examples
pub mod Names
pub mod Sweeping
use nano_asr.Prelude.{
  ℕ, ◌+◌, ◌-◌, ◌<◌, ◌&&◌, Bool, true, false, List, [], ◌∷◌, ◌++◌, Option, none, some, ltb, lookup,
  insert, delete, if◌then◌else◌, length, take, drop, leb, ite,
}
use nano_asr.Core.{Bytes, bytes_discrete, Audio, Code, queue_full, internal, invalid_request}

pub record Entry : Type 0 where
  pub name : Bytes
  pub is_dir : Bool

pub record Spool : Type 0 where
  pub dir : List Entry
  pub max : ℕ
  pub used : ℕ
  pub held : List (Bytes × ℕ)

pub data Result {ℓ} (A : Type ℓ) : Type ℓ where
  ok : A → Result A
  err : Code → Result A

unfoldable pub new : List Entry → ℕ → Spool
new dir max = record { dir = dir; max = max; used = 0; held = [] }

-- "job-" and ".audio".
abbrev pub prefix : Bytes
prefix = b'j' ∷ b'o' ∷ b'b' ∷ b'-' ∷ []

abbrev pub suffix : Bytes
suffix = b'.' ∷ b'a' ∷ b'u' ∷ b'd' ∷ b'i' ∷ b'o' ∷ []

unfoldable pub name : Bytes → Bytes
name job_id = prefix ++ job_id ++ suffix

-- JobID; the slices are taken and cut as the source's.
unfoldable pub job_id : Bytes → Option Bytes
job_id n =
    if leb (length n) (length prefix + length suffix)
    then none
    else ite (bytes_discrete (take (length prefix) n) prefix)
        (ite (bytes_discrete (drop (length n - length suffix) n) suffix)
          (some (take (length n - length suffix - length prefix) (drop (length prefix) n))) none)
        none

-- Reserve
unfoldable pub reserve : Spool → Bytes → ℕ → Result Spool
reserve s id n = elim (lookup bytes_discrete id s.held) [
  | some _ ↦ err internal
  | none ↦
      if ltb 0 s.max && ltb s.max (s.used + n)
      then err queue_full
      else ok (record s { used = s.used + n; held = insert bytes_discrete id n s.held })
]

-- Release
unfoldable pub release : Spool → Bytes → Spool
release s id = elim (lookup bytes_discrete id s.held) [
  | none ↦ s
  | some n ↦ record s { used = s.used - n; held = delete bytes_discrete id s.held }
]

-- os.Remove of one name.
unfoldable pub unlink : Bytes → List Entry → List Entry
unlink n [] = []
unlink n (e ∷ es) = ite (bytes_discrete e.name n) es (e ∷ unlink n es)

-- Remove; `unlinks` is whether the operating system removes the file. A failure is logged.
unfoldable pub remove : Spool → Bool → Bytes → Spool
unfolding name unlink release
remove s unlinks id =
    let dir : List Entry = if unlinks then unlink (name id) s.dir else s.dir in
    release (record s { dir = dir }) id

-- A regular file under a name, new or truncated.
unfoldable pub place : Bytes → List Entry → List Entry
place n [] = record { name = n; is_dir = false } ∷ []
place n (e ∷ es) = ite (bytes_discrete e.name n) (e ∷ es) (e ∷ place n es)

-- What the operating system makes of taking an upload over: nothing was written, a part was
-- written and `copy` failed, or the file is there, with its length.
pub data Transfer : Type 0 where
  not_opened : Transfer
  cut_short : Bool → Transfer
  moved : ℕ → Transfer

-- NewFileSource(s.Path(jobID), …)
unfoldable pub source : Bytes → Audio → ℕ → Audio
unfolding name
source id a size = record {
  filename = a.filename;
  size = size;
  path = some (name id);
  detachable = false;
}

-- Detach and copy: a partial file is removed, unless that fails too.
unfoldable pub transfer : Spool → Transfer → Bytes → Audio → Spool × Result Audio
unfolding name source place unlink
transfer s not_opened id a = (s, err internal)
transfer s (cut_short unlinks) id a =
    let partial : List Entry = place (name id) s.dir in
    (record s { dir = if unlinks then unlink (name id) partial else partial }, err internal)
transfer s (moved n) id a = (record s { dir = place (name id) s.dir }, ok (source id a n))

-- Adopt and copy; `t` is what the operating system made of the transfer.
unfoldable pub adopt : Spool → Transfer → Bytes → Option Audio → Spool × Result Audio
adopt s t id none = (s, err invalid_request)
adopt s t id (some a) = if a.detachable then transfer s t id a else elim a.path [
  | some p ↦ ite (bytes_discrete p (name id)) (s, ok a) (transfer s t id a)
  | none ↦ transfer s t id a
]

-- One turn of Sweep's loop: the spool and the count of removed files.
unfoldable pub sweep_entry : (Bytes → Bool) → List (Bytes × ℕ) → Entry → Spool × ℕ → Spool × ℕ
unfolding job_id reserve unlink
sweep_entry unlinks live e (s, removed) = if e.is_dir then (s, removed) else elim (job_id e.name) [
  | none ↦ (s, removed)
  | some id ↦ elim (lookup bytes_discrete id live) [
    | some size ↦ (elim (reserve s id size) [ ok t ↦ t | err _ ↦ s ], removed)
    | none ↦
        if unlinks e.name
        then (record s { dir = unlink e.name s.dir }, removed + 1)
        else (s, removed)
  ]
]

unfoldable pub sweep_loop : (Bytes → Bool) → List (Bytes × ℕ) → List Entry → Spool × ℕ → Spool × ℕ
unfolding sweep_entry
sweep_loop unlinks live [] acc = acc
sweep_loop unlinks live (e ∷ es) acc = sweep_loop unlinks live es (sweep_entry unlinks live e acc)

-- Sweep, over a directory that could be read; `unlinks` is whether a name's removal succeeds.
unfoldable pub sweep : Spool → (Bytes → Bool) → List (Bytes × ℕ) → Spool × ℕ
unfolding sweep_loop
sweep s unlinks live = sweep_loop unlinks live s.dir (s, 0)
