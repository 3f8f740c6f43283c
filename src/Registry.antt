-- ===== src/Registry.antt =====
-- internal/registry/unpack.go: a downloaded archive is unpacked into a directory.
--
-- A path is the list of its components. filepath.Clean is written out for slash-separated names; the
-- destination is given by the components of its clean path. What the operating system answers, and
-- how many bytes an entry really holds, are fields of the entry. Identifying the archive (IsArchive,
-- the switch of Unpack) is not here.
pub mod Inside
pub mod Extracting
mod Examples
use nano_asr.Prelude.{
  ℕ, zero, suc, ◌+◌, ◌-◌, ◌&&◌, ◌||◌, Bool, true, false, List, [], ◌∷◌, ◌++◌, Option, none, some,
  ltb, leb, ◌==◌, length, if◌then◌else◌,
}
use nano_asr.Core.{Bytes, bytes_discrete}

abbrev pub FilePath : Type 0
FilePath = List Bytes

abbrev pub slash : ℕ
slash = 47

abbrev pub dot : ℕ
dot = 46

-- The components between the slashes of a name.
unfoldable pub components : Bytes → List Bytes
components [] = [] ∷ []
components (b ∷ bs) = elim (components bs) [
  | [] ↦ [] ∷ []
  | c ∷ cs ↦ if b == slash then [] ∷ c ∷ cs else (b ∷ c) ∷ cs
]

-- What a component does to a path.
pub data Step : Type 0 where
  stay up : Step
  down : Bytes → Step

unfoldable pub step_of : Bytes → Step
step_of [] = stay
step_of (a ∷ []) = if a == dot then stay else down (a ∷ [])
step_of (a ∷ b ∷ []) = if a == dot && b == dot then up else down (a ∷ b ∷ [])
step_of (a ∷ b ∷ c ∷ cs) = down (a ∷ b ∷ c ∷ cs)

-- A clean relative path: how often it goes up first, and then down.
pub record Clean : Type 0 where
  pub ups : ℕ
  pub downs : List Bytes

unfoldable pub drop_last : List Bytes → List Bytes
drop_last [] = []
drop_last (c ∷ []) = []
drop_last (c ∷ d ∷ cs) = c ∷ drop_last (d ∷ cs)

unfoldable pub take_step : Clean → Step → Clean
unfolding drop_last
take_step p stay = p
take_step p (down c) = record p { downs = p.downs ++ c ∷ [] }
take_step p up = elim p.downs [
  | [] ↦ record p { ups = p.ups + 1 }
  | c ∷ cs ↦ record p { downs = drop_last (c ∷ cs) }
]

unfoldable pub clean_from : Clean → List Bytes → Clean
unfolding take_step step_of
clean_from p [] = p
clean_from p (c ∷ cs) = clean_from (take_step p (step_of c)) cs

-- filepath.Clean of a relative name.
unfoldable pub clean : Bytes → Clean
unfolding clean_from components
clean name = clean_from (record { ups = 0; downs = [] }) (components name)

unfoldable pub is_absolute : Bytes → Bool
is_absolute [] = false
is_absolute (b ∷ bs) = b == slash

-- How often filepath.Rel goes up from one path to reach another.
unfoldable pub rel_ups : FilePath → FilePath → ℕ
unfolding bytes_discrete
rel_ups [] target = 0
rel_ups (b ∷ base) [] = length (b ∷ base)
rel_ups (b ∷ base) (t ∷ target) =
    let below : ℕ = rel_ups base target in
    elim (bytes_discrete b t) [ yes same ↦ below | no other ↦ length (b ∷ base) ]

-- safeJoin, whose errors are all `none`.
unfoldable pub safe_join : FilePath → Bytes → Option FilePath
unfolding clean is_absolute rel_ups
safe_join dest [] = none
safe_join dest (b ∷ bs) =
    let p = clean (b ∷ bs) in
    let target = dest ++ p.downs in
    if is_absolute (b ∷ bs)
    then none
    else if ltb 0 p.ups
    then none
    else if ltb 0 (rel_ups dest target)
    then none
    else some target

pub data Kind : Type 0 where
  directory regular special : Kind

pub record Entry : Type 0 where
  pub name : Bytes
  pub kind : Kind
  pub declared : ℕ
  -- The bytes that come out of the entry.
  pub content : ℕ
  -- After how many bytes reading it fails, if it does.
  pub breaks : Option ℕ
  -- Whether the header is readable, the entry of a zip opens, its directory can be made, and the
  -- file be created.
  pub readable : Bool
  pub opens : Bool
  pub directory_made : Bool
  pub file_created : Bool

pub record UnpackLimits : Type 0 where
  pub max_unpacked_bytes : ℕ
  pub max_file_bytes : ℕ
  pub max_files : ℕ

-- What an entry asks for on disk: directories, and files with the bytes written to them. The
-- parents that MkdirAll makes on the way to a file are not listed: each is a prefix of the path of
-- that file, and the destination with what leads to it was made before the first entry.
pub data Made : Type 0 where
  made_directory : FilePath → Made
  made_file : FilePath → ℕ → Made

-- The path of the file that is copied to, with how many bytes, and whether it went well.
pub record Written : Type 0 where
  pub made : List Made
  pub bytes : ℕ
  pub failed : Bool

-- The bytes that io.Copy moves from a limited reader, and whether reading failed.
unfoldable pub copied : Entry → ℕ → ℕ × Bool
copied e most =
    let all : ℕ = if ltb most e.content then most else e.content in
    elim e.breaks [ none ↦ (all, false) | some k ↦ if ltb k all then (k, true) else (all, false) ]

unfoldable pub write_entry : Entry → FilePath → ℕ → Written
unfolding copied
write_entry e target remaining =
    if remaining == 0
    then record { made = []; bytes = 0; failed = true }
    else if e.directory_made && e.file_created
    then (let (n, broken) = copied e (remaining + 1) in
        record { made = made_file target n ∷ []; bytes = n; failed = broken || ltb remaining n })
    else record { made = []; bytes = 0; failed = true }

-- The loop of extractTar and of extractZip over the entries: what was made, and whether it failed.
-- In a zip a header is always readable and an entry may fail to open.
module _ (opens : Entry → Bool) (dest : FilePath) (limits : UnpackLimits) where
  unfoldable pub extract_from : ℕ → ℕ → List Entry → List Made × Bool
  unfolding safe_join write_entry
  extract_from files total [] = ([], false)
  extract_from files total (e ∷ es) = elim e.readable [
    | false ↦ ([], true)
    | true ↦ elim (safe_join dest e.name) [
      | none ↦ ([], true)
      | some target ↦ elim e.kind [
        | special ↦ ([], true)
        | directory ↦ elim e.directory_made [
          | false ↦ ([], true)
          | true ↦
              let (made, failed) = extract_from files total es in
              (made_directory target ∷ made, failed)
        ]
        | regular ↦
            elim (ltb limits.max_files (files + 1)
              || ltb limits.max_file_bytes e.declared
              || (if opens e then false else true)) [
                | true ↦ ([], true)
                | false ↦
                    let w = write_entry e target (limits.max_unpacked_bytes - total) in
                    elim w.failed [
                      | true ↦ (w.made, true)
                      | false ↦
                          let (made, failed) = extract_from (files + 1) (total + w.bytes) es in
                          (w.made ++ made, failed)
                    ]
              ]
      ]
    ]
  ]

  unfoldable pub extract : List Entry → List Made × Bool
  unfolding extract_from
  extract es = extract_from 0 0 es

abbrev pub always_opens : Entry → Bool
always_opens e = true

unfoldable pub extract_tar : FilePath → UnpackLimits → List Entry → List Made × Bool
unfolding extract
extract_tar dest limits es = extract always_opens dest limits es

unfoldable pub extract_zip : FilePath → UnpackLimits → List Entry → List Made × Bool
unfolding extract
extract_zip dest limits es = extract (λ e. e.opens) dest limits es
