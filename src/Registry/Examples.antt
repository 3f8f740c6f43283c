-- ===== src/Registry/Examples.antt =====
-- internal/registry: a model archive with one directory and one file.
use nano_asr.Prelude.{ℕ, ◌+◌, ◌≤◌, ◌≡◌, Bool, true, false, List, [], ◌∷◌, none, some, if◌then◌else◌}
use nano_asr.Core.{Bytes}
use nano_asr.Registry.{
  FilePath, Kind, directory, regular, Entry, UnpackLimits, is_absolute, components, safe_join,
  always_opens, extract,
}
use nano_asr.Registry.Inside.{IsInside, climbs, safe_join-IsInside}
use nano_asr.Registry.Extracting.{AllInside, files_of, bytes_of, contents, extract-Extracted}

-- The directory m, and a, ../a and m/a.
abbrev models : FilePath
models = (b'm' ∷ []) ∷ []

abbrev escaping : Bytes
escaping = b'.' ∷ b'.' ∷ 47 ∷ b'a' ∷ []

abbrev entry : Kind → Bytes → ℕ → Entry
entry kind name size = record {
  name = name;
  kind = kind;
  declared = size;
  content = size;
  breaks = none;
  readable = true;
  opens = true;
  directory_made = true;
  file_created = true;
}

abbrev archive : List Entry
archive = entry directory (b'm' ∷ 47 ∷ []) 0 ∷ entry regular (b'm' ∷ 47 ∷ b'a' ∷ []) 20 ∷ []

abbrev limits : UnpackLimits
limits = record { max_unpacked_bytes = 100; max_file_bytes = 50; max_files = 5 }

safe_join-IsInside_example :
    let refused : Bool = if is_absolute escaping then true else climbs 0 (components escaping) in
    (refused ≡ true → safe_join models escaping ≡ none)
    × (refused ≡ false
        → (target : FilePath) × (safe_join models escaping ≡ some target) × IsInside models target)
safe_join-IsInside_example = safe_join-IsInside models b'.' (b'.' ∷ 47 ∷ b'a' ∷ [])

extract-Extracted_example :
    let (made, failed) = extract always_opens models limits archive in
    AllInside models made
    × (files_of made ≤ 5)
    × (bytes_of made ≤ 100 + 1)
    × (failed ≡ false → (bytes_of made ≤ 100) × (bytes_of made ≡ contents archive))
extract-Extracted_example = extract-Extracted always_opens models limits archive
