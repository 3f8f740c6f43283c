-- ===== src/Registry/Extracting.antt =====
-- internal/registry/unpack.go: what unpacking can leave on disk.
use mathlib.Core.Path.{subst}
use nano_asr.Prelude.{
  ℕ, suc, ◌+◌, ◌-◌, ◌≤◌, ◌<◌, ◌≡◌, refl, sym, ap, ◌∙◌, Bool, true, false, List, [], ◌∷◌, ◌++◌, none,
  some, arith, ltb, ◌==◌, ◌&&◌, ◌||◌, if◌then◌else◌, Bool-cases, Option-cases, inl, inr, ◌⊎◌,
}
use nano_asr.Core.{Bytes}
use nano_asr.Registry.{
  FilePath, Kind, directory, regular, special, Entry, UnpackLimits, Made, made_directory, made_file,
  Written, copied, write_entry, extract_from, extract, safe_join, is_absolute, components,
}
use nano_asr.Registry.Inside.{IsInside, climbs, safe_join-IsInside}

abbrev pub AllInside : FilePath → List Made → Type 0
AllInside dest [] = Unit {0}
AllInside dest (made_directory p ∷ ms) = IsInside dest p × AllInside dest ms
AllInside dest (made_file p n ∷ ms) = IsInside dest p × AllInside dest ms

-- The files, and the bytes in them.
abbrev pub files_of : List Made → ℕ
files_of [] = 0
files_of (made_directory p ∷ ms) = files_of ms
files_of (made_file p n ∷ ms) = suc (files_of ms)

abbrev pub bytes_of : List Made → ℕ
bytes_of [] = 0
bytes_of (made_directory p ∷ ms) = bytes_of ms
bytes_of (made_file p n ∷ ms) = n + bytes_of ms

abbrev regular_size : Kind → ℕ → ℕ
regular_size directory n = 0
regular_size regular n = n
regular_size special n = 0

-- What the regular files of an archive hold.
abbrev pub contents : List Entry → ℕ
contents [] = 0
contents (e ∷ es) = regular_size e.kind e.content + contents es

safe_join-some :
    (dest : FilePath) (name : Bytes) (target : FilePath)
    → safe_join dest name ≡ some target
    → IsInside dest target
unfolding safe_join
safe_join-some dest [] target e = absurd (let it : none ≡ some target = e in cc)
safe_join-some dest (b ∷ bs) target e =
    let rule = safe_join-IsInside dest b bs in
    elim (Bool-cases (if is_absolute (b ∷ bs) then true else climbs 0 (components (b ∷ bs)))) [
      | inl refused ↦ absurd (let it : none ≡ some target = sym (rule.0 refused) ∙ e in cc)
      | inr fine ↦
          let (t, made, inside) = rule.1 fine in
          let same : t ≡ target = let both : some t ≡ some target = sym made ∙ e in cc in
          subst (IsInside dest) same inside
    ]

-- What writing an entry does, given so many bytes that may still be written.
abbrev Wrote : FilePath → Entry → ℕ → Written → Type 0
Wrote dest e remaining w =
    AllInside dest w.made
    × (files_of w.made ≤ 1)
    × (bytes_of w.made ≡ w.bytes)
    × (w.bytes ≤ remaining + 1)
    × (w.failed ≡ false → (w.bytes ≤ remaining) × (w.bytes ≡ e.content))

-- The count that copying reports is within its allowance, and it is all of the entry unless reading
-- failed or the allowance was used up.
copied_lem :
    (e : Entry) (most : ℕ)
    → ((copied e most).0 ≤ most)
      × ((copied e most).1 ≡ false → (copied e most).0 < most → (copied e most).0 ≡ e.content)
unfolding copied
copied_lem e most = elim (Option-cases e.breaks) [
  | inl never ↦ rw (never, copied) (ground arith, λ f less. ground arith)
  | inr (k, breaks) ↦ elim (Bool-cases (ltb k (if ltb most e.content then most else e.content))) [
    | inl early ↦
        rw (breaks, early, copied)
          (ground arith, λ f less. absurd (let it : true ≡ false = f in cc))
    | inr late ↦ rw (breaks, late, copied) (ground arith, λ f less. ground arith)
  ]
]

not_failed : (broken : Bool) (r n : ℕ) → (broken || ltb r n) ≡ false → (broken ≡ false) × (n ≤ r)
not_failed broken r n f = ground arith

write_entry-Wrote :
    (dest : FilePath) (e : Entry) (target : FilePath) (remaining : ℕ)
    → IsInside dest target
    → Wrote dest e remaining (write_entry e target remaining)
unfolding write_entry
write_entry-Wrote dest e target remaining inside = elim (Bool-cases (remaining == 0)) [
  | inl spent ↦
      rw (spent, write_entry)
        (tt, omega arith, refl, omega arith, λ f. absurd (let it : true ≡ false = f in cc))
  | inr left ↦ elim (Bool-cases (e.directory_made && e.file_created)) [
    | inr blocked ↦
        rw (left, blocked, write_entry)
          (tt, omega arith, refl, omega arith, λ f. absurd (let it : true ≡ false = f in cc))
    | inl created ↦
        let c = copied_lem e (remaining + 1) in
        rw (left, created, write_entry)
          (
            (inside, tt),
            omega arith,
            omega arith,
            c.0,
            λ f.
                let fine =
                  not_failed (copied e (remaining + 1)).1 remaining (copied e (remaining + 1)).0
                    f in
                (fine.1, c.1 fine.0 (omega (arith, fine.1))),
          )
  ]
]

-- What the loop makes, with so many files and bytes before it.
abbrev Extracted : FilePath → UnpackLimits → ℕ → ℕ → List Entry → List Made × Bool → Type 0
Extracted dest limits files total es (made, failed) =
    AllInside dest made
    × (files + files_of made ≤ limits.max_files)
    × (total + bytes_of made ≤ limits.max_unpacked_bytes + 1)
    × (failed ≡ false
        → (total + bytes_of made ≤ limits.max_unpacked_bytes) × (bytes_of made ≡ contents es))

nothing_more :
    (dest : FilePath) (limits : UnpackLimits) (files total : ℕ) (es : List Entry)
    → files ≤ limits.max_files
    → total ≤ limits.max_unpacked_bytes
    → Extracted dest limits files total es ([], true)
nothing_more dest limits files total es fs bs =
    (tt, omega (arith, fs), omega (arith, bs), λ f. absurd (let it : true ≡ false = f in cc))

AllInside-append :
    (dest : FilePath) (xs ys : List Made)
    → AllInside dest xs
    → AllInside dest ys
    → AllInside dest (xs ++ ys)
AllInside-append dest [] ys a b = b
AllInside-append dest (made_directory p ∷ xs) ys a b = (a.0, AllInside-append dest xs ys a.1 b)
AllInside-append dest (made_file p n ∷ xs) ys a b = (a.0, AllInside-append dest xs ys a.1 b)

files_of-append : (xs ys : List Made) → files_of (xs ++ ys) ≡ files_of xs + files_of ys
files_of-append [] ys = omega arith
files_of-append (made_directory p ∷ xs) ys = files_of-append xs ys
files_of-append (made_file p n ∷ xs) ys = omega (arith, files_of-append xs ys)

bytes_of-append : (xs ys : List Made) → bytes_of (xs ++ ys) ≡ bytes_of xs + bytes_of ys
bytes_of-append [] ys = omega arith
bytes_of-append (made_directory p ∷ xs) ys = bytes_of-append xs ys
bytes_of-append (made_file p n ∷ xs) ys = omega (arith, bytes_of-append xs ys)

Kind-cases : (k : Kind) → (k ≡ directory) ⊎ ((k ≡ regular) ⊎ (k ≡ special))
Kind-cases directory = inl refl
Kind-cases regular = inr (inl refl)
Kind-cases special = inr (inr refl)

below_limit : (m n : ℕ) (b c : Bool) → (ltb m n || b || c) ≡ false → n ≤ m
below_limit m n b c e = ground arith

module _ (opens : Entry → Bool) (dest : FilePath) (limits : UnpackLimits) where
  -- One file, written whole, and then the rest.
  after_file :
      (files total : ℕ) (e : Entry) (es : List Entry) (w : Written) (rest : List Made × Bool)
      → total ≤ limits.max_unpacked_bytes
      → e.kind ≡ regular
      → Wrote dest e (limits.max_unpacked_bytes - total) w
      → w.failed ≡ false
      → Extracted dest limits (files + 1) (total + w.bytes) es rest
      → Extracted dest limits files total (e ∷ es) (w.made ++ rest.0, rest.1)
  after_file files total e es w rest le is_file wrote fine more =
      let fs = files_of-append w.made rest.0 in
      let bs = bytes_of-append w.made rest.0 in
      let whole = wrote.4 fine in
      let held : regular_size e.kind e.content ≡ e.content =
        ap (λ k. regular_size k e.content) is_file in
      (
        AllInside-append dest w.made rest.0 wrote.0 more.0,
        omega (arith, fs, wrote.1, more.1),
        omega (arith, bs, wrote.2, more.2),
        λ f.
            let m = more.3 f in
            (omega (arith, bs, wrote.2, m.0), omega (arith, bs, wrote.2, whole.1, held, m.1)),
      )

  extract_from-Extracted :
      (files total : ℕ) (es : List Entry)
      → files ≤ limits.max_files
      → total ≤ limits.max_unpacked_bytes
      → Extracted dest limits files total es (extract_from opens dest limits files total es)
  unfolding extract_from
  extract_from-Extracted files total [] fs bs =
      (tt, omega (arith, fs), omega (arith, bs), λ f. (omega (arith, bs), refl))
  extract_from-Extracted files total (e ∷ es) fs bs =
      let stop = nothing_more dest limits files total (e ∷ es) fs bs in
      let from =
        λ (r : List Made × Bool) (same : extract_from opens dest limits files total (e ∷ es) ≡ r).
          subst (Extracted dest limits files total (e ∷ es)) (sym same) in
      elim (Bool-cases e.readable) [
        | inr broken ↦ from ([], true) (rw (broken, extract_from) refl) stop
        | inl readable ↦ elim (Option-cases (safe_join dest e.name)) [
          | inl outside ↦ from ([], true) (rw (readable, outside, extract_from) refl) stop
          | inr (target, joined) ↦
              let inside = safe_join-some dest e.name target joined in
              elim (Kind-cases e.kind) [
                | inr (inr is_special) ↦
                    from ([], true) (rw (readable, joined, is_special, extract_from) refl) stop
                | inl is_directory ↦ elim (Bool-cases e.directory_made) [
                  | inr blocked ↦
                      from ([], true)
                        (rw (readable, joined, is_directory, blocked, extract_from) refl) stop
                  | inl made ↦
                      let rest = extract_from opens dest limits files total es in
                      let ih = extract_from-Extracted files total es fs bs in
                      let empty : regular_size e.kind e.content ≡ 0 =
                        ap (λ k. regular_size k e.content) is_directory in
                      from (made_directory target ∷ rest.0, rest.1)
                        (rw (readable, joined, is_directory, made, extract_from) refl)
                        (
                          (inside, ih.0),
                          ih.1,
                          ih.2,
                          λ f. let m = ih.3 f in (m.0, omega (arith, m.1, empty)),
                        )
                ]
                | inr (inl is_file) ↦
                    elim (Bool-cases (
                      ltb limits.max_files (files + 1)
                      || ltb limits.max_file_bytes e.declared
                      || (if opens e then false else true))) [
                        | inl over ↦
                            from ([], true)
                              (rw (readable, joined, is_file, over, extract_from) refl) stop
                        | inr within ↦
                            let left : ℕ = limits.max_unpacked_bytes - total in
                            let w = write_entry e target left in
                            let wrote = write_entry-Wrote dest e target left inside in
                            let more = below_limit limits.max_files (files + 1) _ _ within in
                            elim (Bool-cases w.failed) [
                              | inl failed ↦
                                  from (w.made, true)
                                    (rw (readable, joined, is_file, within, failed, extract_from)
                                      refl)
                                    (
                                      wrote.0,
                                      omega (arith, more, wrote.1),
                                      omega (arith, wrote.2, wrote.3, bs),
                                      λ f. absurd (let it : true ≡ false = f in cc),
                                    )
                              | inr fine ↦
                                  let written = wrote.4 fine in
                                  let rest =
                                    extract_from opens dest limits (files + 1) (total + w.bytes)
                                      es in
                                  let ih =
                                    extract_from-Extracted (files + 1) (total + w.bytes) es more
                                      (omega (arith, written.0, bs)) in
                                  from (w.made ++ rest.0, rest.1)
                                    (rw (readable, joined, is_file, within, fine, extract_from)
                                      refl)
                                    (after_file files total e es w rest bs is_file wrote fine ih)
                            ]
                      ]
              ]
        ]
      ]

  -- Whatever an archive holds and however unpacking ends, in a tar as in a zip: what is made lies in
  -- the destination, with no more files than the limit and no more bytes than the limit and one.
  -- Unpacking that succeeds has written every byte of every regular file, within the limit.
  pub extract-Extracted :
      (es : List Entry)
      → let (made, failed) = extract opens dest limits es in
        AllInside dest made
        × (files_of made ≤ limits.max_files)
        × (bytes_of made ≤ limits.max_unpacked_bytes + 1)
        × (failed ≡ false
            → (bytes_of made ≤ limits.max_unpacked_bytes) × (bytes_of made ≡ contents es))
  unfolding extract
  extract-Extracted es =
      let x = extract_from-Extracted 0 0 es (omega arith) (omega arith) in
      (x.0, omega (arith, x.1), omega (arith, x.2), λ f. let m = x.3 f in (omega (arith, m.0), m.1))
