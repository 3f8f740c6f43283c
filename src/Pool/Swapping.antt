-- ===== src/Pool/Swapping.antt =====
-- internal/pool/pool.go: the end of a load, the hot swap and the admin operations keep the invariant.
use mathlib.Core.Logic.{if_pos, if_neg}
use nano_asr.Prelude.{
  ℕ, ◌≡◌, ◌≢◌, refl, sym, ap, ◌∙◌, inl, inr, true, false, List, [], ◌∷◌, some, arith, ite, lookup,
  insert, Entries-mono, Entries-insert, Entries-lookup, lookup-insert, lookup-insert_self,
  lookup-insert_ne, ℕ_discrete, Option-cases, Bool-cases,
}
use nano_asr.Core.{Bytes, bytes_discrete, Code, model_unavailable}
use nano_asr.Pool.Invariant.{
  Inv, Table, Serves, put-Inv, count, Placeholders, counted-insert, put-AllAlive,
}
use nano_asr.Pool.Closing.{drop_key-Inv, aside-Inv}
use nano_asr.Pool.Eviction.{evict-Inv}
use nano_asr.Pool.Leases.{lend-Inv}
use nano_asr.Pool.State.{Pool, Entry, ready, is_ready, is_draining, put}
use nano_asr.Pool.Acquire.{
  Lease, load_failed, Loaded, served, retired, load_ready, load_retired, load_done, same_handle,
}

-- The handles that are loading, without one.
unfoldable pub without : ℕ → List ℕ → List ℕ
without h [] = []
without h (j ∷ js) = ite (ℕ_discrete j h) (without h js) (j ∷ without h js)

without-Placeholders :
    (entries : Table) (h : ℕ) (hs : List ℕ)
    → Placeholders entries hs
    → Placeholders entries (without h hs)
unfolding without
without-Placeholders entries h [] a = tt
without-Placeholders entries h (j ∷ hs) a = elim (ℕ_discrete j h) [
  | yes same ↦ rw (if_pos (ℕ_discrete j h) same _ _) (without-Placeholders entries h hs a.1)
  | no other ↦ rw (if_neg (ℕ_discrete j h) other _ _) (a.0, without-Placeholders entries h hs a.1)
]

fewer-Inv :
    (p : Pool) (ls : List Lease) (h : ℕ) (hs : List ℕ) → Inv p ls hs → Inv p ls (without h hs)
fewer-Inv p ls h hs v = record {
  counted = v.counted;
  alive = v.alive;
  placeholders = without-Placeholders p.entries h hs v.placeholders;
  serving = v.serving;
  fresh = v.fresh;
}

-- A write that leaves what the invariant reads.
touch-Inv :
    (p : Pool) (ls : List Lease) (hs : List ℕ) (h : ℕ) (e e' : Entry)
    → lookup ℕ_discrete h p.entries ≡ some e
    → (e'.refs ≡ e.refs) × (e'.id ≡ e.id) × (e'.rec ≡ e.rec) × (e'.state ≡ e.state)
    → Inv p ls hs
    → Inv (put h e' p) ls hs
touch-Inv p ls hs h e e' found (refs, id, rec, state) v =
    put-Inv p ls hs h e e' found (record { refs = refs; id = id; rec = inl rec; state = inl state })
      v

pub load_failed-Inv :
    (p : Pool) (ls : List Lease) (hs : List ℕ) (key : Bytes) (h : ℕ) (e : Entry) (c : Code)
    → lookup ℕ_discrete h p.entries ≡ some e
    → Inv p ls hs
    → Inv (load_failed p key h e c) ls (without h hs)
unfolding load_failed
load_failed-Inv p ls hs key h e c found v =
    let w = fewer-Inv _ ls h hs (
      touch-Inv p ls hs h e (record e { load_err = some c; loaded = true }) found
        (refl, refl, refl, refl) v) in
    elim (Bool-cases (same_handle (lookup bytes_discrete key p.current) h)) [
      | inl mine ↦ rw (mine, load_failed) (drop_key-Inv _ ls (without h hs) key w)
      | inr lost ↦ rw (lost, load_failed) w
    ]

-- The placeholder becomes ready, with the lease of the caller that loaded.
module _ (p : Pool) (ls : List Lease) (hs : List ℕ) (h : ℕ) (e e' : Entry) (r : ℕ)
    (found : lookup ℕ_discrete h p.entries ≡ some e) (id : e'.id ≡ e.id) (on : e'.state ≡ ready)
    (rec : e'.rec ≡ some r) where
  filled-Placeholders :
      (js : List ℕ)
      → Placeholders p.entries js
      → Placeholders (insert ℕ_discrete h e' p.entries) (without h js)
  unfolding without
  filled-Placeholders [] a = tt
  filled-Placeholders (j ∷ js) a = elim (ℕ_discrete j h) [
    | yes same ↦ rw (if_pos (ℕ_discrete j h) same _ _) (filled-Placeholders js a.1)
    | no other ↦ rw (if_neg (ℕ_discrete j h) other _ _) (
      (
        a.0.0,
        lookup-insert_ne ℕ_discrete h j e' p.entries (λ x. other (sym x)) ∙ a.0.1,
        a.0.2,
        a.0.3,
      ),
      filled-Placeholders js a.1,
    )
  ]

  filled-Serves :
      (k : Bytes) (j : ℕ) → Serves p.entries k j → Serves (insert ℕ_discrete h e' p.entries) k j
  filled-Serves k j s = elim (ℕ_discrete h j) [
    | no other ↦ (s.0, lookup-insert_ne ℕ_discrete h j e' p.entries other ∙ s.1, s.2, s.3, s.4)
    | yes same ↦
        let was : e ≡ s.0 = ground arith in
        (
          e',
          ground (arith, lookup-insert ℕ_discrete h j e' p.entries),
          id ∙ rw was s.2,
          ap is_draining on,
          λ idle. (r, rec),
        )
  ]

  filled-Inv :
      e.refs ≡ 0
      → e'.refs ≡ 1
      → Inv p ls hs
      → Inv (put h e' p) (record { handle = h; rec = some r } ∷ ls) (without h hs)
  filled-Inv free one v =
      let l : Lease = record { handle = h; rec = some r } in
      let nobody : count h ls ≡ 0 = sym (v.counted h e found) ∙ free in
      record {
        counted =
            counted-insert p.entries h e' (l ∷ ls) (ground arith)
              (λ j x d f. ground (arith, v.counted j x f));
        alive = (
          (e', r, lookup-insert_self ℕ_discrete h e' p.entries, rec, refl),
          put-AllAlive p.entries h e e' found ls (inr nobody) v.alive,
        );
        placeholders = filled-Placeholders hs v.placeholders;
        serving = Entries-mono p.current filled-Serves v.serving;
        fresh =
            Entries-insert ℕ_discrete _ h e' p.entries
              (Entries-lookup ℕ_discrete _ h e p.entries v.fresh found) v.fresh;
      }

-- What is known when a load ends.
abbrev pub AfterLoad : List Lease → List ℕ → Loaded → Type 0
AfterLoad ls hs (served l q) = Inv q (l ∷ ls) hs
AfterLoad ls hs (retired c q) = Inv q ls hs

load_ready-AfterLoad :
    (p : Pool) (ls : List Lease) (hs : List ℕ) (h : ℕ) (e : Entry) (r rss now : ℕ)
    → lookup ℕ_discrete h p.entries ≡ some e
    → e.refs ≡ 0
    → Inv p ls hs
    → AfterLoad ls (without h hs) (load_ready p h e r rss now)
unfolding load_ready
load_ready-AfterLoad p ls hs h e r rss now found free v =
    evict-Inv _ (record { handle = h; rec = some r } ∷ ls) (without h hs)
      (filled-Inv p ls hs h e _ r found refl refl refl free refl v)

load_retired-AfterLoad :
    (p : Pool) (ls : List Lease) (hs : List ℕ) (key : Bytes) (h : ℕ) (e : Entry) (r now : ℕ)
    → lookup ℕ_discrete h p.entries ≡ some e
    → same_handle (lookup bytes_discrete key p.current) h ≡ false
    → Inv p ls hs
    → AfterLoad ls (without h hs) (load_retired p key h e r now)
unfolding load_retired
load_retired-AfterLoad p ls hs key h e r now found gone v =
    let w =
      aside-Inv p ls (without h hs) (r ∷ p.closed_recs) p.draining_list p.closed
        (fewer-Inv p ls h hs v) in
    let lost =
      touch-Inv _ ls (without h hs) h e
        (record e { load_err = some model_unavailable; loaded = true }) found
        (refl, refl, refl, refl) w in
    let woken =
      touch-Inv _ ls (without h hs) h e (record e { loaded = true }) found (refl, refl, refl, refl)
        w in
    elim (Option-cases (lookup bytes_discrete key p.current)) [
      | inl free ↦ rw (free, load_retired) lost
      | inr (j, stands) ↦ elim (Option-cases (lookup ℕ_discrete j p.entries)) [
        | inl missing ↦ rw (stands, missing, load_retired) lost
        | inr (x, there) ↦ elim (Bool-cases (is_ready x.state)) [
          | inr off ↦ rw (stands, there, off, load_retired) lost
          | inl on ↦
              let other : h ≢ j = λ same. ground arith in
              rw (stands, there, on, load_retired)
                (lend-Inv _ ls (without h hs) j x key now
                  (lookup-insert_ne ℕ_discrete h j (record e { loaded = true }) p.entries other
                    ∙ there)
                  (Entries-lookup bytes_discrete _ key j p.current woken.serving stands) on woken)
        ]
      ]
    ]

-- The end of a load that succeeded, on a placeholder that nothing has been lent on.
pub load_done-AfterLoad :
    (p : Pool) (ls : List Lease) (hs : List ℕ) (key : Bytes) (h : ℕ) (e : Entry) (r rss now : ℕ)
    → lookup ℕ_discrete h p.entries ≡ some e
    → e.refs ≡ 0
    → Inv p ls hs
    → AfterLoad ls (without h hs) (load_done p key h e r rss now)
unfolding load_done
load_done-AfterLoad p ls hs key h e r rss now found free v =
    elim (Bool-cases (same_handle (lookup bytes_discrete key p.current) h)) [
      | inl mine ↦ rw (mine, load_done) (load_ready-AfterLoad p ls hs h e r rss now found free v)
      | inr gone ↦ rw (gone, load_done) (load_retired-AfterLoad p ls hs key h e r now found gone v)
    ]
