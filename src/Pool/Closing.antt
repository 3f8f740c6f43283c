-- ===== src/Pool/Closing.antt =====
-- internal/pool/pool.go: closing and retiring entries keeps the invariant.
use nano_asr.Prelude.{
  ℕ, ◌≡◌, ◌≢◌, refl, ◌⊎◌, inl, inr, Bool, List, [], ◌∷◌, none, some, arith, lookup, delete,
  Entries-mono, Entries-delete, Entries-delete_ne, ℕ_discrete, ◌++◌, Option-cases,
}
use nano_asr.Core.{Bytes, bytes_discrete}
use nano_asr.Pool.Invariant.{Inv, Serves, Unserved, put-Inv}
use nano_asr.Pool.State.{draining, Pool, Entry, put, drop_key, close_entry}
use nano_asr.Pool.Acquire.{Lease}
use nano_asr.Pool.Manage.{retire, retire_one, retire_variants}

pub drop_key-Inv :
    (p : Pool) (ls : List Lease) (hs : List ℕ) (k : Bytes) → Inv p ls hs → Inv (drop_key k p) ls hs
drop_key-Inv p ls hs k v = record {
  counted = v.counted;
  alive = v.alive;
  placeholders = v.placeholders;
  serving = Entries-delete bytes_discrete _ k p.current v.serving;
  fresh = v.fresh;
}

-- An entry whose key is taken out of the map stands under no other.
drop-Unserved :
    (p : Pool) (ls : List Lease) (hs : List ℕ) (h : ℕ) (e : Entry)
    → lookup ℕ_discrete h p.entries ≡ some e
    → Inv p ls hs
    → Unserved h (delete bytes_discrete e.id p.current)
drop-Unserved p ls hs h e found v =
    Entries-mono (delete bytes_discrete e.id p.current) (λ k j a same. a.0 (named k j same a.1))
      (Entries-delete_ne bytes_discrete (Serves p.entries) e.id p.current v.serving)
  where
    named : (k : Bytes) (j : ℕ) → j ≡ h → Serves p.entries k j → e.id ≡ k
    named k j same a = ground arith

-- The invariant does not read these fields.
pub aside-Inv :
    (p : Pool) (ls : List Lease) (hs : List ℕ) (cs ds : List ℕ) (b : Bool)
    → Inv p ls hs
    → Inv (record p { closed_recs = cs; draining_list = ds; closed = b }) ls hs
aside-Inv p ls hs cs ds b v = record {
  counted = v.counted;
  alive = v.alive;
  placeholders = v.placeholders;
  serving = v.serving;
  fresh = v.fresh;
}

pub close_entry-cases :
    (p : Pool) (h : ℕ) (e : Entry)
    → (close_entry h e p ≡ p)
      ⊎ ((r : ℕ) × (close_entry h e p
            ≡ record (put h (record e { rec = none }) p) { closed_recs = r ∷ p.closed_recs }))
unfolding close_entry
close_entry-cases p h e = elim (Option-cases e.rec) [
  | inl nothing ↦ inl (ground arith)
  | inr (r, held) ↦ inr (r, ground arith)
]

-- Closing an entry on which nothing is held and which stands under no key.
pub close_entry-Inv :
    (p : Pool) (ls : List Lease) (hs : List ℕ) (h : ℕ) (e : Entry)
    → lookup ℕ_discrete h p.entries ≡ some e
    → e.refs ≡ 0
    → Unserved h p.current
    → Inv p ls hs
    → Inv (close_entry h e p) ls hs
close_entry-Inv p ls hs h e found free gone v = elim (close_entry-cases p h e) [
  | inl unchanged ↦ rw unchanged v
  | inr (r, closed) ↦ rw closed (
      aside-Inv _ ls hs (r ∷ p.closed_recs) p.draining_list p.closed (
        put-Inv p ls hs h e _ found
          (record { refs = refl; id = refl; rec = inr (free, gone); state = inl refl }) v))
]

-- Closing an entry on which nothing is held, whose key is taken out of the map.
pub drop-close_entry-Inv :
    (p : Pool) (ls : List Lease) (hs : List ℕ) (h : ℕ) (e : Entry)
    → lookup ℕ_discrete h p.entries ≡ some e
    → e.refs ≡ 0
    → Inv p ls hs
    → Inv (close_entry h e (drop_key e.id p)) ls hs
drop-close_entry-Inv p ls hs h e found free v =
    close_entry-Inv (drop_key e.id p) ls hs h e found free (drop-Unserved p ls hs h e found v)
      (drop_key-Inv p ls hs e.id v)

retire-cases :
    (p : Pool) (h : ℕ) (e : Entry)
    → ((e.refs ≡ 0) × (retire h e p ≡ close_entry h e (drop_key e.id p)))
      ⊎ ((e.refs ≢ 0)
          × (retire h e p
              ≡ put h
                  (record e { state = draining })
                  (record (drop_key e.id p) { draining_list = p.draining_list ++ h ∷ [] })))
unfolding retire
retire-cases p h e = ground arith

-- retireLocked
pub retire-Inv :
    (p : Pool) (ls : List Lease) (hs : List ℕ) (h : ℕ) (e : Entry)
    → lookup ℕ_discrete h p.entries ≡ some e
    → Inv p ls hs
    → Inv (retire h e p) ls hs
retire-Inv p ls hs h e found v = elim (retire-cases p h e) [
  | inl (free, closed) ↦ rw closed (drop-close_entry-Inv p ls hs h e found free v)
  | inr (held, drained) ↦ rw drained (
      put-Inv _ ls hs h e _ found
        (record {
          refs = refl;
          id = refl;
          rec = inl refl;
          state = inr (held, drop-Unserved p ls hs h e found v);
        })
        (aside-Inv _ ls hs p.closed_recs (p.draining_list ++ h ∷ []) p.closed
          (drop_key-Inv p ls hs e.id v)))
]

retire_one-cases :
    (base : Bytes) (h : ℕ) (p : Pool)
    → (retire_one base h p ≡ p)
      ⊎ ((e : Entry) × (lookup ℕ_discrete h p.entries ≡ some e)
          × (retire_one base h p ≡ retire h e p))
unfolding retire_one
retire_one-cases base h p = elim (Option-cases (lookup ℕ_discrete h p.entries)) [
  | inl missing ↦ inl (ground arith)
  | inr (e, found) ↦ elim (bytes_discrete e.base_id base) [
    | no other ↦ inl (ground arith)
    | yes same ↦ elim (bytes_discrete e.id base) [
      | yes whole ↦ inl (ground arith)
      | no variant ↦ inr (e, found, ground arith)
    ]
  ]
]

-- retireVariantsLocked
pub retire_variants-Inv :
    (p : Pool) (ls : List Lease) (hs : List ℕ) (base : Bytes) (m : List (Bytes × ℕ))
    → Inv p ls hs
    → Inv (retire_variants base m p) ls hs
unfolding retire_variants
retire_variants-Inv p ls hs base [] v = v
retire_variants-Inv p ls hs base ((k, h) ∷ m) v =
    retire_variants-Inv (retire_one base h p) ls hs base m (elim (retire_one-cases base h p) [
      | inl unchanged ↦ rw unchanged v
      | inr (e, found, retired) ↦ rw retired (retire-Inv p ls hs h e found v)
    ])
