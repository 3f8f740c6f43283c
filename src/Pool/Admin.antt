-- ===== src/Pool/Admin.antt =====
-- internal/pool/pool.go: the hot swap and the other admin operations keep the invariant.
use mathlib.Core.Path.{subst}
use nano_asr.Prelude.{
  ℕ, ◌+◌, ◌≡◌, refl, ◌∙◌, ◌⊎◌, inl, inr, Bool, true, false, List, [], ◌∷◌, none, some, arith,
  lookup, insert, ℕ_discrete, Option-cases,
}
use nano_asr.Core.{Bytes, bytes_discrete}
use nano_asr.Pool.Invariant.{Inv, put-Inv}
use nano_asr.Pool.Closing.{aside-Inv, retire-Inv, retire_variants-Inv}
use nano_asr.Pool.Eviction.{evict-Inv}
use nano_asr.Pool.State.{evict, Pool, Entry, ready, close_entry}
use nano_asr.Pool.Acquire.{Lease}
use nano_asr.Pool.Manage.{retire, retire_one, retire_variants, swap_in, reload, unload, pin}
use nano_asr.Pool.Loading.{extend-Inv}

retire-next : (h : ℕ) (e : Entry) (p : Pool) → (retire h e p).next_handle ≡ p.next_handle
unfolding retire close_entry
retire-next h e p = ground arith

retire_one-next :
    (base : Bytes) (h : ℕ) (p : Pool) → (retire_one base h p).next_handle ≡ p.next_handle
unfolding retire_one
retire_one-next base h p = elim (Option-cases (lookup ℕ_discrete h p.entries)) [
  | inl missing ↦ ground arith
  | inr (e, found) ↦ ground (arith, retire-next h e p)
]

retire_variants-next :
    (base : Bytes) (m : List (Bytes × ℕ)) (p : Pool)
    → (retire_variants base m p).next_handle ≡ p.next_handle
unfolding retire_variants
retire_variants-next base [] p = refl
retire_variants-next base ((k, h) ∷ m) p =
    retire_variants-next base m (retire_one base h p) ∙ retire_one-next base h p

-- The last part of the swap, from the pool whose old entries are retired.
swapped-Inv :
    (q : Pool) (ls : List Lease) (hs : List ℕ) (id : Bytes) (h r rss now : ℕ) (pinned : Bool)
    → q.next_handle ≡ h
    → Inv q ls hs
    → Inv
        (record (retire_variants id q.current q) {
          current = insert bytes_discrete id h (retire_variants id q.current q).current;
          entries =
              insert ℕ_discrete h
                (record {
                  id = id;
                  base_id = id;
                  state = ready;
                  refs = 0;
                  pinned = pinned;
                  rss_mb = rss;
                  last_used = now;
                  rec = some r;
                  loaded = true;
                  load_err = none;
                })
                (retire_variants id q.current q).entries;
          next_handle = h + 1;
        })
        ls
        hs
swapped-Inv q ls hs id h r rss now pinned next v =
    let q' = retire_variants id q.current q in
    let fresh : Entry = record {
      id = id;
      base_id = id;
      state = ready;
      refs = 0;
      pinned = pinned;
      rss_mb = rss;
      last_used = now;
      rec = some r;
      loaded = true;
      load_err = none;
    } in
    subst
      (λ n.
        Inv
          (record q' {
            current = insert bytes_discrete id n q'.current;
            entries = insert ℕ_discrete n fresh q'.entries;
            next_handle = n + 1;
          })
          ls hs)
      (retire_variants-next id q.current q ∙ next)
      (extend-Inv q' ls hs fresh (retire_variants-Inv q ls hs id q.current v) id refl refl refl
        (λ on. (r, refl)))

-- The swap ends in an eviction.
pub swap_in-evict :
    (p : Pool) (ls : List Lease) (hs : List ℕ) (id : Bytes) (r rss now : ℕ)
    → Inv p ls hs
    → (q : Pool) × (swap_in p id r rss now ≡ evict q) × Inv q ls hs
unfolding swap_in
swap_in-evict p ls hs id r rss now v = elim (Option-cases (lookup bytes_discrete id p.current)) [
  | inl nobody ↦
      rw (nobody, swap_in) (_, refl, swapped-Inv p ls hs id p.next_handle r rss now false refl v)
  | inr (j, stands) ↦ elim (Option-cases (lookup ℕ_discrete j p.entries)) [
    | inl missing ↦
        rw (stands, missing, swap_in)
          (_, refl, swapped-Inv p ls hs id p.next_handle r rss now false refl v)
    | inr (e, found) ↦
        rw (stands, found, swap_in)
          (
            _,
            refl,
            swapped-Inv (retire j e p) ls hs id p.next_handle r rss now e.pinned (retire-next j e p)
                (retire-Inv p ls hs j e found v),
          )
  ]
]

pub swap_in-Inv :
    (p : Pool) (ls : List Lease) (hs : List ℕ) (id : Bytes) (r rss now : ℕ)
    → Inv p ls hs
    → Inv (swap_in p id r rss now) ls hs
swap_in-Inv p ls hs id r rss now v =
    let (q, ends, w) = swap_in-evict p ls hs id r rss now v in rw ends (evict-Inv q ls hs w)

reload-cases :
    (p : Pool) (id wanted revision : Bytes) (r rss now : ℕ)
    → ((reload p id wanted revision r rss now).0 ≡ swap_in p id r rss now)
      ⊎ ((reload p id wanted revision r rss now).0 ≡ record p { closed_recs = r ∷ p.closed_recs })
unfolding reload
reload-cases p id wanted revision r rss now = ground arith

pub reload-Inv :
    (p : Pool) (ls : List Lease) (hs : List ℕ) (id wanted revision : Bytes) (r rss now : ℕ)
    → Inv p ls hs
    → Inv (reload p id wanted revision r rss now).0 ls hs
reload-Inv p ls hs id wanted revision r rss now v =
    elim (reload-cases p id wanted revision r rss now) [
      | inl swapped ↦ rw swapped (swap_in-Inv p ls hs id r rss now v)
      | inr other ↦ rw other (aside-Inv p ls hs (r ∷ p.closed_recs) p.draining_list p.closed v)
    ]

pub unload-Inv :
    (p : Pool) (ls : List Lease) (hs : List ℕ) (id : Bytes)
    → Inv p ls hs
    → Inv (unload p id).0 ls hs
unfolding unload
unload-Inv p ls hs id v = elim (Option-cases (lookup bytes_discrete id p.current)) [
  | inl nobody ↦ rw (nobody, unload) v
  | inr (h, stands) ↦ elim (Option-cases (lookup ℕ_discrete h p.entries)) [
    | inl missing ↦ rw (stands, missing, unload) v
    | inr (e, found) ↦
        rw (stands, found, unload)
          (retire_variants-Inv (retire h e p) ls hs id (retire h e p).current
            (retire-Inv p ls hs h e found v))
  ]
]

pub pin-Inv :
    (p : Pool) (ls : List Lease) (hs : List ℕ) (id : Bytes) (pinned : Bool)
    → Inv p ls hs
    → Inv (pin p id pinned).0 ls hs
unfolding pin
pin-Inv p ls hs id pinned v = elim (Option-cases (lookup bytes_discrete id p.current)) [
  | inl nobody ↦ rw (nobody, pin) v
  | inr (h, stands) ↦ elim (Option-cases (lookup ℕ_discrete h p.entries)) [
    | inl missing ↦ rw (stands, missing, pin) v
    | inr (e, found) ↦
        rw (stands, found, pin)
          (put-Inv p ls hs h e (record e { pinned = pinned }) found
            (record { refs = refl; id = refl; rec = inl refl; state = inl refl }) v)
  ]
]
