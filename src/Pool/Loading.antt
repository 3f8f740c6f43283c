-- ===== src/Pool/Loading.antt =====
-- internal/pool/pool.go: claiming a slot, loading into it and swapping a model keep the invariant.
use nano_asr.Prelude.{
  ℕ, ◌+◌, ◌<◌, ◌≡◌, refl, sym, ◌∙◌, inl, inr, true, false, List, [], ◌∷◌, none, some, arith, lookup,
  insert, Entries-mono, Entries-insert, Entries-lookup, lookup-insert_self, lookup-insert_ne,
  ℕ_discrete, Option-cases, Bool-cases,
}
use nano_asr.Core.{Bytes, bytes_discrete}
use nano_asr.Pool.Invariant.{Inv, count, AllAlive, Placeholders, counted-insert}
use nano_asr.Pool.Leases.{lend-Inv}
use nano_asr.Pool.State.{
  Pool, Entry, ModelState, loading, ready, draining, is_ready, is_draining, put, absent,
  downloading, downloaded,
}
use nano_asr.Pool.Acquire.{Lease, Claim, refused, leased, waits, loads, install, claim_entry, claim}

-- What a table tells stays when an entry is made under a new handle.
module _ (p : Pool) (ls : List Lease) (hs : List ℕ) (e : Entry) (v : Inv p ls hs) where
  keeps_lookup :
      (j : ℕ) (x : Entry)
      → lookup ℕ_discrete j p.entries ≡ some x
      → lookup ℕ_discrete j (insert ℕ_discrete p.next_handle e p.entries) ≡ some x
  keeps_lookup j x f =
      let below : j < p.next_handle = Entries-lookup ℕ_discrete _ j x p.entries v.fresh f in
      lookup-insert_ne ℕ_discrete p.next_handle j e p.entries (λ same. ground arith) ∙ f

  extend-AllAlive :
      (ms : List Lease)
      → AllAlive p.entries ms
      → AllAlive (insert ℕ_discrete p.next_handle e p.entries) ms
  extend-AllAlive [] a = tt
  extend-AllAlive (l ∷ ms) a =
      ((a.0.0, a.0.1, keeps_lookup l.handle a.0.0 a.0.2, a.0.3, a.0.4), extend-AllAlive ms a.1)

  extend-Placeholders :
      (js : List ℕ)
      → Placeholders p.entries js
      → Placeholders (insert ℕ_discrete p.next_handle e p.entries) js
  extend-Placeholders [] a = tt
  extend-Placeholders (j ∷ js) a =
      ((a.0.0, keeps_lookup j a.0.0 a.0.1, a.0.2, a.0.3), extend-Placeholders js a.1)

  count-next : (ms : List Lease) → AllAlive p.entries ms → count p.next_handle ms ≡ 0
  count-next [] a = refl
  count-next (l ∷ ms) a =
      let below : l.handle < p.next_handle =
        Entries-lookup ℕ_discrete _ l.handle a.0.0 p.entries v.fresh a.0.2 in
      ground (arith, count-next ms a.1)

  -- The new entry under its key.
  pub extend-Inv :
      (k : Bytes)
      → e.refs ≡ 0
      → e.id ≡ k
      → is_draining e.state ≡ false
      → (is_ready e.state ≡ true → (r : ℕ) × (e.rec ≡ some r))
      → Inv
          (record p {
            current = insert bytes_discrete k p.next_handle p.current;
            entries = insert ℕ_discrete p.next_handle e p.entries;
            next_handle = p.next_handle + 1;
          })
          ls
          hs
  extend-Inv k free id off on = record {
    counted =
        counted-insert p.entries p.next_handle e ls (free ∙ sym (count-next ls v.alive))
          (λ j x _ f. v.counted j x f);
    alive = extend-AllAlive ls v.alive;
    placeholders = extend-Placeholders hs v.placeholders;
    serving =
        Entries-insert bytes_discrete _ k p.next_handle p.current
          (e, lookup-insert_self ℕ_discrete p.next_handle e p.entries, id, off, on)
          (Entries-mono p.current (λ i j s. (s.0, keeps_lookup j s.0 s.1, s.2, s.3, s.4))
            v.serving);
    fresh =
        Entries-insert ℕ_discrete _ p.next_handle e p.entries (omega arith)
          (Entries-mono p.entries (λ i x below. ground arith) v.fresh);
  }

-- What is known of a claim, by how it ends.
abbrev pub Claimed : List Lease → List ℕ → Claim → Type 0
Claimed ls hs (refused c) = Unit {0}
Claimed ls hs (leased l q) = Inv q (l ∷ ls) hs
Claimed ls hs (waits h) = Unit {0}
Claimed ls hs (loads h q) = Inv q ls (h ∷ hs)

install-Claimed :
    (p : Pool) (ls : List Lease) (hs : List ℕ) (key base : Bytes) (now : ℕ)
    → Inv p ls hs
    → Claimed ls hs (install p key base now)
unfolding install
install-Claimed p ls hs key base now v =
    let placeholder : Entry = record {
      id = key;
      base_id = base;
      state = loading;
      refs = 0;
      pinned = false;
      rss_mb = 0;
      last_used = now;
      rec = none;
      loaded = false;
      load_err = none;
    } in
    let w = extend-Inv p ls hs placeholder v key refl refl refl (λ on. absurd (ground arith)) in
    record {
      counted = w.counted;
      alive = w.alive;
      placeholders = (
        (
          placeholder,
          lookup-insert_self ℕ_discrete p.next_handle placeholder p.entries,
          refl,
          refl,
        ),
        w.placeholders,
      );
      serving = w.serving;
      fresh = w.fresh;
    }

claim_entry-Claimed :
    (p : Pool) (ls : List Lease) (hs : List ℕ) (key base : Bytes) (now h : ℕ) (e : Entry)
    (s : ModelState)
    → (is_ready s ≡ true
        → Inv
            (put h (record e { refs = e.refs + 1; last_used = now }) p)
            (record { handle = h; rec = e.rec } ∷ ls)
            hs)
    → Inv p ls hs
    → Claimed ls hs (claim_entry p key base now h e s)
unfolding claim_entry
claim_entry-Claimed p ls hs key base now h e ready lend v = lend refl
claim_entry-Claimed p ls hs key base now h e loading lend v = tt
claim_entry-Claimed p ls hs key base now h e downloading lend v = tt
claim_entry-Claimed p ls hs key base now h e absent lend v = install-Claimed p ls hs key base now v
claim_entry-Claimed p ls hs key base now h e downloaded lend v =
    install-Claimed p ls hs key base now v
claim_entry-Claimed p ls hs key base now h e draining lend v =
    install-Claimed p ls hs key base now v

-- The critical section at the head of AcquireVariant.
pub claim-Claimed :
    (p : Pool) (ls : List Lease) (hs : List ℕ) (key base : Bytes) (now : ℕ)
    → Inv p ls hs
    → Claimed ls hs (claim p key base now)
unfolding claim
claim-Claimed p ls hs key base now v = elim (Bool-cases p.closed) [
  | inl shut ↦ rw (shut, claim) tt
  | inr on ↦ elim (Option-cases (lookup bytes_discrete key p.current)) [
    | inl free ↦ rw (on, free, claim) (install-Claimed p ls hs key base now v)
    | inr (h, stands) ↦ elim (Option-cases (lookup ℕ_discrete h p.entries)) [
      | inl missing ↦ rw (on, stands, missing, claim) (install-Claimed p ls hs key base now v)
      | inr (e, found) ↦
          rw (on, stands, found, claim)
            (claim_entry-Claimed p ls hs key base now h e e.state
              (λ idle.
                lend-Inv p ls hs h e key now found
                  (Entries-lookup bytes_discrete _ key h p.current v.serving stands) idle v)
              v)
    ]
  ]
]
