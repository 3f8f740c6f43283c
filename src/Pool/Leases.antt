-- ===== src/Pool/Leases.antt =====
-- internal/pool/pool.go: taking and returning leases keeps the invariant.
use nano_asr.Prelude.{
  false, ℕ, suc, ◌+◌, ◌-◌, ◌≡◌, ◌≢◌, refl, sym, ap, ◌∙◌, ◌⊎◌, inl, inr, true, List, [], ◌∷◌, ◌++◌,
  some, arith, lookup, insert, Entries, Entries-mono, Entries-insert, Entries-lookup, lookup-insert,
  lookup-insert_self, lookup-insert_ne, ℕ_discrete, if◌then◌else◌, ◌==◌, Bool-cases,
}
use nano_asr.Core.{Bytes}
use nano_asr.Pool.Invariant.{
  Inv, Table, Serves, Unserved, count, Alive, AllAlive, Placeholder, Placeholders, counted-insert,
  put-Serves,
}
use nano_asr.Pool.Closing.{aside-Inv, close_entry-Inv}
use nano_asr.Pool.Eviction.{evict-Inv}
use nano_asr.Pool.State.{
  evict, Pool, Entry, ModelState, loading, is_ready, is_draining, put, close_entry, over_limit,
}
use nano_asr.Pool.Acquire.{Lease, remove_draining, give_back, release}

-- A write of an entry that keeps its recogniser, whatever becomes of its count.
module _ (p : Pool) (ls : List Lease) (hs : List ℕ) (h : ℕ) (e e' : Entry)
    (found : lookup ℕ_discrete h p.entries ≡ some e) (rec : e'.rec ≡ e.rec) where
  kept-Alive : (l : Lease) → Alive p.entries l → Alive (insert ℕ_discrete h e' p.entries) l
  kept-Alive l a = elim (ℕ_discrete h l.handle) [
    | yes same ↦
        let was : e ≡ a.0 = ground arith in
        (
          e',
          a.1,
          ground (arith, lookup-insert ℕ_discrete h l.handle e' p.entries),
          rec ∙ rw was a.3,
          a.4,
        )
    | no other ↦
        (a.0, a.1, lookup-insert_ne ℕ_discrete h l.handle e' p.entries other ∙ a.2, a.3, a.4)
  ]

  kept-AllAlive :
      (ms : List Lease) → AllAlive p.entries ms → AllAlive (insert ℕ_discrete h e' p.entries) ms
  kept-AllAlive [] a = tt
  kept-AllAlive (l ∷ ms) a = (kept-Alive l a.0, kept-AllAlive ms a.1)

  -- Placeholders are other entries, since this one is not idly loading.
  kept-Placeholders :
      (e.state ≡ loading → e.refs ≢ 0)
      → (js : List ℕ) → Placeholders p.entries js
      → Placeholders (insert ℕ_discrete h e' p.entries) js
  kept-Placeholders busy [] a = tt
  kept-Placeholders busy (j ∷ js) a = (one, kept-Placeholders busy js a.1)
    where
      one : Placeholder (insert ℕ_discrete h e' p.entries) j
      one = elim (ℕ_discrete h j) [
        | yes same ↦
            let was : e ≡ a.0.0 = ground arith in absurd (busy (rw was a.0.2) (rw was a.0.3))
        | no other ↦
            (a.0.0, lookup-insert_ne ℕ_discrete h j e' p.entries other ∙ a.0.1, a.0.2, a.0.3)
      ]

not_loading : (s : ModelState) → is_ready s ≡ true → s ≢ loading
not_loading s on idle = ground arith

count-other :
    (h j : ℕ) (l : Lease) (ls : List Lease) → l.handle ≡ h → h ≢ j → count j (l ∷ ls) ≡ count j ls
count-other h j l ls e d = ground arith

-- A lease on a ready entry.
pub lend-Inv :
    (p : Pool) (ls : List Lease) (hs : List ℕ) (h : ℕ) (e : Entry) (k : Bytes) (now : ℕ)
    → lookup ℕ_discrete h p.entries ≡ some e
    → Serves p.entries k h
    → is_ready e.state ≡ true
    → Inv p ls hs
    → Inv
        (put h (record e { refs = e.refs + 1; last_used = now }) p)
        (record { handle = h; rec = e.rec } ∷ ls)
        hs
lend-Inv p ls hs h e k now found serves on v =
    let e' : Entry = record e { refs = e.refs + 1; last_used = now } in
    let l : Lease = record { handle = h; rec = e.rec } in
    let was : serves.0 ≡ e = ground arith in
    let (r, held) = serves.4 (ap (λ (y : Entry). is_ready y.state) was ∙ on) in
    let has : e.rec ≡ some r = ap (λ (y : Entry). y.rec) (sym was) ∙ held in
    record {
      counted =
          counted-insert p.entries h e' (l ∷ ls) (ground (arith, v.counted h e found))
            (λ j x d f. v.counted j x f ∙ sym (count-other h j l ls refl d));
      alive = (
        (e', r, lookup-insert_self ℕ_discrete h e' p.entries, has, has),
        kept-AllAlive p ls hs h e e' found refl ls v.alive,
      );
      placeholders =
          kept-Placeholders p ls hs h e e' found refl (λ load. absurd (not_loading e.state on load))
            hs v.placeholders;
      serving = put-Serves p.entries h e e' found p.current refl (inl (refl, refl)) v.serving;
      fresh =
          Entries-insert ℕ_discrete _ h e' p.entries
            (Entries-lookup ℕ_discrete _ h e p.entries v.fresh found) v.fresh;
    }

-- A lease among others, and its return.
count-middle :
    (h : ℕ) (l : Lease) (before after : List Lease)
    → count h (before ++ l ∷ after)
      ≡ (if l.handle == h then suc (count h (before ++ after)) else count h (before ++ after))
count-middle h l [] after = refl
count-middle h l (b ∷ before) after = ground (arith, count-middle h l before after)

AllAlive-without :
    (entries : Table) (l : Lease) (before after : List Lease)
    → AllAlive entries (before ++ l ∷ after)
    → Alive entries l × AllAlive entries (before ++ after)
AllAlive-without entries l [] after a = a
AllAlive-without entries l (b ∷ before) after a =
    let rest = AllAlive-without entries l before after a.1 in (rest.0, (a.0, rest.1))

-- An entry that is draining stands under no key.
draining-Unserved :
    (entries : Table) (h : ℕ) (e : Entry) (m : List (Bytes × ℕ))
    → lookup ℕ_discrete h entries ≡ some e
    → is_draining e.state ≡ true
    → Entries (Serves entries) m
    → Unserved h m
draining-Unserved entries h e m found on a =
    Entries-mono m (λ k j s same. absurd (conflict k j s same)) a
  where
    conflict : (k : Bytes) (j : ℕ) → Serves entries k j → j ≡ h → ⊥
    conflict k j s same =
        let was : s.0 ≡ e = ground arith in
        let off = s.3 in
        let d : is_draining s.0.state ≡ true = ap (λ (y : Entry). is_draining y.state) was ∙ on in
        ground arith

give_back-cases :
    (p : Pool) (h : ℕ) (e : Entry) (now : ℕ)
    → (give_back p h e now ≡ put h (record e { refs = e.refs - 1; last_used = now }) p)
      ⊎ ((is_draining e.state ≡ true)
          × (e.refs - 1 ≡ 0)
          × (give_back p h e now
              ≡ record (close_entry h
                  (record e { refs = e.refs - 1; last_used = now })
                  (put h (record e { refs = e.refs - 1; last_used = now }) p)) {
                    draining_list = remove_draining h p.draining_list;
                  }))
unfolding give_back
give_back-cases p h e now = elim (Bool-cases (is_draining e.state)) [
  | inr off ↦ inl (ground arith)
  | inl on ↦ elim (Bool-cases (e.refs - 1 == 0)) [
    | inr held ↦ inl (ground arith)
    | inl free ↦ inr (on, ground arith, ground arith)
  ]
]

-- The count of an entry goes down by the lease that is returned.
returned-Inv :
    (p : Pool) (before after : List Lease) (l : Lease) (hs : List ℕ) (e : Entry) (now : ℕ)
    → lookup ℕ_discrete l.handle p.entries ≡ some e
    → Inv p (before ++ l ∷ after) hs
    → Inv (put l.handle (record e { refs = e.refs - 1; last_used = now }) p) (before ++ after) hs
returned-Inv p before after l hs e now found v =
    let h = l.handle in
    let e' : Entry = record e { refs = e.refs - 1; last_used = now } in
    let n : e.refs ≡ suc (count h (before ++ after)) =
      ground (arith, v.counted h e found, count-middle h l before after) in
    record {
      counted =
          counted-insert p.entries h e' (before ++ after) (ground arith)
            (λ j x d f. ground (arith, v.counted j x f, count-middle j l before after));
      alive =
          kept-AllAlive p (before ++ after) hs h e e' found refl (before ++ after)
            (AllAlive-without p.entries l before after v.alive).1;
      placeholders =
          kept-Placeholders p [] hs h e e' found refl (λ load. ground arith) hs v.placeholders;
      serving = put-Serves p.entries h e e' found p.current refl (inl (refl, refl)) v.serving;
      fresh =
          Entries-insert ℕ_discrete _ h e' p.entries
            (Entries-lookup ℕ_discrete _ h e p.entries v.fresh found) v.fresh;
    }

give_back-Inv :
    (p : Pool) (before after : List Lease) (l : Lease) (hs : List ℕ) (e : Entry) (now : ℕ)
    → lookup ℕ_discrete l.handle p.entries ≡ some e
    → Inv p (before ++ l ∷ after) hs
    → Inv (give_back p l.handle e now) (before ++ after) hs
give_back-Inv p before after l hs e now found v =
    let h = l.handle in
    let e' : Entry = record e { refs = e.refs - 1; last_used = now } in
    let w = returned-Inv p before after l hs e now found v in
    let there = lookup-insert_self ℕ_discrete h e' p.entries in
    elim (give_back-cases p h e now) [
      | inl stays ↦ rw stays w
      | inr (on, free, closed) ↦ rw closed (
          aside-Inv _ (before ++ after) hs _ (remove_draining h p.draining_list) _ (
            close_entry-Inv _ (before ++ after) hs h e' there free
              (draining-Unserved _ h e' p.current there on w.serving) w))
    ]

-- release is the return, and an eviction if the pool is over its limits then.
pub release-cases :
    (p : Pool) (before after : List Lease) (l : Lease) (hs : List ℕ) (now : ℕ)
    → Inv p (before ++ l ∷ after) hs
    → (q : Pool) × Inv q (before ++ after) hs
      × (((over_limit q ≡ false) × (release p l.handle now ≡ q))
          ⊎ (release p l.handle now ≡ evict q))
unfolding release
release-cases p before after l hs now v =
    let a = (AllAlive-without p.entries l before after v.alive).0 in
    let w = give_back-Inv p before after l hs a.0 now a.2 v in
    (
      give_back p l.handle a.0 now,
      w,
      elim (Bool-cases (over_limit (give_back p l.handle a.0 now))) [
        | inl over ↦ inr (rw (a.2, release, over) refl)
        | inr within ↦ inl (within, rw (a.2, release, within) refl)
      ],
    )

pub release-Inv :
    (p : Pool) (before after : List Lease) (l : Lease) (hs : List ℕ) (now : ℕ)
    → Inv p (before ++ l ∷ after) hs
    → Inv (release p l.handle now) (before ++ after) hs
release-Inv p before after l hs now v =
    let (q, w, ends) = release-cases p before after l hs now v in
    elim ends [
      | inl (within, same) ↦ rw same w
      | inr evicted ↦ rw evicted (evict-Inv q (before ++ after) hs w)
    ]
