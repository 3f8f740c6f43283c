-- ===== src/Pool/Invariant.antt =====
-- internal/pool/pool.go: what holds of the pool, its leases and its loaders between two critical
-- sections, and the changes of an entry that keep it.
use nano_asr.Prelude.{
  ℕ, suc, ◌<◌, ◌≡◌, ◌≢◌, sym, ap, ◌∙◌, ◌⊎◌, inl, inr, true, false, List, [], ◌∷◌, some, arith,
  lookup, insert, Entries, Entries-insert, Entries-lookup, lookup-insert, lookup-insert_ne,
  ℕ_discrete, if◌then◌else◌, ◌==◌,
}
use nano_asr.Core.{Bytes}
use nano_asr.Pool.State.{Pool, Entry, loading, is_ready, is_draining, put}
use nano_asr.Pool.Acquire.{Lease}

-- How many leases are held on an entry.
abbrev pub count : ℕ → List Lease → ℕ
count h [] = 0
count h (l ∷ ls) = if l.handle == h then suc (count h ls) else count h ls

abbrev pub Table : Type 0
Table = List (ℕ × Entry)

-- The entry of a lease still has the recogniser that the lease was given.
abbrev pub Alive : Table → Lease → Type 0
Alive entries l =
    (e : Entry) × (r : ℕ) × (lookup ℕ_discrete l.handle entries ≡ some e)
    × (e.rec ≡ some r)
    × (l.rec ≡ some r)

abbrev pub AllAlive : Table → List Lease → Type 0
AllAlive entries [] = Unit {0}
AllAlive entries (l ∷ ls) = Alive entries l × AllAlive entries ls

-- The placeholder of a load in flight: nothing has been lent on it.
abbrev pub Placeholder : Table → ℕ → Type 0
Placeholder entries h =
    (e : Entry) × (lookup ℕ_discrete h entries ≡ some e) × (e.state ≡ loading) × (e.refs ≡ 0)

abbrev pub Placeholders : Table → List ℕ → Type 0
Placeholders entries [] = Unit {0}
Placeholders entries (h ∷ hs) = Placeholder entries h × Placeholders entries hs

-- The entry that stands under a key: it bears that key, is not draining, and is ready only with a
-- recogniser.
abbrev pub Serves : Table → Bytes → ℕ → Type 0
Serves entries k h =
    (e : Entry) × (lookup ℕ_discrete h entries ≡ some e)
    × (e.id ≡ k)
    × (is_draining e.state ≡ false)
    × (is_ready e.state ≡ true → (r : ℕ) × (e.rec ≡ some r))

pub record Inv (p : Pool) (leases : List Lease) (loaders : List ℕ) : Type 0 where
  pub counted :
      (h : ℕ) (e : Entry) → lookup ℕ_discrete h p.entries ≡ some e → e.refs ≡ count h leases
  pub alive : AllAlive p.entries leases
  pub placeholders : Placeholders p.entries loaders
  pub serving : Entries (Serves p.entries) p.current
  pub fresh : Entries (λ h e. h < p.next_handle) p.entries

-- No key stands for an entry.
abbrev pub Unserved : ℕ → List (Bytes × ℕ) → Type 0
Unserved h = Entries (λ k j. j ≢ h)

count-zero :
    (h : ℕ) (l : Lease) (ls : List Lease) → count h (l ∷ ls) ≡ 0 → (l.handle ≢ h) × (count h ls ≡ 0)
count-zero h l ls e = ground arith

-- A change of one entry, from e to e', while the leases stay.
pub record Keeps (e e' : Entry) (current : List (Bytes × ℕ)) (h : ℕ) : Type 0 where
  pub refs : e'.refs ≡ e.refs
  pub id : e'.id ≡ e.id
  pub rec : (e'.rec ≡ e.rec) ⊎ ((e.refs ≡ 0) × Unserved h current)
  pub state : (e'.state ≡ e.state) ⊎ ((e.refs ≢ 0) × Unserved h current)

Keeps-loading :
    (e e' : Entry) (current : List (Bytes × ℕ)) (h : ℕ)
    → Keeps e e' current h
    → e.state ≡ loading
    → e.refs ≡ 0
    → (e'.state ≡ loading) × (e'.refs ≡ 0)
Keeps-loading e e' current h c on none_held = elim c.state [
  | inl same ↦ (same ∙ on, c.refs ∙ none_held)
  | inr gone ↦ absurd (gone.0 none_held)
]

module _ (entries : Table) (h : ℕ) (e e' : Entry)
    (found : lookup ℕ_discrete h entries ≡ some e) where
  pub put-AllAlive :
      (ls : List Lease)
      → (e'.rec ≡ e.rec) ⊎ (count h ls ≡ 0)
      → AllAlive entries ls
      → AllAlive (insert ℕ_discrete h e' entries) ls
  put-AllAlive [] k a = tt
  put-AllAlive (l ∷ ls) k a = (one, put-AllAlive ls (ground arith) a.1)
    where
      one : Alive (insert ℕ_discrete h e' entries) l
      one = elim (ℕ_discrete h l.handle) [
        | yes same ↦ (
          e',
          a.0.1,
          ground (arith, lookup-insert ℕ_discrete h l.handle e' entries),
          ground arith,
          a.0.4,
        )
        | no other ↦ (
          a.0.0,
          a.0.1,
          lookup-insert_ne ℕ_discrete h l.handle e' entries other ∙ a.0.2,
          a.0.3,
          a.0.4,
        )
      ]

  put-Placeholders :
      (hs : List ℕ)
      → (e.state ≡ loading → e.refs ≡ 0 → (e'.state ≡ loading) × (e'.refs ≡ 0))
      → Placeholders entries hs
      → Placeholders (insert ℕ_discrete h e' entries) hs
  put-Placeholders [] k a = tt
  put-Placeholders (x ∷ hs) k a = (one, put-Placeholders hs k a.1)
    where
      one : Placeholder (insert ℕ_discrete h e' entries) x
      one = elim (ℕ_discrete h x) [
        | yes same ↦
            let was : e ≡ a.0.0 = ground arith in
            let now = k (rw was a.0.2) (rw was a.0.3) in
            (e', ground (arith, lookup-insert ℕ_discrete h x e' entries), now.0, now.1)
        | no other ↦ (a.0.0, lookup-insert_ne ℕ_discrete h x e' entries other ∙ a.0.1, a.0.2, a.0.3)
      ]

  Serves-put :
      (k : Bytes) (j : ℕ)
      → e'.id ≡ e.id
      → ((e'.rec ≡ e.rec) × (e'.state ≡ e.state)) ⊎ (j ≢ h)
      → Serves entries k j
      → Serves (insert ℕ_discrete h e' entries) k j
  Serves-put k j id kept a = elim (ℕ_discrete h j) [
    | no other ↦ (a.0, lookup-insert_ne ℕ_discrete h j e' entries other ∙ a.1, a.2, a.3, a.4)
    | yes same ↦ elim kept [
      | inr other ↦ absurd (other (sym same))
      | inl (rec, state) ↦
          let was : e ≡ a.0 = ground arith in
          let state' : e'.state ≡ a.0.state = state ∙ ap (λ (y : Entry). y.state) was in
          (
            e',
            ground (arith, lookup-insert ℕ_discrete h j e' entries),
            id ∙ rw was a.2,
            ap is_draining state' ∙ a.3,
            λ on.
                let (x, held) = a.4 (ap is_ready (sym state') ∙ on) in
                (x, rec ∙ ap (λ (y : Entry). y.rec) was ∙ held),
          )
    ]
  ]

  pub put-Serves :
      (m : List (Bytes × ℕ))
      → e'.id ≡ e.id
      → ((e'.rec ≡ e.rec) × (e'.state ≡ e.state)) ⊎ Unserved h m
      → Entries (Serves entries) m
      → Entries (Serves (insert ℕ_discrete h e' entries)) m
  put-Serves [] id u a = tt
  put-Serves ((k, j) ∷ m) id (inl kept) a =
      (Serves-put k j id (inl kept) a.0, put-Serves m id (inl kept) a.1)
  put-Serves ((k, j) ∷ m) id (inr u) a =
      (Serves-put k j id (inr u.0) a.0, put-Serves m id (inr u.1) a.1)

-- The counts after a write, from those of the entry that is written and of the others.
pub counted-insert :
    (entries : Table) (h : ℕ) (e' : Entry) (ls' : List Lease)
    → e'.refs ≡ count h ls'
    → ((j : ℕ) (x : Entry) → h ≢ j → lookup ℕ_discrete j entries ≡ some x → x.refs ≡ count j ls')
    → (j : ℕ) (x : Entry) → lookup ℕ_discrete j (insert ℕ_discrete h e' entries) ≡ some x
    → x.refs ≡ count j ls'
counted-insert entries h e' ls' n others j x f = elim (ℕ_discrete h j) [
  | yes same ↦
      let now : e' ≡ x = ground (arith, lookup-insert ℕ_discrete h j e' entries) in
      ap (λ (y : Entry). y.refs) (sym now) ∙ n ∙ ap (λ i. count i ls') same
  | no other ↦ others j x other (sym (lookup-insert_ne ℕ_discrete h j e' entries other) ∙ f)
]

-- Such a change keeps the invariant.
pub put-Inv :
    (p : Pool) (ls : List Lease) (hs : List ℕ) (h : ℕ) (e e' : Entry)
    → lookup ℕ_discrete h p.entries ≡ some e
    → Keeps e e' p.current h
    → Inv p ls hs
    → Inv (put h e' p) ls hs
put-Inv p ls hs h e e' found c v =
    let n : e.refs ≡ count h ls = v.counted h e found in
    let below : h < p.next_handle = Entries-lookup ℕ_discrete _ h e p.entries v.fresh found in
    record {
      counted = counted-insert p.entries h e' ls (c.refs ∙ n) (λ j x _ f. v.counted j x f);
      alive = put-AllAlive p.entries h e e' found ls (rec_or_free n) v.alive;
      placeholders =
          put-Placeholders p.entries h e e' found hs (Keeps-loading e e' p.current h c)
            v.placeholders;
      serving = put-Serves p.entries h e e' found p.current c.id kept_or_unserved v.serving;
      fresh = Entries-insert ℕ_discrete _ h e' p.entries below v.fresh;
    }
  where
    rec_or_free : e.refs ≡ count h ls → (e'.rec ≡ e.rec) ⊎ (count h ls ≡ 0)
    rec_or_free n = elim c.rec [ inl same ↦ inl same | inr (free, _) ↦ inr (sym n ∙ free) ]

    kept_or_unserved : ((e'.rec ≡ e.rec) × (e'.state ≡ e.state)) ⊎ Unserved h p.current
    kept_or_unserved = elim c.rec [
      | inr (_, gone) ↦ inr gone
      | inl rec ↦ elim c.state [ inl state ↦ inl (rec, state) | inr (_, gone) ↦ inr gone ]
    ]
