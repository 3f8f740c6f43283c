-- ===== src/Pool/Shutdown.antt =====
-- internal/pool/pool.go, Close: what is closed when it ends.
use nano_asr.Prelude.{
  ◌⊎◌, ℕ, ◌≡◌, refl, ap, ◌∙◌, false, List, [], ◌∷◌, none, some, arith, lookup, lookup-insert,
  ℕ_discrete, ◌==◌, Option-cases, Bool-cases, inl, inr,
}
use nano_asr.Pool.State.{Pool, Entry, close_entry}
use nano_asr.Pool.Manage.{close_one, close_idle, finish_close, handles, leases_outstanding}
use nano_asr.Pool.Idle.{
  IsClosed, Each, Each-mono, outstanding-Idle, close_one-cases, close_idle-keeps,
  close_idle-IsClosed,
}

abbrev pub IsOneOf : ℕ → List ℕ → Type 0
IsOneOf r [] = ⊥
IsOneOf r (x ∷ xs) = (x ≡ r) ⊎ IsOneOf r xs

-- A recogniser that an entry of `p` has is among those that `q` has closed, and the entry has none
-- in `q`.
abbrev pub IsShut : Pool → Pool → ℕ → Type 0
IsShut p q h =
    IsClosed q.entries h
    × ((e : Entry) (r : ℕ)
        → lookup ℕ_discrete h p.entries ≡ some e
        → e.rec ≡ some r
        → IsOneOf r q.closed_recs)

-- A recogniser is closed, or its entry still has it: none is lost.
Kept : ℕ → ℕ → Pool → Type 0
Kept h r q =
    IsOneOf r q.closed_recs
    ⊎ ((e : Entry) × (lookup ℕ_discrete h q.entries ≡ some e) × (e.rec ≡ some r))

close_entry-Kept :
    (p : Pool) (j h r : ℕ) (e : Entry)
    → lookup ℕ_discrete j p.entries ≡ some e
    → Kept h r p
    → Kept h r (close_entry j e p)
unfolding close_entry Kept
close_entry-Kept p j h r e found k = elim (Option-cases e.rec) [
  | inl none_there ↦ rw (none_there, close_entry) k
  | inr (x, has) ↦
      rw (has, close_entry)
        (elim k [
          | inl gone ↦ inl (inr gone)
          | inr (f, there, is) ↦ elim (Bool-cases (j == h)) [
            | inl same ↦ inl (inl (one f there is (ground arith) has))
            | inr other ↦ inr (
              f,
              ground (arith, lookup-insert ℕ_discrete j h (record e { rec = none }) p.entries),
              is,
            )
          ]
        ])
]
  where
    one :
        {x : ℕ} (f : Entry)
        → lookup ℕ_discrete h p.entries ≡ some f
        → f.rec ≡ some r
        → j ≡ h
        → e.rec ≡ some x
        → x ≡ r
    one f there is same has =
        let it : f ≡ e = ground (arith, ap (λ k. lookup ℕ_discrete k p.entries) same) in
        ground arith

close_idle-Kept : (hs : List ℕ) (p : Pool) (h r : ℕ) → Kept h r p → Kept h r (close_idle hs p)
unfolding close_idle
close_idle-Kept [] p h r k = k
close_idle-Kept (j ∷ hs) p h r k =
    close_idle-Kept hs (close_one j p) h r (elim (close_one-cases j p) [
      | inl (unchanged, _) ↦ rw unchanged k
      | inr (e, found, closed) ↦ rw closed (close_entry-Kept p j h r e found k)
    ])

close_one-lists :
    (h : ℕ) (p : Pool)
    → ((close_one h p).current ≡ p.current) × ((close_one h p).draining_list ≡ p.draining_list)
unfolding close_one close_entry
close_one-lists h p = ground arith

close_idle-lists :
    (hs : List ℕ) (p : Pool)
    → ((close_idle hs p).current ≡ p.current) × ((close_idle hs p).draining_list ≡ p.draining_list)
unfolding close_idle
close_idle-lists [] p = (refl, refl)
close_idle-lists (h ∷ hs) p =
    let rest = close_idle-lists hs (close_one h p) in
    let first = close_one-lists h p in (rest.0 ∙ first.0, rest.1 ∙ first.1)

Kept-IsOneOf : (h r : ℕ) (q : Pool) → IsClosed q.entries h → Kept h r q → IsOneOf r q.closed_recs
unfolding Kept
Kept-IsOneOf h r q shut (inl gone) = gone
Kept-IsOneOf h r q shut (inr (e, there, is)) = absurd (ground (arith, shut e there))

finish_close-Kept :
    (p : Pool) (h r : ℕ) (e : Entry)
    → lookup ℕ_discrete h p.entries ≡ some e
    → e.rec ≡ some r
    → Kept h r (finish_close p)
unfolding finish_close Kept
finish_close-Kept p h r e there is =
    let q : Pool = record p { current = []; draining_list = [] } in
    close_idle-Kept p.draining_list _ h r
      (close_idle-Kept (handles p.current) q h r (inr (e, there, is)))

IsClosed-IsShut :
    (p : Pool) (h : ℕ) → IsClosed (finish_close p).entries h → IsShut p (finish_close p) h
IsClosed-IsShut p h shut = (
  shut,
  λ e r there is. Kept-IsOneOf h r (finish_close p) shut (finish_close-Kept p h r e there is),
)

finish_close-entries :
    (p : Pool)
    → leases_outstanding p ≡ false
    → Each (IsClosed (finish_close p).entries) (handles p.current)
      × Each (IsClosed (finish_close p).entries) p.draining_list
unfolding finish_close leases_outstanding
finish_close-entries p nobody =
    let q : Pool = record p { current = []; draining_list = [] } in
    let serving = outstanding-Idle p.entries (handles p.current) (ground arith) in
    let waiting = outstanding-Idle p.entries p.draining_list (ground arith) in
    let first = close_idle (handles p.current) q in
    (
      Each-mono _ _ (handles p.current) (λ j. (close_idle-keeps p.draining_list first j).1)
          (close_idle-IsClosed (handles p.current) q serving),
      close_idle-IsClosed p.draining_list first (
          Each-mono _ _ p.draining_list (λ j. (close_idle-keeps (handles p.current) q j).0)
            waiting),
    )

-- If no lease is outstanding when the wait of Close ends, then after Close the pool serves nothing
-- and drains nothing, and for every entry that it served or drained the entry has no recogniser any
-- more and the recogniser that it had is among the closed ones.
pub finish_close-IsShut :
    (p : Pool)
    → leases_outstanding p ≡ false
    → ((finish_close p).current ≡ [])
      × ((finish_close p).draining_list ≡ [])
      × Each (IsShut p (finish_close p)) (handles p.current)
      × Each (IsShut p (finish_close p)) p.draining_list
finish_close-IsShut p nobody =
    let q : Pool = record p { current = []; draining_list = [] } in
    let first = close_idle-lists (handles p.current) q in
    let last = close_idle-lists p.draining_list (close_idle (handles p.current) q) in
    let each = finish_close-entries p nobody in
    (
      (unfold finish_close in last.0 ∙ first.0),
      (unfold finish_close in last.1 ∙ first.1),
      Each-mono _ _ (handles p.current) (IsClosed-IsShut p) each.0,
      Each-mono _ _ p.draining_list (IsClosed-IsShut p) each.1,
    )
