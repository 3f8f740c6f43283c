-- ===== src/Prelude/Maps.antt =====
-- Maps as association lists over keys with decidable equality. A key stands at most once where
-- every insertion is of a new key or replaces the old entry, as in a Go map.
use mathlib.Core.Path.{◌≡◌, refl, sym, subst₂}
use mathlib.Core.Logic.{◌≢◌, ite, if_pos, if_neg}
use mathlib.Core.List.{List, [], ◌∷◌}
use mathlib.Core.Option.{Option, none, some}
use native.Mathlib.Omega.{arith}

module _ {ℓ} {K V : Type ℓ} (d : Discrete K) where
  unfoldable pub lookup : K → List (K × V) → Option V
  lookup k [] = none
  lookup k ((j, v) ∷ m) = ite (d j k) (some v) (lookup k m)

  -- m[k] = v
  unfoldable pub insert : K → V → List (K × V) → List (K × V)
  insert k v [] = (k, v) ∷ []
  insert k v ((j, w) ∷ m) = ite (d j k) ((k, v) ∷ m) ((j, w) ∷ insert k v m)

  -- delete(m, k)
  unfoldable pub delete : K → List (K × V) → List (K × V)
  delete k [] = []
  delete k ((j, w) ∷ m) = let rest = delete k m in ite (d j k) rest ((j, w) ∷ rest)

  pub lookup-insert :
      (k j : K) (v : V) (m : List (K × V))
      → lookup j (insert k v m) ≡ ite (d k j) (some v) (lookup j m)
  unfolding lookup insert
  lookup-insert k j v [] = refl
  lookup-insert k j v ((i, w) ∷ m) = ground (arith, lookup-insert k j v m)

  pub lookup-insert_self : (k : K) (v : V) (m : List (K × V)) → lookup k (insert k v m) ≡ some v
  lookup-insert_self k v m = rw (lookup-insert k k v m) (if_pos (d k k) refl _ _)

  pub lookup-insert_ne :
      (k j : K) (v : V) (m : List (K × V)) → k ≢ j → lookup j (insert k v m) ≡ lookup j m
  lookup-insert_ne k j v m h = rw (lookup-insert k j v m) (if_neg (d k j) h _ _)

  pub lookup-delete :
      (k j : K) (m : List (K × V)) → lookup j (delete k m) ≡ ite (d k j) none (lookup j m)
  unfolding lookup delete
  lookup-delete k j [] = ground arith
  lookup-delete k j ((i, w) ∷ m) = ground (arith, lookup-delete k j m)

  pub delete_absent : (k : K) (m : List (K × V)) → lookup k m ≡ none → delete k m ≡ m
  unfolding lookup delete
  delete_absent k [] h = refl
  delete_absent k ((i, w) ∷ m) h = ground (arith, delete_absent k m)

  pub delete-insert_absent :
      (k : K) (v : V) (m : List (K × V)) → lookup k m ≡ none → delete k (insert k v m) ≡ m
  unfolding lookup insert delete
  delete-insert_absent k v [] h = ground arith
  delete-insert_absent k v ((i, w) ∷ m) h = ground (arith, delete-insert_absent k v m)

module _ {ℓ κ} {K V : Type ℓ} where
  -- A statement about every entry.
  abbrev pub Entries : (K → V → Type κ) → List (K × V) → Type κ
  Entries P [] = Unit
  Entries P ((k, v) ∷ m) = P k v × Entries P m

  pub Entries-mono :
      {P Q : K → V → Type κ} (m : List (K × V))
      → ((k : K) (v : V) → P k v → Q k v)
      → Entries P m
      → Entries Q m
  Entries-mono [] f a = tt
  Entries-mono ((k, v) ∷ m) f a = (f k v a.0, Entries-mono m f a.1)

  module _ (d : Discrete K) (P : K → V → Type κ) where
    pub Entries-lookup :
        (k : K) (v : V) (m : List (K × V)) → Entries P m → lookup d k m ≡ some v → P k v
    unfolding lookup
    Entries-lookup k v [] a h = absurd (cc)
    Entries-lookup k v ((j, w) ∷ m) a h = elim (d j k) [
      | yes e ↦ let same : w ≡ v = ground arith in subst₂ P e same a.0
      | no e ↦ Entries-lookup k v m a.1 (rw (if_neg _ e) at h)
    ]

    pub Entries-insert :
        (k : K) (v : V) (m : List (K × V)) → P k v → Entries P m → Entries P (insert d k v m)
    unfolding insert
    Entries-insert k v [] p a = (p, tt)
    Entries-insert k v ((j, w) ∷ m) p a = elim (d j k) [
      | yes e ↦ rw (if_pos _ e) (p, a.1)
      | no e ↦ rw (if_neg _ e) (a.0, Entries-insert k v m p a.1)
    ]

    pub Entries-delete : (k : K) (m : List (K × V)) → Entries P m → Entries P (delete d k m)
    unfolding delete
    Entries-delete k [] a = tt
    Entries-delete k ((j, w) ∷ m) a = elim (d j k) [
      | yes e ↦ rw (if_pos _ e) (Entries-delete k m a.1)
      | no e ↦ rw (if_neg _ e) (a.0, Entries-delete k m a.1)
    ]

module _ {ℓ κ} {K V : Type ℓ} (d : Discrete K) (P : K → V → Type κ) where
  -- What is left after a deletion stands under other keys.
  pub Entries-delete_ne :
      (k : K) (m : List (K × V)) → Entries P m → Entries (λ j v. (k ≢ j) × P j v) (delete d k m)
  unfolding delete
  Entries-delete_ne k [] a = tt
  Entries-delete_ne k ((j, w) ∷ m) a = elim (d j k) [
    | yes e ↦ rw (if_pos _ e) (Entries-delete_ne k m a.1)
    | no e ↦ rw (if_neg _ e) (((λ p. e (sym p)), a.0), Entries-delete_ne k m a.1)
  ]
