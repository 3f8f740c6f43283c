-- ===== src/Pool/State.antt =====
-- internal/pool/pool.go: the state of the pool, and the choice and the eviction of victims.
use nano_asr.Prelude.{
  ℕ, zero, suc, ◌+◌, ◌||◌, Bool, true, false, List, [], ◌∷◌, ◌++◌, Option, none, some, ltb, lookup,
  insert, delete, if◌then◌else◌, ite, length, ℕ_discrete,
}
use nano_asr.Core.{Bytes, bytes_discrete, Code}

pub data ModelState : Type 0 where
  absent downloading downloaded loading ready draining : ModelState

abbrev pub is_ready : ModelState → Bool
is_ready ready = true
is_ready _ = false

abbrev pub is_draining : ModelState → Bool
is_draining draining = true
is_draining _ = false

pub record Entry : Type 0 where
  pub id : Bytes
  pub base_id : Bytes
  pub state : ModelState
  pub refs : ℕ
  pub pinned : Bool
  pub rss_mb : ℕ
  pub last_used : ℕ
  pub rec : Option ℕ
  -- Whether `ready` is closed, and `loadErr`.
  pub loaded : Bool
  pub load_err : Option Code

pub record Options : Type 0 where
  pub max_resident_models : ℕ
  pub max_model_rss_mb : ℕ
  pub idle_ttl : ℕ
  pub max_variants : ℕ

pub record Pool : Type 0 where
  pub current : List (Bytes × ℕ)
  pub draining_list : List ℕ
  pub entries : List (ℕ × Entry)
  pub next_handle : ℕ
  pub closed_recs : List ℕ
  pub closed : Bool
  pub opt : Options

-- New, with its defaults.
unfoldable pub new : Options → Pool
new opt = record {
  current = [];
  draining_list = [];
  entries = [];
  next_handle = 0;
  closed_recs = [];
  closed = false;
  opt = record opt {
    max_resident_models = if ltb opt.max_resident_models 1 then 1 else opt.max_resident_models;
    max_model_rss_mb = if ltb opt.max_model_rss_mb 1 then 1024 else opt.max_model_rss_mb;
  };
}

-- variantKey; the zero variant has no key of its own.
unfoldable pub variant_key : Bytes → Option Bytes → Bytes
variant_key id none = id
variant_key id (some v) = id ++ b'!' ∷ v

-- A write through the pointer of an entry.
abbrev pub put : ℕ → Entry → Pool → Pool
put h e p = record p { entries = insert ℕ_discrete h e p.entries }

-- delete(p.current, key)
abbrev pub drop_key : Bytes → Pool → Pool
drop_key k p = record p { current = delete bytes_discrete k p.current }

-- closeLocked
unfoldable pub close_entry : ℕ → Entry → Pool → Pool
close_entry h e p = elim e.rec [
  | none ↦ p
  | some r ↦ record (put h (record e { rec = none }) p) { closed_recs = r ∷ p.closed_recs }
]

unfoldable pub total_rss : List (ℕ × Entry) → List (Bytes × ℕ) → ℕ
total_rss entries [] = 0
total_rss entries ((k, h) ∷ m) = elim (lookup ℕ_discrete h entries) [
  | none ↦ total_rss entries m
  | some e ↦ e.rss_mb + total_rss entries m
]

-- overLimitLocked
unfoldable pub over_limit : Pool → Bool
over_limit p =
    ltb p.opt.max_resident_models (length p.current)
    || ltb p.opt.max_model_rss_mb (total_rss p.entries p.current)

abbrev pub is_variant : Entry → Bool
is_variant e = ite (bytes_discrete e.id e.base_id) false true

-- The order of lruVictimLocked: a variant before a base instance, then the older use.
unfoldable pub goes_before : Entry → Entry → Bool
goes_before a b =
    if is_variant a
    then if is_variant b then ltb a.last_used b.last_used else true
    else if is_variant b
    then false
    else ltb a.last_used b.last_used

-- Whether an entry may be evicted or swept.
abbrev pub is_idle : Entry → Bool
is_idle e = if e.pinned then false else if ltb 0 e.refs then false else is_ready e.state

abbrev pub better : Option (ℕ × Entry) → ℕ × Entry → Option (ℕ × Entry)
better none c = some c
better (some b) (h, e) = if goes_before e b.1 then some (h, e) else some b

-- lruVictimLocked over what is left of the map, with the best candidate so far.
unfoldable pub lru_from :
    List (ℕ × Entry) → List (Bytes × ℕ) → Option (ℕ × Entry) → Option (ℕ × Entry)
lru_from entries [] best = best
lru_from entries ((k, h) ∷ m) best = elim (lookup ℕ_discrete h entries) [
  | none ↦ lru_from entries m best
  | some e ↦ lru_from entries m (if is_idle e then better best (h, e) else best)
]

unfoldable pub lru_victim : Pool → Option (ℕ × Entry)
lru_victim p = lru_from p.entries p.current none

-- evictLocked; each round takes an entry out of the map, so its size is fuel enough.
unfoldable pub evict_loop : ℕ → Pool → Pool
evict_loop zero p = p
evict_loop (suc n) p = elim (over_limit p) [
  | false ↦ p
  | true ↦ elim (lru_victim p) [
    | none ↦ p
    | some (h, e) ↦ evict_loop n (close_entry h e (drop_key e.id p))
  ]
]

unfoldable pub evict : Pool → Pool
evict p = evict_loop (length p.current + 1) p
