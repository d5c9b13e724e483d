-- ===== src/Cache.antt =====
-- `LruCache` of anki-addon/fast_store.py: a bounded dictionary that forgets the entry used longest
-- ago. An `OrderedDict` is a list of entries, the oldest first. The lock makes each method one step.
pub mod Entries
pub mod Valid
pub mod Reads
use yomitan_audio_fast.Prelude.{
  ℕ, List, [], ◌∷◌, ◌++◌, Option, none, some, ltb, ◌==◌, if◌then◌else◌, length, ite,
}
use yomitan_audio_fast.Prelude.Int.{ℤ, pos_part}

pub record LruCache {ℓ} (K V : Type ℓ) : Type ℓ where
  pub capacity : ℕ
  pub values : List (K × V)

-- max(0, capacity), and no entries
unfoldable pub init {ℓ} : {K V : Type ℓ} → ℤ → LruCache K V
init capacity = record { capacity = pos_part capacity; values = [] }

module _ {ℓ} {A : Type ℓ} where
  -- `popitem(last=False)`
  abbrev pub drop_oldest : List A → List A
  drop_oldest [] = []
  drop_oldest (e ∷ l) = l

  abbrev pub trim : ℕ → List A → List A
  trim capacity l = if ltb capacity (length l) then drop_oldest l else l

module _ {ℓ} {K V : Type ℓ} (dec : Discrete K) where
  unfoldable pub lookup : K → List (K × V) → Option V
  lookup k [] = none
  lookup k ((j, v) ∷ l) = ite (dec j k) (some v) (lookup k l)

  -- `values.pop(key, None)`; keys occur once
  unfoldable pub remove : K → List (K × V) → List (K × V)
  remove k [] = []
  remove k ((j, v) ∷ l) = ite (dec j k) l ((j, v) ∷ remove k l)

  -- A hit becomes the most recent entry.
  abbrev pub hit : LruCache K V → K → V → LruCache K V
  hit c k v = record c { values = remove k c.values ++ (k, v) ∷ [] }

  unfoldable pub get : LruCache K V → K → Option V × LruCache K V
  unfolding lookup remove
  get c k =
      if c.capacity == 0
      then (none, c)
      else elim (lookup k c.values) [ none ↦ (none, c) | some v ↦ (some v, hit c k v) ]

  unfoldable pub put : LruCache K V → K → V → LruCache K V
  unfolding remove
  put c k v =
      if c.capacity == 0
      then c
      else record c { values = trim c.capacity (remove k c.values ++ (k, v) ∷ []) }

-- `clear()`
abbrev pub clear {ℓ} : {K V : Type ℓ} → LruCache K V → LruCache K V
clear c = record c { values = [] }
