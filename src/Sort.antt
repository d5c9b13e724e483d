-- ===== src/Sort.antt =====
-- `list.sort(key=...)`: stable, by a key with an order; and the scan for a least element that keeps
-- the first of equals. Both serve the row selection of anki-addon/fast_store.py.
pub mod Head
pub mod Ordered
pub mod Unique
pub mod Split
use yomitan_audio_fast.Prelude.{Bool, Option, none, some, List, [], ◌∷◌, if◌then◌else◌}
use yomitan_audio_fast.Prelude.Order.{Ord, is_lt}

module _ {ℓ κ} {A : Type ℓ} {K : Type κ} ⦃o : Ord K⦄ (key : A → K) where
  abbrev pub before : A → A → Bool
  before a b = is_lt (o.cmp (key a) (key b))

  -- An element goes before the first one that is not less, so equals keep their order.
  unfoldable pub insert : A → List A → List A
  insert x [] = x ∷ []
  insert x (y ∷ ys) = if before y x then y ∷ insert x ys else x ∷ y ∷ ys

  unfoldable pub sort_by : List A → List A
  unfolding insert
  sort_by [] = []
  sort_by (x ∷ xs) = insert x (sort_by xs)

  -- Replace the best so far by a strictly smaller one only.
  unfoldable pub better : A → A → A
  better best x = if before x best then x else best

  unfoldable pub scan : A → List A → A
  unfolding better
  scan best [] = best
  scan best (x ∷ xs) = scan (better best x) xs
