-- ===== src/Dict.antt =====
-- Python's `dict` with text keys, as the list of its items in insertion order.
pub mod Laws
use yomitan_audio_fast.Prelude.{List, [], ◌∷◌, Option, none, some, if◌then◌else◌}
use yomitan_audio_fast.Prelude.Text.{Text, text_eq}

abbrev pub Dict {ℓ} : Type ℓ → Type ℓ
Dict V = List (Text × V)

module _ {ℓ} {V : Type ℓ} where
  -- d.get(k)
  unfoldable pub get : Text → Dict V → Option V
  get k [] = none
  get k ((j, v) ∷ d) = if text_eq j k then some v else get k d

  -- d.get(k, default)
  abbrev pub get_or : Text → V → Dict V → V
  get_or k default d = elim (get k d) [ none ↦ default | some v ↦ v ]

  -- d[k] = v
  unfoldable pub set : Text → V → Dict V → Dict V
  set k v [] = (k, v) ∷ []
  set k v ((j, w) ∷ d) = if text_eq j k then (j, v) ∷ d else (j, w) ∷ set k v d

  -- d.setdefault(k, v)
  unfoldable pub setdefault : Text → V → Dict V → Dict V
  setdefault k v [] = (k, v) ∷ []
  setdefault k v ((j, w) ∷ d) = if text_eq j k then (j, w) ∷ d else (j, w) ∷ setdefault k v d

  unfoldable pub keys : Dict V → List Text
  keys [] = []
  keys ((k, v) ∷ d) = k ∷ keys d

  -- d.pop(k, None); no key occurs twice in a dictionary
  unfoldable pub pop : Text → Dict V → Dict V
  pop k [] = []
  pop k ((j, w) ∷ d) = let rest = pop k d in if text_eq j k then rest else (j, w) ∷ rest
