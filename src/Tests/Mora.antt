-- ===== src/Tests/Mora.antt =====
-- A reading of a digraph and a plain kana.
use yomitan_audio_fast.Prelude.{◌≡◌, refl, [], ◌∷◌, some}
use yomitan_audio_fast.Prelude.Text.{Text}
use yomitan_audio_fast.Mora.{split_into_mora, split_fuel, find_digraph, starts_with}
use yomitan_audio_fast.Mora.Whole.{IsSplit, split_into_mora-IsSplit}

-- the kana ki, small ya and ku
abbrev reading : Text
reading = 0x304d ∷ 0x3083 ∷ 0x304f ∷ []

split-reading : split_into_mora reading ≡ some ((0x304d ∷ 0x3083 ∷ []) ∷ (0x304f ∷ []) ∷ [])
unfolding split_into_mora split_fuel find_digraph starts_with
split-reading = refl

split_into_mora-IsSplit_example : IsSplit reading (split_into_mora reading)
split_into_mora-IsSplit_example = split_into_mora-IsSplit reading
