-- ===== src/Mora.antt =====
-- `split_into_mora` of anki-addon/jp_util.py: a reading is cut into morae, at the first of the digraphs that
-- begins it, in the order of their list, or else at a character.
pub mod Whole
use yomitan_audio_fast.Prelude.{
  ℕ, zero, suc, List, [], ◌∷◌, Option, none, some, Bool, true, false, ◌==◌, ◌&&◌, length, drop,
  if◌then◌else◌,
}
use yomitan_audio_fast.Prelude.Text.{Text}

-- `DIGRAPHS`, by the code points of their characters
abbrev pub digraphs : List Text
digraphs =
    (0x308a ∷ 0x3083 ∷ [])
    ∷ (0x307f ∷ 0x3083 ∷ [])
    ∷ (0x3072 ∷ 0x3083 ∷ [])
    ∷ (0x306b ∷ 0x3083 ∷ [])
    ∷ (0x3061 ∷ 0x3083 ∷ [])
    ∷ (0x3057 ∷ 0x3083 ∷ [])
    ∷ (0x304d ∷ 0x3083 ∷ [])
    ∷ (0x308a ∷ 0x3085 ∷ [])
    ∷ (0x307f ∷ 0x3085 ∷ [])
    ∷ (0x3072 ∷ 0x3085 ∷ [])
    ∷ (0x306b ∷ 0x3085 ∷ [])
    ∷ (0x3061 ∷ 0x3085 ∷ [])
    ∷ (0x3057 ∷ 0x3085 ∷ [])
    ∷ (0x304d ∷ 0x3085 ∷ [])
    ∷ (0x308a ∷ 0x3087 ∷ [])
    ∷ (0x307f ∷ 0x3087 ∷ [])
    ∷ (0x3072 ∷ 0x3087 ∷ [])
    ∷ (0x306b ∷ 0x3087 ∷ [])
    ∷ (0x3061 ∷ 0x3087 ∷ [])
    ∷ (0x3057 ∷ 0x3087 ∷ [])
    ∷ (0x304d ∷ 0x3087 ∷ [])
    ∷ (0x304e ∷ 0x3083 ∷ [])
    ∷ (0x3058 ∷ 0x3083 ∷ [])
    ∷ (0x3073 ∷ 0x3083 ∷ [])
    ∷ (0x3074 ∷ 0x3083 ∷ [])
    ∷ (0x304d ∷ 0x309a ∷ 0x3083 ∷ [])
    ∷ (0x304e ∷ 0x3085 ∷ [])
    ∷ (0x3058 ∷ 0x3085 ∷ [])
    ∷ (0x3073 ∷ 0x3085 ∷ [])
    ∷ (0x3074 ∷ 0x3085 ∷ [])
    ∷ (0x304d ∷ 0x309a ∷ 0x3085 ∷ [])
    ∷ (0x304e ∷ 0x3087 ∷ [])
    ∷ (0x3058 ∷ 0x3087 ∷ [])
    ∷ (0x3073 ∷ 0x3087 ∷ [])
    ∷ (0x3074 ∷ 0x3087 ∷ [])
    ∷ (0x304d ∷ 0x309a ∷ 0x3087 ∷ [])
    ∷ (0x30f4 ∷ 0x3041 ∷ [])
    ∷ (0x3075 ∷ 0x3041 ∷ [])
    ∷ (0x3094 ∷ 0x3043 ∷ [])
    ∷ (0x3046 ∷ 0x3043 ∷ [])
    ∷ (0x3075 ∷ 0x3043 ∷ [])
    ∷ (0x3067 ∷ 0x3043 ∷ [])
    ∷ (0x3066 ∷ 0x3043 ∷ [])
    ∷ (0x3069 ∷ 0x3045 ∷ [])
    ∷ (0x3068 ∷ 0x3045 ∷ [])
    ∷ (0x3094 ∷ 0x3047 ∷ [])
    ∷ (0x3046 ∷ 0x3047 ∷ [])
    ∷ (0x3075 ∷ 0x3047 ∷ [])
    ∷ (0x3061 ∷ 0x3047 ∷ [])
    ∷ (0x3058 ∷ 0x3047 ∷ [])
    ∷ (0x3057 ∷ 0x3047 ∷ [])
    ∷ (0x3094 ∷ 0x3049 ∷ [])
    ∷ (0x3046 ∷ 0x3049 ∷ [])
    ∷ (0x3075 ∷ 0x3049 ∷ [])
    ∷ (0x30ea ∷ 0x30e3 ∷ [])
    ∷ (0x30df ∷ 0x30e3 ∷ [])
    ∷ (0x30d2 ∷ 0x30e3 ∷ [])
    ∷ (0x30cb ∷ 0x30e3 ∷ [])
    ∷ (0x30c1 ∷ 0x30e3 ∷ [])
    ∷ (0x30b7 ∷ 0x30e3 ∷ [])
    ∷ (0x30ad ∷ 0x30e3 ∷ [])
    ∷ (0x30ea ∷ 0x30e5 ∷ [])
    ∷ (0x30df ∷ 0x30e5 ∷ [])
    ∷ (0x30d2 ∷ 0x30e5 ∷ [])
    ∷ (0x30cb ∷ 0x30e5 ∷ [])
    ∷ (0x30c1 ∷ 0x30e5 ∷ [])
    ∷ (0x30b7 ∷ 0x30e5 ∷ [])
    ∷ (0x30ad ∷ 0x30e5 ∷ [])
    ∷ (0x30ea ∷ 0x30e7 ∷ [])
    ∷ (0x30df ∷ 0x30e7 ∷ [])
    ∷ (0x30d2 ∷ 0x30e7 ∷ [])
    ∷ (0x30cb ∷ 0x30e7 ∷ [])
    ∷ (0x30c1 ∷ 0x30e7 ∷ [])
    ∷ (0x30b7 ∷ 0x30e7 ∷ [])
    ∷ (0x30ad ∷ 0x30e7 ∷ [])
    ∷ (0x30ae ∷ 0x30e3 ∷ [])
    ∷ (0x30b8 ∷ 0x30e3 ∷ [])
    ∷ (0x30d3 ∷ 0x30e3 ∷ [])
    ∷ (0x30d4 ∷ 0x30e3 ∷ [])
    ∷ (0x30ad ∷ 0x309a ∷ 0x30e3 ∷ [])
    ∷ (0x30ae ∷ 0x30e5 ∷ [])
    ∷ (0x30b8 ∷ 0x30e5 ∷ [])
    ∷ (0x30d3 ∷ 0x30e5 ∷ [])
    ∷ (0x30d4 ∷ 0x30e5 ∷ [])
    ∷ (0x30ad ∷ 0x309a ∷ 0x30e5 ∷ [])
    ∷ (0x30ae ∷ 0x30e7 ∷ [])
    ∷ (0x30b8 ∷ 0x30e7 ∷ [])
    ∷ (0x30d3 ∷ 0x30e7 ∷ [])
    ∷ (0x30d4 ∷ 0x30e7 ∷ [])
    ∷ (0x30ad ∷ 0x309a ∷ 0x30e7 ∷ [])
    ∷ (0x30f4 ∷ 0x30a1 ∷ [])
    ∷ (0x30d5 ∷ 0x30a1 ∷ [])
    ∷ (0x30f4 ∷ 0x30a3 ∷ [])
    ∷ (0x30a6 ∷ 0x30a3 ∷ [])
    ∷ (0x30d5 ∷ 0x30a3 ∷ [])
    ∷ (0x30c7 ∷ 0x30a3 ∷ [])
    ∷ (0x30c6 ∷ 0x30a3 ∷ [])
    ∷ (0x30c9 ∷ 0x30a5 ∷ [])
    ∷ (0x30c8 ∷ 0x30a5 ∷ [])
    ∷ (0x30f4 ∷ 0x30a7 ∷ [])
    ∷ (0x30a6 ∷ 0x30a7 ∷ [])
    ∷ (0x30d5 ∷ 0x30a7 ∷ [])
    ∷ (0x30c1 ∷ 0x30a7 ∷ [])
    ∷ (0x30b8 ∷ 0x30a7 ∷ [])
    ∷ (0x30b7 ∷ 0x30a7 ∷ [])
    ∷ (0x30f4 ∷ 0x30a9 ∷ [])
    ∷ (0x30a6 ∷ 0x30a9 ∷ [])
    ∷ (0x30d5 ∷ 0x30a9 ∷ [])
    ∷ (0x304b ∷ 0x309a ∷ [])
    ∷ (0x304d ∷ 0x309a ∷ [])
    ∷ (0x304f ∷ 0x309a ∷ [])
    ∷ (0x3051 ∷ 0x309a ∷ [])
    ∷ (0x3053 ∷ 0x309a ∷ [])
    ∷ (0x30ab ∷ 0x309a ∷ [])
    ∷ (0x30ad ∷ 0x309a ∷ [])
    ∷ (0x30af ∷ 0x309a ∷ [])
    ∷ (0x30b1 ∷ 0x309a ∷ [])
    ∷ (0x30b3 ∷ 0x309a ∷ [])
    ∷ []

-- pronunciation.find(d) == 0
unfoldable pub starts_with : Text → Text → Bool
starts_with [] text = true
starts_with (d ∷ ds) [] = false
starts_with (d ∷ ds) (c ∷ cs) = d == c && starts_with ds cs

-- the loop over the digraphs
unfoldable pub find_digraph : List Text → Text → Option Text
find_digraph [] text = none
find_digraph (d ∷ ds) text =
    let rest = find_digraph ds text in if starts_with d text then some d else rest

-- the mora at the start of a text that is not empty
abbrev pub digraph_or : ℕ → Option Text → Text
digraph_or c none = c ∷ []
digraph_or c (some d) = d

abbrev pub next_mora : ℕ → Text → Text
next_mora c cs = digraph_or c (find_digraph digraphs (c ∷ cs))

abbrev prepend : Text → Option (List Text) → Option (List Text)
prepend mora none = none
prepend mora (some morae) = some (mora ∷ morae)

-- the loop, on fuel; `none` stands for a loop that goes on
unfoldable pub split_fuel : ℕ → Text → Option (List Text)
split_fuel fuel [] = some []
split_fuel zero (c ∷ cs) = none
split_fuel (suc fuel) (c ∷ cs) =
    prepend (next_mora c cs) (split_fuel fuel (drop (length (next_mora c cs)) (c ∷ cs)))

-- Each turn takes a character at least.
unfoldable pub split_into_mora : Text → Option (List Text)
split_into_mora pronunciation = split_fuel (length pronunciation) pronunciation
