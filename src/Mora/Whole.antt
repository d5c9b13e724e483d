-- ===== src/Mora/Whole.antt =====
-- The loop ends, and loses nothing.
use mathlib.Core.Option
use mathlib.Core.Path.{ap₂}
use yomitan_audio_fast.Prelude.{
  ℕ, zero, suc, ◌<◌, ◌≤◌, ◌≡◌, ◌∙◌, refl, ap, List, [], ◌∷◌, ◌++◌, Option, none, some, true, false,
  ◌==◌, length, drop, length-drop, All, any, arith, Bool-cases, inl, inr,
}
use yomitan_audio_fast.Prelude.Text.{Text}
use yomitan_audio_fast.Mora.{
  digraphs, starts_with, find_digraph, digraph_or, next_mora, split_fuel, split_into_mora,
}

-- the morae one after the other
abbrev pub joined : List Text → Text
joined [] = []
joined (mora ∷ morae) = mora ++ joined morae

-- The loop returned morae that are not empty and make up the text.
abbrev pub IsSplit : Text → Option (List Text) → Type 0
IsSplit text result =
    (morae : List Text) × (result ≡ some morae)
    × (joined morae ≡ text)
    × All (λ mora. 0 < length mora) morae

starts_with-drop : (d text : Text) → starts_with d text ≡ true → d ++ drop (length d) text ≡ text
unfolding starts_with
starts_with-drop [] text e = refl
starts_with-drop (d ∷ ds) [] e = ground arith
starts_with-drop (d ∷ ds) (c ∷ cs) e =
    ap₂ (λ x xs. x ∷ xs) (ground arith) (starts_with-drop ds cs (ground arith))

find_digraph_sound :
    (ds : List Text) (text : Text) (d : Text)
    → All (λ x. 0 < length x) ds
    → find_digraph ds text ≡ some d
    → (starts_with d text ≡ true) × (0 < length d)
unfolding find_digraph
find_digraph_sound [] text d h e = ground arith
find_digraph_sound (x ∷ ds) text d h e = elim (Bool-cases (starts_with x text)) [
  | inl f ↦ let same = Option.some-injective x d (rw f at e) in rw (← same) (f, h.0)
  | inr f ↦ find_digraph_sound ds text d h.1 (rw f at e)
]

All_of_any : (ds : List Text) → any (λ x. length x == 0) ds ≡ false → All (λ x. 0 < length x) ds
unfolding any
All_of_any [] e = tt
All_of_any (d ∷ ds) e = (ground arith, All_of_any ds (ground arith))

digraphs_nonempty : All (λ x. 0 < length x) digraphs
unfolding any
digraphs_nonempty = All_of_any digraphs refl

digraph_or_lem :
    (c : ℕ) (cs : Text) (found : Option Text)
    → ((d : Text) → found ≡ some d → (starts_with d (c ∷ cs) ≡ true) × (0 < length d))
    → (digraph_or c found ++ drop (length (digraph_or c found)) (c ∷ cs) ≡ c ∷ cs)
      × (0 < length (digraph_or c found))
digraph_or_lem c cs none h = (refl, omega arith)
digraph_or_lem c cs (some d) h = let (s, n) = h d refl in (starts_with-drop d (c ∷ cs) s, n)

-- the next mora is a prefix and not empty
next_mora_lem :
    (c : ℕ) (cs : Text)
    → (next_mora c cs ++ drop (length (next_mora c cs)) (c ∷ cs) ≡ c ∷ cs)
      × (0 < length (next_mora c cs))
next_mora_lem c cs =
    digraph_or_lem c cs (find_digraph digraphs (c ∷ cs))
      (λ d e. find_digraph_sound digraphs (c ∷ cs) d digraphs_nonempty e)

split_fuel-IsSplit :
    (fuel : ℕ) (text : Text) → length text ≤ fuel → IsSplit text (split_fuel fuel text)
unfolding split_fuel
split_fuel-IsSplit fuel [] h = ([], refl, refl, tt)
split_fuel-IsSplit zero (c ∷ cs) h = absurd (omega arith)
split_fuel-IsSplit (suc fuel) (c ∷ cs) h =
    let (whole, some_text) = next_mora_lem c cs in
    let (morae, e, j, n) =
      split_fuel-IsSplit fuel (drop (length (next_mora c cs)) (c ∷ cs))
        (omega (arith, length-drop (length (next_mora c cs)) (c ∷ cs))) in
    (
      next_mora c cs ∷ morae,
      rw e refl,
      ap (λ rest. next_mora c cs ++ rest) j ∙ whole,
      (some_text, n),
    )

-- For every reading the loop ends, and the morae that it returns, none of them empty, make up the reading
-- when joined.
pub split_into_mora-IsSplit :
    (pronunciation : Text) → IsSplit pronunciation (split_into_mora pronunciation)
unfolding split_into_mora
split_into_mora-IsSplit pronunciation =
    split_fuel-IsSplit (length pronunciation) pronunciation (omega arith)
