-- ===== src/Lookup/Rank.antt =====
-- The rank dictionaries: `for rank, source in enumerate(sources): source_rank.setdefault(source, rank)`
-- and the comprehension `{source: rank for rank, source in enumerate(sources)}`.
use yomitan_audio_fast.Prelude.{
  ℕ, suc, ◌≡◌, refl, ◌∙◌, true, false, List, [], ◌∷◌, none, arith, is_some, ◌||◌,
}
use yomitan_audio_fast.Prelude.Text.{Text, text_eq_iff, contains}
use yomitan_audio_fast.Dict
use yomitan_audio_fast.Dict.{Dict}
use yomitan_audio_fast.Dict.Laws.{get-set, get-setdefault, setdefault-eq-set_of_none}

-- The first occurrence of a name decides its rank.
unfoldable pub ranks_setdefault : ℕ → List Text → Dict ℕ → Dict ℕ
ranks_setdefault rank [] d = d
ranks_setdefault rank (name ∷ names) d =
    ranks_setdefault (suc rank) names (Dict.setdefault name rank d)

-- The last occurrence of a name decides its rank.
unfoldable pub ranks_set : ℕ → List Text → Dict ℕ → Dict ℕ
ranks_set rank [] d = d
ranks_set rank (name ∷ names) d = ranks_set (suc rank) names (Dict.set name rank d)

abbrev pub HasDistinct : List Text → Type 0
HasDistinct [] = Unit
HasDistinct (x ∷ xs) = (contains x xs ≡ false) × HasDistinct xs

abbrev Apart : List Text → Dict ℕ → Type 0
Apart names d = (x : Text) → contains x names ≡ true → Dict.get x d ≡ none

ranks_agree_from :
    (rank : ℕ) (names : List Text) (d : Dict ℕ)
    → HasDistinct names
    → Apart names d
    → ranks_setdefault rank names d ≡ ranks_set rank names d
unfolding ranks_setdefault ranks_set contains
ranks_agree_from rank [] d h a = refl
ranks_agree_from rank (x ∷ xs) d h a =
    rw (setdefault-eq-set_of_none x rank d (a x (ground (arith, text_eq_iff x x)))) (
      ranks_agree_from (suc rank) xs (Dict.set x rank d) h.1
        (λ y m. rw (get-set x y rank d) (ground (arith, text_eq_iff x y, a y, h.0))))

-- Without repetitions the two loops build the same dictionary.
pub ranks_agree :
    (names : List Text) → HasDistinct names → ranks_setdefault 0 names [] ≡ ranks_set 0 names []
ranks_agree names h = ranks_agree_from 0 names [] h (λ x m. (unfold Dict.get in refl))

is_some-ranks_setdefault :
    (x : Text) (rank : ℕ) (names : List Text) (d : Dict ℕ)
    → is_some (Dict.get x (ranks_setdefault rank names d))
      ≡ (is_some (Dict.get x d) || contains x names)
unfolding ranks_setdefault contains
is_some-ranks_setdefault x rank [] d = ground arith
is_some-ranks_setdefault x rank (y ∷ ys) d = ground (
  arith,
  is_some-ranks_setdefault x (suc rank) ys (Dict.setdefault y rank d),
  get-setdefault y x rank d,
  text_eq_iff y x,
)

-- The ranked names are the names.
pub is_some-ranks :
    (x : Text) (names : List Text)
    → is_some (Dict.get x (ranks_setdefault 0 names [])) ≡ contains x names
is_some-ranks x names = is_some-ranks_setdefault x 0 names [] ∙ (unfold Dict.get in refl)
