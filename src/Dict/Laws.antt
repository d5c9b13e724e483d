-- ===== src/Dict/Laws.antt =====
-- Reading a dictionary after a write, in `if` form.
use yomitan_audio_fast.Prelude.{
  ◌≡◌, refl, [], ◌∷◌, none, some, arith, if◌then◌else◌, is_some, All, Bool-cases, inl, inr,
}
use yomitan_audio_fast.Prelude.Text.{Text, text_eq, text_eq_iff, contains}
use yomitan_audio_fast.Dict.{Dict, get, set, setdefault, keys, pop}

module _ {ℓ} {V : Type ℓ} where
  pub get-set :
      (k j : Text) (v : V) (d : Dict V)
      → get j (set k v d) ≡ (if text_eq k j then some v else get j d)
  unfolding get set
  get-set k j v [] = refl
  get-set k j v ((i, w) ∷ d) =
      ground (arith, text_eq_iff k j, text_eq_iff i k, text_eq_iff i j, get-set k j v d)

  pub get-setdefault :
      (k j : Text) (v : V) (d : Dict V)
      → get j (setdefault k v d)
        ≡ (if text_eq k j then (elim (get k d) [ none ↦ some v | some w ↦ some w ]) else get j d)
  unfolding get setdefault
  get-setdefault k j v [] = refl
  get-setdefault k j v ((i, w) ∷ d) =
      ground (arith, text_eq_iff k j, text_eq_iff i k, text_eq_iff i j, get-setdefault k j v d)

  pub setdefault-eq-set_of_none :
      (k : Text) (v : V) (d : Dict V) → get k d ≡ none → setdefault k v d ≡ set k v d
  unfolding get set setdefault
  setdefault-eq-set_of_none k v [] h = refl
  setdefault-eq-set_of_none k v ((i, w) ∷ d) h = ground (arith, setdefault-eq-set_of_none k v d)

  pub contains-keys : (k : Text) (d : Dict V) → contains k (keys d) ≡ is_some (get k d)
  unfolding contains keys get
  contains-keys k [] = refl
  contains-keys k ((i, w) ∷ d) = ground (arith, contains-keys k d)

  pub get-pop :
      (k j : Text) (d : Dict V) → get j (pop k d) ≡ (if text_eq k j then none else get j d)
  unfolding get pop
  get-pop k j [] = ground arith
  get-pop k j ((i, w) ∷ d) =
      ground (arith, text_eq_iff k j, text_eq_iff i k, text_eq_iff i j, get-pop k j d)

  module _ {κ} (P : V → Type κ) where
    pub All-set :
        (k : Text) (v : V) (d : Dict V) → All (λ e. P e.1) d → P v → All (λ e. P e.1) (set k v d)
    unfolding set
    All-set k v [] h p = (p, tt)
    All-set k v ((i, w) ∷ d) h p = elim (Bool-cases (text_eq i k)) [
      | inl e ↦ rw e (p, h.1)
      | inr e ↦ rw e (h.0, All-set k v d h.1 p)
    ]

    pub All-pop : (k : Text) (d : Dict V) → All (λ e. P e.1) d → All (λ e. P e.1) (pop k d)
    unfolding pop
    All-pop k [] h = h
    All-pop k ((i, w) ∷ d) h = elim (Bool-cases (text_eq i k)) [
      | inl e ↦ rw e (All-pop k d h.1)
      | inr e ↦ rw e (h.0, All-pop k d h.1)
    ]
