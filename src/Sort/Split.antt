-- ===== src/Sort/Split.antt =====
-- Sorting the two parts of a list of which one comes before the other.
use yomitan_audio_fast.Prelude.{
  Bool, true, false, ◌≡◌, ◌∙◌, refl, ap, List, [], ◌∷◌, ◌++◌, ◌⊎◌, inl, inr, All, All-imp, arith,
  Bool-cases, filter,
}
use yomitan_audio_fast.Prelude.Order.{Ord}
use yomitan_audio_fast.Sort.{before, insert, sort_by}

module _ {A : Type 0} {K : Type 0} ⦃o : Ord K⦄ (key : A → K) where
  insert-append_left :
      (x : A) (xs ys : List A)
      → All (λ y. before key y x ≡ false) ys
      → insert key x (xs ++ ys) ≡ insert key x xs ++ ys
  unfolding insert
  insert-append_left x [] [] h = refl
  insert-append_left x [] (y ∷ ys) h = rw h.0 refl
  insert-append_left x (z ∷ xs) ys h = elim (Bool-cases (before key z x)) [
    | inl e ↦ rw e (ap (λ l. z ∷ l) (insert-append_left x xs ys h))
    | inr e ↦ rw e refl
  ]

  insert-append_right :
      (x : A) (xs ys : List A)
      → All (λ z. before key z x ≡ true) xs
      → insert key x (xs ++ ys) ≡ xs ++ insert key x ys
  unfolding insert
  insert-append_right x [] ys h = refl
  insert-append_right x (z ∷ xs) ys h = rw h.0 (ap (λ l. z ∷ l) (insert-append_right x xs ys h.1))

  All-insert : (P : A → Type 0) (x : A) (l : List A) → P x → All P l → All P (insert key x l)
  unfolding insert
  All-insert P x [] h k = (h, tt)
  All-insert P x (y ∷ ys) h k = elim (Bool-cases (before key y x)) [
    | inl e ↦ rw e (k.0, All-insert P x ys h k.1)
    | inr e ↦ rw e (h, k)
  ]

  pub All-sort_by : (P : A → Type 0) (l : List A) → All P l → All P (sort_by key l)
  unfolding sort_by
  All-sort_by P [] h = tt
  All-sort_by P (x ∷ xs) h = All-insert P x (sort_by key xs) h.0 (All-sort_by P xs h.1)

pub All-filter : {A : Type 0} (p : A → Bool) (l : List A) → All (λ x. p x ≡ true) (filter p l)
unfolding filter
All-filter p [] = tt
All-filter p (x ∷ xs) = elim (Bool-cases (p x)) [
  | inl e ↦ rw e (e, All-filter p xs)
  | inr e ↦ rw e (All-filter p xs)
]

module _ {A : Type 0} {K : Type 0} ⦃o : Ord K⦄ (key : A → K) (p q : A → Bool)
    (either : (x : A) → ((p x ≡ true) × (q x ≡ false)) ⊎ ((p x ≡ false) × (q x ≡ true)))
    (ordered : (x y : A) → p x ≡ true → q y ≡ true → before key x y ≡ true) where
  after_false : (x y : A) → p x ≡ true → q y ≡ true → before key y x ≡ false
  after_false x y h k = ground (arith, ordered x y h k, o.cmp_flip (key x) (key y))

  pub sort_by-split :
      (l : List A) → sort_by key l ≡ sort_by key (filter p l) ++ sort_by key (filter q l)
  unfolding sort_by filter
  sort_by-split [] = refl
  sort_by-split (x ∷ xs) = elim (either x) [
    | inl (mine, other) ↦
        rw (mine, other)
          (ap (insert key x) (sort_by-split xs)
            ∙ insert-append_left key x (sort_by key (filter p xs)) (sort_by key (filter q xs)) (
                All-imp (λ y. q y ≡ true) (λ y. before key y x ≡ false) _
                  (λ y k. after_false x y mine k)
                  (All-sort_by key (λ y. q y ≡ true) (filter q xs) (All-filter q xs))))
    | inr (mine, other) ↦
        rw (mine, other)
          (ap (insert key x) (sort_by-split xs)
            ∙ insert-append_right key x (sort_by key (filter p xs)) (sort_by key (filter q xs)) (
                All-imp (λ y. p y ≡ true) (λ y. before key y x ≡ true) _
                  (λ y k. ordered y x k other)
                  (All-sort_by key (λ y. p y ≡ true) (filter p xs) (All-filter p xs))))
  ]
