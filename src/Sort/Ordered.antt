-- ===== src/Sort/Ordered.antt =====
-- The sorted list is in order and has the members of the list.
use mathlib.Core.List.{Perm}
use mathlib.Core.List.Perm
use yomitan_audio_fast.Prelude.{◌≡◌, false, List, [], ◌∷◌, arith, All, Bool-cases, inl, inr}
use yomitan_audio_fast.Prelude.Order.{Ord}
use yomitan_audio_fast.Sort.{before, insert, sort_by}

module _ {ℓ κ} {A : Type ℓ} {K : Type κ} ⦃o : Ord K⦄ (key : A → K) where
  -- no element comes after a greater one
  abbrev pub IsSorted : List A → Type ℓ
  IsSorted [] = Unit
  IsSorted (x ∷ xs) = All (λ y. before key y x ≡ false) xs × IsSorted xs

  All-insert : (P : A → Type 0) (x : A) (l : List A) → P x → All P l → All P (insert key x l)
  unfolding insert
  All-insert P x [] p h = (p, tt)
  All-insert P x (y ∷ ys) p h = elim (Bool-cases (before key y x)) [
    | inl e ↦ rw e (h.0, All-insert P x ys p h.1)
    | inr e ↦ rw e (p, (h.0, h.1))
  ]

  -- what is not less than `y` is not less than what is before `y`
  All-before_of_before :
      (x y : A) (l : List A)
      → before key y x ≡ false
      → All (λ z. before key z y ≡ false) l
      → All (λ z. before key z x ≡ false) l
  All-before_of_before x y [] h a = tt
  All-before_of_before x y (z ∷ l) h a = (
    ground (
      arith,
      o.cmp_flip (key x) (key y),
      o.cmp_flip (key y) (key z),
      o.cmp_flip (key z) (key x),
      o.cmp_eq (key x) (key y),
      o.cmp_eq (key y) (key z),
      o.cmp_eq (key y) (key x),
      o.cmp_trans (key z) (key x) (key y),
      o.cmp_trans (key x) (key y) (key z),
    ),
    All-before_of_before x y l h a.1,
  )

  insert-IsSorted : (x : A) (l : List A) → IsSorted l → IsSorted (insert key x l)
  unfolding insert
  insert-IsSorted x [] h = (tt, tt)
  insert-IsSorted x (y ∷ ys) h = elim (Bool-cases (before key y x)) [
    | inl e ↦ rw e (
      All-insert (λ z. before key z y ≡ false) x ys (ground (arith, o.cmp_flip (key y) (key x)))
          h.0,
      insert-IsSorted x ys h.1,
    )
    | inr e ↦ rw e ((e, All-before_of_before x y ys e h.0), (h.0, h.1))
  ]

  pub sort_by-IsSorted : (l : List A) → IsSorted (sort_by key l)
  unfolding sort_by
  sort_by-IsSorted [] = tt
  sort_by-IsSorted (x ∷ xs) = insert-IsSorted x (sort_by key xs) (sort_by-IsSorted xs)

  insert-perm : (x : A) (l : List A) → Perm (insert key x l) (x ∷ l)
  unfolding insert
  insert-perm x [] = Perm.refl (x ∷ [])
  insert-perm x (y ∷ ys) = elim (Bool-cases (before key y x)) [
    | inl e ↦ rw e (Perm.trans (Perm.cons y (insert-perm x ys)) (Perm.swap x y ys))
    | inr e ↦ rw e (Perm.refl (x ∷ y ∷ ys))
  ]

  pub sort_by-perm : (l : List A) → Perm (sort_by key l) l
  unfolding sort_by
  sort_by-perm [] = Perm.refl []
  sort_by-perm (x ∷ xs) =
      Perm.trans (insert-perm x (sort_by key xs)) (Perm.cons x (sort_by-perm xs))

  pub sort_by-All : (P : A → Type 0) (l : List A) → All P l → All P (sort_by key l)
  unfolding sort_by
  sort_by-All P [] h = tt
  sort_by-All P (x ∷ xs) h = All-insert P x (sort_by key xs) h.0 (sort_by-All P xs h.1)
