-- ===== src/Sort/Head.antt =====
-- The scan for the least element finds the head of the sorted list.
use yomitan_audio_fast.Prelude.{◌≡◌, ◌∙◌, refl, Option, none, some, List, [], ◌∷◌, arith, head?}
use yomitan_audio_fast.Prelude.Order.{Ord, cmp_refl}
use yomitan_audio_fast.Sort.{before, insert, sort_by, better, scan}

module _ {ℓ κ} {A : Type ℓ} {K : Type κ} ⦃o : Ord K⦄ (key : A → K) where
  -- the better of one element and perhaps another
  better_of : A → Option A → A
  better_of a none = a
  better_of a (some b) = better key a b

  head?-insert : (x : A) (l : List A) → head? (insert key x l) ≡ some (better_of x (head? l))
  unfolding insert better better_of
  head?-insert x [] = refl
  head?-insert x (y ∷ ys) = ground arith

  better_assoc :
      (a x : A) (h : Option A) → better_of (better key a x) h ≡ better key a (better_of x h)
  unfolding better better_of
  better_assoc a x none = refl
  better_assoc a x (some y) = ground (
    arith,
    o.cmp_flip (key a) (key x),
    o.cmp_flip (key x) (key y),
    o.cmp_flip (key a) (key y),
    o.cmp_eq (key x) (key a),
    o.cmp_eq (key y) (key x),
    o.cmp_eq (key y) (key a),
    o.cmp_trans (key y) (key x) (key a),
    o.cmp_trans (key a) (key x) (key y),
    o.cmp_trans (key x) (key a) (key y),
    o.cmp_trans (key a) (key y) (key x),
    cmp_refl (key a),
  )

  scan-better_of : (a : A) (l : List A) → scan key a l ≡ better_of a (head? (sort_by key l))
  unfolding scan sort_by better_of
  scan-better_of a [] = refl
  scan-better_of a (x ∷ xs) =
      rw (head?-insert x (sort_by key xs))
        (scan-better_of (better key a x) xs ∙ better_assoc a x (head? (sort_by key xs)))

  pub head?-sort_by : (a : A) (l : List A) → head? (sort_by key (a ∷ l)) ≡ some (scan key a l)
  unfolding sort_by
  head?-sort_by a l = rw (head?-insert, scan-better_of)

module _ {ℓ κ μ} {A : Type ℓ} {K : Type κ} {L : Type μ} ⦃o : Ord K⦄ ⦃p : Ord L⦄ (k : A → K)
    (l : A → L) where
  insert-ext :
      ((a b : A) → before k a b ≡ before l a b)
      → (x : A) (xs : List A) → insert k x xs ≡ insert l x xs
  unfolding insert
  insert-ext h x [] = refl
  insert-ext h x (y ∷ ys) = rw (h y x, insert-ext h x ys)

  -- Keys that compare alike sort alike.
  pub sort_by-ext :
      ((a b : A) → before k a b ≡ before l a b) → (xs : List A) → sort_by k xs ≡ sort_by l xs
  unfolding sort_by
  sort_by-ext h [] = refl
  sort_by-ext h (x ∷ xs) = rw (sort_by-ext h xs) (insert-ext h x (sort_by l xs))
