-- ===== src/Sort/Unique.antt =====
-- Where equal keys mean equal elements, the sorted list does not depend on the order of the input.
use mathlib.Core.Path.{ap₂}
use mathlib.Core.List.Perm
use mathlib.Core.Logic.Or
use mathlib.Core.List.Permᴰ
use mathlib.Core.Logic.{∥∥₁_elim, ∥∥₁_map}
use mathlib.Core.List.{Perm, Permᴰ, Mem, Mem-prop, mem-cons, mem-cons_self, mem-cons_of_mem}
use yomitan_audio_fast.Prelude.{
  ◌≡◌, ◌∙◌, refl, List, [], ◌∷◌, arith, ap, filter, Bool, true, false, Bool-cases, inl, inr,
}
use yomitan_audio_fast.Prelude.Order.{Ord}
use yomitan_audio_fast.Sort.{insert, sort_by}

module _ {ℓ κ} {A : Type ℓ} {K : Type κ} ⦃o : Ord K⦄ (key : A → K) where
  insert_comm :
      (a b : A) (l : List A)
      → (key a ≡ key b → a ≡ b)
      → insert key a (insert key b l) ≡ insert key b (insert key a l)
  unfolding insert
  insert_comm a b [] h = ground (arith, o.cmp_flip (key a) (key b), o.cmp_eq (key a) (key b))
  insert_comm a b (y ∷ ys) h = ground (
    arith,
    insert_comm a b ys h,
    o.cmp_flip (key a) (key b),
    o.cmp_eq (key a) (key b),
    o.cmp_flip (key y) (key b),
    o.cmp_eq (key y) (key b),
    o.cmp_flip (key y) (key a),
    o.cmp_eq (key y) (key a),
    o.cmp_trans (key a) (key y) (key b),
    o.cmp_trans (key b) (key y) (key a),
  )

  -- the keys tell the members apart
  abbrev pub HasUniqueKeys : List A → Type (ℓ ⊔ κ)
  HasUniqueKeys l = (a b : A) → Mem a l → Mem b l → key a ≡ key b → a ≡ b

  sort_by-permᴰ :
      {xs ys : List A} → Permᴰ xs ys → HasUniqueKeys xs → sort_by key xs ≡ sort_by key ys
  unfolding sort_by
  sort_by-permᴰ Permᴰ.nil h = refl
  sort_by-permᴰ (Permᴰ.cons {a} {b} e p) h =
      ap₂ (insert key) e
        (sort_by-permᴰ p (λ c d mc md. h c d (mem-cons_of_mem a mc) (mem-cons_of_mem a md)))
  sort_by-permᴰ (Permᴰ.swap {a} {b} {l = l} e f) h =
      insert_comm a b (sort_by key l) (h a b mem-cons_self (mem-cons_of_mem a mem-cons_self))
      ∙ ap₂ (insert key) f (ap (λ c. insert key c (sort_by key l)) e)
  sort_by-permᴰ (Permᴰ.trans p q) h =
      sort_by-permᴰ p h
      ∙ sort_by-permᴰ q
          (λ a b ma mb. h a b ((Perm.mem_iff ∣ p ∣₁).1 ma) ((Perm.mem_iff ∣ p ∣₁).1 mb))

  pub sort_by-eq_of_perm :
      {xs ys : List A}
      → IsSet (List A)
      → Perm xs ys
      → HasUniqueKeys xs
      → sort_by key xs ≡ sort_by key ys
  sort_by-eq_of_perm {xs} {ys} is_set p h =
      ∥∥₁_elim p (is_set (sort_by key xs) (sort_by key ys)) (λ d. sort_by-permᴰ d h)

module _ {ℓ} {A : Type ℓ} (p : A → Bool) where
  filter-permᴰ : {xs ys : List A} → Permᴰ xs ys → Permᴰ (filter p xs) (filter p ys)
  unfolding filter
  filter-permᴰ Permᴰ.nil = Permᴰ.nil
  filter-permᴰ (Permᴰ.cons {a} {b} e d) = elim (Bool-cases (p b)) [
    | inl t ↦ rw (e, t) (Permᴰ.cons refl (filter-permᴰ d))
    | inr f ↦ rw (e, f) (filter-permᴰ d)
  ]
  filter-permᴰ (Permᴰ.swap {a} {b} {l = l} e f) = rw (← e, ← f) (swap_cases (p a) (p b) refl refl)
    where
      swap_cases :
          (s t : Bool) → p a ≡ s → p b ≡ t → Permᴰ (filter p (a ∷ b ∷ l)) (filter p (b ∷ a ∷ l))
      swap_cases true true u v = rw (u, v) (Permᴰ.swap refl refl)
      swap_cases true false u v = rw (u, v) (Permᴰ.refl (a ∷ filter p l))
      swap_cases false true u v = rw (u, v) (Permᴰ.refl (b ∷ filter p l))
      swap_cases false false u v = rw (u, v) (Permᴰ.refl (filter p l))
  filter-permᴰ (Permᴰ.trans d q) = Permᴰ.trans (filter-permᴰ d) (filter-permᴰ q)

  pub filter-perm : {xs ys : List A} → Perm xs ys → Perm (filter p xs) (filter p ys)
  filter-perm {xs} {ys} q = ∥∥₁_map {B = Permᴰ (filter p xs) (filter p ys)} q filter-permᴰ

  pub mem_of_mem-filter : (a : A) (l : List A) → Mem a (filter p l) → Mem a l
  unfolding filter
  mem_of_mem-filter a [] m = m
  mem_of_mem-filter a (x ∷ xs) m = elim (Bool-cases (p x)) [
    | inl t ↦
        Or.elim Mem-prop (mem-cons.0 (rw t at m)) (λ e. rw e mem-cons_self)
          (λ n. mem-cons_of_mem x (mem_of_mem-filter a xs n))
    | inr f ↦ mem-cons_of_mem x (mem_of_mem-filter a xs (rw f at m))
  ]
