-- ===== src/Prelude/Order.antt =====
-- Python's comparison of numbers, Booleans, texts and tuples, as one interface: a comparison into
-- `Ordering` that is total, antisymmetric and transitive. Tuples compare lexicographically.
use Prim.Native.Nat.{ℕ, compare, Ordering}
use mathlib.Core.Path.{◌≡◌, refl}
use mathlib.Core.Bool.{Bool, true, false}
use mathlib.Core.List.{List, [], ◌∷◌}
use native.Mathlib.Omega.{arith}
use yomitan_audio_fast.Prelude.Int.{ℤ, pos, negsuc}

abbrev pub flip : Ordering → Ordering
flip Ordering.lt = Ordering.gt
flip Ordering.eq = Ordering.eq
flip Ordering.gt = Ordering.lt

abbrev pub is_lt : Ordering → Bool
is_lt Ordering.lt = true
is_lt _ = false

-- The first difference decides.
abbrev pub and_then : Ordering → Ordering → Ordering
and_then Ordering.lt o = Ordering.lt
and_then Ordering.eq o = o
and_then Ordering.gt o = Ordering.gt

pub record Ord {ℓ} (A : Type ℓ) : Type ℓ where
  pub cmp : A → A → Ordering
  pub cmp_flip : (a b : A) → cmp b a ≡ flip (cmp a b)
  pub cmp_eq : (a b : A) → cmp a b ≡ Ordering.eq → a ≡ b
  pub cmp_trans :
      (a b c : A) → cmp a b ≡ Ordering.lt → cmp b c ≡ Ordering.lt → cmp a c ≡ Ordering.lt

self_flip : (x : Ordering) → x ≡ flip x → x ≡ Ordering.eq
self_flip x h = ground arith

module _ {ℓ} {A : Type ℓ} ⦃o : Ord A⦄ where
  pub cmp_refl : (a : A) → o.cmp a a ≡ Ordering.eq
  cmp_refl a = self_flip (o.cmp a a) (o.cmp_flip a a)

pub compare-flip : (a b : ℕ) → compare b a ≡ flip (compare a b)
compare-flip a b = ground arith

pub compare_eq : (a b : ℕ) → compare a b ≡ Ordering.eq → a ≡ b
compare_eq a b h = ground arith

pub compare_trans :
    (a b c : ℕ) → compare a b ≡ Ordering.lt → compare b c ≡ Ordering.lt → compare a c ≡ Ordering.lt
compare_trans a b c h k = ground arith

instance abbrev pub nat_ord : Ord ℕ
nat_ord = record {
  cmp = compare;
  cmp_flip = compare-flip;
  cmp_eq = compare_eq;
  cmp_trans = compare_trans;
}

-- False < True
abbrev pub bool_cmp : Bool → Bool → Ordering
bool_cmp false true = Ordering.lt
bool_cmp true false = Ordering.gt
bool_cmp false false = Ordering.eq
bool_cmp true true = Ordering.eq

pub bool_cmp-flip : (a b : Bool) → bool_cmp b a ≡ flip (bool_cmp a b)
bool_cmp-flip a b = ground arith

pub bool_cmp_eq : (a b : Bool) → bool_cmp a b ≡ Ordering.eq → a ≡ b
bool_cmp_eq a b h = ground arith

pub bool_cmp_trans :
    (a b c : Bool)
    → bool_cmp a b ≡ Ordering.lt
    → bool_cmp b c ≡ Ordering.lt
    → bool_cmp a c ≡ Ordering.lt
bool_cmp_trans a b c h k = ground arith

instance abbrev pub bool_ord : Ord Bool
bool_ord = record {
  cmp = bool_cmp;
  cmp_flip = bool_cmp-flip;
  cmp_eq = bool_cmp_eq;
  cmp_trans = bool_cmp_trans;
}

abbrev pub int_cmp : ℤ → ℤ → Ordering
int_cmp (pos a) (pos b) = compare a b
int_cmp (pos a) (negsuc b) = Ordering.gt
int_cmp (negsuc a) (pos b) = Ordering.lt
int_cmp (negsuc a) (negsuc b) = compare b a

pub int_cmp-flip : (a b : ℤ) → int_cmp b a ≡ flip (int_cmp a b)
int_cmp-flip a b = ground arith

pub int_cmp_eq : (a b : ℤ) → int_cmp a b ≡ Ordering.eq → a ≡ b
int_cmp_eq a b h = ground arith

pub int_cmp_trans :
    (a b c : ℤ) → int_cmp a b ≡ Ordering.lt → int_cmp b c ≡ Ordering.lt → int_cmp a c ≡ Ordering.lt
int_cmp_trans a b c h k = ground arith

instance abbrev pub int_ord : Ord ℤ
int_ord = record {
  cmp = int_cmp;
  cmp_flip = int_cmp-flip;
  cmp_eq = int_cmp_eq;
  cmp_trans = int_cmp_trans;
}

module _ {ℓ κ} {A : Type ℓ} {B : Type κ} ⦃o : Ord A⦄ ⦃p : Ord B⦄ where
  unfoldable pub pair_cmp : A × B → A × B → Ordering
  pair_cmp (a, b) (c, d) = and_then (o.cmp a c) (p.cmp b d)

  pub pair_cmp-flip : (x y : A × B) → pair_cmp y x ≡ flip (pair_cmp x y)
  unfolding pair_cmp
  pair_cmp-flip (a, b) (c, d) = ground (arith, o.cmp_flip a c, p.cmp_flip b d)

  pub pair_cmp_eq : (x y : A × B) → pair_cmp x y ≡ Ordering.eq → x ≡ y
  unfolding pair_cmp
  pair_cmp_eq (a, b) (c, d) h = ground (arith, o.cmp_eq a c, p.cmp_eq b d)

  pub pair_cmp_trans :
      (x y z : A × B)
      → pair_cmp x y ≡ Ordering.lt
      → pair_cmp y z ≡ Ordering.lt
      → pair_cmp x z ≡ Ordering.lt
  unfolding pair_cmp
  pair_cmp_trans (a, b) (c, d) (e, f) h k =
      ground (arith, o.cmp_eq a c, o.cmp_eq c e, o.cmp_trans a c e, p.cmp_trans b d f, cmp_refl a)

  instance abbrev pub pair_ord : Ord (A × B)
  pair_ord = record {
    cmp = pair_cmp;
    cmp_flip = pair_cmp-flip;
    cmp_eq = pair_cmp_eq;
    cmp_trans = pair_cmp_trans;
  }

-- Texts compare by code points, a prefix first.
module _ {ℓ} {A : Type ℓ} ⦃o : Ord A⦄ where
  unfoldable pub list_cmp : List A → List A → Ordering
  list_cmp [] [] = Ordering.eq
  list_cmp [] (y ∷ ys) = Ordering.lt
  list_cmp (x ∷ xs) [] = Ordering.gt
  list_cmp (x ∷ xs) (y ∷ ys) = and_then (o.cmp x y) (list_cmp xs ys)

  pub list_cmp-flip : (x y : List A) → list_cmp y x ≡ flip (list_cmp x y)
  unfolding list_cmp
  list_cmp-flip [] [] = refl
  list_cmp-flip [] (y ∷ ys) = refl
  list_cmp-flip (x ∷ xs) [] = refl
  list_cmp-flip (x ∷ xs) (y ∷ ys) = ground (arith, o.cmp_flip x y, list_cmp-flip xs ys)

  pub list_cmp_eq : (x y : List A) → list_cmp x y ≡ Ordering.eq → x ≡ y
  unfolding list_cmp
  list_cmp_eq [] [] h = refl
  list_cmp_eq [] (y ∷ ys) h = cc
  list_cmp_eq (x ∷ xs) [] h = cc
  list_cmp_eq (x ∷ xs) (y ∷ ys) h = ground (arith, o.cmp_eq x y, list_cmp_eq xs ys)

  pub list_cmp_trans :
      (x y z : List A)
      → list_cmp x y ≡ Ordering.lt
      → list_cmp y z ≡ Ordering.lt
      → list_cmp x z ≡ Ordering.lt
  unfolding list_cmp
  list_cmp_trans [] _ [] h k = ground arith
  list_cmp_trans [] _ (z ∷ zs) h k = refl
  list_cmp_trans (x ∷ xs) [] zs h k = cc
  list_cmp_trans (x ∷ xs) (y ∷ ys) [] h k = cc
  list_cmp_trans (x ∷ xs) (y ∷ ys) (z ∷ zs) h k =
      ground
        (arith, o.cmp_eq x y, o.cmp_eq y z, o.cmp_trans x y z, list_cmp_trans xs ys zs, cmp_refl x)

  instance abbrev pub list_ord : Ord (List A)
  list_ord = record {
    cmp = list_cmp;
    cmp_flip = list_cmp-flip;
    cmp_eq = list_cmp_eq;
    cmp_trans = list_cmp_trans;
  }
