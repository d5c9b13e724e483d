-- ===== src/Cache/Entries.antt =====
-- Laws of the entry lists of `LruCache`: reading after a removal, an append and a drop.
use yomitan_audio_fast.Prelude.{
  ◌+◌, ◌≡◌, ◌≢◌, refl, sym, List, [], ◌∷◌, ◌++◌, none, some, arith, length, if_pos, if_neg, All,
}
use yomitan_audio_fast.Cache.{lookup, remove}

module _ {ℓ κ} {A : Type ℓ} (P : A → Type κ) where
  pub All-append_last : (l : List A) (a : A) → All P l → P a → All P (l ++ a ∷ [])
  All-append_last [] a h p = (p, tt)
  All-append_last (x ∷ l) a h p = (h.0, All-append_last l a h.1 p)

module _ {ℓ} {K V : Type ℓ} (dec : Discrete K) where
  -- the key does not occur
  abbrev pub Fresh : K → List (K × V) → Type ℓ
  Fresh k = All (λ e. e.0 ≢ k)

  -- no key occurs twice
  abbrev pub HasDistinctKeys : List (K × V) → Type ℓ
  HasDistinctKeys [] = Unit
  HasDistinctKeys (e ∷ l) = Fresh e.0 l × HasDistinctKeys l

  pub All-remove {κ} :
      (P : K × V → Type κ) (k : K) (l : List (K × V)) → All P l → All P (remove dec k l)
  unfolding remove
  All-remove P k [] h = tt
  All-remove P k (e ∷ l) h = elim (dec e.0 k) [
    | yes p ↦ rw (if_pos _ p) h.1
    | no p ↦ rw (if_neg _ p) (h.0, All-remove P k l h.1)
  ]

  pub lookup-sound {κ} :
      (P : K × V → Type κ) (k : K) (l : List (K × V)) {v : V}
      → All P l
      → lookup dec k l ≡ some v
      → P (k, v)
  unfolding lookup
  lookup-sound P k [] h e = cc
  lookup-sound P k (f ∷ l) {v} h e = elim (dec f.0 k) [
    | yes p ↦ let q : f ≡ (k, v) = ground arith in rw q at h.0
    | no p ↦ lookup-sound P k l h.1 (ground arith)
  ]

  pub Fresh-of_none : (k : K) (l : List (K × V)) → lookup dec k l ≡ none → Fresh k l
  unfolding lookup
  Fresh-of_none k [] h = tt
  Fresh-of_none k (e ∷ l) h = elim (dec e.0 k) [
    | yes p ↦ absurd (ground arith)
    | no p ↦ (p, Fresh-of_none k l (ground arith))
  ]

  pub lookup_of_Fresh : (k : K) (l : List (K × V)) → Fresh k l → lookup dec k l ≡ none
  unfolding lookup
  lookup_of_Fresh k [] h = refl
  lookup_of_Fresh k (e ∷ l) h = ground (arith, lookup_of_Fresh k l h.1)

  pub remove_of_Fresh : (k : K) (l : List (K × V)) → Fresh k l → remove dec k l ≡ l
  unfolding remove
  remove_of_Fresh k [] h = refl
  remove_of_Fresh k (e ∷ l) h = ground (arith, remove_of_Fresh k l h.1)

  -- with distinct keys, one removal leaves no entry of the key
  pub Fresh-remove : (k : K) (l : List (K × V)) → HasDistinctKeys l → Fresh k (remove dec k l)
  unfolding remove
  Fresh-remove k [] h = tt
  Fresh-remove k (e ∷ l) h = elim (dec e.0 k) [
    | yes p ↦ rw (if_pos _ p) (rw (← p) h.0)
    | no p ↦ rw (if_neg _ p) (p, Fresh-remove k l h.1)
  ]

  pub remove-HasDistinctKeys :
      (k : K) (l : List (K × V)) → HasDistinctKeys l → HasDistinctKeys (remove dec k l)
  unfolding remove
  remove-HasDistinctKeys k [] h = tt
  remove-HasDistinctKeys k (e ∷ l) h = elim (dec e.0 k) [
    | yes p ↦ rw (if_pos _ p) h.1
    | no p ↦ rw (if_neg _ p) (All-remove (λ f. f.0 ≢ e.0) k l h.0, remove-HasDistinctKeys k l h.1)
  ]

  pub append_last-HasDistinctKeys :
      (k : K) (v : V) (l : List (K × V))
      → Fresh k l
      → HasDistinctKeys l
      → HasDistinctKeys (l ++ (k, v) ∷ [])
  append_last-HasDistinctKeys k v [] f h = (tt, tt)
  append_last-HasDistinctKeys k v (e ∷ l) f h = (
    All-append_last (λ g. g.0 ≢ e.0) l (k, v) h.0 (λ q. f.0 (sym q)),
    append_last-HasDistinctKeys k v l f.1 h.1,
  )

  pub lookup-remove_ne :
      (k j : K) (l : List (K × V)) → k ≢ j → lookup dec j (remove dec k l) ≡ lookup dec j l
  unfolding lookup remove
  lookup-remove_ne k j [] h = refl
  lookup-remove_ne k j (e ∷ l) h = ground (arith, lookup-remove_ne k j l h)

  pub lookup-append_last_ne :
      (k j : K) (v : V) (l : List (K × V))
      → k ≢ j
      → lookup dec j (l ++ (k, v) ∷ []) ≡ lookup dec j l
  unfolding lookup
  lookup-append_last_ne k j v [] h = ground arith
  lookup-append_last_ne k j v (e ∷ l) h = ground (arith, lookup-append_last_ne k j v l h)

  pub lookup-append_last_self :
      (k : K) (v : V) (l : List (K × V)) → Fresh k l → lookup dec k (l ++ (k, v) ∷ []) ≡ some v
  unfolding lookup
  lookup-append_last_self k v [] h = ground arith
  lookup-append_last_self k v (e ∷ l) h = ground (arith, lookup-append_last_self k v l h.1)

  pub length-remove :
      (k : K) (l : List (K × V)) {v : V}
      → lookup dec k l ≡ some v
      → length (remove dec k l) + 1 ≡ length l
  unfolding lookup remove
  length-remove k [] {v} h = cc
  length-remove k (e ∷ l) {v} h = ground (arith, length-remove k l {v = v})
