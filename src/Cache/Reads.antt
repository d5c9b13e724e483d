-- ===== src/Cache/Reads.antt =====
-- What can be read from an `LruCache` after a call, and what its entries satisfy.
use yomitan_audio_fast.Prelude.{
  ℕ, ◌<◌, ◌≤◌, ◌≡◌, ◌≢◌, ◌∙◌, sym, ap, ltb→lt, if_neg, if◌then◌else◌, refl, false, [], ◌∷◌, ◌++◌,
  List, Option, none, some, arith, length, ltb, Option-cases, Bool-cases, inl, inr, ◌==◌, All,
  length-append,
}
use yomitan_audio_fast.Cache.{LruCache, lookup, remove, get, put, trim}
use yomitan_audio_fast.Cache.Entries.{
  Fresh-of_none, remove_of_Fresh, HasDistinctKeys, Fresh, Fresh-remove, All-append_last, All-remove,
  lookup-sound, lookup-remove_ne, lookup-append_last_ne, lookup-append_last_self, length-remove,
}
use yomitan_audio_fast.Cache.Valid.{IsValid}

All-trim {ℓ κ} : {A : Type ℓ} (P : A → Type κ) (n : ℕ) (l : List A) → All P l → All P (trim n l)
All-trim P n [] h = elim (Bool-cases (ltb n 0)) [ inl e ↦ rw e h | inr e ↦ rw e h ]
All-trim P n (e ∷ l) h = elim (Bool-cases (ltb n (length (e ∷ l)))) [
  | inl p ↦ rw p (h.1)
  | inr p ↦ rw p h
]

abbrev pub first_key {ℓ} : {K V : Type ℓ} → List (K × V) → Option K
first_key [] = none
first_key (e ∷ l) = some e.0

module _ {ℓ} {K V : Type ℓ} (dec : Discrete K) (c : LruCache K V) (k : K) where
  -- What holds of every entry holds of what a hit returns.
  pub get-sound {κ} :
      (P : K × V → Type κ) {v : V} → All P c.values → (get dec c k).0 ≡ some v → P (k, v)
  unfolding get
  get-sound P {v} h e = lookup-sound dec P k c.values h (ground arith)

  pub All-get {κ} : (P : K × V → Type κ) → All P c.values → All P (get dec c k).1.values
  unfolding get
  All-get P h = elim (Bool-cases (c.capacity == 0)) [
    | inl z ↦ rw z h
    | inr p ↦ elim (Option-cases (lookup dec k c.values)) [
      | inl e ↦ rw (p, e) h
      | inr (w, e) ↦
          rw (p, e)
            (All-append_last P (remove dec k c.values) (k, w) (All-remove dec P k c.values h)
              (lookup-sound dec P k c.values h e))
    ]
  ]

  pub All-put {κ} :
      (P : K × V → Type κ) (v : V) → All P c.values → P (k, v) → All P (put dec c k v).values
  unfolding put
  All-put P v h p = elim (Bool-cases (c.capacity == 0)) [
    | inl z ↦ rw z h
    | inr q ↦ rw q (
        All-trim P c.capacity (remove dec k c.values ++ (k, v) ∷ [])
          (All-append_last P (remove dec k c.values) (k, v) (All-remove dec P k c.values h) p))
  ]

  lookup-remove_append :
      (j : K) (w : V)
      → HasDistinctKeys dec c.values
      → lookup dec k c.values ≡ some w
      → lookup dec j (remove dec k c.values ++ (k, w) ∷ []) ≡ lookup dec j c.values
  lookup-remove_append j w h e = elim (dec k j) [
    | yes p ↦
        rw (← p, e)
          (lookup-append_last_self dec k w (remove dec k c.values) (Fresh-remove dec k c.values h))
    | no p ↦
        lookup-append_last_ne dec k j w (remove dec k c.values) p
        ∙ lookup-remove_ne dec k j c.values p
  ]

  -- A `get` of a valid cache may reorder the entries, and leaves what is found under each key as it was.
  pub lookup-get :
      (j : K) → IsValid dec c → lookup dec j (get dec c k).1.values ≡ lookup dec j c.values
  unfolding get
  lookup-get j h = elim (Bool-cases (c.capacity == 0)) [
    | inl z ↦ rw z refl
    | inr p ↦ elim (Option-cases (lookup dec k c.values)) [
      | inl e ↦ rw (p, e) refl
      | inr (w, e) ↦ rw (p, e) (lookup-remove_append j w h.distinct e)
    ]
  ]

  -- the key that a `put` of `k` forgets
  unfoldable pub victim : Option K
  victim = elim (lookup dec k c.values) [
    | none ↦ if length c.values == c.capacity then first_key c.values else none
    | some _ ↦ none
  ]

  lookup-trim_self :
      (l : List (K × V)) (v : V)
      → Fresh dec k l
      → 0 < c.capacity
      → lookup dec k (trim c.capacity (l ++ (k, v) ∷ [])) ≡ some v
  unfolding lookup
  lookup-trim_self [] v f h = ground arith
  lookup-trim_self (e ∷ l) v f h =
      ground (arith, lookup-append_last_self dec k v l f.1, length-append l ((k, v) ∷ []))

  -- In a valid cache of positive capacity, the value just stored is found under its key.
  pub lookup-put_self :
      (v : V) → IsValid dec c → 0 < c.capacity → lookup dec k (put dec c k v).values ≡ some v
  unfolding put
  lookup-put_self v h pos =
      let p : (c.capacity == 0) ≡ false = ground arith in
      rw p (lookup-trim_self (remove dec k c.values) v (Fresh-remove dec k c.values h.distinct) pos)

  lookup-trim_ne :
      (n : ℕ) (j : K) (l : List (K × V)) (v : V)
      → k ≢ j
      → length l ≤ n
      → 0 < n
      → (length l ≡ n → first_key l ≢ some j)
      → lookup dec j (trim n (l ++ (k, v) ∷ [])) ≡ lookup dec j l
  unfolding lookup
  lookup-trim_ne n j [] v ne b pos kept = ground arith
  lookup-trim_ne n j (e ∷ l) v ne b pos kept =
      elim (Bool-cases (ltb n (length (e ∷ l ++ (k, v) ∷ [])))) [
        | inl full ↦ rw full (
            lookup-append_last_ne dec k j v l ne
            ∙ sym (
                if_neg (dec e.0 j)
                  (λ q.
                    kept (omega (arith, ltb→lt _ _ full, length-append l ((k, v) ∷ [])))
                      (ap some q))
                  (some e.1) (lookup dec j l)))
        | inr room ↦ rw room (lookup-append_last_ne dec k j v (e ∷ l) ne)
      ]

  -- In a valid cache, a `put` of a key leaves what is found under every other key as it was, except the key
  -- that it forgets to make room.
  pub lookup-put_ne :
      (j : K) (v : V)
      → IsValid dec c
      → k ≢ j
      → victim ≢ some j
      → lookup dec j (put dec c k v).values ≡ lookup dec j c.values
  unfolding put victim lookup
  lookup-put_ne j v h ne kept = elim (Bool-cases (c.capacity == 0)) [
    | inl z ↦ rw z refl
    | inr p ↦ elim (Option-cases (lookup dec k c.values)) [
      | inl e ↦
          rw (p, remove_of_Fresh dec k c.values (Fresh-of_none dec k c.values e))
            (lookup-trim_ne c.capacity j c.values v ne h.bounded (ground arith) (ground arith))
      | inr (w, e) ↦ rw p (
          lookup-trim_ne c.capacity j (remove dec k c.values) v ne
            (omega (arith, length-remove dec k c.values e, h.bounded)) (ground arith)
            (λ full. absurd (omega (arith, length-remove dec k c.values e, h.bounded)))
          ∙ lookup-remove_ne dec k j c.values ne)
    ]
  ]
