-- ===== src/Cache/Valid.antt =====
-- The invariant of `LruCache`: never more entries than the capacity, and no key twice.
use yomitan_audio_fast.Prelude.{
  ℕ, ◌+◌, ◌≤◌, ◌≡◌, [], ◌∷◌, ◌++◌, List, some, arith, length, length-append, ltb, Option-cases,
  Bool-cases, inl, inr, ◌==◌,
}
use yomitan_audio_fast.Prelude.Int.{ℤ}
use yomitan_audio_fast.Cache.{LruCache, init, lookup, remove, get, put, hit, trim}
use yomitan_audio_fast.Cache.Entries.{
  HasDistinctKeys, Fresh-remove, remove-HasDistinctKeys, append_last-HasDistinctKeys, length-remove,
  Fresh-of_none, remove_of_Fresh,
}

pub record IsValid {ℓ} {K V : Type ℓ} (dec : Discrete K) (c : LruCache K V) : Type ℓ where
  pub bounded : length c.values ≤ c.capacity
  pub distinct : HasDistinctKeys dec c.values

pub init-IsValid {ℓ} : {K V : Type ℓ} (dec : Discrete K) (n : ℤ) → IsValid {V = V} dec (init n)
unfolding init
init-IsValid dec n = record { bounded = omega arith; distinct = tt }

length-trim {ℓ} : {A : Type ℓ} (n : ℕ) (l : List A) → length l ≤ n + 1 → length (trim n l) ≤ n
length-trim n [] h = ground arith
length-trim n (e ∷ l) h = ground arith

trim-HasDistinctKeys {ℓ} :
    {K V : Type ℓ} (dec : Discrete K) (n : ℕ) (l : List (K × V))
    → HasDistinctKeys dec l
    → HasDistinctKeys dec (trim n l)
trim-HasDistinctKeys dec n [] h = elim (Bool-cases (ltb n 0)) [ inl e ↦ rw e h | inr e ↦ rw e h ]
trim-HasDistinctKeys dec n (e ∷ l) h = elim (Bool-cases (ltb n (length (e ∷ l)))) [
  | inl p ↦ rw p (h.1)
  | inr p ↦ rw p h
]

module _ {ℓ} {K V : Type ℓ} (dec : Discrete K) (c : LruCache K V) (k : K) where
  abbrev renewed : V → List (K × V)
  renewed v = remove dec k c.values ++ (k, v) ∷ []

  renewed-HasDistinctKeys : (v : V) → HasDistinctKeys dec c.values → HasDistinctKeys dec (renewed v)
  renewed-HasDistinctKeys v h =
      append_last-HasDistinctKeys dec k v (remove dec k c.values) (Fresh-remove dec k c.values h)
        (remove-HasDistinctKeys dec k c.values h)

  -- a present key is only moved, an absent one adds an entry
  length-renewed : (v : V) → length (renewed v) ≤ length c.values + 1
  length-renewed v = elim (Option-cases (lookup dec k c.values)) [
    | inl e ↦
        rw (remove_of_Fresh dec k c.values (Fresh-of_none dec k c.values e))
          (omega (arith, length-append c.values ((k, v) ∷ [])))
    | inr (w, e) ↦
        omega (
          arith,
          length-remove dec k c.values e,
          length-append (remove dec k c.values) ((k, v) ∷ []),
        )
  ]

  renewed_facts :
      IsValid dec c → (v : V) → lookup dec k c.values ≡ some v → IsValid dec (hit dec c k v)
  renewed_facts h v e = record {
    bounded = omega (
      arith,
      length-remove dec k c.values e,
      length-append (remove dec k c.values) ((k, v) ∷ []),
    );
    distinct = renewed-HasDistinctKeys v h.distinct;
  }

  -- A `get` of any key keeps the entries at most as many as the capacity, with no key twice.
  pub get-IsValid : IsValid dec c → IsValid dec (get dec c k).1
  unfolding get
  get-IsValid h = elim (Bool-cases (c.capacity == 0)) [
    | inl z ↦ rw z h
    | inr p ↦ elim (Option-cases (lookup dec k c.values)) [
      | inl e ↦ rw (p, e) h
      | inr (w, e) ↦ rw (p, e) (renewed_facts h w e)
    ]
  ]

  -- A `put` of any key and value keeps the entries at most as many as the capacity, with no key twice.
  pub put-IsValid : (v : V) → IsValid dec c → IsValid dec (put dec c k v)
  unfolding put
  put-IsValid v h = elim (Bool-cases (c.capacity == 0)) [
    | inl z ↦ rw z h
    | inr p ↦ rw p (record {
      bounded = length-trim c.capacity (renewed v) (omega (arith, length-renewed v, h.bounded));
      distinct =
          trim-HasDistinctKeys dec c.capacity (renewed v) (renewed-HasDistinctKeys v h.distinct);
    })
  ]
