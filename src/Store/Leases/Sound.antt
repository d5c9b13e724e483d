-- ===== src/Store/Leases/Sound.antt =====
-- No pack is closed while it is leased, and no pack that nobody uses is left open.
use yomitan_audio_fast.Prelude.{
  ℕ, suc, ◌-◌, All, filter, ◌⊎◌, ◌≤◌, ◌<◌, ◌≡◌, refl, Bool, true, false, List, [], ◌∷◌, ◌++◌,
  Option, none, some, ltb, ◌==◌, ◌||◌, arith, map, if◌then◌else◌, Bool-cases, inl, inr,
}
use yomitan_audio_fast.Prelude.Text.{Text, text_eq_iff}
use yomitan_audio_fast.Dict
use yomitan_audio_fast.Dict.{Dict}
use yomitan_audio_fast.Dict.Laws.{get-pop, All-pop}
use yomitan_audio_fast.Store.Leases.{
  Packs, update, is_pack, init, forget_historical, lease, release, discard, close_pack,
}

-- a pack that has been opened and is closed, in use as the current one, or leased
abbrev pub is_accounted : Packs → ℕ → Bool
is_accounted s pack = s.is_closed pack || (is_pack s.current pack || ltb 0 (s.leases pack))

All-discard : (n pack : ℕ) (l : List ℕ) → All (λ p. p < n) l → All (λ p. p < n) (discard pack l)
unfolding filter
All-discard n pack [] h = h
All-discard n pack (p ∷ l) h = elim (Bool-cases (p == pack)) [
  | inl e ↦ rw e (All-discard n pack l h.1)
  | inr e ↦ rw e (h.0, All-discard n pack l h.1)
]

pub All-weaken : (n : ℕ) (l : List ℕ) → All (λ p. p < n) l → All (λ p. p < suc n) l
All-weaken n [] h = h
All-weaken n (p ∷ l) h = (omega arith, All-weaken n l h.1)

pub All-weaken_values : (n : ℕ) (d : Dict ℕ) → All (λ e. e.1 < n) d → All (λ e. e.1 < suc n) d
All-weaken_values n [] h = h
All-weaken_values n (e ∷ d) h = (omega arith, All-weaken_values n d h.1)

pub All-values :
    (n : ℕ) (d : Dict ℕ) (l : List ℕ)
    → All (λ e. e.1 < n) d
    → All (λ p. p < n) l
    → All (λ p. p < n) (map (λ e. e.1) d ++ l)
All-values n [] l h k = k
All-values n (e ∷ d) l h k = (h.0, All-values n d l h.1 k)

module _ (version : ℕ → Text) where
  -- The packs are in order, but that one may have lost its use and not be closed yet.
  pub record IsSound (but : Option ℕ) (s : Packs) : Type 0 where
    pub leased : (pack : ℕ) → 0 < s.leases pack → s.is_closed pack ≡ false
    pub current :
        (pack : ℕ) → s.current ≡ some pack → (s.is_closed pack ≡ false) × (pack < s.opened)
    pub historical :
        (v : Text) (pack : ℕ)
        → Dict.get v s.historical ≡ some pack
        → (s.is_closed pack ≡ false) × (pack < s.opened) × (version pack ≡ v)
    pub numbered : All (λ e. e.1 < s.opened) s.historical
    pub retired : All (λ p. p < s.opened) s.retired
    pub unopened : (pack : ℕ) → s.opened ≤ pack → (s.leases pack ≡ 0) × (s.is_closed pack ≡ false)
    pub accounted : (pack : ℕ) → pack < s.opened → (is_accounted s pack || is_pack but pack) ≡ true
    pub stopped : s.store_closed ≡ true → s.current ≡ none

  pub init-IsSound : IsSound none init
  unfolding Dict.get
  init-IsSound = record {
    leased = λ p h. refl;
    current = λ p e. ground arith;
    historical = λ v p e. ground arith;
    numbered = tt;
    retired = tt;
    unopened = λ p h. (refl, refl);
    accounted = λ p h. ground arith;
    stopped = λ e. refl;
  }

  pub lease-IsSound :
      (but : Option ℕ) (s : Packs) (pack : ℕ)
      → IsSound but s
      → s.is_closed pack ≡ false
      → pack < s.opened
      → (but ≡ none) ⊎ (but ≡ some pack)
      → IsSound none (lease version (some pack) s).1
  unfolding lease
  lease-IsSound but s pack h c o b = record {
    leased = λ p l. ground (arith, h.leased p);
    current = h.current;
    historical = h.historical;
    numbered = h.numbered;
    retired = h.retired;
    unopened = λ p l. ground (arith, h.unopened p l);
    accounted = λ p l. ground (arith, h.accounted p l, b);
    stopped = h.stopped;
  }

  -- what is found after the pack is forgotten
  get-forget_historical :
      (v : Text) (pack p : ℕ) (d : Dict ℕ)
      → ((w : Text) (q : ℕ) → Dict.get w d ≡ some q → version q ≡ w)
      → Dict.get v (forget_historical version pack d) ≡ some p
      → (Dict.get v d ≡ some p) × ((p == pack) ≡ false)
  unfolding forget_historical
  get-forget_historical v pack p d own e =
      ground (arith, get-pop (version pack) v d, text_eq_iff (version pack) v, own v p)

  All-forget_historical :
      (n pack : ℕ) (d : Dict ℕ)
      → All (λ e. e.1 < n) d
      → All (λ e. e.1 < n) (forget_historical version pack d)
  unfolding forget_historical
  All-forget_historical n pack d h = elim (Bool-cases (is_pack (Dict.get (version pack) d) pack)) [
    | inl e ↦ rw e (All-pop (λ p. p < n) (version pack) d h)
    | inr e ↦ rw e h
  ]

  -- Closing a pack that is neither current nor leased.
  pub close_pack-IsSound :
      (but : Option ℕ) (s : Packs) (pack : ℕ) (leases : ℕ → ℕ)
      → IsSound but s
      → pack < s.opened
      → is_pack s.current pack ≡ false
      → ((p : ℕ) → leases p ≡ (if p == pack then 0 else s.leases p))
      → (but ≡ none) ⊎ (but ≡ some pack)
      → IsSound none (
          close_pack pack (record s {
            leases = leases;
            historical = forget_historical version pack s.historical;
            retired = discard pack s.retired;
          }))
  close_pack-IsSound but s pack leases h o other unleased b = record {
    leased = λ p l. ground (arith, h.leased p, unleased p);
    current = λ p e. ground (arith, h.current p e);
    historical = λ v p e. ground (
      arith,
      get-forget_historical v pack p s.historical (λ w q f. (h.historical w q f).2) e,
      h.historical v p,
    );
    numbered = All-forget_historical s.opened pack s.historical h.numbered;
    retired = All-discard s.opened pack s.retired h.retired;
    unopened = λ p l. ground (arith, h.unopened p l, unleased p);
    accounted = λ p l. ground (arith, h.accounted p l, unleased p, b);
    stopped = h.stopped;
  }

  -- A pack that stays current or leased may have any number of leases.
  leases-IsSound :
      (s : Packs) (pack n : ℕ)
      → IsSound none s
      → pack < s.opened
      → s.is_closed pack ≡ false
      → (is_pack s.current pack || ltb 0 n) ≡ true
      → IsSound none (record s { leases = update s.leases pack n })
  leases-IsSound s pack n h o c used = record {
    leased = λ p l. ground (arith, h.leased p);
    current = h.current;
    historical = h.historical;
    numbered = h.numbered;
    retired = h.retired;
    unopened = λ p l. ground (arith, h.unopened p l);
    accounted = λ p l. ground (arith, h.accounted p l);
    stopped = h.stopped;
  }

  pub release-IsSound :
      (s : Packs) (pack : ℕ)
      → IsSound none s
      → 0 < s.leases pack
      → IsSound none (release version pack s)
  unfolding release
  release-IsSound s pack h l =
      let o : pack < s.opened = ground (arith, h.unopened pack) in
      let c = h.leased pack l in
      elim (Bool-cases (ltb 0 (s.leases pack - 1))) [
        | inl e ↦ rw e (leases-IsSound s pack (s.leases pack - 1) h o c (ground arith))
        | inr e ↦ elim (Bool-cases (is_pack s.current pack)) [
          | inl f ↦ rw (e, f) (leases-IsSound s pack 0 h o c (ground arith))
          | inr f ↦
              rw (e, f)
                (close_pack-IsSound none s pack (update s.leases pack 0) h o f (λ p. refl)
                  (inl refl))
        ]
      ]
