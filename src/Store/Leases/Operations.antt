-- ===== src/Store/Leases/Operations.antt =====
-- Leasing a pack and reloading keep the packs in order.
use yomitan_audio_fast.Prelude.{
  ℕ, suc, ◌<◌, ◌≡◌, refl, Bool, true, false, ◌∷◌, Option, none, some, ltb, ◌==◌, arith, Bool-cases,
  Option-cases, inl, inr,
}
use yomitan_audio_fast.Prelude.Text.{Text, text_eq_iff}
use yomitan_audio_fast.Dict
use yomitan_audio_fast.Dict.{Dict}
use yomitan_audio_fast.Dict.Laws.{get-set, All-set}
use yomitan_audio_fast.Store.Leases.{
  Packs, is_pack, lease, open_historical, is_current, acquire, retire, reload, lease_pair,
}
use yomitan_audio_fast.Store.Leases.Sound.{
  IsSound, lease-IsSound, close_pack-IsSound, All-weaken, All-weaken_values,
}

module _ (version : ℕ → Text) where
  set_historical-IsSound :
      (s : Packs) (pack : ℕ)
      → IsSound version none s
      → s.is_closed pack ≡ false
      → pack < s.opened
      → IsSound version none (record s { historical = Dict.set (version pack) pack s.historical })
  set_historical-IsSound s pack h c o = record {
    leased = h.leased;
    current = h.current;
    historical = λ v p e. ground (
      arith,
      get-set (version pack) v pack s.historical,
      text_eq_iff (version pack) v,
      h.historical v p,
    );
    numbered = All-set (λ p. p < s.opened) (version pack) pack s.historical h.numbered o;
    retired = h.retired;
    unopened = h.unopened;
    accounted = h.accounted;
    stopped = h.stopped;
  }

  used-IsSound :
      (s : Packs) (pack : ℕ)
      → IsSound version (some pack) s
      → 0 < s.leases pack
      → IsSound version none s
  used-IsSound s pack h l = record {
    leased = h.leased;
    current = h.current;
    historical = h.historical;
    numbered = h.numbered;
    retired = h.retired;
    unopened = h.unopened;
    accounted = λ p k. ground (arith, h.accounted p k);
    stopped = h.stopped;
  }

  add_retired-IsSound :
      (s : Packs) (pack : ℕ)
      → IsSound version none s
      → pack < s.opened
      → IsSound version none (record s { retired = pack ∷ s.retired })
  add_retired-IsSound s pack h o = record {
    leased = h.leased;
    current = h.current;
    historical = h.historical;
    numbered = h.numbered;
    retired = (o, h.retired);
    unopened = h.unopened;
    accounted = h.accounted;
    stopped = h.stopped;
  }

  retire-IsSound :
      (s : Packs) (pack : ℕ)
      → IsSound version (some pack) s
      → s.is_closed pack ≡ false
      → pack < s.opened
      → is_pack s.current pack ≡ false
      → IsSound version none (retire version (some pack) s)
  unfolding retire
  retire-IsSound s pack h c o other = elim (Bool-cases (ltb 0 (s.leases pack))) [
    | inl e ↦
        let k = used-IsSound s pack h (ground arith) in
        elim (Option-cases (Dict.get (version pack) s.historical)) [
          | inl g ↦ rw (e, g) (set_historical-IsSound s pack k c o)
          | inr (existing, g) ↦ elim (Bool-cases (existing == pack)) [
            | inl f ↦ rw (e, g, f) k
            | inr f ↦ rw (e, g, f) (add_retired-IsSound s pack k o)
          ]
        ]
    | inr e ↦ rw e (
        close_pack-IsSound version (some pack) s pack s.leases h o other (λ p. ground arith)
          (inr refl))
  ]

  retire_previous-IsSound :
      (previous : Option ℕ) (s : Packs)
      → IsSound version previous s
      → ((pack : ℕ)
          → previous ≡ some pack
          → (s.is_closed pack ≡ false) × (pack < s.opened) × (is_pack s.current pack ≡ false))
      → IsSound version none (retire version previous s)
  unfolding retire
  retire_previous-IsSound none s h k = h
  retire_previous-IsSound (some pack) s h k =
      let (c, o, other) = k pack refl in retire-IsSound s pack h c o other

  -- the next pack, opened and not yet used
  open_next-IsSound :
      (s : Packs)
      → IsSound version none s
      → s.store_closed ≡ false
      → IsSound version s.current (record s { current = some s.opened; opened = suc s.opened })
  open_next-IsSound s h o = record {
    leased = h.leased;
    current = λ p e. ground (arith, h.unopened p);
    historical = λ v p e. ground (arith, h.historical v p e);
    numbered = All-weaken_values s.opened s.historical h.numbered;
    retired = All-weaken s.opened s.retired h.retired;
    unopened = λ p l. ground (arith, h.unopened p);
    accounted = λ p l. ground (arith, h.accounted p);
    stopped = λ e. ground arith;
  }

  drop_current-IsSound :
      (s : Packs) → IsSound version none s → IsSound version s.current (record s { current = none })
  drop_current-IsSound s h = record {
    leased = h.leased;
    current = λ p e. ground arith;
    historical = h.historical;
    numbered = h.numbered;
    retired = h.retired;
    unopened = h.unopened;
    accounted = λ p l. ground (arith, h.accounted p l);
    stopped = λ e. refl;
  }

  pub reload-IsSound :
      (found : Bool) (s : Packs)
      → IsSound version none s
      → s.store_closed ≡ false
      → IsSound version none (reload version found s)
  unfolding reload
  reload-IsSound true s h o =
      retire_previous-IsSound s.current
        (record s { current = some s.opened; opened = suc s.opened }) (open_next-IsSound s h o)
        (λ pack e. ground (arith, h.current pack e))
  reload-IsSound false s h o =
      retire_previous-IsSound s.current (record s { current = none }) (drop_current-IsSound s h)
        (λ pack e. ground (arith, h.current pack e))

  lease_option-IsSound :
      (pack : Option ℕ) (s : Packs)
      → IsSound version none s
      → ((p : ℕ) → pack ≡ some p → (s.is_closed p ≡ false) × (p < s.opened))
      → IsSound version none (lease version pack s).1
  unfolding lease
  lease_option-IsSound none s h k = h
  lease_option-IsSound (some pack) s h k =
      let (c, o) = k pack refl in lease-IsSound version none s pack h c o (inl refl)

  open_version-IsSound :
      (v : Text) (s : Packs)
      → IsSound version none s
      → version s.opened ≡ v
      → IsSound version
          (some s.opened)
          (record s { historical = Dict.set v s.opened s.historical; opened = suc s.opened })
  open_version-IsSound v s h own = record {
    leased = h.leased;
    current = λ p e. ground (arith, h.current p e);
    historical = λ w p e. ground (
      arith,
      get-set v w s.opened s.historical,
      text_eq_iff v w,
      h.historical w p,
      h.unopened p,
      own,
    );
    numbered =
        All-set (λ p. p < suc s.opened) v s.opened s.historical
          (All-weaken_values s.opened s.historical h.numbered) (omega arith);
    retired = All-weaken s.opened s.retired h.retired;
    unopened = λ p l. ground (arith, h.unopened p);
    accounted = λ p l. ground (arith, h.accounted p);
    stopped = h.stopped;
  }

  open_historical-IsSound :
      (v : Text) (found : Bool) (s : Packs)
      → IsSound version none s
      → (found ≡ true → version s.opened ≡ v)
      → IsSound version none (lease_pair version (open_historical version v found none s)).1
  open_historical-IsSound v false s h own = lease_option-IsSound none s h (λ p e. ground arith)
  open_historical-IsSound v true s h own =
      lease-IsSound version (some s.opened)
        (record s { historical = Dict.set v s.opened s.historical; opened = suc s.opened }) s.opened
        (open_version-IsSound v s h (own refl)) ((h.unopened s.opened (omega arith)).1)
        (omega arith) (inr refl)

  pub acquire-IsSound :
      (wanted : Option Text) (found : Bool) (s : Packs)
      → IsSound version none s
      → ((v : Text) → wanted ≡ some v → found ≡ true → version s.opened ≡ v)
      → IsSound version none (acquire version wanted found s).1
  unfolding acquire
  acquire-IsSound none found s h own = lease_option-IsSound s.current s h h.current
  acquire-IsSound (some v) found s h own = elim (Bool-cases (is_current version v s.current)) [
    | inl e ↦ rw e (lease_option-IsSound s.current s h h.current)
    | inr e ↦ elim (Option-cases (Dict.get v s.historical)) [
      | inl g ↦ rw (e, g) (open_historical-IsSound v found s h (own v refl))
      | inr (pack, g) ↦
          rw (e, g)
            (lease_option-IsSound (some pack) s h (λ p f. ground (arith, h.historical v pack g)))
    ]
  ]
