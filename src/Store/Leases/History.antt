-- ===== src/Store/Leases/History.antt =====
-- The packs of a store in any order of leases, releases, reloads and the closing.
use yomitan_audio_fast.Prelude.{
  ℕ, ◌<◌, ◌≡◌, ◌⊎◌, refl, All, Bool, true, false, List, [], ◌∷◌, ◌++◌, Option, none, some, ltb,
  arith, map, if◌then◌else◌, Bool-cases, inl, inr,
}
use yomitan_audio_fast.Prelude.Text.{Text}
use yomitan_audio_fast.Dict
use yomitan_audio_fast.Store.Leases.{
  Packs, init, acquire, release, reload, settle, with_current, close, close_pack,
}
use yomitan_audio_fast.Store.Leases.Sound.{IsSound, init-IsSound, release-IsSound, All-values}
use yomitan_audio_fast.Store.Leases.Operations.{acquire-IsSound, reload-IsSound}

module _ (version : ℕ → Text) where
  -- A step of the store on its packs. A closed store refuses leases and reloads, only a pack that is
  -- leased is released, and `open_version` opens a pack of the version asked for.
  pub data Step : Packs → Packs → Type 0 where
    acquired :
        (wanted : Option Text) (found : Bool) (s : Packs)
        → s.store_closed ≡ false
        → ((v : Text) → wanted ≡ some v → found ≡ true → version s.opened ≡ v)
        → Step s (acquire version wanted found s).1
    released : (pack : ℕ) (s : Packs) → 0 < s.leases pack → Step s (release version pack s)
    reloaded : (found : Bool) (s : Packs) → s.store_closed ≡ false → Step s (reload version found s)
    store_closed : (s : Packs) → Step s (close s)

  pub data Steps : Packs → Packs → Type 0 where
    stop : (s : Packs) → Steps s s
    more : {s t u : Packs} → Step s t → Steps t u → Steps s u

  -- the store as `close` leaves it before its packs are settled
  abbrev emptied : Packs → Packs
  emptied s = record s { current = none; historical = []; retired = []; store_closed = true }

  emptied-IsSound : (s : Packs) → IsSound version none s → IsSound version s.current (emptied s)
  unfolding Dict.get
  emptied-IsSound s h = record {
    leased = h.leased;
    current = λ p e. ground arith;
    historical = λ v p e. ground arith;
    numbered = tt;
    retired = tt;
    unopened = h.unopened;
    accounted = λ p l. ground (arith, h.accounted p l);
    stopped = λ e. refl;
  }

  record IsEmptied (s : Packs) : Type 0 where
    current : s.current ≡ none
    historical : s.historical ≡ []

  keep_one-IsSound :
      (but : Option ℕ) (s : Packs) (pack : ℕ)
      → IsSound version but s
      → pack < s.opened
      → 0 < s.leases pack
      → (but ≡ none) ⊎ (but ≡ some pack)
      → IsSound version none (record s { retired = pack ∷ s.retired })
  keep_one-IsSound but s pack h o l b = record {
    leased = h.leased;
    current = h.current;
    historical = h.historical;
    numbered = h.numbered;
    retired = (o, h.retired);
    unopened = h.unopened;
    accounted = λ p k. ground (arith, h.accounted p k, b);
    stopped = h.stopped;
  }

  close_one-IsSound :
      (but : Option ℕ) (s : Packs) (pack : ℕ)
      → IsSound version but s
      → IsEmptied s
      → pack < s.opened
      → (0 < s.leases pack → ⊥)
      → (but ≡ none) ⊎ (but ≡ some pack)
      → IsSound version none (close_pack pack s)
  unfolding Dict.get
  close_one-IsSound but s pack h k o l b = record {
    leased = λ p m. ground (arith, h.leased p m);
    current = λ p e. ground (arith, k.current);
    historical = λ v p e. ground (arith, k.historical);
    numbered = h.numbered;
    retired = h.retired;
    unopened = λ p m. ground (arith, h.unopened p m);
    accounted = λ p m. ground (arith, h.accounted p m, b);
    stopped = h.stopped;
  }

  settle_one-IsSound :
      (but : Option ℕ) (s : Packs) (pack : ℕ)
      → IsSound version but s
      → IsEmptied s
      → pack < s.opened
      → (but ≡ none) ⊎ (but ≡ some pack)
      → let t : Packs =
          if ltb 0 (s.leases pack)
          then record s { retired = pack ∷ s.retired }
          else close_pack pack s in
        IsSound version none t × IsEmptied t × (t.opened ≡ s.opened)
  settle_one-IsSound but s pack h k o b = elim (Bool-cases (ltb 0 (s.leases pack))) [
    | inl e ↦ rw e (
      keep_one-IsSound but s pack h o (ground arith) b,
      record { current = k.current; historical = k.historical },
      refl,
    )
    | inr e ↦ rw e (
      close_one-IsSound but s pack h k o (ground arith) b,
      record { current = k.current; historical = k.historical },
      refl,
    )
  ]

  settle-IsSound :
      (packs : List ℕ) (s : Packs)
      → IsSound version none s
      → IsEmptied s
      → All (λ p. p < s.opened) packs
      → IsSound version none (settle packs s)
  unfolding settle
  settle-IsSound [] s h k o = h
  settle-IsSound (pack ∷ packs) s h k o =
      let (h', k', same) = settle_one-IsSound none s pack h k o.0 (inl refl) in
      settle-IsSound packs _ h' k' (rw same o.1)

  settle_current-IsSound :
      (previous : Option ℕ) (packs : List ℕ) (s : Packs)
      → IsSound version previous s
      → IsEmptied s
      → ((p : ℕ) → previous ≡ some p → p < s.opened)
      → All (λ p. p < s.opened) packs
      → IsSound version none (settle (with_current previous packs) s)
  unfolding settle
  settle_current-IsSound none packs s h k o all = settle-IsSound packs s h k all
  settle_current-IsSound (some pack) packs s h k o all =
      let (h', k', same) = settle_one-IsSound (some pack) s pack h k (o pack refl) (inr refl) in
      settle-IsSound packs _ h' k' (rw same all)

  either-IsSound :
      (b : Bool) (s t : Packs)
      → IsSound version none s
      → IsSound version none t
      → IsSound version none (if b then s else t)
  either-IsSound true s t h k = h
  either-IsSound false s t h k = k

  close-IsSound : (s : Packs) → IsSound version none s → IsSound version none (close s)
  unfolding close
  close-IsSound s h = either-IsSound s.store_closed s _ h (
      settle_current-IsSound s.current (map (λ e. e.1) s.historical ++ s.retired) (emptied s)
        (emptied-IsSound s h) (record { current = refl; historical = refl })
        (λ p f. (h.current p f).1)
        (All-values s.opened s.historical s.retired h.numbered h.retired))

  Step-IsSound : {s t : Packs} → Step s t → IsSound version none s → IsSound version none t
  Step-IsSound (acquired wanted found s o own) h = acquire-IsSound version wanted found s h own
  Step-IsSound (released pack s l) h = release-IsSound version s pack h l
  Step-IsSound (reloaded found s o) h = reload-IsSound version found s h o
  Step-IsSound (store_closed s) h = close-IsSound s h

  Steps-IsSound : {s t : Packs} → Steps s t → IsSound version none s → IsSound version none t
  Steps-IsSound (stop s) h = h
  Steps-IsSound (more step rest) h = Steps-IsSound rest (Step-IsSound step h)

  -- In every state that a new store reaches by leases, releases, reloads and closing, in any order, no
  -- pack that is leased is closed, and the current pack, if there is one, is not closed.
  pub Steps-open :
      {s : Packs} (pack : ℕ)
      → Steps init s
      → (0 < s.leases pack) ⊎ (s.current ≡ some pack)
      → s.is_closed pack ≡ false
  Steps-open {s} pack steps used =
      let h = Steps-IsSound steps (init-IsSound version) in
      elim used [ inl l ↦ h.leased pack l | inr e ↦ (h.current pack e).0 ]

  -- In every state that a new store reaches by leases, releases, reloads and closing, in any order, each
  -- pack that was opened and is not leased is closed, or it is the current one and the store is open.
  pub Steps-unused :
      {s : Packs} (pack : ℕ)
      → Steps init s
      → pack < s.opened
      → s.leases pack ≡ 0
      → (s.is_closed pack ≡ true) ⊎ ((s.current ≡ some pack) × (s.store_closed ≡ false))
  Steps-unused {s} pack steps o l =
      let h = Steps-IsSound steps (init-IsSound version) in
      ground (arith, h.accounted pack o, h.stopped)
