-- ===== src/Store/Leases.antt =====
-- The life of the packs of a `LookupStore` (anki-addon/fast_store.py: `_leased_pack_snapshot`,
-- `_acquire_pack_snapshot_locked`, `_retire_pack_locked`, and the parts of `_reload_pack_unleased` and
-- `close` on packs). The objects that `AudioPack` opens are numbered in the order of their opening, and
-- `version` gives the version of each.
pub mod Sound
pub mod Operations
pub mod History
use yomitan_audio_fast.Prelude.{
  ℕ, suc, ◌+◌, ◌-◌, ◌<◌, ◌≡◌, Bool, true, false, List, [], ◌∷◌, ◌++◌, Option, none, some, ltb, ◌==◌,
  map, if◌then◌else◌, not, filter,
}
use yomitan_audio_fast.Prelude.Text.{Text, text_eq}
use yomitan_audio_fast.Dict
use yomitan_audio_fast.Dict.{Dict}

-- `_pack_leases.get(pack, 0)` is `leases pack`; `is_closed pack` holds once `pack.close()` ran.
pub record Packs : Type 0 where
  pub current : Option ℕ
  pub historical : Dict ℕ
  pub retired : List ℕ
  pub leases : ℕ → ℕ
  pub is_closed : ℕ → Bool
  pub opened : ℕ
  pub store_closed : Bool

abbrev pub update {ℓ} : {A : Type ℓ} → (ℕ → A) → ℕ → A → ℕ → A
update f pack a other = if other == pack then a else f other

abbrev pub discard : ℕ → List ℕ → List ℕ
discard pack = filter (λ p. not (p == pack))

-- `_close_pack_safely`
abbrev pub close_pack : ℕ → Packs → Packs
close_pack pack s = record s { is_closed = update s.is_closed pack true }

-- some b: the option holds this object
abbrev pub is_pack : Option ℕ → ℕ → Bool
is_pack none pack = false
is_pack (some p) pack = p == pack

abbrev pub init : Packs
init = record {
  current = none;
  historical = [];
  retired = [];
  leases = λ pack. 0;
  is_closed = λ pack. false;
  opened = 0;
  store_closed = false;
}

module _ (version : ℕ → Text) where
  -- if self._historical_packs.get(pack.version) is pack: self._historical_packs.pop(pack.version, None)
  unfoldable pub forget_historical : ℕ → Dict ℕ → Dict ℕ
  forget_historical pack historical =
      if is_pack (Dict.get (version pack) historical) pack
      then Dict.pop (version pack) historical
      else historical

  -- count a lease
  unfoldable pub lease : Option ℕ → Packs → Option ℕ × Packs
  lease none s = (none, s)
  lease (some pack) s = (some pack, record s { leases = update s.leases pack (s.leases pack + 1) })

  -- `AudioPack.open_version` found the version, or did not.
  abbrev pub open_historical : Text → Bool → Option ℕ → Packs → Option ℕ × Packs
  open_historical v found (some pack) s = (some pack, s)
  open_historical v false none s = (none, s)
  open_historical v true none s = (
    some s.opened,
    record s { historical = Dict.set v s.opened s.historical; opened = suc s.opened },
  )

  abbrev pub is_current : Text → Option ℕ → Bool
  is_current v none = false
  is_current v (some pack) = text_eq (version pack) v

  abbrev pub lease_pair : Option ℕ × Packs → Option ℕ × Packs
  lease_pair (pack, s) = lease pack s

  -- `_acquire_pack_snapshot_locked`
  unfoldable pub acquire : Option Text → Bool → Packs → Option ℕ × Packs
  acquire none found s = lease s.current s
  acquire (some v) found s =
      if is_current v s.current
      then lease s.current s
      else lease_pair (open_historical v found (Dict.get v s.historical) s)

  -- the end of `_leased_pack_snapshot`
  unfoldable pub release : ℕ → Packs → Packs
  release pack s =
      let remaining = s.leases pack - 1 in
      if ltb 0 remaining
      then record s { leases = update s.leases pack remaining }
      else if is_pack s.current pack
      then record s { leases = update s.leases pack 0 }
      else close_pack pack (record s {
        leases = update s.leases pack 0;
        historical = forget_historical pack s.historical;
        retired = discard pack s.retired;
      })

  -- `_retire_pack_locked`, and the closing of what it returns
  abbrev pub retire_leased : ℕ → Option ℕ → Packs → Packs
  retire_leased pack none s = record s { historical = Dict.set (version pack) pack s.historical }
  retire_leased pack (some existing) s =
      if existing == pack then s else record s { retired = pack ∷ s.retired }

  unfoldable pub retire : Option ℕ → Packs → Packs
  retire none s = s
  retire (some pack) s =
      if ltb 0 (s.leases pack)
      then retire_leased pack (Dict.get (version pack) s.historical) s
      else close_pack pack (record s {
        historical = forget_historical pack s.historical;
        retired = discard pack s.retired;
      })

  -- `_reload_pack_unleased`, which opens the active pack or finds none
  unfoldable pub reload : Bool → Packs → Packs
  reload true s = retire s.current (record s { current = some s.opened; opened = suc s.opened })
  reload false s = retire s.current (record s { current = none })

-- if self._pack_leases.get(pack, 0): self._retired_packs.add(pack) else: close_packs.append(pack)
unfoldable pub settle : List ℕ → Packs → Packs
settle [] s = s
settle (pack ∷ packs) s =
    settle packs
      (if ltb 0 (s.leases pack) then record s { retired = pack ∷ s.retired } else close_pack pack s)

abbrev pub with_current : Option ℕ → List ℕ → List ℕ
with_current none packs = packs
with_current (some pack) packs = pack ∷ packs

-- `close`
unfoldable pub close : Packs → Packs
close s =
    if s.store_closed
    then s
    else settle (with_current s.current (map (λ e. e.1) s.historical ++ s.retired))
        (record s { current = none; historical = []; retired = []; store_closed = true })
