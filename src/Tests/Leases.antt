-- ===== src/Tests/Leases.antt =====
-- The gate with a waiting change, and a pack that is replaced while it is leased.
use yomitan_audio_fast.Prelude.{ℕ, ◌<◌, ◌≡◌, ◌⊎◌, inl, refl, true, false, none, some, arith}
use yomitan_audio_fast.Prelude.Text.{Text, codes}
use yomitan_audio_fast.Dict
use yomitan_audio_fast.Store.Gate.{
  Gate, Transition, Step, Steps, open_gate, state_readers, enter, enter_first, begin, leave,
  drained,
}
use yomitan_audio_fast.Store.Gate
use yomitan_audio_fast.Store.Gate.Exclusion.{Steps-IsExclusive}
use yomitan_audio_fast.Store.Gate.Deadlock.{
  waiting_change, alone, Draining, waiting_change-drains, waiting_change-deadlock,
}
use yomitan_audio_fast.Store.Leases
use yomitan_audio_fast.Store.Leases.{
  Packs, acquire, lease, release, reload, retire, forget_historical, close,
}
use yomitan_audio_fast.Store.Leases.History.{
  Steps-open, Steps-unused, acquired, released, reloaded, stop, more,
}
use yomitan_audio_fast.Store.Leases.History

-- A new store comes to a change that waits while `lookup_first` is before the pack.
reach_deadlock : Steps open_gate (waiting_change 0 1 false)
reach_deadlock =
    Gate.more (enter_first 0 0) (Gate.more (begin 0 1) (Gate.stop (waiting_change 0 1 false)))

waiting_change-deadlock_example :
    ((waiting_change 0 1 false).transition ≡ Transition.draining)
    × ((waiting_change 0 1 false).before_pack ≡ 1)
    × ((waiting_change 0 1 false).closed ≡ false)
waiting_change-deadlock_example =
    waiting_change-deadlock 1 1 (waiting_change 0 1 false) (omega arith)
      (Gate.more (leave Transition.draining 0 1 false) (Gate.stop (waiting_change 0 1 false)))

waiting_change-drains_example :
    Steps (waiting_change 2 0 false) (alone false)
    × ((h : Gate) → Step (waiting_change 2 0 false) h → Draining 2 false h)
waiting_change-drains_example = waiting_change-drains 2 false

Steps-IsExclusive_example : state_readers (alone false) ≡ 0
Steps-IsExclusive_example =
    Steps-IsExclusive {g = alone false}
      (Gate.more (enter 0 0) (
        Gate.more (begin 1 0) (
          Gate.more (leave Transition.draining 0 0 false)
            (Gate.more (drained false) (Gate.stop (alone false))))))
      refl

abbrev version : ℕ → Text
version pack = codes "0123456789abcdef"

abbrev loaded : Packs
loaded = reload version true Leases.init

abbrev held : Packs
held = (acquire version none false loaded).1

abbrev replaced : Packs
replaced = reload version true held

abbrev freed : Packs
freed = release version 0 replaced

steps : Unit {0}
unfolding acquire lease release reload retire forget_historical Dict.get
steps = tt

loaded_open : loaded.store_closed ≡ false
unfolding steps
loaded_open = refl

held_open : held.store_closed ≡ false
unfolding steps
held_open = refl

replaced_leases : 0 < replaced.leases 0
unfolding steps
replaced_leases = omega arith

reach_replaced : History.Steps version Leases.init replaced
reach_replaced = more (reloaded true Leases.init refl) (
    more (acquired none false loaded loaded_open (λ v e. ground arith))
      (more (reloaded true held held_open) (stop replaced)))

Steps-open_example : replaced.is_closed 0 ≡ false
Steps-open_example = Steps-open version 0 reach_replaced (inl replaced_leases)

reach_freed : History.Steps version Leases.init freed
reach_freed = more (reloaded true Leases.init refl) (
    more (acquired none false loaded loaded_open (λ v e. ground arith)) (
      more (reloaded true held held_open)
        (more (released 0 replaced replaced_leases) (stop freed))))

freed_opened : 0 < freed.opened
unfolding steps
freed_opened = omega arith

freed_leases : freed.leases 0 ≡ 0
unfolding steps
freed_leases = refl

Steps-unused_example :
    (freed.is_closed 0 ≡ true) ⊎ ((freed.current ≡ some 0) × (freed.store_closed ≡ false))
Steps-unused_example = Steps-unused version 0 reach_freed freed_opened freed_leases
